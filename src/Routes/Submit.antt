-- ===== src/Routes/Submit.antt =====
-- What the four deploying routes share: the checks, the gate, and what runs behind it.
use devops_cd.Prelude.{Bool, Option, none, some}
use devops_cd.Result.{Result, ok, err, Error}
use devops_cd.State.{State}
use devops_cd.Approval.Env.{Env}
use devops_cd.Approval.Gate.{Request, Ticket, gate_deploy}

-- The reply of a route: the approval that it waits for, what the deployment returned, or, in a
-- stream, an error event in front of the gate.
pub data Submitted (A : Type 0) : Type 0 where
  pending : Ticket → Submitted A
  executed : A → Submitted A
  refused : Error → Submitted A

-- The last event of a stream: END with the success, or ERROR with the text of an exception.
pub data Event : Type 0 where
  ended : Bool → Event
  failed : Error → Event

module _ {A : Type 0} where
  abbrev pub as_executed : Result A × State → Result (Submitted A) × State
  as_executed (ok a, s) = (ok (Submitted.executed a), s)
  as_executed (err e, s) = (err e, s)

  -- `if gate: return …`
  abbrev pub after_gate :
      (State → Result A × State) → Result (Option Ticket) × State → Result (Submitted A) × State
  after_gate run (err e, s) = (err e, s)
  after_gate run (ok (some ticket), s) = (ok (Submitted.pending ticket), s)
  after_gate run (ok none, s) = as_executed (run s)

  abbrev pub gated :
      Env
      → Request
      → (State → Result A × State)
      → Result (Unit {0})
      → State
      → Result (Submitted A) × State
  gated c q run (err e) s = (err e, s)
  gated c q run (ok _) s = after_gate run (gate_deploy c q s)
