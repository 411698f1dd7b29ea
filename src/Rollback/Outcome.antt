-- ===== src/Rollback/Outcome.antt =====
-- A rollback passes the approval gate.
use devops_cd.Prelude.{String, true, Option, none, some, ◌≡◌, refl}
use devops_cd.Result.{Result, ok, err}
use devops_cd.State.{State, User, Rule}
use devops_cd.Approval.Env.{Env}
use devops_cd.Approval.Rules.{approval_required}
use devops_cd.Approval.Schedule.{parse_scheduled_at}
use devops_cd.Approval.Gate.{gate_deploy, Ticket, status_for}
use devops_cd.Approval.Keys.{IsKeyed}
use devops_cd.Approval.Submitting.{Gated, IsWaiting, gate_deploy-Gated}
use devops_cd.Rollback.{
  RollbackRequest, Draft, Prepared, draft, gated, gate_draft, gate_request, prepare_rollback,
}

-- What the answer and the state after `prepare_rollback` are.
abbrev pub RollsBack :
    RollbackRequest → User → Result Draft → State → Result Prepared × State → Type 0
RollsBack q u r s (err e, t) = t ≡ s
RollsBack q u r s (ok (Prepared.ready p i), t) =
    (t ≡ s) × (approval_required q.project p.server_ids true s ≡ ok none)
RollsBack q u r s (ok (Prepared.waiting a i), t) =
    (d : Draft) × (r ≡ ok d)
    × (at : String) × (matched : Option Rule) × (ticket : Ticket) × (d.source.id ≡ i)
    × (ticket.approval_id ≡ a)
    × (approval_required q.project d.params.server_ids true s ≡ ok matched)
    × IsWaiting (gate_request q u d) (status_for matched) at ticket t

gated-RollsBack :
    (q : RollbackRequest) (u : User) (d : Draft) (s : State) (r : Result (Option Ticket) × State)
    → Gated
        (gate_request q u d)
        (parse_scheduled_at "")
        (approval_required q.project d.params.server_ids true s)
        s
        r
    → RollsBack q u (ok d) s (gated d r)
gated-RollsBack q u d s (err e, t) h = h
gated-RollsBack q u d s (ok none, t) (same, time, rule) = (same, rule)
gated-RollsBack q u d s (ok (some ticket), t) (at, matched, time, rule, waits) =
    (d, refl, at, matched, ticket, refl, refl, rule, waits)

gate_draft-RollsBack :
    (c : Env) (q : RollbackRequest) (u : User) (r : Result Draft) (s : State)
    → IsKeyed s
    → RollsBack q u r s (gate_draft c q u r s)
gate_draft-RollsBack c q u (err e) s k = refl
gate_draft-RollsBack c q u (ok d) s k =
    gated-RollsBack q u d s (gate_deploy c (gate_request q u d) s)
      (gate_deploy-Gated c (gate_request q u d) s k)

-- A rollback that is refused changes nothing. One that may run at once changes nothing either, and
-- no rule needs an approval for its servers. Any other one waits under an approval with its
-- parameters and requester, and a pending record.
pub prepare_rollback-RollsBack :
    (c : Env) (q : RollbackRequest) (u : User) (s : State)
    → IsKeyed s
    → RollsBack q u (draft q s) s (prepare_rollback c q u s)
unfolding prepare_rollback
prepare_rollback-RollsBack c q u s k = gate_draft-RollsBack c q u (draft q s) s k
