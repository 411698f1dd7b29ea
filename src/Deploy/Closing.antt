-- ===== src/Deploy/Closing.antt =====
-- What a deployment leaves behind: its record is closed and its cancel signal is gone.
use devops_cd.Prelude.{
  ℕ, ◌<◌, String, Bool, true, false, ◌&&◌, Option, none, some, List, ◌≡◌, ◌≢◌, refl, sym, arith,
  ◌==◌, any, any-update, inl, inr, Bool-cases, length, count, find_last, if◌then◌else◌,
}
use mathlib.Core.Path.{subst}
use devops_cd.Result.{Result, ok, err, Error, value_error, OnOk}
use devops_cd.State.{LogStatus, DeployLog, Params, State, User, Settings}
use devops_cd.DeployRun.Signals
use devops_cd.DeployRun.Status.{normalize_deploy_status}
use devops_cd.DeployRun.Records.{
  is_running, Finish, finish_deploy_record, finishes, finish_row, claim_found,
  claim_pending_deploy_record, start_deploy_record, pending_of, NewRecord, holds,
}
use devops_cd.Deploy.Report.{overall, ServerResult, is_ok}
use devops_cd.Deploy.Plan.{
  Site, Plan, prepare, open_as, open_record, as_busy, start_if_none, new_record,
}
use devops_cd.Deploy.Loop.{Progress, Ending, deploy_each}
use devops_cd.Deploy.Service.{Executed, conclude, notify_finished, run_opened, run_plan, execute}

-- A running record with the id.
abbrev pub runs_as : ℕ → DeployLog → Bool
runs_as d r = r.id == d && is_running r.status

-- A status text that finishes a record.
abbrev pub Stops : String → Type 0
Stops text = is_running (normalize_deploy_status text) ≡ false

Stops-if : (b : Bool) (x y : String) → Stops x → Stops y → Stops (if b then x else y)
Stops-if true x y h k = h
Stops-if false x y h k = k

-- No overall status is a running one.
pub overall-Stops : (results : List ServerResult) → Stops (overall results)
unfolding overall normalize_deploy_status
overall-Stops results =
    Stops-if (count is_ok results == length results) "ok"
      (if count is_ok results == 0 then "failed" else "partial") refl
      (Stops-if (count is_ok results == 0) "failed" "partial" refl refl)

pub terminated-Stops : Stops "terminated"
unfolding normalize_deploy_status
terminated-Stops = refl

pub failed-Stops : Stops "failed"
unfolding normalize_deploy_status
failed-Stops = refl

module _ (c : Settings) (d : ℕ) (f : Finish) where
  other_rests :
      (st : LogStatus) (x : DeployLog)
      → d ≢ 0
      → finishes st d f.project x ≡ false
      → runs_as d x ≡ false
  other_rests st x h k = ground arith

  done_rests : (x : DeployLog) → Stops f.status → runs_as d (finish_row c f x) ≡ false
  done_rests x k = rw k (ground arith)

  -- No record with the id runs after it was finished.
  pub finish-closed :
      (s : State)
      → d ≢ 0
      → Stops f.status
      → any (runs_as d) (finish_deploy_record c d f s).logs ≡ false
  unfolding finish_deploy_record
  finish-closed s h k =
      let st = normalize_deploy_status f.status in
      any-update (runs_as d) (finishes st d f.project) (finish_row c f) s.logs
        (λ x _. done_rests x k) (λ x e. other_rests st x h e)

logs-notify : (plan : Plan) (g : Progress) (s : State) → (notify_finished plan g s).logs ≡ s.logs
logs-notify plan g s = ground arith

conclude-closed :
    (site : Site) (plan : Plan) (d : ℕ) (g : Progress) (e : Ending) (s : State)
    → d ≢ 0
    → any (runs_as d) (conclude site plan d g e s).1.logs ≡ false
unfolding conclude
conclude-closed site plan d g Ending.done s h =
    rw logs-notify (finish-closed site.env.settings d _ s h (overall-Stops g.results))
conclude-closed site plan d g Ending.cancelled s h =
    finish-closed site.env.settings d _ s h terminated-Stops
conclude-closed site plan d g (Ending.raised e) s h =
    finish-closed site.env.settings d _ s h failed-Stops

pub signal_gone :
    (d : ℕ) (m : Signals.Events) → Signals.is_cancelled d (Signals.unregister d m) ≡ false
unfolding Signals.is_cancelled Signals.unregister
signal_gone d m = ground (arith, Signals.lookup-remove d d m)

-- Neither a running record with the id nor a cancel signal for it is left.
abbrev pub IsClosed : ℕ → State → Type 0
IsClosed d s = (any (runs_as d) s.logs ≡ false) × (Signals.is_cancelled d s.events ≡ false)

-- Once its record is open, a deployment ends with the record closed and the signal gone, whether
-- it succeeds, fails, is cancelled or raises.
pub opened-IsClosed :
    (site : Site) (plan : Plan) (d : ℕ) (s : State)
    → d ≢ 0
    → IsClosed d (run_opened site plan (ok d, s)).1
opened-IsClosed site plan d s h =
    let t = record s { events = Signals.register d s.events } in
    let (g, u) = deploy_each plan plan.targets t in
    (
      conclude-closed site plan d g g.ending u h,
      signal_gone d (conclude site plan d g g.ending u).1.events,
    )

conclude_id :
    (site : Site) (plan : Plan) (d : ℕ) (g : Progress) (e : Ending) (s : State)
    → OnOk (λ x. x.deploy_id ≡ d) (conclude site plan d g e s).0
unfolding conclude
conclude_id site plan d g Ending.done s = refl
conclude_id site plan d g Ending.cancelled s = refl
conclude_id site plan d g (Ending.raised e) s = tt

IsClosed-reply :
    (d : ℕ) (r : Result Executed) (s : State)
    → IsClosed d s
    → OnOk (λ x. x.deploy_id ≡ d) r
    → OnOk (λ x. IsClosed x.deploy_id s) r
IsClosed-reply d (ok x) s c e = subst (λ i. IsClosed i s) (sym e) c
IsClosed-reply d (err k) s c e = tt

-- The id of an opened record is not 0: ids start at 1.
claim_found-next :
    (n : String) (now : ℕ) (p : String) (o : Option DeployLog) (s : State)
    → (claim_found n now p o s).1.next_log ≡ s.next_log
claim_found-next n now p none s = refl
claim_found-next n now p (some row) s = ground arith

claim_pending-next :
    (n : String) (now : ℕ) (p : String) (a : ℕ) (s : State)
    → (claim_pending_deploy_record n now p a s).1.next_log ≡ s.next_log
unfolding claim_pending_deploy_record
claim_pending-next n now p a s = elim (Bool-cases (a == 0)) [
  | inl zero ↦ rw zero refl
  | inr ready ↦ rw ready (claim_found-next n now p (find_last (pending_of a) s.logs) s)
]

abbrev pub IsId : Result ℕ → Type 0
IsId r = OnOk (λ (d : ℕ). d ≢ 0) r

start-IsId :
    (n : String) (now : ℕ) (a : NewRecord) (s : State)
    → 0 < s.next_log
    → IsId (start_deploy_record n now a s).0
unfolding start_deploy_record
start-IsId n now a s h = elim (Bool-cases (any (holds a.project) s.logs)) [
  | inl busy ↦ rw busy tt
  | inr free ↦ rw free (λ e. absurd (omega arith))
]

start_if_none-IsId :
    (site : Site) (new : NewRecord) (r : Result ℕ × State)
    → 0 < r.1.next_log
    → IsId (start_if_none site new r).0
start_if_none-IsId site new (err e, s) h = tt
start_if_none-IsId site new (ok d, s) h = elim (Bool-cases (d == 0)) [
  | inl zero ↦ rw zero (start-IsId site.env.instance_id site.env.epoch new s h)
  | inr row ↦ rw row (λ e. absurd (ground arith))
]

as_busy-IsId : (r : Result ℕ × State) → IsId r.0 → IsId (as_busy r).0
as_busy-IsId (ok d, s) h = h
as_busy-IsId (err (value_error m), s) h = tt
as_busy-IsId (err (Error.app code key), s) h = tt
as_busy-IsId (err (Error.not_found key), s) h = tt
as_busy-IsId (err (Error.conflict key), s) h = tt
as_busy-IsId (err (Error.validation key), s) h = tt
as_busy-IsId (err (Error.http code), s) h = tt
as_busy-IsId (err (Error.unexpected m), s) h = tt

pub open_as-IsId :
    (site : Site) (project_key : String) (i : ℕ) (new : NewRecord) (s : State)
    → 0 < s.next_log
    → IsId (open_as site project_key i new s).0
unfolding open_as
open_as-IsId site project_key i new s h =
    let n = site.env.instance_id in
    let r = claim_pending_deploy_record n site.env.epoch project_key i s in
    as_busy-IsId (start_if_none site new r) (
      start_if_none-IsId site new r
        (omega (arith, claim_pending-next n site.env.epoch project_key i s)))

open_record-IsId :
    (site : Site) (plan : Plan) (s : State) → 0 < s.next_log → IsId (open_record site plan s).0
unfolding open_record
open_record-IsId site plan s h =
    open_as-IsId site plan.project_key plan.approval_id (new_record plan) s h

run_opened-IsClosed :
    (site : Site) (plan : Plan) (r : Result ℕ × State)
    → IsId r.0
    → OnOk (λ x. IsClosed x.deploy_id (run_opened site plan r).1) (run_opened site plan r).0
run_opened-IsClosed site plan (err e, s) h = tt
run_opened-IsClosed site plan (ok d, s) h =
    let t = record s { events = Signals.register d s.events } in
    let (g, u) = deploy_each plan plan.targets t in
    IsClosed-reply d (conclude site plan d g g.ending u).0 (run_opened site plan (ok d, s)).1
      (opened-IsClosed site plan d s h) (conclude_id site plan d g g.ending u)

run_plan-IsClosed :
    (site : Site) (r : Result Plan) (s : State)
    → 0 < s.next_log
    → OnOk (λ x. IsClosed x.deploy_id (run_plan site r s).1) (run_plan site r s).0
run_plan-IsClosed site (err e) s h = tt
run_plan-IsClosed site (ok plan) s h =
    run_opened-IsClosed site plan (open_record site plan s) (open_record-IsId site plan s h)

-- Where the next id of a record is above 0: when `execute` replies, be it a success, a failure or
-- a cancelled deployment, no running record has the id that the reply names, and no cancel signal
-- is set for it.
pub execute_closes :
    (site : Site) (p : Params) (user : Option User) (i : ℕ) (s : State)
    → 0 < s.next_log
    → OnOk (λ x. IsClosed x.deploy_id (execute site p user i s).1) (execute site p user i s).0
unfolding execute
execute_closes site p user i s h = run_plan-IsClosed site (prepare site p user i s) s h
