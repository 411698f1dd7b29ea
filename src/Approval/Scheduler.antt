-- ===== src/Approval/Scheduler.antt =====
-- `run_due_scheduled`: the approvals that are due, one after another, each for its requester.
use devops_cd.Prelude.{
  ℕ, ◌+◌, String, Bool, true, false, not, ◌&&◌, some, List, [], ◌∷◌, ◌==◌, select, update,
  if◌then◌else◌,
}
use devops_cd.Text.{is_empty}
use devops_cd.Text.Order.{le_text}
use devops_cd.Result.{
  Result, ok, err, Error, app, not_found, conflict, validation, http, value_error, unexpected,
}
use devops_cd.State.{approved, deploying, Approval, State, User, RunStatus}
use devops_cd.DeployRun.Records.{reset_pending_deploy_record}
use devops_cd.Approval.Env.{Env}
use devops_cd.Approval.Perms.{is_approved}
use devops_cd.Approval.Machine.{transition}
use devops_cd.Approval.Execution.{claim_for_execution, run_approval, Executor, RunResult}

-- status='approved' AND scheduled_at != '' AND scheduled_at <= now
abbrev pub is_due : String → Approval → Bool
is_due now a = is_approved a.status && (not (is_empty a.scheduled_at) && le_text a.scheduled_at now)

insert_by_time : Approval → List Approval → List Approval
insert_by_time a [] = a ∷ []
insert_by_time a (b ∷ bs) =
    let rest = insert_by_time a bs in
    if le_text a.scheduled_at b.scheduled_at then a ∷ b ∷ bs else b ∷ rest

-- ORDER BY scheduled_at, equal times by id
unfoldable pub sort_by_time : List Approval → List Approval
unfolding insert_by_time
sort_by_time [] = []
sort_by_time (a ∷ rows) = insert_by_time a (sort_by_time rows)

-- {"username": requester}: no role and no permissions
abbrev pub requester_user : String → User
requester_user name = record { username = name; role = ""; permissions = [] }

-- UPDATE … SET scheduled_at='' WHERE id=? AND status='approved'
abbrev pub clear_schedule : Env → ℕ → State → State
clear_schedule c i s = record s {
  approvals =
      update (λ (a : Approval). a.id == i && is_approved a.status)
        (λ a. record a { scheduled_at = ""; updated_at = some c.now }) s.approvals;
}

abbrev pub give_back : Env → ℕ → State → State
give_back c i s =
    reset_pending_deploy_record i (transition c.now i (deploying ∷ []) approved (λ a. a) s).1

-- The handlers, in the order of the `except` clauses.
unfoldable pub handle : Env → ℕ → Error → State → State
handle c i (conflict key) s = s
handle c i (app code key) s = clear_schedule c i s
handle c i (not_found key) s = clear_schedule c i s
handle c i (validation key) s = clear_schedule c i s
handle c i (http code) s = give_back c i s
handle c i (value_error m) s = give_back c i s
handle c i (unexpected m) s = give_back c i s

abbrev pub is_ok : RunStatus → Bool
is_ok RunStatus.ok = true
is_ok _ = false

abbrev pub one_run : Env → ℕ → Result RunResult × State → Bool × State
one_run c i (err e, s) = (false, handle c i e s)
one_run c i (ok r, s) = (is_ok r.status, s)

abbrev pub one_claimed : Env → Executor → ℕ → Result (Approval × User) × State → Bool × State
one_claimed c execute i (err e, s) = (false, handle c i e s)
one_claimed c execute i (ok (a, u), s) = one_run c i (run_approval c execute i u s)

-- One round of the loop: whether it counts as executed, and the state after it.
unfoldable pub run_one : Env → Executor → ℕ → String → State → Bool × State
run_one c execute i requester s =
    one_claimed c execute i (claim_for_execution c i (requester_user requester) s)

unfoldable pub run_each : Env → Executor → List Approval → ℕ → State → ℕ × State
run_each c execute [] n s = (n, s)
run_each c execute (row ∷ rows) n s =
    let (done, t) = run_one c execute row.id row.requester s in
    run_each c execute rows (if done then n + 1 else n) t

unfoldable pub run_due_scheduled : Env → Executor → State → ℕ × State
run_due_scheduled c execute s =
    run_each c execute (sort_by_time (select (is_due c.now) s.approvals)) 0 s
