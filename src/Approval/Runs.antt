-- ===== src/Approval/Runs.antt =====
-- Submission, execution, recovery and the scheduler move approvals along the edges too.
use devops_cd.Prelude.{
  ℕ, String, Bool, true, false, Option, none, some, List, [], ◌∷◌, ◌≡◌, refl, arith, ◌+◌, inl, inr,
  Bool-cases, if◌then◌else◌,
}
use devops_cd.Result.{
  Result, ok, err, Error, app, not_found, conflict, validation, http, value_error, unexpected,
}
use devops_cd.State.{
  ApprovalStatus, approved, deploying, deployed, failed, cancelled, LogStatus, Params, Approval,
  Rule, State, User, RunStatus, same_status,
}
use devops_cd.DeployRun.Frame.{Kept, reset-Kept}
use devops_cd.DeployRun.Records.{
  create_pending_deploy_record, recover_stale_running, reset_pending_deploy_record,
}
use devops_cd.Approval.Env.{Env}
use devops_cd.Approval.Perms.{is_owner, is_approved, same_person}
use devops_cd.Text.{strip}
use devops_cd.Approval.Machine.{create_approval, transition}
use devops_cd.Approval.Gate.{
  gate_create, gate_rule, gate_envs, gate_reply, gate_scheduled, gate_deploy, Request,
}
use devops_cd.Approval.Execution.{
  claim_done, claim_checked, claim_found, claim_for_execution, set_deploy_id, settle, RunResult,
  Executor, run_done, run_params, run_found, run_approval, converge, back_to_approved,
  recover_on_startup, is_log_ok, is_log_failed, converges, abandoned,
}
use devops_cd.Approval.Scheduler.{
  handle, clear_schedule, give_back, one_run, one_claimed, run_one, run_each, run_due_scheduled,
  requester_user,
}
use devops_cd.Routes.Execute.{fail_execution}
use devops_cd.Approval.Evolution.{
  Edge, Reaches, Follows-move_row, Evolves-append, Evolves-update, All-of, same_status-eq,
}
use devops_cd.Approval.Moves.{
  Later, Later-trans, transition-Later, from_one, Follows-plain, Follows-deploy_id,
  approvals-notify, next-notify, Later-refl, Later-same,
}

-- ── submission ──

gate_reply-Later :
    (rule : Option Rule) (q : Request) (sched : String) (i : ℕ) (s t : State)
    → Later s t
    → Later s (gate_reply rule q sched i t).1
gate_reply-Later none q sched i s t h = h
gate_reply-Later (some rule) q sched i s t h = rw (approvals-notify, next-notify) h

-- A new approval has no approver.
empty_approver : (requester : String) → same_person requester "" ≡ false
unfolding same_person strip
empty_approver requester = ground arith

gate_create-Later :
    (c : Env) (q : Request) (sched : String) (rule : Option Rule) (envs : List String) (s : State)
    → Later s (gate_create c q sched rule envs s).1
unfolding create_approval create_pending_deploy_record
gate_create-Later c q sched rule envs s =
    gate_reply-Later rule q sched _ s _
      (Evolves-append s.next_approval s.approvals _ refl (empty_approver q.requester))

gate_envs-Later :
    (c : Env) (q : Request) (sched : String) (rule : Option Rule) (r : Result (List String))
    (s : State)
    → Later s (gate_envs c q sched rule r s).1
gate_envs-Later c q sched rule (err e) s = Later-refl s
gate_envs-Later c q sched rule (ok envs) s = gate_create-Later c q sched rule envs s

gate_rule-Later :
    (c : Env) (q : Request) (sched : String) (r : Result (Option Rule)) (s : State)
    → Later s (gate_rule c q sched r s).1
gate_rule-Later c q sched (err e) s = Later-refl s
gate_rule-Later c q String.[] (ok none) s = Later-refl s
gate_rule-Later c q (String.◌∷◌ d sched) (ok none) s = gate_envs-Later c q _ none _ s
gate_rule-Later c q sched (ok (some rule)) s = gate_envs-Later c q sched (some rule) _ s

gate_scheduled-Later :
    (c : Env) (q : Request) (r : Result String) (s : State) → Later s (gate_scheduled c q r s).1
gate_scheduled-Later c q (err e) s = Later-refl s
gate_scheduled-Later c q (ok sched) s = gate_rule-Later c q sched _ s

pub gate_deploy-Later : (c : Env) (q : Request) (s : State) → Later s (gate_deploy c q s).1
unfolding gate_deploy
gate_deploy-Later c q s = gate_scheduled-Later c q _ s

-- ── execution ──

claim_done-Later :
    (i : ℕ) (a : Approval) (u : User) (s : State) (r : Bool × State)
    → Later s r.1
    → Later s (claim_done i a u r).1
claim_done-Later i a u s (false, t) h = h
claim_done-Later i a u s (true, t) h = h

claim_checked-Later :
    (c : Env) (i : ℕ) (a : Approval) (r : Result User) (s : State)
    → Later s (claim_checked c i a r s).1
claim_checked-Later c i a (err e) s = Later-refl s
claim_checked-Later c i a (ok u) s = claim_done-Later i a u s _ (
    transition-Later c.now i _ deploying _ s Follows-plain (from_one approved deploying Edge.claim))

claim_found-Later :
    (c : Env) (i : ℕ) (u : User) (o : Option Approval) (s : State)
    → Later s (claim_found c i u o s).1
claim_found-Later c i u none s = Later-refl s
claim_found-Later c i u (some a) s = elim (Bool-cases (is_owner a u)) [
  | inr other ↦ rw other (Later-refl s)
  | inl own ↦ rw own (elim (Bool-cases (is_approved a.status)) [
    | inr bad ↦ rw bad (Later-refl s)
    | inl fit ↦ rw fit (claim_checked-Later c i a _ s)
  ])
]

pub claim_for_execution-Later :
    (c : Env) (i : ℕ) (u : User) (s : State) → Later s (claim_for_execution c i u s).1
unfolding claim_for_execution
claim_for_execution-Later c i u s = claim_found-Later c i u _ s

pub settle-Later :
    (c : Env) (i : ℕ) (r : RunResult) (st : RunStatus) (s : State) → Later s (settle c i r st s)
settle-Later c i r RunStatus.ok s =
    transition-Later c.now i _ deployed _ s (Follows-deploy_id r.deploy_id)
      (from_one deploying deployed Edge.deploy)
settle-Later c i r RunStatus.busy s =
    let t = (transition c.now i (deploying ∷ []) approved (λ a. a) s).1 in
    Later-same s t (reset_pending_deploy_record i t) (reset-Kept i t) (
      transition-Later c.now i _ approved _ s Follows-plain
        (from_one deploying approved Edge.give_back))
settle-Later c i r RunStatus.cancelled s =
    transition-Later c.now i _ cancelled _ s Follows-plain
      (from_one deploying cancelled Edge.cancel_deploying)
settle-Later c i r RunStatus.failed s =
    transition-Later c.now i _ failed _ s (Follows-deploy_id r.deploy_id)
      (from_one deploying failed Edge.fail)

-- An execution leaves the approvals alone; it reports, and the approval service moves.
pub record IsFramed (execute : Executor) : Type 0 where
  pub at : (p : Params) (u : User) (b : Bool) (i : ℕ) (s : State) → Kept s (execute p u b i s).1

module _ (c : Env) (execute : Executor) (framed : IsFramed execute) where
  run_done-Later :
      (i : ℕ) (s : State) (r : Result RunResult × State) → Kept s r.1 → Later s (run_done c i r).1
  run_done-Later i s (err e, t) h = Later-same s s t h (Later-refl s)
  run_done-Later i s (ok r, t) h =
      Later-trans s t (settle c i r r.status t) (Later-same s s t h (Later-refl s))
        (settle-Later c i r r.status t)

  run_params-Later :
      (i : ℕ) (u : User) (r : Result Params) (s : State) → Later s (run_params c execute i u r s).1
  run_params-Later i u (err e) s = Later-refl s
  run_params-Later i u (ok p) s = run_done-Later i s _ (framed.at _ u p.rollback i s)

  run_found-Later :
      (i : ℕ) (u : User) (o : Option Approval) (s : State) → Later s (run_found c execute i u o s).1
  run_found-Later i u none s = Later-refl s
  run_found-Later i u (some a) s = elim (Bool-cases (same_status a.status deploying)) [
    | inl fit ↦ rw fit (run_params-Later i u _ s)
    | inr bad ↦ rw bad (Later-refl s)
  ]

  pub run_approval-Later : (i : ℕ) (u : User) (s : State) → Later s (run_approval c execute i u s).1
  unfolding run_approval
  run_approval-Later i u s = run_found-Later i u _ s

-- ── recovery ──

converge-Later :
    (c : Env) (is : LogStatus → Bool) (to : ApprovalStatus) (s : State)
    → Edge deploying to
    → Later s (converge c is to s)
converge-Later c is to s e = Evolves-update s.next_approval (converges is s) _ s.approvals (
    All-of s.approvals λ x (h : converges is s x ≡ true).
      Follows-move_row c.now to (set_deploy_id _) x (Follows-deploy_id _ x)
        (rw (same_status-eq x.status deploying (ground arith)) e))

back_to_approved-Later : (c : Env) (s : State) → Later s (back_to_approved c s)
back_to_approved-Later c s = Evolves-update s.next_approval (abandoned s) _ s.approvals (
    All-of s.approvals λ x (h : abandoned s x ≡ true).
      Follows-move_row c.now approved (λ a. a) x (Follows-plain x)
        (rw (same_status-eq x.status deploying (ground arith)) Edge.give_back))

pub recover_on_startup-Later : (c : Env) (s : State) → Later s (recover_on_startup c s)
unfolding recover_on_startup recover_stale_running
recover_on_startup-Later c s =
    let s1 = (recover_stale_running c.epoch 120 s).1 in
    let s2 = converge c is_log_ok deployed s1 in
    let s3 = converge c is_log_failed failed s2 in
    Later-trans s s3 (back_to_approved c s3)
      (Later-trans s s2 s3 (converge-Later c is_log_ok deployed s1 Edge.deploy)
        (converge-Later c is_log_failed failed s2 Edge.fail))
      (back_to_approved-Later c s3)

-- ── the scheduler ──

clear_schedule-Later : (c : Env) (i : ℕ) (s : State) → Later s (clear_schedule c i s)
clear_schedule-Later c i s = Evolves-update s.next_approval _ _ s.approvals (
    All-of s.approvals λ x h. record {
      same_id = refl;
      same_requester = refl;
      same_params = refl;
      same_project = refl;
      moves = Reaches.here;
      judged = inl refl;
    })

give_back-Later : (c : Env) (i : ℕ) (s : State) → Later s (give_back c i s)
give_back-Later c i s =
    let t = (transition c.now i (deploying ∷ []) approved (λ a. a) s).1 in
    Later-same s t (reset_pending_deploy_record i t) (reset-Kept i t) (
      transition-Later c.now i _ approved _ s Follows-plain
        (from_one deploying approved Edge.give_back))

pub fail_execution-Later : (c : Env) (i : ℕ) (s : State) → Later s (fail_execution c i s)
unfolding fail_execution
fail_execution-Later c i s =
    let t = (transition c.now i (deploying ∷ []) failed (λ a. a) s).1 in
    Later-same s t (reset_pending_deploy_record i t) (reset-Kept i t)
      (transition-Later c.now i _ failed _ s Follows-plain (from_one deploying failed Edge.fail))

pub handle-Later : (c : Env) (i : ℕ) (e : Error) (s : State) → Later s (handle c i e s)
unfolding handle
handle-Later c i (conflict key) s = Later-refl s
handle-Later c i (app code key) s = clear_schedule-Later c i s
handle-Later c i (not_found key) s = clear_schedule-Later c i s
handle-Later c i (validation key) s = clear_schedule-Later c i s
handle-Later c i (http code) s = give_back-Later c i s
handle-Later c i (value_error m) s = give_back-Later c i s
handle-Later c i (unexpected m) s = give_back-Later c i s

module _ (c : Env) (execute : Executor) (framed : IsFramed execute) where
  one_run-Later :
      (i : ℕ) (s : State) (r : Result RunResult × State) → Later s r.1 → Later s (one_run c i r).1
  one_run-Later i s (err e, t) h = Later-trans s t (handle c i e t) h (handle-Later c i e t)
  one_run-Later i s (ok r, t) h = h

  one_claimed-Later :
      (i : ℕ) (s : State) (r : Result (Approval × User) × State)
      → Later s r.1
      → Later s (one_claimed c execute i r).1
  one_claimed-Later i s (err e, t) h = Later-trans s t (handle c i e t) h (handle-Later c i e t)
  one_claimed-Later i s (ok (a, u), t) h = one_run-Later i s (run_approval c execute i u t) (
      Later-trans s t (run_approval c execute i u t).1 h
        (run_approval-Later c execute framed i u t))

  pub run_one-Later :
      (i : ℕ) (requester : String) (s : State) → Later s (run_one c execute i requester s).1
  unfolding run_one
  run_one-Later i requester s =
      one_claimed-Later i s _ (claim_for_execution-Later c i (requester_user requester) s)

  run_each-Later :
      (rows : List Approval) (n : ℕ) (s : State) → Later s (run_each c execute rows n s).1
  unfolding run_each
  run_each-Later [] n s = Later-refl s
  run_each-Later (row ∷ rows) n s =
      let t = (run_one c execute row.id row.requester s).1 in
      Later-trans s t
        (run_each c execute rows (if (run_one c execute row.id row.requester s).0 then n + 1 else n)
          t).1
        (run_one-Later row.id row.requester s)
        (run_each-Later rows (if (run_one c execute row.id row.requester s).0 then n + 1 else n) t)

  pub run_due_scheduled-Later : (s : State) → Later s (run_due_scheduled c execute s).1
  unfolding run_due_scheduled
  run_due_scheduled-Later s = run_each-Later _ 0 s
