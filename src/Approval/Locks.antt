-- ===== src/Approval/Locks.antt =====
-- Operations on approvals keep the lock invariant of the deployment records.
use devops_cd.Prelude.{ℕ, String, ◌≡◌, refl, arith, inl, inr, ◌⊎◌}
use devops_cd.Result.{Error, app, not_found, conflict, validation, http, value_error, unexpected}
use devops_cd.State.{LogStatus, State, User, RunStatus, deployed, failed}
use devops_cd.DeployRun.Records.{
  mark_approval_log_terminal, create_pending_deploy_record, recover_stale_running,
}
use devops_cd.DeployRun.Locks.{IsValid, update-IsValid}
use devops_cd.DeployRun.Keeps.{
  mark_approval_log_terminal-IsValid, create_pending_deploy_record-IsValid,
  reset_pending_deploy_record-IsValid, recover_stale_running-IsValid,
}
use devops_cd.Approval.Env.{Env}
use devops_cd.Approval.Machine.{transition, create_approval}
use devops_cd.Approval.Actions.{approve, reject, cancel}
use devops_cd.Approval.Gate.{Request, gate_deploy, record_of}
use devops_cd.Approval.Execution.{
  claim_for_execution, settle, RunResult, reopen_interrupted, recover_on_startup, converge,
  back_to_approved, is_log_ok, is_log_failed,
}
use devops_cd.Routes.Execute.{fail_execution}
use devops_cd.Approval.Scheduler.{handle, clear_schedule, give_back}

-- The invariant is about the records alone.
abbrev pub SameLogs : State → State → Type 0
SameLogs s t = (t.logs ≡ s.logs) × (t.next_log ≡ s.next_log)

IsValid-same : (s t : State) → SameLogs s t → IsValid s → IsValid t
IsValid-same s t e v = record {
  locked = rw e.0 v.locked;
  exclusive = λ p. rw e.0 (v.exclusive p);
  fresh = rw (e.0, e.1) v.fresh;
  unique = λ i. rw e.0 (v.unique i);
}

approve-SameLogs : (c : Env) (i : ℕ) (u : User) (s : State) → SameLogs s (approve c i u s).1
unfolding approve transition
approve-SameLogs c i u s = (ground arith, ground arith)

reject-SameLogs :
    (c : Env) (i : ℕ) (u : User) (note : String) (s : State)
    → SameLogs s (reject c i u note s).1
      ⊎ SameLogs (mark_approval_log_terminal i LogStatus.rejected s) (reject c i u note s).1
unfolding reject transition mark_approval_log_terminal
reject-SameLogs c i u note s = ground arith

cancel-SameLogs :
    (c : Env) (i : ℕ) (u : User) (s : State)
    → SameLogs s (cancel c i u s).1
      ⊎ SameLogs (mark_approval_log_terminal i LogStatus.cancelled s) (cancel c i u s).1
unfolding cancel transition mark_approval_log_terminal
cancel-SameLogs c i u s = ground arith

claim-SameLogs :
    (c : Env) (i : ℕ) (u : User) (s : State) → SameLogs s (claim_for_execution c i u s).1
unfolding claim_for_execution transition
claim-SameLogs c i u s = (ground arith, ground arith)

pub approve-IsValid :
    (c : Env) (i : ℕ) (u : User) (s : State) → IsValid s → IsValid (approve c i u s).1
approve-IsValid c i u s = IsValid-same s (approve c i u s).1 (approve-SameLogs c i u s)

closed-IsValid :
    (i : ℕ) (l : LogStatus) (s t : State)
    → SameLogs s t ⊎ SameLogs (mark_approval_log_terminal i l s) t
    → IsValid s
    → IsValid t
closed-IsValid i l s t (inl e) v = IsValid-same s t e v
closed-IsValid i l s t (inr e) v =
    IsValid-same (mark_approval_log_terminal i l s) t e (mark_approval_log_terminal-IsValid i l s v)

pub reject-IsValid :
    (c : Env) (i : ℕ) (u : User) (note : String) (s : State)
    → IsValid s
    → IsValid (reject c i u note s).1
reject-IsValid c i u note s =
    closed-IsValid i LogStatus.rejected s (reject c i u note s).1 (reject-SameLogs c i u note s)

pub cancel-IsValid :
    (c : Env) (i : ℕ) (u : User) (s : State) → IsValid s → IsValid (cancel c i u s).1
cancel-IsValid c i u s =
    closed-IsValid i LogStatus.cancelled s (cancel c i u s).1 (cancel-SameLogs c i u s)

pub claim-IsValid :
    (c : Env) (i : ℕ) (u : User) (s : State) → IsValid s → IsValid (claim_for_execution c i u s).1
claim-IsValid c i u s = IsValid-same s (claim_for_execution c i u s).1 (claim-SameLogs c i u s)

-- A submission inserts one pending record.
gate-SameLogs :
    (c : Env) (q : Request) (s : State)
    → SameLogs s (gate_deploy c q s).1
      ⊎ SameLogs
          (create_pending_deploy_record (record_of c q s.next_approval) s).1
          (gate_deploy c q s).1
unfolding gate_deploy create_approval create_pending_deploy_record
gate-SameLogs c q s = ground arith

pub gate_deploy-IsValid :
    (c : Env) (q : Request) (s : State) → IsValid s → IsValid (gate_deploy c q s).1
gate_deploy-IsValid c q s v = elim (gate-SameLogs c q s) [
  | inl e ↦ IsValid-same s (gate_deploy c q s).1 e v
  | inr e ↦
      IsValid-same _ (gate_deploy c q s).1 e
        (create_pending_deploy_record-IsValid (record_of c q s.next_approval) s v)
]

pub settle-IsValid :
    (c : Env) (i : ℕ) (r : RunResult) (st : RunStatus) (s : State)
    → IsValid s
    → IsValid (settle c i r st s)
unfolding transition
settle-IsValid c i r RunStatus.ok s v = IsValid-same s _ (refl, refl) v
settle-IsValid c i r RunStatus.busy s v =
    reset_pending_deploy_record-IsValid i _ (IsValid-same s _ (refl, refl) v)
settle-IsValid c i r RunStatus.cancelled s v = IsValid-same s _ (refl, refl) v
settle-IsValid c i r RunStatus.failed s v = IsValid-same s _ (refl, refl) v

pub reopen_interrupted-IsValid : (s : State) → IsValid s → IsValid (reopen_interrupted s)
reopen_interrupted-IsValid s v = update-IsValid _ _ (λ r h _. refl) (λ p r _ h. cc) (λ r. refl) s v

pub recover_on_startup-IsValid :
    (c : Env) (s : State) → IsValid s → IsValid (recover_on_startup c s)
unfolding recover_on_startup
recover_on_startup-IsValid c s v =
    let s1 = (recover_stale_running c.epoch 120 s).1 in
    let s2 = converge c is_log_ok deployed s1 in
    let s3 = converge c is_log_failed failed s2 in
    reopen_interrupted-IsValid (back_to_approved c s3) (
      IsValid-same s1 (back_to_approved c s3) (refl, refl)
        (recover_stale_running-IsValid c.epoch 120 s v))

pub give_back-IsValid : (c : Env) (i : ℕ) (s : State) → IsValid s → IsValid (give_back c i s)
unfolding transition
give_back-IsValid c i s v =
    reset_pending_deploy_record-IsValid i _ (IsValid-same s _ (refl, refl) v)

pub fail_execution-IsValid :
    (c : Env) (i : ℕ) (s : State) → IsValid s → IsValid (fail_execution c i s)
unfolding fail_execution transition
fail_execution-IsValid c i s v =
    reset_pending_deploy_record-IsValid i _ (IsValid-same s _ (refl, refl) v)

pub handle-IsValid :
    (c : Env) (i : ℕ) (e : Error) (s : State) → IsValid s → IsValid (handle c i e s)
unfolding handle
handle-IsValid c i (conflict key) s v = v
handle-IsValid c i (app code key) s v = IsValid-same s (clear_schedule c i s) (refl, refl) v
handle-IsValid c i (not_found key) s v = IsValid-same s (clear_schedule c i s) (refl, refl) v
handle-IsValid c i (validation key) s v = IsValid-same s (clear_schedule c i s) (refl, refl) v
handle-IsValid c i (http code) s v = give_back-IsValid c i s v
handle-IsValid c i (value_error m) s v = give_back-IsValid c i s v
handle-IsValid c i (unexpected m) s v = give_back-IsValid c i s v
