-- ===== src/Approval/Execution.antt =====
-- `claim_for_execution`, `run_approval` and `recover_on_startup`.
use devops_cd.Prelude.{
  ℕ, String, Bool, true, false, not, ◌&&◌, ◌||◌, Option, none, some, [], ◌∷◌, ltb, ◌==◌, any,
  update, find_last, if◌then◌else◌,
}
use devops_cd.Text.{contains}
use devops_cd.Result.{
  Result, ok, err, Error, app, not_found, conflict, validation, http, value_error, and_then,
}
use devops_cd.State.{
  ApprovalStatus, approved, deploying, deployed, LogStatus, Params, ParamsJson, blank, snapshot,
  corrupt, Approval, DeployLog, State, User, Settings, RunStatus, same_status,
}
use devops_cd.Auth.Perms.{manage_perm, enforce_deploy_perm}
use devops_cd.Auth.Context.{load_user_context}
use devops_cd.DeployRun.Records.{
  release_row, running_of, is_interrupted, recover_stale_running, reset_pending_deploy_record,
}
use devops_cd.Approval.Env.{Env}
use devops_cd.Approval.Perms.{is_super, is_owner, is_approved}
use devops_cd.Approval.Machine.{get_by_id, transition, move_row}

-- json.loads("{}"), with the defaults that the readers of a snapshot use
abbrev pub no_params : Params
no_params = record {
  rollback = false;
  snapshot_approval = 0;
  deploy_type = "";
  project = "";
  tag = "";
  server_ids = "";
  target_path = "";
  deploy_mode = "";
  commands = "";
  yaml_content = "";
  env_file = "";
  cd_type = "";
  cluster_id = 0;
  path = "";
  api_url = "";
  scheduled_at = "";
  k8s_ns = "";
  k8s_deploy = "";
  k8s_container = "";
  lang = "en";
  deploy_note = "";
  rollback_type = "manual";
  bot_id = 0;
}

-- json.loads(params_json or "{}")
abbrev pub load_params : Error → ParamsJson → Result Params
load_params e blank = ok no_params
load_params e (snapshot p) = ok p
load_params e corrupt = err e

-- `except HTTPException as e: raise AppException(status_code=e.status_code)`
abbrev pub as_app : Result (Unit {0}) → Result (Unit {0})
as_app (ok _) = ok tt
as_app (err (http code)) = err (app code "errors.approval_execute_perm")
as_app (err e) = err e

unfoldable pub enforce_execute_perm : Settings → Params → User → Result (Unit {0})
enforce_execute_perm c p u =
    if p.rollback
    then if is_super c u || contains manage_perm u.permissions
      then ok tt
      else err (app 403 "errors.approval_execute_perm")
    else as_app (enforce_deploy_perm c u p.deploy_type "")

abbrev pub or_row : Option Approval → Approval → Approval
or_row none a = a
or_row (some b) a = b

abbrev pub claim_done : ℕ → Approval → User → Bool × State → Result (Approval × User) × State
claim_done i a u (false, s) = (err (conflict "errors.approval_not_executable"), s)
claim_done i a u (true, s) = (ok (or_row (get_by_id i s) a, u), s)

-- The identity of the requester, rebuilt, if it may run what the snapshot holds.
unfoldable pub execution_user : Env → Approval → Result User
execution_user c a = and_then (load_user_context c.settings c.directory a.requester) λ u.
    and_then (load_params (validation "errors.approval_params_invalid") a.params_json)
      λ p. and_then (enforce_execute_perm c.settings p u) λ _. ok u

abbrev pub claim_checked :
    Env → ℕ → Approval → Result User → State → Result (Approval × User) × State
claim_checked c i a (err e) s = (err e, s)
claim_checked c i a (ok u) s =
    claim_done i a u (transition c.now i (approved ∷ []) deploying (λ r. r) s)

abbrev pub claim_found : Env → ℕ → User → Option Approval → State → Result (Approval × User) × State
claim_found c i u none s = (err (not_found "errors.approval_not_found"), s)
claim_found c i u (some a) s =
    if not (is_owner a u)
    then (err (app 403 "errors.approval_execute_self_only"), s)
    else if not (is_approved a.status)
    then (err (conflict "errors.approval_not_executable"), s)
    else claim_checked c i a (execution_user c a) s

unfoldable pub claim_for_execution : Env → ℕ → User → State → Result (Approval × User) × State
claim_for_execution c i u s = claim_found c i u (get_by_id i s) s

pub record RunResult : Type 0 where
  pub status : RunStatus
  pub deploy_id : ℕ
  pub output : String

-- `execute_from_params(db, params, user, callback, rollback, approval_id)`. It returns, or raises
-- what is no Exception.
abbrev pub Executor : Type 0
Executor = Params → User → Bool → ℕ → State → Result RunResult × State

abbrev pub set_deploy_id : ℕ → Approval → Approval
set_deploy_id d a = record a { deploy_id = d }

-- The status change after an execution.
abbrev pub settle : Env → ℕ → RunResult → RunStatus → State → State
settle c i r RunStatus.ok s =
    (transition c.now i (deploying ∷ []) deployed (set_deploy_id r.deploy_id) s).1
settle c i r RunStatus.busy s =
    reset_pending_deploy_record i (transition c.now i (deploying ∷ []) approved (λ a. a) s).1
settle c i r RunStatus.cancelled s =
    (transition c.now i (deploying ∷ []) ApprovalStatus.cancelled (λ a. a) s).1
settle c i r RunStatus.failed s =
    (transition c.now i (deploying ∷ []) ApprovalStatus.failed (set_deploy_id r.deploy_id) s).1

abbrev pub run_done : Env → ℕ → Result RunResult × State → Result RunResult × State
run_done c i (err e, s) = (err e, s)
run_done c i (ok r, s) = (ok r, settle c i r r.status s)

abbrev pub run_params : Env → Executor → ℕ → User → Result Params → State → Result RunResult × State
run_params c execute i u (err e) s = (err e, s)
run_params c execute i u (ok p) s =
    run_done c i (execute (record p { rollback = false; snapshot_approval = 0 }) u p.rollback i s)

abbrev pub status_changed : RunResult
status_changed = record {
  status = RunStatus.failed;
  deploy_id = 0;
  output = "approval status changed before execution";
}

abbrev pub run_found :
    Env → Executor → ℕ → User → Option Approval → State → Result RunResult × State
run_found c execute i u none s = (ok status_changed, s)
run_found c execute i u (some a) s =
    if same_status a.status deploying
    then run_params c execute i u (load_params (value_error "json") a.params_json) s
    else (ok status_changed, s)

unfoldable pub run_approval : Env → Executor → ℕ → User → State → Result RunResult × State
run_approval c execute i u s = run_found c execute i u (get_by_id i s) s

abbrev pub is_log_ok : LogStatus → Bool
is_log_ok LogStatus.ok = true
is_log_ok _ = false

abbrev pub is_log_failed : LogStatus → Bool
is_log_failed LogStatus.failed = true
is_log_failed _ = false

abbrev pub ended_with : (LogStatus → Bool) → ℕ → DeployLog → Bool
ended_with is i r = r.approval_id == i && is r.status

abbrev pub id_of : Option DeployLog → ℕ
id_of none = 0
id_of (some r) = r.id

-- WHERE status='deploying' AND id IN (…)
abbrev pub converges : (LogStatus → Bool) → State → Approval → Bool
converges is s a =
    same_status a.status deploying && any (λ r. ltb 0 r.approval_id && ended_with is a.id r) s.logs

-- WHERE status='deploying' AND NOT EXISTS (…)
abbrev pub abandoned : State → Approval → Bool
abandoned s a = same_status a.status deploying && not (any (running_of a.id) s.logs)

-- UPDATE … SET status=to, deploy_id=(the newest such record) WHERE status='deploying' AND id IN (…)
abbrev pub converge : Env → (LogStatus → Bool) → ApprovalStatus → State → State
converge c is to s = record s {
  approvals =
      update (converges is s)
        (λ a. move_row c.now to (set_deploy_id (id_of (find_last (ended_with is a.id) s.logs))) a)
        s.approvals;
}

-- The deploying approvals without a running record go back to approved.
abbrev pub back_to_approved : Env → State → State
back_to_approved c s = record s {
  approvals = update (abandoned s) (move_row c.now approved (λ a. a)) s.approvals;
}

-- Their interrupted records go back to pending.
abbrev pub reopen_interrupted : State → State
reopen_interrupted s = record s {
  logs =
      update (λ r. ltb 0 r.approval_id && is_interrupted r.status) (release_row LogStatus.pending)
        s.logs;
}

unfoldable pub recover_on_startup : Env → State → State
recover_on_startup c s = reopen_interrupted (
    back_to_approved c (
      converge c is_log_failed ApprovalStatus.failed
        (converge c is_log_ok deployed (recover_stale_running c.epoch 120 s).1)))
