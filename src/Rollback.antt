-- ===== src/Rollback.antt =====
-- backend/services/rollback_service.py: which record a rollback replays, its parameters, and its
-- way through the approval gate.
pub mod Outcome
pub mod Source
use devops_cd.Prelude.{
  ℕ, suc, ◌+◌, ◌-◌, String, Bool, true, false, not, ◌&&◌, ◌||◌, Option, none, some, List, [], ◌∷◌,
  ltb, ◌==◌, str_eq, find_first, find_last, if◌then◌else◌,
}
use devops_cd.Text.{is_empty, append, contains, strip, take, length}
use devops_cd.Text.Digits.{decimal}
use devops_cd.Result.{Result, ok, err, not_found, validation, and_then}
use devops_cd.State.{
  Params, ParamsJson, blank, snapshot, corrupt, LogStatus, DeployLog, State, User,
}
use devops_cd.Approval.Env.{Env}
use devops_cd.Approval.Execution.{load_params, is_log_ok, Executor, RunResult}
use devops_cd.Approval.Gate.{Request, Ticket, gate_deploy}
use devops_cd.Deploy.Tag.{valid_tag}

-- The keyword arguments of `prepare_rollback`.
pub record RollbackRequest : Type 0 where
  pub project : String
  pub before_deploy_id : ℕ
  pub deploy_type : String
  pub tag : String
  pub note : String
  pub bot_id : ℕ
  pub lang : String

abbrev pub has_snapshot : ParamsJson → Bool
has_snapshot blank = false
has_snapshot (snapshot p) = true
has_snapshot corrupt = true

-- WHERE project=? AND status='ok' AND params_json IS NOT NULL AND params_json != ''
abbrev pub is_success : String → DeployLog → Bool
is_success project r =
    str_eq r.project project && (is_log_ok r.status && has_snapshot r.params_json)

unfoldable pub find_record : String → ℕ → State → Option DeployLog
find_record project i s =
    find_first (λ (r : DeployLog). r.id == i && str_eq r.project project) s.logs

unfoldable pub find_latest_success : String → String → State → Option DeployLog
find_latest_success project deploy_type s =
    if is_empty deploy_type
    then find_last (is_success project) s.logs
    else find_last (λ r. is_success project r && str_eq r.deploy_type deploy_type) s.logs

-- A success of the same type with another tag, older than the reference.
abbrev pub is_earlier : String → DeployLog → DeployLog → Bool
is_earlier project ref r =
    is_success project r
    && (str_eq r.deploy_type ref.deploy_type && (not (str_eq r.tag ref.tag) && ltb r.id ref.id))

abbrev pub earlier_than : String → Option DeployLog → State → Option DeployLog
earlier_than project none s = none
earlier_than project (some ref) s = find_last (is_earlier project ref) s.logs

abbrev pub reference : String → ℕ → String → State → Option DeployLog
reference project before deploy_type s =
    if before == 0 then find_latest_success project deploy_type s else find_record project before s

unfoldable pub find_rollback_source : String → ℕ → String → State → Option DeployLog
find_rollback_source project before deploy_type s =
    earlier_than project (reference project before deploy_type s) s

abbrev pub mode_from : Option DeployLog → Result String
mode_from none = err (not_found "errors.rollback_not_found")
mode_from (some r) = ok r.deploy_type

abbrev pub mode_of : RollbackRequest → State → Result String
mode_of q s =
    if q.before_deploy_id == 0
    then ok q.deploy_type
    else mode_from (find_record q.project q.before_deploy_id s)

abbrev pub is_native : String → Bool
is_native mode = contains mode ("k8s/kubectl" ∷ "k8s/helm" ∷ "k8s/argocd" ∷ [])

-- Whether the cluster's own rollback is used: a native mode without a tag.
abbrev pub rollback_flag : RollbackRequest → String → Bool
rollback_flag q mode = is_native mode && is_empty q.tag

abbrev pub source_of : RollbackRequest → String → State → Option DeployLog
source_of q mode s =
    if not (is_empty q.tag) || is_native mode
    then if q.before_deploy_id == 0
      then find_latest_success q.project mode s
      else find_record q.project q.before_deploy_id s
    else find_rollback_source q.project q.before_deploy_id mode s

abbrev pub marker : RollbackRequest → DeployLog → String
marker q source =
    if is_empty q.tag
    then append "[回滚 #" (append (decimal source.id) "]")
    else append "[回滚到 " (append q.tag "]")

-- The user's note is cut so that the mark stays within 512 characters.
abbrev pub cut_note : String → String → String
cut_note mark note = if ltb (length mark + 1) 512 then take (512 - length mark - 1) note else note

unfoldable pub note_of : RollbackRequest → DeployLog → String
note_of q source =
    let mark = marker q source in strip (append mark (append " " (cut_note mark (strip q.note))))

abbrev pub or_text : String → String → String
or_text s t = if is_empty s then t else s

unfoldable pub rollback_params : RollbackRequest → String → DeployLog → Params → Params
rollback_params q mode source p = record p {
  rollback_type = if rollback_flag q mode then "native" else "replay";
  tag = or_text q.tag p.tag;
  deploy_note = note_of q source;
  bot_id = if q.bot_id == 0 then p.bot_id else q.bot_id;
  lang = or_text q.lang (or_text p.lang "en");
  rollback = rollback_flag q mode;
}

abbrev pub check_tag : RollbackRequest → Result (Unit {0})
check_tag q =
    if is_empty q.tag || valid_tag q.tag then ok tt else err (validation "errors.deploy_validation")

abbrev pub found_source : Option DeployLog → Result DeployLog
found_source none = err (not_found "errors.rollback_not_found")
found_source (some r) = ok r

abbrev pub with_type : Params → Result Params
with_type p =
    if is_empty p.deploy_type then err (validation "errors.rollback_unsupported") else ok p

-- A rollback in front of the gate: the source, and the parameters with which it runs.
pub record Draft : Type 0 where
  pub source : DeployLog
  pub params : Params

unfoldable pub draft : RollbackRequest → State → Result Draft
draft q s = and_then (mode_of q s) λ mode. and_then (check_tag q) λ _.
    and_then (found_source (source_of q mode s)) λ source.
      and_then
        (and_then (load_params (validation "errors.rollback_unsupported") source.params_json)
          with_type)
        λ p. ok (record { source = source; params = rollback_params q mode source p })

-- The arguments of `gate_deploy`.
abbrev pub gate_request : RollbackRequest → User → Draft → Request
gate_request q u d = record {
  project = q.project;
  tag = or_text d.params.tag d.source.tag;
  deploy_type = d.params.deploy_type;
  server_ids = d.params.server_ids;
  params = d.params;
  requester = u.username;
  for_rollback = true;
  scheduled_at = "";
}

-- The reply of `prepare_rollback`.
pub data Prepared : Type 0 where
  waiting : (approval_id source_deploy_id : ℕ) → Prepared
  ready : (params : Params) (source_deploy_id : ℕ) → Prepared

abbrev pub gated : Draft → Result (Option Ticket) × State → Result Prepared × State
gated d (err e, s) = (err e, s)
gated d (ok none, s) = (ok (Prepared.ready d.params d.source.id), s)
gated d (ok (some ticket), s) = (ok (Prepared.waiting ticket.approval_id d.source.id), s)

abbrev pub gate_draft :
    Env → RollbackRequest → User → Result Draft → State → Result Prepared × State
gate_draft c q u (err e) s = (err e, s)
gate_draft c q u (ok d) s = gated d (gate_deploy c (gate_request q u d) s)

unfoldable pub prepare_rollback : Env → RollbackRequest → User → State → Result Prepared × State
prepare_rollback c q u s = gate_draft c q u (draft q s) s

-- The reply of `rollback`.
pub data RolledBack : Type 0 where
  waiting : (approval_id source_deploy_id : ℕ) → RolledBack
  executed : RunResult → (source_deploy_id : ℕ) → RolledBack

abbrev pub rolled : ℕ → Result RunResult × State → Result RolledBack × State
rolled i (err e, s) = (err e, s)
rolled i (ok r, s) = (ok (RolledBack.executed r i), s)

abbrev pub run_prepared : Executor → User → Result Prepared × State → Result RolledBack × State
run_prepared execute u (err e, s) = (err e, s)
run_prepared execute u (ok (Prepared.waiting a i), s) = (ok (RolledBack.waiting a i), s)
run_prepared execute u (ok (Prepared.ready p i), s) = rolled i (execute p u p.rollback 0 s)

-- `execute` is `execute_from_params`.
unfoldable pub rollback :
    Env → Executor → RollbackRequest → User → State → Result RolledBack × State
rollback c execute q u s = run_prepared execute u (prepare_rollback c q u s)
