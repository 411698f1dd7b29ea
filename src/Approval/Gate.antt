-- ===== src/Approval/Gate.antt =====
-- `gate_deploy`: whether a submitted deployment runs at once, waits for an approval, or waits for
-- its time.
use devops_cd.Prelude.{ℕ, String, Bool, true, not, Option, none, some, List, if◌then◌else◌}
use devops_cd.Text.{is_empty, append}
use devops_cd.Result.{Result, ok, err}
use devops_cd.State.{ApprovalStatus, pending, approved, Params, snapshot, Rule, Notice, State}
use devops_cd.DeployRun.Records.{NewRecord, create_pending_deploy_record}
use devops_cd.Approval.Env.{Env}
use devops_cd.Approval.Rules.{approval_required, resolve_target_envs}
use devops_cd.Approval.Machine.{NewApproval, create_approval}
use devops_cd.Approval.Actions.{notify}
use devops_cd.Approval.Schedule.{parse_scheduled_at}

-- The keyword arguments of `gate_deploy`.
pub record Request : Type 0 where
  pub project : String
  pub tag : String
  pub deploy_type : String
  pub server_ids : String
  pub params : Params
  pub requester : String
  pub for_rollback : Bool
  pub scheduled_at : String

-- The dict that is returned where the deployment has to wait.
pub record Ticket : Type 0 where
  pub approval_id : ℕ
  pub scheduled : Bool
  pub message : String

abbrev pub image_name : Option String → Option String → String → String
image_name (some base) (some repo) tag =
    if is_empty repo then "" else append base (append "/" (append repo (append ":" tag)))
image_name _ _ tag = ""

-- `_resolve_display_image`, empty where anything raises
unfoldable pub resolve_display_image : Env → String → String → String
resolve_display_image c project tag = image_name c.registry_base (c.harbor_repo project) tag

abbrev pub status_for : Option Rule → ApprovalStatus
status_for none = approved
status_for (some rule) = pending

abbrev pub approval_of : Env → Request → String → Option Rule → List String → NewApproval
approval_of c q sched rule envs = record {
  project = q.project;
  tag = q.tag;
  image = resolve_display_image c q.project q.tag;
  deploy_type = q.deploy_type;
  envs = envs;
  params_json = snapshot q.params;
  requester = q.requester;
  scheduled_at = sched;
  status = status_for rule;
  approver = "";
}

abbrev pub manual_or : String → String
manual_or t = if is_empty t then "manual" else t

abbrev pub record_of : Env → Request → ℕ → NewRecord
record_of c q i = record {
  deploy_type = q.deploy_type;
  project = q.project;
  tag = q.tag;
  image = resolve_display_image c q.project q.tag;
  triggered_by = q.requester;
  deploy_note = q.params.deploy_note;
  target = "";
  params_json = snapshot q.params;
  rollback_type = manual_or q.params.rollback_type;
  approval_id = i;
}

abbrev pub submitted : String → String
submitted sched = if is_empty sched then "部署已提交审批" else append "部署已提交审批，定时 " (append sched " 自动执行")

abbrev pub gate_reply : Option Rule → Request → String → ℕ → State → Ticket × State
gate_reply none q sched i s = (
  record {
    approval_id = i;
    scheduled = true;
    message = append "已创建定时发布，将于 " (append sched " 自动执行");
  },
  s,
)
gate_reply (some rule) q sched i s = (
  record { approval_id = i; scheduled = not (is_empty sched); message = submitted sched },
  notify rule (λ bot. Notice.requested bot q.project q.tag q.requester) s,
)

abbrev pub gate_create : Env → Request → String → Option Rule → List String → State → Ticket × State
gate_create c q sched rule envs s =
    let (i, t) = create_approval (approval_of c q sched rule envs) s in
    let (_, u) = create_pending_deploy_record (record_of c q i) t in gate_reply rule q sched i u

abbrev pub gate_envs :
    Env
    → Request
    → String
    → Option Rule
    → Result (List String)
    → State
    → Result (Option Ticket) × State
gate_envs c q sched rule (err e) s = (err e, s)
gate_envs c q sched rule (ok envs) s =
    let (ticket, t) = gate_create c q sched rule envs s in (ok (some ticket), t)

abbrev pub gate_rule :
    Env → Request → String → Result (Option Rule) → State → Result (Option Ticket) × State
gate_rule c q sched (err e) s = (err e, s)
gate_rule c q sched (ok none) s =
    if is_empty sched
    then (ok none, s)
    else gate_envs c q sched none (resolve_target_envs q.server_ids s) s
gate_rule c q sched (ok (some rule)) s =
    gate_envs c q sched (some rule) (resolve_target_envs q.server_ids s) s

abbrev pub gate_scheduled : Env → Request → Result String → State → Result (Option Ticket) × State
gate_scheduled c q (err e) s = (err e, s)
gate_scheduled c q (ok sched) s =
    gate_rule c q sched (approval_required q.project q.server_ids q.for_rollback s) s

unfoldable pub gate_deploy : Env → Request → State → Result (Option Ticket) × State
gate_deploy c q s = gate_scheduled c q (parse_scheduled_at q.scheduled_at) s
