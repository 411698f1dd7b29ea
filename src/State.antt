-- ===== src/State.antt =====
-- The rows of the tables that the deployment and approval services share (database/init_mysql.sql),
-- and the in-process cancel signals. Columns that no modelled function reads (created_at,
-- artifact_id, artifact_digest) are left out.
use devops_cd.Prelude.{ℕ, String, Bool, Option, List, ◌==◌}

-- cd_approvals.status
pub data ApprovalStatus : Type 0 where
  pending approved deploying deployed failed rejected cancelled : ApprovalStatus

-- cd_deploy_logs.status; `other` is any further text.
pub data LogStatus : Type 0 where
  pending running ok failed partial terminated interrupted rejected cancelled : LogStatus
  other : String → LogStatus

pub data RollbackType : Type 0 where
  native replay manual : RollbackType

-- The deployment parameters of a snapshot; a key that is absent has the value that the readers'
-- `params.get(key, default)` gives. `rollback` is the key `_rollback` and `snapshot_approval` the
-- key `_approval_id`.
pub record Params : Type 0 where
  pub rollback : Bool
  pub snapshot_approval : ℕ
  pub deploy_type : String
  pub project : String
  pub tag : String
  pub server_ids : String
  pub target_path : String
  pub deploy_mode : String
  pub commands : String
  pub yaml_content : String
  pub env_file : String
  pub cd_type : String
  pub cluster_id : ℕ
  pub path : String
  pub api_url : String
  pub scheduled_at : String
  pub k8s_ns : String
  pub k8s_deploy : String
  pub k8s_container : String
  pub lang : String
  pub deploy_note : String
  pub rollback_type : String
  pub bot_id : ℕ

-- A params_json column, as what `json.loads` makes of its text: empty, a snapshot, or a text on
-- which it raises.
pub data ParamsJson : Type 0 where
  blank : ParamsJson
  snapshot : Params → ParamsJson
  corrupt : ParamsJson

pub record Approval : Type 0 where
  pub id : ℕ
  pub project : String
  pub tag : String
  pub image : String
  pub deploy_type : String
  pub envs : String
  pub params_json : ParamsJson
  pub status : ApprovalStatus
  pub requester : String
  pub approver : String
  pub scheduled_at : String
  pub approve_note : String
  pub deploy_id : ℕ
  pub approved_at : Option String
  pub updated_at : Option String

-- One server's part of a deployment, an element of stage_times.
pub record StageTime : Type 0 where
  pub server_id : ℕ
  pub host : String
  pub status : String
  pub duration_ms : ℕ

-- heartbeat_at is a zero-padded text of fixed width in the table, whose order is that of the
-- number; `none` is NULL or the empty text.
pub record DeployLog : Type 0 where
  pub id : ℕ
  pub project : String
  pub tag : String
  pub image : String
  pub deploy_type : String
  pub target : String
  pub status : LogStatus
  pub output : String
  pub triggered_by : String
  pub deploy_note : String
  pub duration_ms : ℕ
  pub stage_times : List StageTime
  pub lock_key : Option String
  pub params_json : ParamsJson
  pub rollback_type : RollbackType
  pub approval_id : ℕ
  pub runner : String
  pub heartbeat_at : Option ℕ

-- The `status` of the dict that an execution returns.
pub data RunStatus : Type 0 where
  ok failed busy cancelled : RunStatus

-- cd_approval_rules
pub record Rule : Type 0 where
  pub project : String
  pub enabled : Bool
  pub require_envs : String
  pub approver_role : String
  pub approvers : String
  pub notify_bot_id : ℕ
  pub require_rollback_approval : Bool

-- cd_servers; the credentials are encrypted
pub record Server : Type 0 where
  pub id : ℕ
  pub name : String
  pub kind : String
  pub host : String
  pub port : ℕ
  pub user : String
  pub password : String
  pub ssh_key : String
  pub tags : String

-- A message handed to `notify_approval` or `notify_deploy`, by what it reports.
pub data Notice : Type 0 where
  requested : (bot_id : ℕ) (project tag requester : String) → Notice
  approved cancelled : (bot_id : ℕ) (project tag by : String) → Notice
  rejected : (bot_id : ℕ) (project tag by note : String) → Notice
  finished : (bot_id : ℕ) (tag project image status mode : String) (targets : List String) → Notice

pub record State : Type 0 where
  pub approvals : List Approval
  pub next_approval : ℕ
  pub logs : List DeployLog
  pub next_log : ℕ
  pub rules : List Rule
  pub servers : List Server
  -- DeployRunManager._events: deploy_id → the event and whether it is set
  pub events : List (ℕ × Bool)
  pub notices : List Notice

-- The user dict that routes and services hand on.
pub record User : Type 0 where
  pub username : String
  pub role : String
  pub permissions : List String

-- The settings that the modelled code reads (backend/config.py).
pub record Settings : Type 0 where
  pub super_admin_role : String
  pub allow_empty_systems : Bool
  pub log_truncate_chars : ℕ

rank : ApprovalStatus → ℕ
rank ApprovalStatus.pending = 0
rank ApprovalStatus.approved = 1
rank ApprovalStatus.deploying = 2
rank ApprovalStatus.deployed = 3
rank ApprovalStatus.failed = 4
rank ApprovalStatus.rejected = 5
rank ApprovalStatus.cancelled = 6

-- status = …
unfoldable pub same_status : ApprovalStatus → ApprovalStatus → Bool
unfolding rank
same_status a b = rank a == rank b
