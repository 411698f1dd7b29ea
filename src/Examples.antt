-- ===== src/Examples.antt =====
-- Small runs of the model: the data that the examples share.
pub mod Lifecycle
pub mod Claims
pub mod Rollbacks
pub mod Deployments
pub mod Alerts
pub mod Registries
pub mod Lists
pub mod Sessions
pub mod Clusters
pub mod Requests
use devops_cd.Prelude.{ℕ, String, true, false, some, none, List, [], ◌∷◌}
use devops_cd.Result.{Result, ok, err, app}
use devops_cd.State.{State, User, Settings, Rule, Params}
use devops_cd.Auth.Context.{Directory, Identity}
use devops_cd.DeployRun.Records.{NewRecord}
use devops_cd.Approval.Env.{Env}
use devops_cd.Approval.Gate.{Request}
use devops_cd.Approval.Execution.{no_params}

abbrev pub settings : Settings
settings = record {
  super_admin_role = "super_admin";
  allow_empty_systems = false;
  log_truncate_chars = 60000;
}

-- Everybody is known, enabled, and may deploy.
abbrev pub everybody : Directory
everybody name = ok (record {
  username = name;
  role = "dev";
  systems = some "ci, cd";
  status = some 1;
  permissions = "cd.deploy.single" ∷ [];
})

abbrev pub env : Env
env = record {
  settings = settings;
  directory = everybody;
  now = "2026-01-02 03:04:05";
  epoch = 1767323045;
  instance_id = "host:1:abc";
  harbor_repo = λ p. some "team/shop";
  registry_base = some "registry.local";
}

-- Every project needs an approval; bob approves.
abbrev pub rule : Rule
rule = record {
  project = "*";
  enabled = true;
  require_envs = "";
  approver_role = "";
  approvers = "bob, carol";
  notify_bot_id = 7;
  require_rollback_approval = true;
}

abbrev pub initial : State
initial = record {
  approvals = [];
  next_approval = 1;
  logs = [];
  next_log = 1;
  rules = rule ∷ [];
  servers = [];
  events = [];
  notices = [];
}

abbrev pub alice : User
alice = record { username = "alice"; role = "dev"; permissions = "cd.deploy.single" ∷ [] }

abbrev pub bob : User
bob = record { username = "bob"; role = "lead"; permissions = [] }

abbrev pub params : Params
params = record no_params { deploy_type = "ssh"; project = "shop"; tag = "v1" }

abbrev pub request : Request
request = record {
  project = "shop";
  tag = "v1";
  deploy_type = "ssh";
  server_ids = "";
  params = params;
  requester = "alice";
  for_rollback = false;
  scheduled_at = "";
}
