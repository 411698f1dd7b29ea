-- ===== src/Deploy/Plan.antt =====
-- The first part of `DeployService.execute`: the checks and look-ups in front of a deployment, and
-- the opening of its record.
use devops_cd.Prelude.{
  ℕ, String, Bool, true, false, Option, none, some, List, [], ◌∷◌, ◌==◌, if◌then◌else◌,
}
use devops_cd.Text.{append}
use devops_cd.Result.{Result, ok, err, validation, value_error, and_then}
use devops_cd.State.{Params, snapshot, DeployLog, StageTime, State, User}
use devops_cd.Auth.Perms.{enforce_deploy_perm}
use devops_cd.DeployRun.Records.{
  NewRecord, claim_pending_deploy_record, start_deploy_record, find_running_deploy,
}
use devops_cd.Approval.Env.{Env}
use devops_cd.Approval.Execution.{no_params}
use devops_cd.Deploy.Tag.{valid_tag}
use devops_cd.Deploy.Options.{Options, options_of, drop_prefix}
use devops_cd.Deploy.Targets.{Target, Decrypt, get_targets}

-- What `deployer.deploy` does: a result, DeployCancelled, or any other exception with its text.
pub data Outcome : Type 0 where
  finished : (status output : String) → Outcome
  cancelled : Outcome
  raised : String → Outcome

-- A deployer of backend/deployers: `validate(target)` answers "" or what is wrong.
pub record Deployer : Type 0 where
  pub validate : Target → Options → Result String
  pub deploy : Target → Options → (image project_key tag : String) → State → Outcome × State
  -- the measured milliseconds of a server's part
  pub took : Target → ℕ

-- What `execute` uses besides the database.
pub record Site : Type 0 where
  pub env : Env
  -- `CiService.resolve_project_key`
  pub project_key : String → Option String
  pub decrypt : Decrypt
  -- `deployer_registry`
  pub deployers : String → Option Deployer
  -- the measured milliseconds of a deployment
  pub elapsed : List StageTime → ℕ

-- What is fixed before the record of the deployment is opened.
pub record Plan : Type 0 where
  pub params : Params
  pub triggered_by : String
  pub image : String
  pub project_key : String
  pub options : Options
  pub targets : List Target
  pub deployer : Deployer
  pub approval_id : ℕ

abbrev pub name_of : Option User → String
name_of none = ""
name_of (some u) = u.username

abbrev pub check_user : Site → Params → Option User → Result (Unit {0})
check_user site p none = ok tt
check_user site p (some u) = enforce_deploy_perm site.env.settings u p.deploy_type ""

abbrev pub or_project : Option String → String → String
or_project none project = project
or_project (some key) project = key

abbrev pub image_of : Site → Params → Result String
image_of site p = elim (site.env.harbor_repo p.project) [
  | none ↦ err (value_error "registry_repository")
  | some repo ↦ elim site.env.registry_base [
    | none ↦ err (value_error "registry")
    | some base ↦ ok (append base (append "/" (append repo (append ":" p.tag))))
  ]
]

abbrev pub has_prefix : String → String → Bool
has_prefix m s = elim (drop_prefix m s) [ none ↦ false | some rest ↦ true ]

abbrev pub not_running : Option DeployLog → Result (Unit {0})
not_running none = ok tt
not_running (some r) = err (validation "errors.deploy_busy")

abbrev pub check_tag : String → Result (Unit {0})
check_tag tag = if valid_tag tag then ok tt else err (value_error "tag")

abbrev pub check_type : String → Result (Unit {0})
check_type deploy_type = if has_prefix "k8s/" deploy_type then err (value_error "k8s") else ok tt

abbrev pub key_of : Site → Params → String
key_of site p = or_project (site.project_key p.project) p.project

-- The checks in front of the record, in their order, and the name of the image.
unfoldable pub checked_image : Site → Params → Option User → State → Result String
checked_image site p user s = and_then (check_type p.deploy_type) λ _.
    and_then (check_user site p user) λ _. and_then (check_tag p.tag) λ _.
      and_then (image_of site p)
        λ image. and_then (not_running (find_running_deploy (key_of site p) s)) λ _. ok image

-- The first error of the three stays.
abbrev pub make_plan :
    Site
    → Params
    → Option User
    → ℕ
    → Result String
    → Option Deployer
    → Result (List Target)
    → Result Plan
make_plan site p user i (err e) d ts = err e
make_plan site p user i (ok image) none ts = err (value_error "Unsupported deploy type")
make_plan site p user i (ok image) (some d) (err e) = err e
make_plan site p user i (ok image) (some d) (ok []) =
    err (value_error "No available target servers")
make_plan site p user i (ok image) (some d) (ok (t ∷ ts)) = ok (record {
  params = p;
  triggered_by = name_of user;
  image = image;
  project_key = key_of site p;
  options = options_of p;
  targets = t ∷ ts;
  deployer = d;
  approval_id = i;
})

unfoldable pub prepare : Site → Params → Option User → ℕ → State → Result Plan
prepare site p user i s =
    make_plan site p user i (checked_image site p user s) (site.deployers p.deploy_type)
      (get_targets site.decrypt p.server_ids s)

-- params_json
abbrev pub snapshot_of : Params → Params
snapshot_of p = record no_params {
  deploy_type = p.deploy_type;
  project = p.project;
  tag = p.tag;
  server_ids = p.server_ids;
  target_path = p.target_path;
  deploy_mode = p.deploy_mode;
  commands = p.commands;
  yaml_content = p.yaml_content;
  k8s_ns = p.k8s_ns;
  k8s_deploy = p.k8s_deploy;
  k8s_container = p.k8s_container;
  env_file = p.env_file;
  deploy_note = p.deploy_note;
  rollback_type = p.rollback_type;
  bot_id = p.bot_id;
  lang = p.lang;
}

abbrev pub new_record : Plan → NewRecord
new_record plan = record {
  deploy_type = plan.params.deploy_type;
  project = plan.project_key;
  tag = plan.params.tag;
  image = plan.image;
  triggered_by = plan.triggered_by;
  deploy_note = plan.params.deploy_note;
  target = "";
  params_json = snapshot (snapshot_of plan.params);
  rollback_type = plan.params.rollback_type;
  approval_id = plan.approval_id;
}

-- except ValueError as e: raise ValidationError(…, error_key="errors.deploy_busy")
abbrev pub as_busy : Result ℕ × State → Result ℕ × State
as_busy (ok d, s) = (ok d, s)
as_busy (err (value_error m), s) = (err (validation "errors.deploy_busy"), s)
as_busy (err e, s) = (err e, s)

abbrev pub start_if_none : Site → NewRecord → Result ℕ × State → Result ℕ × State
start_if_none site new (err e, s) = (err e, s)
start_if_none site new (ok d, s) =
    if d == 0 then start_deploy_record site.env.instance_id site.env.epoch new s else (ok d, s)

-- The pending record of the approval, or a new one.
unfoldable pub open_as : Site → String → ℕ → NewRecord → State → Result ℕ × State
open_as site project_key approval_id new s = as_busy (
    start_if_none site new
      (claim_pending_deploy_record site.env.instance_id site.env.epoch project_key approval_id s))

unfoldable pub open_record : Site → Plan → State → Result ℕ × State
unfolding open_as
open_record site plan s = open_as site plan.project_key plan.approval_id (new_record plan) s
