-- ===== src/Deploy/K8s.antt =====
-- backend/services/k8s_deploy_service.py, and the K8S route of backend/services/deploy_executor.py.
-- The deployers (kubectl, helm, Argo CD, Flux) are arguments. A snapshot of this route has the key
-- cd_type.
use devops_cd.Prelude.{
  ℕ, String, Bool, true, false, not, ◌&&◌, Option, none, some, List, [], ◌∷◌, ◌++◌, ◌==◌,
  if◌then◌else◌, find_first,
}
use devops_cd.Text.{is_empty, append, strip, split, take}
use devops_cd.Result.{Result, ok, err, app, not_found, validation, unexpected, and_then}
use devops_cd.State.{Params, snapshot, RunStatus, Server, Notice, DeployLog, State, User}
use devops_cd.DeployRun.Signals
use devops_cd.DeployRun.Records.{NewRecord, finish_deploy_record, find_running_deploy}
use devops_cd.Approval.Execution.{RunResult, Executor, no_params}
use devops_cd.Deploy.Tag.{valid_tag}
use devops_cd.Deploy.Plan.{Site, or_project, open_as}

-- The address and the credentials of a cluster's server.
pub record Host : Type 0 where
  pub host : String
  pub port : ℕ
  pub user : String
  pub password : String
  pub ssh_key : String

-- What a call of a deployer does: the result dict, DeployCancelled, or another exception.
pub data Outcome : Type 0 where
  returned : (success : Bool) (output rollback_summary : String) → Outcome
  cancelled : Outcome
  raised : String → Outcome

pub record Deployer : Type 0 where
  pub deploy : Params → (image project_short : String) → Host → State → Outcome × State
  pub rollback : Params → (project_short : String) → Host → State → Outcome × State

-- `deployer_registry.create("k8s/…")`, and the measured milliseconds of a deployment.
pub record Cluster : Type 0 where
  pub site : Site
  pub deployers : String → Option Deployer
  pub duration_ms : ℕ

abbrev host_with : Server → Option String → Option String → Result Host
host_with r (some password) (some ssh_key) =
    ok (record {
      host = r.host;
      port = r.port;
      user = r.user;
      password = password;
      ssh_key = ssh_key;
    })
host_with r (some password) none = err (app 500 "")
host_with r none ssh_key = err (app 500 "")

abbrev host_of : Cluster → Option Server → Result Host
host_of c none = err (not_found "errors.cluster_not_found")
host_of c (some r) = host_with r (c.site.decrypt r.password) (c.site.decrypt r.ssh_key)

unfoldable pub resolve_cluster : Cluster → Params → State → Result Host
resolve_cluster c p s =
    if p.cluster_id == 0
    then err (validation "errors.select_cluster")
    else host_of c (find_first (λ (r : Server). r.id == p.cluster_id) s.servers)

pub record Image : Type 0 where
  pub image : String
  pub project_key : String
  pub project_short : String

abbrev last_part : String → List String → String
last_part x [] = x
last_part x (y ∷ ys) = last_part y ys

abbrev image_with : Cluster → Params → Option String → Option String → Result Image
image_with c p none base = err (validation "errors.no_harbor_repo")
image_with c p (some repo) none = err (validation "")
image_with c p (some repo) (some base) =
    let key = or_project (c.site.project_key p.project) p.project in
    ok (record {
      image = append base (append "/" (append repo (append ":" p.tag)));
      project_key = key;
      project_short = last_part "" (split b'/' key);
    })

unfoldable pub resolve_image : Cluster → Params → Result Image
unfolding split
resolve_image c p = image_with c p (c.site.env.harbor_repo p.project) c.site.env.registry_base

abbrev pub deploy_type_of : Params → String
deploy_type_of p = append "k8s/" p.cd_type

-- `k8s_params`: params_json of an approval
abbrev pub k8s_params : Params → Params
k8s_params p = record no_params {
  deploy_type = deploy_type_of p;
  project = p.project;
  tag = p.tag;
  cd_type = p.cd_type;
  cluster_id = p.cluster_id;
  path = p.path;
  api_url = p.api_url;
  k8s_ns = p.k8s_ns;
  deploy_note = p.deploy_note;
  bot_id = p.bot_id;
  lang = p.lang;
}

-- params_json of a record, which has every field of the request
abbrev pub k8s_snapshot : Params → Params
k8s_snapshot p = record (k8s_params p) { scheduled_at = p.scheduled_at }

abbrev pub new_record : Params → User → Image → Host → ℕ → NewRecord
new_record p u image host approval_id = record {
  deploy_type = deploy_type_of p;
  project = image.project_key;
  tag = p.tag;
  image = image.image;
  triggered_by = u.username;
  deploy_note = p.deploy_note;
  target = host.host;
  params_json = snapshot (k8s_snapshot p);
  rollback_type = "manual";
  approval_id = approval_id;
}

-- What is fixed before the record is opened.
pub record Plan : Type 0 where
  pub params : Params
  pub user : User
  pub image : Image
  pub host : Host
  pub deployer : Deployer
  pub rollback : Bool
  pub approval_id : ℕ

abbrev pub check_tag : String → Result (Unit {0})
check_tag tag = if valid_tag tag then ok tt else err (validation "errors.deploy_validation")

abbrev pub not_running : Option DeployLog → Result (Unit {0})
not_running none = ok tt
not_running (some r) = err (validation "errors.deploy_busy")

abbrev pub plan_with : Params → User → Bool → ℕ → Image → Host → Option Deployer → Result Plan
plan_with p u rollback i image host none = err (validation "errors.unsupported_cd_type")
plan_with p u rollback i image host (some d) = ok (record {
  params = p;
  user = u;
  image = image;
  host = host;
  deployer = d;
  rollback = rollback;
  approval_id = i;
})

-- The checks of `_deploy_k8s_core`, in their order.
unfoldable pub checked_plan :
    Cluster → Params → User → Bool → ℕ → Image → Host → State → Result Plan
checked_plan c p u rollback i image host s = and_then (check_tag p.tag) λ _.
    and_then (not_running (find_running_deploy image.project_key s))
      λ _. plan_with p u rollback i image host (c.deployers (deploy_type_of p))

abbrev pub finish_with : Cluster → Plan → ℕ → String → String → Option String → State → State
finish_with c plan d status output note s =
    finish_deploy_record c.site.env.settings d
      (record {
        status = status;
        target = plan.host.host;
        output = output;
        duration_ms = c.duration_ms;
        stage_times =
            record {
              server_id = 0;
              host = plan.host.host;
              status = status;
              duration_ms = c.duration_ms;
            }
            ∷ [];
        note = note;
        project = plan.image.project_key;
      })
      s

abbrev pub status_of : Bool → String
status_of success = if success then "ok" else "failed"

-- A native rollback names what it went back to in front of the note.
unfoldable pub k8s_note : Plan → String → Option String
unfolding strip
k8s_note plan summary =
    if plan.rollback && not (is_empty summary)
    then some (strip (append summary (append " " (strip plan.params.deploy_note))))
    else none

-- The result dict.
pub record Executed : Type 0 where
  pub success : Bool
  pub cancelled : Bool
  pub output : String
  pub deploy_id : ℕ

-- What follows the deployer's call: the record is finished, and the reply or the exception.
unfoldable pub conclude_k8s : Cluster → Plan → ℕ → Outcome → State → Result Executed × State
unfolding k8s_note
conclude_k8s c plan d (Outcome.returned success output summary) s = (
  ok (record { success = success; cancelled = false; output = output; deploy_id = d }),
  finish_with c plan d (status_of success) output (k8s_note plan summary) s,
)
conclude_k8s c plan d Outcome.cancelled s = (
  ok (record {
    success = false;
    cancelled = true;
    output = "Deployment cancelled by user";
    deploy_id = d;
  }),
  finish_with c plan d "terminated" "Deployment cancelled by user" none s,
)
conclude_k8s c plan d (Outcome.raised m) s = (
  err (unexpected m),
  finish_with c plan d "failed" (take c.site.env.settings.log_truncate_chars m) none s,
)

unfoldable pub run_deployer : Plan → State → Outcome × State
run_deployer plan s =
    if plan.rollback
    then plan.deployer.rollback plan.params plan.image.project_short plan.host s
    else plan.deployer.deploy plan.params plan.image.image plan.image.project_short plan.host s

abbrev pub concluded : Cluster → Plan → ℕ → Outcome × State → Result Executed × State
concluded c plan d (o, s) = conclude_k8s c plan d o s

-- The cancel signal is there from the opening of the record to the end.
abbrev pub with_signal : ℕ → (State → Result Executed × State) → State → Result Executed × State
with_signal d body s =
    let (r, t) = body (record s { events = Signals.register d s.events }) in
    (r, record t { events = Signals.unregister d t.events })

abbrev pub run_opened : Cluster → Plan → Result ℕ × State → Result Executed × State
run_opened c plan (err e, s) = (err e, s)
run_opened c plan (ok d, s) = with_signal d (λ t. concluded c plan d (run_deployer plan t)) s

abbrev pub open_plan : Cluster → Plan → State → Result ℕ × State
open_plan c plan s =
    open_as c.site plan.image.project_key plan.approval_id
      (new_record plan.params plan.user plan.image plan.host plan.approval_id) s

abbrev pub run_plan : Cluster → Result Plan → State → Result Executed × State
run_plan c (err e) s = (err e, s)
run_plan c (ok plan) s = run_opened c plan (open_plan c plan s)

unfoldable pub deploy_k8s_core :
    Cluster → Params → User → Bool → ℕ → Image → Host → State → Result Executed × State
unfolding checked_plan run_deployer conclude_k8s
deploy_k8s_core c p u rollback i image host s =
    run_plan c (checked_plan c p u rollback i image host s) s

-- `_notify_k8s`; nothing is sent without a bot.
abbrev pub notify_k8s : Params → Image → Host → Bool → State → State
notify_k8s p image host success s = if p.bot_id == 0 then s else record s {
  notices =
      s.notices
      ++ Notice.finished p.bot_id p.tag image.project_key image.image
          (if success then "✅ Success" else "❌ Failed") p.cd_type
          (append "k8s[" (append host.host "]") ∷ [])
        ∷ [];
}

abbrev pub run_status : Executed → RunStatus
run_status x =
    if x.cancelled
    then RunStatus.cancelled
    else if x.success
    then RunStatus.ok
    else RunStatus.failed

abbrev pub notified : Params → Image → Host → Result Executed × State → Result RunResult × State
notified p image host (err e, s) = (err e, s)
notified p image host (ok x, s) = (
  ok (record { status = run_status x; deploy_id = x.deploy_id; output = x.output }),
  if x.cancelled then s else notify_k8s p image host x.success s,
)

abbrev pub with_host :
    Cluster → Params → User → Bool → ℕ → Image → Result Host → State → Result RunResult × State
with_host c p u rollback i image (err e) s = (err e, s)
with_host c p u rollback i image (ok host) s =
    notified p image host (deploy_k8s_core c p u rollback i image host s)

abbrev pub with_image :
    Cluster → Params → User → Bool → ℕ → Result Image → State → Result RunResult × State
with_image c p u rollback i (err e) s = (err e, s)
with_image c p u rollback i (ok image) s =
    with_host c p u rollback i image (resolve_cluster c p s) s

-- _K8S_FIELDS has no scheduled_at, whose default is empty.
abbrev pub k8s_fields : Params → Params
k8s_fields p = record p { scheduled_at = "" }

unfoldable pub execute_k8s : Cluster → Executor
unfolding resolve_image resolve_cluster deploy_k8s_core
execute_k8s c p u rollback i s =
    with_image c (k8s_fields p) u rollback i (resolve_image c (k8s_fields p)) s
