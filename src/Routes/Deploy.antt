-- ===== src/Routes/Deploy.antt =====
-- `deploy`, `deploy_stream`, `deploy_k8s` and `deploy_k8s_stream`. The text that a stream shows
-- while the deployment runs is left out, and with it the queue between the thread and the stream.
use devops_cd.Prelude.{ℕ, String, Bool, false, some, ◌==◌, if◌then◌else◌}
use devops_cd.Text.Digits.{decimal}
use devops_cd.Result.{Result, ok, err, Error, validation, value_error, unexpected, and_then}
use devops_cd.State.{Params, State, User}
use devops_cd.Auth.Perms.{manage_perm, require_perm, enforce_deploy_perm}
use devops_cd.Approval.Gate.{Request}
use devops_cd.Approval.Execution.{no_params}
use devops_cd.Deploy.Plan.{Site, has_prefix, snapshot_of}
use devops_cd.Deploy.Service.{execute}
use devops_cd.Deploy.Service
use devops_cd.Deploy.K8s
use devops_cd.Deploy.K8s.{
  Cluster, Image, Host, check_tag, deploy_type_of, k8s_params, resolve_image, resolve_cluster,
  deploy_k8s_core, notify_k8s,
}
use devops_cd.Routes.Submit.{Submitted, Event, gated}

-- DeployRequest and K8sDeployRequest: the parameters of a deployment, with a time.
pub record DeployRequest : Type 0 where
  pub params : Params

-- `ssh_params`; the snapshot has no rollback_type.
abbrev pub ssh_params : Params → Params
ssh_params p = record (snapshot_of p) { rollback_type = no_params.rollback_type }

-- The arguments of `gate_deploy`.
abbrev pub ssh_gate : DeployRequest → User → Request
ssh_gate q u = record {
  project = q.params.project;
  tag = q.params.tag;
  deploy_type = q.params.deploy_type;
  server_ids = q.params.server_ids;
  params = ssh_params q.params;
  requester = u.username;
  for_rollback = false;
  scheduled_at = q.params.scheduled_at;
}

abbrev pub cluster_text : ℕ → String
cluster_text i = if i == 0 then "" else decimal i

abbrev pub k8s_gate : DeployRequest → User → Request
k8s_gate q u = record {
  project = q.params.project;
  tag = q.params.tag;
  deploy_type = deploy_type_of q.params;
  server_ids = cluster_text q.params.cluster_id;
  params = k8s_params q.params;
  requester = u.username;
  for_rollback = false;
  scheduled_at = q.params.scheduled_at;
}

-- require_perm("cd.deploy-manage")
abbrev pub may_manage : Site → User → Result (Unit {0})
may_manage site u = and_then (require_perm site.env.settings manage_perm u) λ _. ok tt

abbrev wrong_api : Error
wrong_api = validation "errors.wrong_deploy_api"

abbrev pub check_api : String → Result (Unit {0})
check_api deploy_type = if has_prefix "k8s/" deploy_type then err wrong_api else ok tt

-- The sub-permission of the type, and the tag.
abbrev pub ssh_checks : Site → Params → User → Result (Unit {0})
ssh_checks site p u =
    and_then (enforce_deploy_perm site.env.settings u p.deploy_type "") λ _. check_tag p.tag

abbrev pub k8s_perm : String
k8s_perm = "cd.deploy.k8s"

-- require_perm("cd.deploy.k8s"), the sub-permission of the type, and the tag.
abbrev pub k8s_checks : Cluster → Params → User → Result (Unit {0})
k8s_checks c p u =
    and_then (require_perm c.site.env.settings k8s_perm u)
      λ _. and_then (enforce_deploy_perm c.site.env.settings u "k8s" p.cd_type) λ _. check_tag p.tag

-- `except (ValueError, KeyError, TypeError)`; `malformed` says which of the exceptions that
-- `unexpected` stands for are KeyError or TypeError.
abbrev pub as_validation : (String → Bool) → Error → Error
as_validation malformed (value_error m) = validation "errors.deploy_validation"
as_validation malformed (unexpected m) =
    if malformed m then validation "errors.deploy_validation" else unexpected m
as_validation malformed e = e

abbrev pub validated :
    (String → Bool) → Result Service.Executed × State → Result Service.Executed × State
validated malformed (ok a, s) = (ok a, s)
validated malformed (err e, s) = (err (as_validation malformed e), s)

abbrev pub run_ssh : Site → Params → User → State → Result Service.Executed × State
run_ssh site p u s = execute site (ssh_params p) (some u) 0 s

unfoldable pub deploy :
    Site
    → (String → Bool)
    → DeployRequest
    → User
    → State
    → Result (Submitted Service.Executed) × State
deploy site malformed q u s =
    gated site.env (ssh_gate q u) (λ t. validated malformed (run_ssh site q.params u t))
      (and_then (may_manage site u)
        λ _. and_then (check_api q.params.deploy_type) λ _. ssh_checks site q.params u)
      s

-- What `do_deploy` leaves for the stream.
abbrev pub ssh_event : Result Service.Executed × State → Result Event × State
ssh_event (ok x, s) = (ok (Event.ended x.success), s)
ssh_event (err e, s) = (ok (Event.failed e), s)

-- Behind the check of the permission; a wrong type ends the stream at once.
abbrev pub ssh_stream :
    Site → DeployRequest → User → Result (Unit {0}) → State → Result (Submitted Event) × State
ssh_stream site q u (err e) s = (ok (Submitted.refused e), s)
ssh_stream site q u (ok _) s =
    gated site.env (ssh_gate q u) (λ t. ssh_event (run_ssh site q.params u t))
      (ssh_checks site q.params u) s

abbrev pub stream_with :
    Site → DeployRequest → User → Result (Unit {0}) → State → Result (Submitted Event) × State
stream_with site q u (err e) s = (err e, s)
stream_with site q u (ok _) s = ssh_stream site q u (check_api q.params.deploy_type) s

unfoldable pub deploy_stream :
    Site → DeployRequest → User → State → Result (Submitted Event) × State
deploy_stream site q u s = stream_with site q u (may_manage site u) s

-- A message is sent for every deployment that was not cancelled.
abbrev pub announced :
    Params → Image → Host → Result K8s.Executed × State → Result K8s.Executed × State
announced p image host (err e, s) = (err e, s)
announced p image host (ok x, s) =
    (ok x, if x.cancelled then s else notify_k8s p image host x.success s)

abbrev pub run_core : Cluster → Params → User → Image → Host → State → Result K8s.Executed × State
run_core c p u image host s = announced p image host (deploy_k8s_core c p u false 0 image host s)

abbrev pub core_with :
    Cluster → Params → User → Result Image → Result Host → State → Result K8s.Executed × State
core_with c p u (err e) host s = (err e, s)
core_with c p u (ok image) (err e) s = (err e, s)
core_with c p u (ok image) (ok host) s = run_core c p u image host s

abbrev pub run_k8s : Cluster → Params → User → State → Result K8s.Executed × State
run_k8s c p u s = core_with c p u (resolve_image c p) (resolve_cluster c p s) s

unfoldable pub deploy_k8s :
    Cluster → DeployRequest → User → State → Result (Submitted K8s.Executed) × State
deploy_k8s c q u s =
    gated c.site.env (k8s_gate q u) (run_k8s c q.params u) (k8s_checks c q.params u) s

-- `except AppException` around the two look-ups, `except Exception` around the deployment: each of
-- them is an ERROR event.
abbrev pub k8s_event : Result K8s.Executed × State → Result Event × State
k8s_event (ok x, s) = (ok (Event.ended x.success), s)
k8s_event (err e, s) = (ok (Event.failed e), s)

unfoldable pub deploy_k8s_stream :
    Cluster → DeployRequest → User → State → Result (Submitted Event) × State
deploy_k8s_stream c q u s =
    gated c.site.env (k8s_gate q u) (λ t. k8s_event (run_k8s c q.params u t))
      (k8s_checks c q.params u) s
