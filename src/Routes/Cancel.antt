-- ===== src/Routes/Cancel.antt =====
-- `deploy_cancel`.
use devops_cd.Prelude.{
  ℕ, String, Bool, false, ◌&&◌, Option, none, some, ◌==◌, str_eq, find_last, if◌then◌else◌,
}
use devops_cd.Text.{is_empty}
use devops_cd.Result.{Result, ok, err, validation}
use devops_cd.State.{Settings, DeployLog, State, User}
use devops_cd.Auth.Perms.{enforce_deploy_perm}
use devops_cd.DeployRun.Records.{is_running, mark_deploy_cancelled}
use devops_cd.Deploy.Options.{drop_prefix}

pub record CancelRequest : Type 0 where
  pub deploy_id : ℕ
  pub project : String

-- The running record of the id, and without an id the last running one of the project.
unfoldable pub find_cancelled : CancelRequest → State → Option DeployLog
find_cancelled q s =
    if q.deploy_id == 0
    then find_last (λ (r : DeployLog). str_eq r.project q.project && is_running r.status) s.logs
    else find_last (λ (r : DeployLog). r.id == q.deploy_id && is_running r.status) s.logs

abbrev pub perm_of : Settings → User → String → Option String → Result (Unit {0})
perm_of c u deploy_type (some cd_type) = enforce_deploy_perm c u "k8s" cd_type
perm_of c u deploy_type none = enforce_deploy_perm c u deploy_type ""

abbrev pub or_ssh : String → String
or_ssh deploy_type = if is_empty deploy_type then "ssh" else deploy_type

-- The permission for the type of a record; one of a cluster is written k8s/….
unfoldable pub check_cancel_perm : Settings → User → DeployLog → Result (Unit {0})
unfolding drop_prefix
check_cancel_perm c u r =
    perm_of c u (or_ssh r.deploy_type) (drop_prefix "k8s/" (or_ssh r.deploy_type))

abbrev pub as_reply : Bool × State → Result Bool × State
as_reply (success, s) = (ok success, s)

abbrev pub cancel_checked : ℕ → Result (Unit {0}) → State → Result Bool × State
cancel_checked i (err e) s = (err e, s)
cancel_checked i (ok _) s = as_reply (mark_deploy_cancelled i s)

abbrev pub cancel_found : Settings → User → Option DeployLog → State → Result Bool × State
cancel_found c u none s = (ok false, s)
cancel_found c u (some r) s = cancel_checked r.id (check_cancel_perm c u r) s

-- The `success` of the reply.
unfoldable pub deploy_cancel : Settings → CancelRequest → User → State → Result Bool × State
unfolding find_cancelled check_cancel_perm
deploy_cancel c q u s =
    if (q.deploy_id == 0) && is_empty q.project
    then (err (validation "errors.deploy_validation"), s)
    else cancel_found c u (find_cancelled q s) s
