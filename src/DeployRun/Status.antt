-- ===== src/DeployRun/Status.antt =====
-- `normalize_deploy_status` and `normalize_rollback_type` of backend/deploy_run.py. A status text is
-- returned as the status that the column holds.
use Prim.Native.Char.{Char}
use devops_cd.Prelude.{String, ◌≡◌, refl, [], ◌∷◌, str_eq, if◌then◌else◌}
use devops_cd.Text.{is_empty, strip, lower, replace, contains}
use devops_cd.State.{
  LogStatus, running, ok, failed, partial, terminated, interrupted, other, RollbackType, native,
  replay, manual,
}

underscore : Char
underscore = "_"

-- (raw or "").strip().lower().replace("-", "_").replace(" ", "_")
unfoldable pub canonical : String → String
unfolding strip lower replace underscore
canonical raw = replace b' ' underscore (replace b'-' underscore (lower (strip raw)))

-- aliases.get(value, value or "failed"), a value without an alias as the status of that text
unfoldable pub status_of : String → LogStatus
status_of value =
    if contains value ("ok" ∷ "success" ∷ "succeeded" ∷ "completed" ∷ [])
    then ok
    else if contains value ("failed" ∷ "failure" ∷ "error" ∷ [])
    then failed
    else if contains value ("running" ∷ "in_progress" ∷ [])
    then running
    else if contains value ("terminated" ∷ "cancelled" ∷ "canceled" ∷ "stopped" ∷ [])
    then terminated
    else if contains value ("interrupted" ∷ "interrupt" ∷ [])
    then interrupted
    else if str_eq value "partial"
    then partial
    else if is_empty value
    then failed
    else if str_eq value "pending"
    then LogStatus.pending
    else if str_eq value "rejected"
    then LogStatus.rejected
    else other value

unfoldable pub normalize_deploy_status : String → LogStatus
unfolding canonical status_of
normalize_deploy_status raw = status_of (canonical raw)

unfoldable pub normalize_rollback_type : String → RollbackType
unfolding canonical
normalize_rollback_type raw =
    let value = canonical raw in
    if contains value (
      "native" ∷ "native_rollback" ∷ "kubectl_rollback" ∷ "helm_rollback" ∷ "argocd_rollback"
      ∷ "rollback" ∷ [])
    then native
    else if contains value ("replay" ∷ "replay_rollback" ∷ "tag_rollback" ∷ [])
    then replay
    else manual

normalize_test : normalize_deploy_status " In-Progress " ≡ running
unfolding normalize_deploy_status
normalize_test = refl

normalize_cancelled : normalize_deploy_status "Cancelled" ≡ terminated
unfolding normalize_deploy_status
normalize_cancelled = refl

normalize_rollback_test : normalize_rollback_type "Helm-Rollback" ≡ native
unfolding normalize_rollback_type
normalize_rollback_test = refl
