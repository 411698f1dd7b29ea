-- ===== src/Auth/Perms.antt =====
-- The permission checks of backend/auth.py.
use devops_cd.Prelude.{String, ◌≡◌, refl, ◌||◌, Option, none, some, [], ◌∷◌, str_eq, if◌then◌else◌}
use devops_cd.Text.{is_empty, append, contains}
use devops_cd.Result.{Result, ok, err, http}
use devops_cd.State.{User, Settings}

abbrev pub wildcard_perm : String
wildcard_perm = "*"

abbrev pub manage_perm : String
manage_perm = "cd.deploy-manage"

-- _DEPLOY_PERM_MAP.get(key)
unfoldable pub deploy_perm : String → Option String
deploy_perm key =
    if str_eq key "ssh"
    then some "cd.deploy.single"
    else if contains key ("compose" ∷ "docker" ∷ [])
    then some "cd.deploy.docker"
    else if contains key ("k8s/kubectl" ∷ "k8s/argocd" ∷ "k8s/fluxcd" ∷ "k8s/helm" ∷ [])
    then some "cd.deploy.k8s"
    else none

abbrev or_single : Option String → String
or_single none = "cd.deploy.single"
or_single (some perm) = perm

abbrev combined_or : Option String → String → String
combined_or (some perm) key = perm
combined_or none key = or_single (deploy_perm key)

unfoldable pub resolve_deploy_perm : String → String → String
unfolding deploy_perm
resolve_deploy_perm key cd_type =
    if is_empty cd_type
    then or_single (deploy_perm key)
    else combined_or (deploy_perm (append key (append "/" cd_type))) key

-- The check before a deployment runs: 403 without the sub-permission of its type.
unfoldable pub enforce_deploy_perm : Settings → User → String → String → Result (Unit {0})
enforce_deploy_perm c u deploy_type cd_type =
    if str_eq u.role c.super_admin_role
    then ok tt
    else if contains wildcard_perm u.permissions || contains manage_perm u.permissions
    then ok tt
    else if contains (resolve_deploy_perm deploy_type cd_type) u.permissions
    then ok tt
    else err (http 403)

-- The dependency that `require_perm(key)` makes.
unfoldable pub require_perm : Settings → String → User → Result User
require_perm c key u =
    if str_eq u.role c.super_admin_role
    then ok u
    else if contains wildcard_perm u.permissions || contains key u.permissions
    then ok u
    else err (http 403)

resolve_k8s : resolve_deploy_perm "k8s" "helm" ≡ "cd.deploy.k8s"
unfolding resolve_deploy_perm
resolve_k8s = refl

resolve_unknown : resolve_deploy_perm "lxc" "helm" ≡ "cd.deploy.single"
unfolding resolve_deploy_perm
resolve_unknown = refl
