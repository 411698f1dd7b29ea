-- ===== src/Routes/Guards.antt =====
-- No deploying route gets past the approval gate.
use devops_cd.Prelude.{
  String, Bool, true, ◌≡◌, refl, arith, ◌||◌, ◌⊎◌, inl, inr, Option, none, some, str_eq,
}
use devops_cd.Text.{contains}
use devops_cd.Result.{Result, ok, err, and_then}
use devops_cd.State.{Settings, State, User}
use devops_cd.Auth.Perms.{manage_perm, wildcard_perm, require_perm, enforce_deploy_perm}
use devops_cd.Approval.Env.{Env}
use devops_cd.Approval.Rules.{approval_required}
use devops_cd.Approval.Schedule.{parse_scheduled_at}
use devops_cd.Approval.Gate.{Request, Ticket, gate_deploy}
use devops_cd.Approval.Keys.{IsKeyed}
use devops_cd.Approval.Submitting.{Gated, gate_deploy-Gated}
use devops_cd.Deploy.Tag.{valid_tag}
use devops_cd.Deploy.Plan.{Site}
use devops_cd.Deploy.K8s.{Cluster}
use devops_cd.Routes.Submit.{Submitted, gated, after_gate, as_executed}
use devops_cd.Routes.Deploy.{
  DeployRequest, ssh_gate, k8s_gate, k8s_perm, may_manage, check_api, ssh_checks, k8s_checks,
  validated, run_ssh, ssh_event, ssh_stream, stream_with, run_k8s, k8s_event, deploy, deploy_stream,
  deploy_k8s, deploy_k8s_stream,
}

-- The user is an administrator or has the permission, and the tag is one that passes.
abbrev pub IsEntitled : Settings → User → String → String → Type 0
IsEntitled c u perm tag =
    ((str_eq u.role c.super_admin_role
        || (contains wildcard_perm u.permissions || contains perm u.permissions))
      ≡ true)
    × (valid_tag tag ≡ true)

-- A deployment may start: no time was asked for and no rule needs an approval.
abbrev pub IsFree : Request → State → Type 0
IsFree q s =
    (parse_scheduled_at q.scheduled_at ≡ ok "")
    × (approval_required q.project q.server_ids q.for_rollback s ≡ ok none)

-- What the reply of a route says of the request and of the state in front of it.
abbrev pub Guarded : {A : Type 0} → Type 0 → Request → State → Result (Submitted A) × State → Type 0
Guarded Entitled q s (ok (Submitted.executed a), t) = Entitled × IsFree q s
Guarded Entitled q s (ok (Submitted.refused e), t) = t ≡ s
Guarded Entitled q s (err e, t) = (t ≡ s) ⊎ (Entitled × IsFree q s)
Guarded Entitled q s (ok (Submitted.pending ticket), t) =
    Entitled
    × Gated q (parse_scheduled_at q.scheduled_at)
        (approval_required q.project q.server_ids q.for_rollback s) s (ok (some ticket), t)

module _ {A : Type 0} (Entitled : Type 0) (c : Env) (q : Request) (run : State → Result A × State)
    (s : State) where
  executed-Guarded :
      Entitled × IsFree q s → (r : Result A × State) → Guarded Entitled q s (as_executed r)
  executed-Guarded h (ok a, t) = h
  executed-Guarded h (err e, t) = inr h

  after_gate-Guarded :
      Entitled
      → (r : Result (Option Ticket) × State)
      → Gated q
          (parse_scheduled_at q.scheduled_at)
          (approval_required q.project q.server_ids q.for_rollback s)
          s
          r
      → Guarded Entitled q s (after_gate run r)
  after_gate-Guarded a (err e, t) h = inl h
  after_gate-Guarded a (ok none, t) h = executed-Guarded (a, (h.1, h.2)) (run t)
  after_gate-Guarded a (ok (some ticket), t) h = (a, h)

  -- Behind checks that only an entitled request passes, the gate has been passed too.
  gated-Guarded :
      (r : Result (Unit {0}))
      → (r ≡ ok tt → Entitled)
      → IsKeyed s
      → Guarded Entitled q s (gated c q run r s)
  gated-Guarded (err e) a k = inl refl
  gated-Guarded (ok _) a k =
      after_gate-Guarded (a refl) (gate_deploy c q s) (gate_deploy-Gated c q s k)

ssh-IsEntitled :
    (site : Site) (q : DeployRequest) (u : User)
    → and_then
        (may_manage site u)
        (λ _. and_then (check_api q.params.deploy_type) λ _. ssh_checks site q.params u)
      ≡ ok tt
    → IsEntitled site.env.settings u manage_perm q.params.tag
unfolding require_perm enforce_deploy_perm
ssh-IsEntitled site q u h = ground arith

k8s-IsEntitled :
    (c : Cluster) (q : DeployRequest) (u : User)
    → k8s_checks c q.params u ≡ ok tt
    → IsEntitled c.site.env.settings u k8s_perm q.params.tag
unfolding require_perm enforce_deploy_perm
k8s-IsEntitled c q u h = ground arith

ssh_stream-IsEntitled :
    (site : Site) (q : DeployRequest) (u : User)
    → may_manage site u ≡ ok tt
    → ssh_checks site q.params u ≡ ok tt
    → IsEntitled site.env.settings u manage_perm q.params.tag
unfolding require_perm enforce_deploy_perm
ssh_stream-IsEntitled site q u h k = ground arith

module _ (site : Site) (q : DeployRequest) (u : User) (s : State) where
  abbrev Passes : Type 0
  Passes = IsEntitled site.env.settings u manage_perm q.params.tag

  ssh_stream-Guarded :
      (r : Result (Unit {0}))
      → may_manage site u ≡ ok tt
      → IsKeyed s
      → Guarded Passes (ssh_gate q u) s (ssh_stream site q u r s)
  ssh_stream-Guarded (err e) h k = refl
  ssh_stream-Guarded (ok _) h k =
      gated-Guarded Passes site.env (ssh_gate q u) (λ t. ssh_event (run_ssh site q.params u t)) s
        (ssh_checks site q.params u) (ssh_stream-IsEntitled site q u h) k

  stream_with-Guarded :
      (r : Result (Unit {0}))
      → (r ≡ ok tt → may_manage site u ≡ ok tt)
      → IsKeyed s
      → Guarded Passes (ssh_gate q u) s (stream_with site q u r s)
  stream_with-Guarded (err e) h k = inl refl
  stream_with-Guarded (ok _) h k = ssh_stream-Guarded (check_api q.params.deploy_type) (h refl) k

-- Where the ids of the approvals are in order, each of the routes `deploy`, `deploy_stream`,
-- `deploy_k8s` and `deploy_k8s_stream` starts a deployment only if the user is an administrator or
-- has the wildcard or the route's permission, the tag passes, no time is asked for and no rule needs
-- an approval; a request that gets a ticket waits under an approval and a pending record without a
-- lock; and where a route raises, or ends its stream with an error in front of the gate, either
-- nothing has changed or the deployment was free to start.
pub routes_guard :
    (site : Site) (c : Cluster) (malformed : String → Bool) (q : DeployRequest) (u : User)
    (s : State)
    → IsKeyed s
    → Guarded
        (IsEntitled site.env.settings u manage_perm q.params.tag)
        (ssh_gate q u)
        s
        (deploy site malformed q u s)
      × Guarded
          (IsEntitled site.env.settings u manage_perm q.params.tag)
          (ssh_gate q u)
          s
          (deploy_stream site q u s)
      × Guarded
          (IsEntitled c.site.env.settings u k8s_perm q.params.tag)
          (k8s_gate q u)
          s
          (deploy_k8s c q u s)
      × Guarded
          (IsEntitled c.site.env.settings u k8s_perm q.params.tag)
          (k8s_gate q u)
          s
          (deploy_k8s_stream c q u s)
unfolding deploy deploy_stream deploy_k8s deploy_k8s_stream
routes_guard site c malformed q u s k =
    let cluster = IsEntitled c.site.env.settings u k8s_perm q.params.tag in
    let env = c.site.env in
    (
      gated-Guarded (IsEntitled site.env.settings u manage_perm q.params.tag) site.env
          (ssh_gate q u) (λ t. validated malformed (run_ssh site q.params u t)) s _
          (ssh-IsEntitled site q u) k,
      stream_with-Guarded site q u s (may_manage site u) (λ h. h) k,
      gated-Guarded cluster env (k8s_gate q u) (run_k8s c q.params u) s (k8s_checks c q.params u)
          (k8s-IsEntitled c q u) k,
      gated-Guarded cluster env (k8s_gate q u) (λ t. k8s_event (run_k8s c q.params u t)) s
          (k8s_checks c q.params u) (k8s-IsEntitled c q u) k,
    )
