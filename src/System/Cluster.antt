-- ===== src/System/Cluster.antt =====
-- The K8S route is a sequence of steps, and with it a round of the scheduler that deploys over both
-- routes.
use devops_cd.Prelude.{
  ℕ, String, Bool, true, false, Option, some, none, ◌≡◌, refl, ◌==◌, inl, inr, Bool-cases,
  if◌then◌else◌,
}
use devops_cd.Result.{Result, ok, err, OnOk, and_then}
use devops_cd.State.{Params, State, User}
use devops_cd.Approval.Env.{Env}
use devops_cd.Approval.Scheduler.{run_due_scheduled}
use devops_cd.DeployRun.Records.{find_running_deploy}
use devops_cd.Deploy.Plan.{Site}
use devops_cd.Deploy.Closing.{terminated-Stops, failed-Stops}
use devops_cd.Deploy.Executor.{execute_from_params}
use devops_cd.Deploy.K8s.{
  Host, Image, Outcome, Deployer, Cluster, Plan, Executed, conclude_k8s, run_deployer, run_opened,
  open_plan, run_plan, plan_with, check_tag, not_running, checked_plan, deploy_k8s_core, notify_k8s,
  notified, with_host, with_image, resolve_image, resolve_cluster, k8s_fields, execute_k8s,
  new_record, deploy_type_of,
}
use devops_cd.Deploy.K8sClosing.{status_of-Stops}
use devops_cd.System.{Step, Reach}
use devops_cd.System.Traces.{Reach-trans, one_step, open_as-Reach, IsQuietSite, IsQuietRoute}
use devops_cd.System.Rounds.{scheduler_refines_steps}

-- What a deployer's call does to the state are steps of others.
abbrev pub IsQuietCluster : Cluster → Type 0
IsQuietCluster c =
    (name : String) (d : Deployer)
    → c.deployers name ≡ some d
    → (p : Params) (image short : String) (host : Host) (s : State)
    → Reach s (d.deploy p image short host s).1 × Reach s (d.rollback p short host s).1

abbrev IsQuietPlan : Plan → Type 0
IsQuietPlan plan =
    (p : Params) (image short : String) (host : Host) (s : State)
    → Reach s (plan.deployer.deploy p image short host s).1
      × Reach s (plan.deployer.rollback p short host s).1

conclude-Reach :
    (c : Cluster) (plan : Plan) (d : ℕ) (o : Outcome) (s : State)
    → Reach s (conclude_k8s c plan d o s).1
unfolding conclude_k8s
conclude-Reach c plan d (Outcome.returned success output summary) s =
    one_step (Step.finish c.site.env.settings d _ (status_of-Stops success))
conclude-Reach c plan d Outcome.cancelled s =
    one_step (Step.finish c.site.env.settings d _ terminated-Stops)
conclude-Reach c plan d (Outcome.raised m) s =
    one_step (Step.finish c.site.env.settings d _ failed-Stops)

either-Reach :
    (s : State) (b : Bool) (x y : Outcome × State)
    → Reach s x.1
    → Reach s y.1
    → Reach s (if b then x else y).1
either-Reach s true x y h k = h
either-Reach s false x y h k = k

run_deployer-Reach : (plan : Plan) (s : State) → IsQuietPlan plan → Reach s (run_deployer plan s).1
unfolding run_deployer
run_deployer-Reach plan s q =
    let quiet = q plan.params plan.image.image plan.image.project_short plan.host s in
    either-Reach s plan.rollback _ _ quiet.1 quiet.0

run_opened-Reach :
    (c : Cluster) (plan : Plan) (s : State) (r : Result ℕ × State)
    → IsQuietPlan plan
    → Reach s r.1
    → Reach s (run_opened c plan r).1
run_opened-Reach c plan s (err e, t) q h = h
run_opened-Reach c plan s (ok d, t) q h =
    let opened = Reach.next h (Step.register d) in
    Reach.next
      (Reach-trans opened (Reach-trans (run_deployer-Reach plan _ q) (conclude-Reach c plan d _ _)))
      (Step.unregister d)

run_plan-Reach :
    (c : Cluster) (r : Result Plan) (s : State) → OnOk IsQuietPlan r → Reach s (run_plan c r s).1
run_plan-Reach c (err e) s q = Reach.here
run_plan-Reach c (ok plan) s q = run_opened-Reach c plan s (open_plan c plan s) q (
    open_as-Reach c.site plan.image.project_key plan.approval_id
      (new_record plan.params plan.user plan.image plan.host plan.approval_id) s)

plan_with-IsQuiet :
    (p : Params) (u : User) (rollback : Bool) (i : ℕ) (image : Image) (host : Host)
    (o : Option Deployer)
    → ((d : Deployer)
        → o ≡ some d
        → (p : Params) (image short : String) (host : Host) (s : State)
        → Reach s (d.deploy p image short host s).1 × Reach s (d.rollback p short host s).1)
    → OnOk IsQuietPlan (plan_with p u rollback i image host o)
plan_with-IsQuiet p u rollback i image host none q = tt
plan_with-IsQuiet p u rollback i image host (some d) q = q d refl

and_then-OnOk {ℓ κ μ} :
    {A : Type ℓ} {B : Type κ} (P : B → Type μ) (r : Result A) (f : A → Result B)
    → ((a : A) → OnOk P (f a))
    → OnOk P (and_then r f)
and_then-OnOk P (ok a) f h = h a
and_then-OnOk P (err e) f h = tt

checked_plan-IsQuiet :
    (c : Cluster) (p : Params) (u : User) (rollback : Bool) (i : ℕ) (image : Image) (host : Host)
    (s : State)
    → IsQuietCluster c
    → OnOk IsQuietPlan (checked_plan c p u rollback i image host s)
unfolding checked_plan
checked_plan-IsQuiet c p u rollback i image host s q =
    let plan = plan_with p u rollback i image host (c.deployers (deploy_type_of p)) in
    let idle = not_running (find_running_deploy image.project_key s) in
    and_then-OnOk IsQuietPlan (check_tag p.tag) (λ _. and_then idle λ _. plan)
      λ _.
        and_then-OnOk IsQuietPlan idle (λ _. plan)
          λ _.
            plan_with-IsQuiet p u rollback i image host (c.deployers (deploy_type_of p))
              (q (deploy_type_of p))

pub notify-Reach :
    (p : Params) (image : Image) (host : Host) (success : Bool) (s t : State)
    → Reach s t
    → Reach s (notify_k8s p image host success t)
notify-Reach p image host success s t h = elim (Bool-cases (p.bot_id == 0)) [
  | inl silent ↦ rw silent h
  | inr bot ↦ rw bot (Reach.next h (Step.notified _))
]

notified-Reach :
    (p : Params) (image : Image) (host : Host) (s : State) (r : Result Executed × State)
    → Reach s r.1
    → Reach s (notified p image host r).1
notified-Reach p image host s (err e, t) h = h
notified-Reach p image host s (ok x, t) h = elim (Bool-cases x.cancelled) [
  | inl stopped ↦ rw stopped h
  | inr ran ↦ rw ran (notify-Reach p image host x.success s t h)
]

-- `_deploy_k8s_core` is a sequence of steps.
pub core-Reach :
    (c : Cluster) (p : Params) (u : User) (rollback : Bool) (i : ℕ) (image : Image) (host : Host)
    (s : State)
    → IsQuietCluster c
    → Reach s (deploy_k8s_core c p u rollback i image host s).1
unfolding deploy_k8s_core
core-Reach c p u rollback i image host s q =
    run_plan-Reach c (checked_plan c p u rollback i image host s) s
      (checked_plan-IsQuiet c p u rollback i image host s q)

with_host-Reach :
    (c : Cluster) (p : Params) (u : User) (rollback : Bool) (i : ℕ) (image : Image)
    (r : Result Host) (s : State)
    → IsQuietCluster c
    → Reach s (with_host c p u rollback i image r s).1
with_host-Reach c p u rollback i image (err e) s q = Reach.here
with_host-Reach c p u rollback i image (ok host) s q =
    notified-Reach p image host s (deploy_k8s_core c p u rollback i image host s)
      (core-Reach c p u rollback i image host s q)

with_image-Reach :
    (c : Cluster) (p : Params) (u : User) (rollback : Bool) (i : ℕ) (r : Result Image) (s : State)
    → IsQuietCluster c
    → Reach s (with_image c p u rollback i r s).1
with_image-Reach c p u rollback i (err e) s q = Reach.here
with_image-Reach c p u rollback i (ok image) s q =
    with_host-Reach c p u rollback i image (resolve_cluster c p s) s q

pub execute_k8s-Reach : (c : Cluster) → IsQuietCluster c → IsQuietRoute (execute_k8s c)
unfolding execute_k8s
execute_k8s-Reach c q p u rollback i s =
    with_image-Reach c (k8s_fields p) u rollback i (resolve_image c (k8s_fields p)) s q

-- A round of the scheduler that deploys with `execute_from_params` over SSH, Compose and K8S is a
-- sequence of the transactions of `Step`, provided that what happens while a deployer runs is one.
pub scheduler_refines_both_routes :
    (e : Env) (site : Site) (c : Cluster)
    → IsQuietSite site
    → IsQuietCluster c
    → (s : State) → Reach s (run_due_scheduled e (execute_from_params site (execute_k8s c)) s).1
scheduler_refines_both_routes e site c q k s =
    scheduler_refines_steps e site (execute_k8s c) q (execute_k8s-Reach c k) s
