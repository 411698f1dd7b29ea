-- ===== src/Deploy/K8sClosing.antt =====
-- backend/services/k8s_deploy_service.py: what a deployment to a cluster leaves behind.
use devops_cd.Prelude.{
  ℕ, ◌<◌, Bool, true, false, ◌≡◌, ◌≢◌, refl, sym, ◌==◌, any, Bool-cases, inl, inr,
}
use mathlib.Core.Path.{subst}
use devops_cd.Result.{Result, ok, err, OnOk}
use devops_cd.State.{Params, State, User}
use devops_cd.DeployRun.Signals
use devops_cd.DeployRun.Status.{normalize_deploy_status}
use devops_cd.Approval.Execution.{RunResult}
use devops_cd.Deploy.Closing.{
  runs_as, Stops, terminated-Stops, failed-Stops, finish-closed, signal_gone, IsClosed, IsId,
  open_as-IsId,
}
use devops_cd.Deploy.K8s.{
  Host, Image, Outcome, Cluster, Plan, Executed, status_of, conclude_k8s, run_deployer, run_opened,
  open_plan, run_plan, checked_plan, deploy_k8s_core, notify_k8s, notified, with_host, with_image,
  resolve_image, resolve_cluster, k8s_fields, execute_k8s, new_record,
}

pub status_of-Stops : (success : Bool) → Stops (status_of success)
unfolding normalize_deploy_status
status_of-Stops true = refl
status_of-Stops false = refl

conclude-closed :
    (c : Cluster) (plan : Plan) (d : ℕ) (o : Outcome) (s : State)
    → d ≢ 0
    → any (runs_as d) (conclude_k8s c plan d o s).1.logs ≡ false
unfolding conclude_k8s
conclude-closed c plan d (Outcome.returned success output summary) s h =
    finish-closed c.site.env.settings d _ s h (status_of-Stops success)
conclude-closed c plan d Outcome.cancelled s h =
    finish-closed c.site.env.settings d _ s h terminated-Stops
conclude-closed c plan d (Outcome.raised m) s h =
    finish-closed c.site.env.settings d _ s h failed-Stops

conclude_id :
    (c : Cluster) (plan : Plan) (d : ℕ) (o : Outcome) (s : State)
    → OnOk (λ x. x.deploy_id ≡ d) (conclude_k8s c plan d o s).0
unfolding conclude_k8s
conclude_id c plan d (Outcome.returned success output summary) s = refl
conclude_id c plan d Outcome.cancelled s = refl
conclude_id c plan d (Outcome.raised m) s = tt

IsClosed-reply :
    (d : ℕ) (r : Result Executed) (s : State)
    → IsClosed d s
    → OnOk (λ x. x.deploy_id ≡ d) r
    → OnOk (λ x. IsClosed x.deploy_id s) r
IsClosed-reply d (ok x) s c e = subst (λ i. IsClosed i s) (sym e) c
IsClosed-reply d (err k) s c e = tt

run_opened-IsClosed :
    (c : Cluster) (plan : Plan) (r : Result ℕ × State)
    → IsId r.0
    → OnOk (λ x. IsClosed x.deploy_id (run_opened c plan r).1) (run_opened c plan r).0
run_opened-IsClosed c plan (err e, s) h = tt
run_opened-IsClosed c plan (ok d, s) h =
    let t = record s { events = Signals.register d s.events } in
    let (o, u) = run_deployer plan t in
    IsClosed-reply d (conclude_k8s c plan d o u).0 (run_opened c plan (ok d, s)).1
      (conclude-closed c plan d o u h, signal_gone d (conclude_k8s c plan d o u).1.events)
      (conclude_id c plan d o u)

run_plan-IsClosed :
    (c : Cluster) (r : Result Plan) (s : State)
    → 0 < s.next_log
    → OnOk (λ x. IsClosed x.deploy_id (run_plan c r s).1) (run_plan c r s).0
run_plan-IsClosed c (err e) s h = tt
run_plan-IsClosed c (ok plan) s h = run_opened-IsClosed c plan (open_plan c plan s) (
    open_as-IsId c.site plan.image.project_key plan.approval_id
      (new_record plan.params plan.user plan.image plan.host plan.approval_id) s h)

notify-IsClosed :
    (p : Params) (image : Image) (host : Host) (success : Bool) (d : ℕ) (s : State)
    → IsClosed d s
    → IsClosed d (notify_k8s p image host success s)
notify-IsClosed p image host success d s h = elim (Bool-cases (p.bot_id == 0)) [
  | inl silent ↦ rw silent h
  | inr bot ↦ rw bot h
]

notified-IsClosed :
    (p : Params) (image : Image) (host : Host) (r : Result Executed × State)
    → OnOk (λ x. IsClosed x.deploy_id r.1) r.0
    → OnOk (λ x. IsClosed x.deploy_id (notified p image host r).1) (notified p image host r).0
notified-IsClosed p image host (err e, s) h = tt
notified-IsClosed p image host (ok x, s) h = elim (Bool-cases x.cancelled) [
  | inl stopped ↦ rw stopped h
  | inr ran ↦ rw ran (notify-IsClosed p image host x.success x.deploy_id s h)
]

with_host-IsClosed :
    (c : Cluster) (p : Params) (u : User) (rollback : Bool) (i : ℕ) (image : Image)
    (r : Result Host) (s : State)
    → 0 < s.next_log
    → OnOk
        (λ x. IsClosed x.deploy_id (with_host c p u rollback i image r s).1)
        (with_host c p u rollback i image r s).0
unfolding deploy_k8s_core
with_host-IsClosed c p u rollback i image (err e) s h = tt
with_host-IsClosed c p u rollback i image (ok host) s h =
    notified-IsClosed p image host (deploy_k8s_core c p u rollback i image host s)
      (run_plan-IsClosed c (checked_plan c p u rollback i image host s) s h)

with_image-IsClosed :
    (c : Cluster) (p : Params) (u : User) (rollback : Bool) (i : ℕ) (r : Result Image) (s : State)
    → 0 < s.next_log
    → OnOk
        (λ x. IsClosed x.deploy_id (with_image c p u rollback i r s).1)
        (with_image c p u rollback i r s).0
with_image-IsClosed c p u rollback i (err e) s h = tt
with_image-IsClosed c p u rollback i (ok image) s h =
    with_host-IsClosed c p u rollback i image (resolve_cluster c p s) s h

-- Where the next id of a record is above 0: when a deployment to a cluster or a native rollback
-- replies, be it a success, a failure or a cancellation, no running record has the id that the reply
-- names, and no cancel signal is set for it.
pub execute_k8s_closes :
    (c : Cluster) (p : Params) (u : User) (rollback : Bool) (i : ℕ) (s : State)
    → 0 < s.next_log
    → OnOk
        (λ (x : RunResult). IsClosed x.deploy_id (execute_k8s c p u rollback i s).1)
        (execute_k8s c p u rollback i s).0
unfolding execute_k8s
execute_k8s_closes c p u rollback i s h =
    with_image-IsClosed c (k8s_fields p) u rollback i (resolve_image c (k8s_fields p)) s h
