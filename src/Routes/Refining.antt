-- ===== src/Routes/Refining.antt =====
-- The deploying routes are sequences of steps, so what holds after any steps holds after them.
use devops_cd.Prelude.{ℕ, String, Bool, false, Option, none, some, inl, inr, Bool-cases}
use devops_cd.Result.{Result, ok, err}
use devops_cd.State.{Params, Approval, State, User}
use devops_cd.Approval.Env.{Env}
use devops_cd.Approval.Gate.{Request, Ticket, gate_deploy}
use devops_cd.Deploy.Plan.{Site}
use devops_cd.Deploy.Service
use devops_cd.Deploy.K8s
use devops_cd.Deploy.K8s.{
  Cluster, Image, Host, execute_k8s, checked_plan, run_plan, deploy_k8s_core, notify_k8s,
  resolve_image, resolve_cluster,
}
use devops_cd.System.{Step, Reach}
use devops_cd.Approval.Execution.{Executor, RunResult, run_approval, claim_for_execution}
use devops_cd.Deploy.Executor.{execute_from_params}
use devops_cd.System.Traces.{
  Reach-trans, one_step, execute-Reach, execute_from_params-Reach, IsQuietSite, IsQuietRoute,
}
use devops_cd.System.Rounds.{run_approval-Reach}
use devops_cd.System.Cluster.{IsQuietCluster, core-Reach, notify-Reach, execute_k8s-Reach}
use devops_cd.Routes.Execute.{
  executed, executed_event, after_claim, stream_after_claim, execute_approval,
  execute_approval_stream,
}
use devops_cd.Routes.Submit.{gated, after_gate, as_executed}
use devops_cd.Routes.Deploy.{
  DeployRequest, ssh_gate, k8s_gate, may_manage, check_api, ssh_checks, k8s_checks, validated,
  run_ssh, ssh_event, ssh_stream, stream_with, announced, core_with, run_k8s, k8s_event, ssh_params,
  deploy, deploy_stream, deploy_k8s, deploy_k8s_stream,
}

module _ {A : Type 0} (c : Env) (q : Request) (run : State → Result A × State)
    (quiet : (s : State) → Reach s (run s).1) where
  as_executed-Reach : (s : State) (r : Result A × State) → Reach s r.1 → Reach s (as_executed r).1
  as_executed-Reach s (ok a, t) h = h
  as_executed-Reach s (err e, t) h = h

  after_gate-Reach :
      (s : State) (r : Result (Option Ticket) × State) → Reach s r.1 → Reach s (after_gate run r).1
  after_gate-Reach s (err e, t) h = h
  after_gate-Reach s (ok (some ticket), t) h = h
  after_gate-Reach s (ok none, t) h = Reach-trans h (as_executed-Reach t (run t) (quiet t))

  gated-Reach : (r : Result (Unit {0})) (s : State) → Reach s (gated c q run r s).1
  gated-Reach (err e) s = Reach.here
  gated-Reach (ok _) s = after_gate-Reach s (gate_deploy c q s) (one_step (Step.submit c q))

module _ (site : Site) (q : DeployRequest) (u : User) (quiet : IsQuietSite site) where
  run_ssh-Reach : (s : State) → Reach s (run_ssh site q.params u s).1
  run_ssh-Reach s = execute-Reach site (ssh_params q.params) (some u) 0 s quiet

  validated-Reach :
      (malformed : String → Bool) (s : State) (r : Result Service.Executed × State)
      → Reach s r.1
      → Reach s (validated malformed r).1
  validated-Reach malformed s (ok x, t) h = h
  validated-Reach malformed s (err e, t) h = h

  ssh_event-Reach :
      (s : State) (r : Result Service.Executed × State) → Reach s r.1 → Reach s (ssh_event r).1
  ssh_event-Reach s (ok x, t) h = h
  ssh_event-Reach s (err e, t) h = h

  ssh_stream-Reach : (r : Result (Unit {0})) (s : State) → Reach s (ssh_stream site q u r s).1
  ssh_stream-Reach (err e) s = Reach.here
  ssh_stream-Reach (ok _) s =
      gated-Reach site.env (ssh_gate q u) (λ t. ssh_event (run_ssh site q.params u t))
        (λ t. ssh_event-Reach t (run_ssh site q.params u t) (run_ssh-Reach t))
        (ssh_checks site q.params u) s

  stream_with-Reach : (r : Result (Unit {0})) (s : State) → Reach s (stream_with site q u r s).1
  stream_with-Reach (err e) s = Reach.here
  stream_with-Reach (ok _) s = ssh_stream-Reach (check_api q.params.deploy_type) s

module _ (c : Cluster) (p : Params) (u : User) (quiet : IsQuietCluster c) where
  announced-Reach :
      (image : Image) (host : Host) (s : State) (r : Result K8s.Executed × State)
      → Reach s r.1
      → Reach s (announced p image host r).1
  announced-Reach image host s (err e, t) h = h
  announced-Reach image host s (ok x, t) h = elim (Bool-cases x.cancelled) [
    | inl stopped ↦ rw stopped h
    | inr ran ↦ rw ran (notify-Reach p image host x.success s t h)
  ]

  core_with-Reach :
      (image : Result Image) (host : Result Host) (s : State)
      → Reach s (core_with c p u image host s).1
  core_with-Reach (err e) host s = Reach.here
  core_with-Reach (ok image) (err e) s = Reach.here
  core_with-Reach (ok image) (ok host) s =
      announced-Reach image host s (deploy_k8s_core c p u false 0 image host s)
        (core-Reach c p u false 0 image host s quiet)

  run_k8s-Reach : (s : State) → Reach s (run_k8s c p u s).1
  run_k8s-Reach s = core_with-Reach (resolve_image c p) (resolve_cluster c p s) s

  k8s_event-Reach :
      (s : State) (r : Result K8s.Executed × State) → Reach s r.1 → Reach s (k8s_event r).1
  k8s_event-Reach s (ok x, t) h = h
  k8s_event-Reach s (err e, t) h = h

module _ (c : Env) (execute : Executor) (quiet : IsQuietRoute execute) (i : ℕ) where
  executed-Reach :
      (s : State) (r : Result RunResult × State)
      → Reach s r.1
      → Reach s (executed c i r).1 × Reach s (executed_event c i r).1
  executed-Reach s (ok r, t) h = (h, h)
  executed-Reach s (err e, t) h =
      let failed = Reach.next h (Step.fail_execution c i) in (failed, failed)

  after_claim-Reach :
      (s : State) (r : Result (Approval × User) × State)
      → Reach s r.1
      → Reach s (after_claim c execute i r).1 × Reach s (stream_after_claim c execute i r).1
  after_claim-Reach s (err e, t) h = (h, h)
  after_claim-Reach s (ok (a, u), t) h =
      executed-Reach s (run_approval c execute i u t)
        (Reach-trans h (run_approval-Reach c execute quiet i u t))

  execute_approval-Reach :
      (u : User) (s : State)
      → Reach s (execute_approval c execute i u s).1
        × Reach s (execute_approval_stream c execute i u s).1
  unfolding execute_approval execute_approval_stream
  execute_approval-Reach u s =
      after_claim-Reach s (claim_for_execution c i u s) (one_step (Step.claim c i u))

-- `execute_from_params` over both routes.
abbrev pub both_routes : Site → Cluster → Executor
both_routes site c = execute_from_params site (execute_k8s c)

-- Each of the routes `deploy`, `deploy_stream`, `deploy_k8s` and `deploy_k8s_stream`, and of
-- `execute_approval` and `execute_approval_stream` with the executor `execute_from_params`, is a
-- sequence of the transactions of `Step`, whatever it replies, provided that what happens while a
-- deployer runs is one.
pub routes_refine_steps :
    (site : Site) (c : Cluster) (malformed : String → Bool) (q : DeployRequest) (u : User) (i : ℕ)
    → IsQuietSite site
    → IsQuietCluster c
    → (s : State)
    → Reach s (deploy site malformed q u s).1
      × Reach s (deploy_stream site q u s).1
      × Reach s (deploy_k8s c q u s).1
      × Reach s (deploy_k8s_stream c q u s).1
      × Reach s (execute_approval site.env (both_routes site c) i u s).1
      × Reach s (execute_approval_stream site.env (both_routes site c) i u s).1
unfolding deploy deploy_stream deploy_k8s deploy_k8s_stream
routes_refine_steps site c malformed q u i quiet still s =
    let route = execute_from_params-Reach site (execute_k8s c) quiet (execute_k8s-Reach c still) in
    let approved = execute_approval-Reach site.env (both_routes site c) route i u s in
    (
      gated-Reach site.env (ssh_gate q u) (λ t. validated malformed (run_ssh site q.params u t))
          (λ t.
            validated-Reach site q u quiet malformed t (run_ssh site q.params u t)
              (run_ssh-Reach site q u quiet t))
          _ s,
      stream_with-Reach site q u quiet (may_manage site u) s,
      gated-Reach c.site.env (k8s_gate q u) (run_k8s c q.params u)
          (run_k8s-Reach c q.params u still) (k8s_checks c q.params u) s,
      gated-Reach c.site.env (k8s_gate q u) (λ t. k8s_event (run_k8s c q.params u t))
          (λ t.
            k8s_event-Reach c q.params u still t (run_k8s c q.params u t)
              (run_k8s-Reach c q.params u still t))
          (k8s_checks c q.params u) s,
      approved.0,
      approved.1,
    )
