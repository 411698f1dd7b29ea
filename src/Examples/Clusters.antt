-- ===== src/Examples/Clusters.antt =====
-- Deployments to a cluster, and a command that is run again.
use devops_cd.Prelude.{ℕ, true, false, some, [], ◌∷◌, ◌≡◌, refl, arith, ◌==◌, ◌+◌, if◌then◌else◌}
use mathlib.Core.Path.{subst}
use mathlib.Core.Option.{some-injective}
use devops_cd.Result.{Result, ok, OnOk}
use devops_cd.State.{Params}
use devops_cd.Approval.Execution.{RunResult}
use devops_cd.Approval.Scheduler.{run_due_scheduled}
use devops_cd.Deploy.Closing.{IsClosed}
use devops_cd.Deploy.Executor.{execute_from_params}
use devops_cd.Deploy.K8s.{Outcome, Deployer, Cluster, execute_k8s}
use devops_cd.Deploy.K8sClosing.{execute_k8s_closes}
use devops_cd.Deploy.Retry.{retry_idempotent}
use devops_cd.Deploy.RetryBound.{IsBounded, retry_idempotent-IsBounded}
use devops_cd.System.{Reach}
use devops_cd.System.Cluster.{IsQuietCluster, scheduler_refines_both_routes}
use devops_cd.Examples.{env, params, alice}
use devops_cd.Examples.Deployments.{site, with_servers, site-IsQuiet}

abbrev kubectl : Deployer
kubectl = record {
  deploy = λ p image short host s. (Outcome.returned true "deployment applied" "", s);
  rollback = λ p short host s. (Outcome.raised "no history", s);
}

abbrev pub cluster : Cluster
cluster = record { site = site; deployers = λ name. some kubectl; duration_ms = 1200 }

abbrev request : Params
request = record params { deploy_type = "k8s/kubectl"; cd_type = "kubectl"; cluster_id = 1 }

pub cluster-IsQuiet : IsQuietCluster cluster
cluster-IsQuiet name d e p image short host s =
    subst
      (λ (k : Deployer).
        Reach s (k.deploy p image short host s).1 × Reach s (k.rollback p short host s).1)
      (some-injective kubectl d e) (Reach.here, Reach.here)

execute_k8s_closes_example :
    OnOk
      (λ (x : RunResult).
        IsClosed x.deploy_id (execute_k8s cluster request alice false 0 with_servers).1)
      (execute_k8s cluster request alice false 0 with_servers).0
execute_k8s_closes_example =
    execute_k8s_closes cluster request alice false 0 with_servers (omega arith)

scheduler_refines_both_routes_example :
    Reach with_servers
      (run_due_scheduled env (execute_from_params site (execute_k8s cluster)) with_servers).1
scheduler_refines_both_routes_example =
    scheduler_refines_both_routes env site cluster site-IsQuiet cluster-IsQuiet with_servers

-- A command that succeeds at its third call.
abbrev flaky : ℕ → Result ℕ × ℕ
flaky n = (ok (if n == 2 then 0 else 1), n + 1)

third_test : (retry_idempotent flaky (λ code. code) 3 true 0).1.logged ≡ 2 ∷ 3 ∷ []
unfolding retry_idempotent
third_test = refl

retry_idempotent-IsBounded_example :
    IsBounded flaky (λ code. code) 0 2 false (retry_idempotent flaky (λ code. code) 2 false 0)
retry_idempotent-IsBounded_example = retry_idempotent-IsBounded flaky (λ code. code) 2 false 0
