-- ===== src/Examples/Requests.antt =====
-- Requests on the routes that start and cancel deployments.
use devops_cd.Prelude.{true, false, [], ◌∷◌, ◌≡◌, refl, arith}
use devops_cd.Result.{ok, OnOk}
use devops_cd.State.{State, User}
use devops_cd.Auth.Perms.{manage_perm, enforce_deploy_perm}
use devops_cd.Approval.Gate.{record_of, gate_deploy}
use devops_cd.Approval.Keys.{IsKeyed, Evolves-IsKeyed}
use devops_cd.DeployRun.Records.{start_deploy_record, mark_deploy_cancelled}
use devops_cd.Routes.Deploy.{
  DeployRequest, ssh_gate, k8s_gate, k8s_perm, deploy, deploy_stream, deploy_k8s, deploy_k8s_stream,
}
use devops_cd.Approval.Actions.{approve}
use devops_cd.Approval.Execution.{claim_for_execution}
use devops_cd.Routes.Execute.{execute_approval, execute_approval_stream}
use devops_cd.Routes.Settling.{IsSettled, execution_settles}
use devops_cd.Routes.Cancel.{CancelRequest, find_cancelled, check_cancel_perm, deploy_cancel}
use devops_cd.Routes.Guards.{IsEntitled, Guarded, routes_guard}
use devops_cd.Routes.Refining.{both_routes, routes_refine_steps}
use devops_cd.Routes.Stopping.{Stopped, deploy_cancel-Stopped}
use devops_cd.System.{Step, Reach}
use devops_cd.System.Safety.{Reach-Later}
use devops_cd.Examples.{env, settings, params, alice, bob}
use devops_cd.Examples
use devops_cd.Examples.Deployments.{site, with_servers, site-IsQuiet}
use devops_cd.Examples.Clusters.{cluster, cluster-IsQuiet}

abbrev carol : User
carol = record {
  username = "carol";
  role = "dev";
  permissions = "cd.deploy-manage" ∷ "cd.deploy.k8s" ∷ [];
}

abbrev now : DeployRequest
now = record { params = record params { cd_type = "helm"; cluster_id = 1 } }

-- Nothing needs an approval.
abbrev open_rules : State
open_rules = record with_servers { rules = [] }

open_rules-IsKeyed : IsKeyed open_rules
open_rules-IsKeyed = record { fresh = tt; unique = λ i. omega arith }

routes_guard_example :
    Guarded
      (IsEntitled settings carol manage_perm "v1")
      (ssh_gate now carol)
      open_rules
      (deploy site (λ m. false) now carol open_rules)
    × Guarded
        (IsEntitled settings carol manage_perm "v1")
        (ssh_gate now carol)
        open_rules
        (deploy_stream site now carol open_rules)
    × Guarded
        (IsEntitled settings carol k8s_perm "v1")
        (k8s_gate now carol)
        open_rules
        (deploy_k8s cluster now carol open_rules)
    × Guarded
        (IsEntitled settings carol k8s_perm "v1")
        (k8s_gate now carol)
        open_rules
        (deploy_k8s_stream cluster now carol open_rules)
routes_guard_example =
    routes_guard site cluster (λ m. false) now carol open_rules open_rules-IsKeyed

routes_refine_steps_example :
    Reach open_rules (deploy site (λ m. false) now carol open_rules).1
    × Reach open_rules (deploy_stream site now carol open_rules).1
    × Reach open_rules (deploy_k8s cluster now carol open_rules).1
    × Reach open_rules (deploy_k8s_stream cluster now carol open_rules).1
    × Reach open_rules (execute_approval env (both_routes site cluster) 1 carol open_rules).1
    × Reach open_rules (execute_approval_stream env (both_routes site cluster) 1 carol open_rules).1
routes_refine_steps_example =
    routes_refine_steps site cluster (λ m. false) now carol 1 site-IsQuiet cluster-IsQuiet
      open_rules

abbrev running : State
running = (start_deploy_record "a" 1 (record_of env Examples.request 0) with_servers).1

abbrev stop_shop : CancelRequest
stop_shop = record { deploy_id = 0; project = "shop" }

cancelled_test : (deploy_cancel settings stop_shop carol running).0 ≡ ok true
unfolding deploy_cancel start_deploy_record find_cancelled check_cancel_perm mark_deploy_cancelled
    enforce_deploy_perm
cancelled_test = refl

deploy_cancel-Stopped_example :
    Stopped settings carol stop_shop
      (find_cancelled stop_shop running)
      running
      (deploy_cancel settings stop_shop carol running)
deploy_cancel-Stopped_example = deploy_cancel-Stopped settings stop_shop carol running

with_servers-IsKeyed : IsKeyed with_servers
with_servers-IsKeyed = record { fresh = tt; unique = λ i. omega arith }

-- alice has asked for a deployment, and bob has approved it.
abbrev let_through : State
let_through = (approve env 1 bob (gate_deploy env Examples.request with_servers).1).1

let_through-IsKeyed : IsKeyed let_through
let_through-IsKeyed =
    let run =
      Reach.next (Reach.next Reach.here (Step.submit env Examples.request))
        (Step.approve env 1 bob) in
    Evolves-IsKeyed with_servers let_through (Reach-Later run with_servers-IsKeyed)
      with_servers-IsKeyed

execution_settles_example :
    OnOk
      (λ _.
        IsSettled 1 (execute_approval env (both_routes site cluster) 1 alice let_through).1
        × IsSettled 1
            (execute_approval_stream env (both_routes site cluster) 1 alice let_through).1)
      (claim_for_execution env 1 alice let_through).0
execution_settles_example =
    execution_settles env (both_routes site cluster) 1 alice let_through let_through-IsKeyed
