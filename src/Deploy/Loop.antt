-- ===== src/Deploy/Loop.antt =====
-- The loop of `DeployService.execute` over the servers. A deployer runs commands on a server while
-- other requests go on, so its run may change the state; the stream of messages for the user's
-- screen is left out.
use devops_cd.Prelude.{String, List, [], ◌∷◌, if◌then◌else◌}
use devops_cd.Text.{is_empty}
use devops_cd.Result.{Result, ok, err, Error}
use devops_cd.State.{StageTime, State}
use devops_cd.Deploy.Targets.{Target}
use devops_cd.Deploy.Report.{ServerResult}
use devops_cd.Deploy.Plan.{Outcome, Plan}

-- How the loop over the servers ends.
pub data Ending : Type 0 where
  done : Ending
  cancelled : Ending
  raised : Error → Ending

pub record Progress : Type 0 where
  pub results : List ServerResult
  pub stages : List StageTime
  pub ending : Ending

abbrev pub result_of : Target → String → String → ServerResult
result_of t status output = record {
  server_id = t.id;
  host = t.host;
  status = status;
  output = output;
}

abbrev pub stage_of : Plan → Target → String → StageTime
stage_of plan t status = record {
  server_id = t.id;
  host = t.host;
  status = status;
  duration_ms = plan.deployer.took t;
}

-- A server's result in front of those of the servers behind it.
abbrev pub add_result : Plan → Target → String → String → Progress × State → Progress × State
add_result plan t status output (g, s) = (
  record g {
    results = result_of t status output ∷ g.results;
    stages = stage_of plan t status ∷ g.stages;
  },
  s,
)

abbrev pub stop : Ending → State → Progress × State
stop ending s = (record { results = []; stages = []; ending = ending }, s)

abbrev pub after_deploy :
    Plan → Target → (State → Progress × State) → Outcome × State → Progress × State
after_deploy plan t go (Outcome.finished status output, s) = add_result plan t status output (go s)
after_deploy plan t go (Outcome.cancelled, s) = stop Ending.cancelled s
after_deploy plan t go (Outcome.raised m, s) = add_result plan t "failed" m (go s)

abbrev pub after_validate :
    Plan → Target → (State → Progress × State) → Result String → State → Progress × State
after_validate plan t go (err e) s = stop (Ending.raised e) s
after_validate plan t go (ok problem) s =
    if is_empty problem
    then after_deploy plan t go
        (plan.deployer.deploy t plan.options plan.image plan.project_key plan.params.tag s)
    else add_result plan t "failed" problem (go s)

-- The loop over the servers: a server that fails does not stop it, a cancel does.
unfoldable pub deploy_each : Plan → List Target → State → Progress × State
deploy_each plan [] s = stop Ending.done s
deploy_each plan (t ∷ ts) s =
    after_validate plan t (λ u. deploy_each plan ts u) (plan.deployer.validate t plan.options) s
