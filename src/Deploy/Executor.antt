-- ===== src/Deploy/Executor.antt =====
-- backend/services/deploy_executor.py: the execution of stored parameters. The K8S route is a
-- parameter.
use devops_cd.Prelude.{
  ℕ, String, Bool, true, false, some, none, List, [], ◌∷◌, str_eq, if◌then◌else◌,
}
use devops_cd.Text.{join}
use devops_cd.Result.{
  Result, ok, err, Error, app, not_found, conflict, validation, http, value_error, unexpected,
}
use devops_cd.State.{Params, RunStatus, State, User}
use devops_cd.DeployRun.Records.{busy_message}
use devops_cd.Approval.Execution.{RunResult, Executor}
use devops_cd.Deploy.Options.{split_once}
use devops_cd.Deploy.Report.{ServerResult}
use devops_cd.Deploy.Plan.{Site, has_prefix}
use devops_cd.Deploy.Service.{Executed, execute, error_text}

abbrev pub has_text : String → String → Bool
has_text m s = elim (split_once m s) [ none ↦ false | some found ↦ true ]

abbrev pub is_busy_key : String → Bool
is_busy_key key = str_eq key "errors.deploy_busy"

unfoldable pub is_busy : Error → Bool
is_busy (app code key) = is_busy_key key
is_busy (not_found key) = is_busy_key key
is_busy (conflict key) = is_busy_key key
is_busy (validation key) = is_busy_key key
is_busy (http code) = false
is_busy (value_error m) = has_text busy_message m
is_busy (unexpected m) = has_text busy_message m

abbrev pub outputs : List ServerResult → List String
outputs [] = []
outputs (r ∷ rs) = r.output ∷ outputs rs

abbrev pub result_status : Executed → RunStatus
result_status x =
    if x.cancelled
    then RunStatus.cancelled
    else if x.success
    then RunStatus.ok
    else RunStatus.failed

abbrev pub run_result : Executed → RunResult
run_result x = record {
  status = result_status x;
  deploy_id = x.deploy_id;
  output = join "\n" (outputs x.results);
}

-- _SSH_FIELDS has no rollback_type, whose default is "manual".
abbrev pub ssh_fields : Params → Params
ssh_fields p = record p { rollback_type = "manual" }

abbrev pub ssh_done : Result Executed × State → Result RunResult × State
ssh_done (ok x, s) = (ok (run_result x), s)
ssh_done (err e, s) = (err e, s)

unfoldable pub execute_ssh : Site → Params → User → ℕ → State → Result RunResult × State
execute_ssh site p u i s = ssh_done (execute site (ssh_fields p) (some u) i s)

-- except Exception
abbrev pub as_result : Result RunResult × State → Result RunResult × State
as_result (ok r, s) = (ok r, s)
as_result (err e, s) = (
  ok (record {
    status = if is_busy e then RunStatus.busy else RunStatus.failed;
    deploy_id = 0;
    output = error_text e;
  }),
  s,
)

unfoldable pub execute_from_params : Site → Executor → Executor
execute_from_params site k8s p u rollback i s =
    as_result
      (if has_prefix "k8s/" p.deploy_type then k8s p u rollback i s else execute_ssh site p u i s)
