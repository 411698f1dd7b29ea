-- ===== src/Routes/Execute.antt =====
-- `execute_approval` and `execute_approval_stream` of backend/routers/approvals.py, without the text
-- that the stream shows while the deployment runs.
use devops_cd.Prelude.{ℕ, [], ◌∷◌, if◌then◌else◌}
use devops_cd.Result.{Result, ok, err, Error, is_app_exception}
use devops_cd.State.{deploying, ApprovalStatus, Approval, State, User}
use devops_cd.DeployRun.Records.{reset_pending_deploy_record}
use devops_cd.Approval.Env.{Env}
use devops_cd.Approval.Machine.{transition}
use devops_cd.Approval.Execution.{Executor, RunResult, claim_for_execution, run_approval}
use devops_cd.Approval.Scheduler.{is_ok}
use devops_cd.Routes.Submit.{Event}

-- What both handlers of an exception do: the approval fails and its record lets the lock go.
unfoldable pub fail_execution : Env → ℕ → State → State
fail_execution c i s =
    reset_pending_deploy_record i
      (transition c.now i (deploying ∷ []) ApprovalStatus.failed (λ a. a) s).1

abbrev pub executed : Env → ℕ → Result RunResult × State → Result RunResult × State
executed c i (ok r, s) = (ok r, s)
executed c i (err e, s) = (err e, fail_execution c i s)

abbrev pub after_claim :
    Env → Executor → ℕ → Result (Approval × User) × State → Result RunResult × State
after_claim c execute i (err e, s) = (err e, s)
after_claim c execute i (ok (a, u), s) = executed c i (run_approval c execute i u s)

unfoldable pub execute_approval : Env → Executor → ℕ → User → State → Result RunResult × State
execute_approval c execute i u s = after_claim c execute i (claim_for_execution c i u s)

abbrev pub executed_event : Env → ℕ → Result RunResult × State → Result Event × State
executed_event c i (ok r, s) = (ok (Event.ended (is_ok r.status)), s)
executed_event c i (err e, s) = (ok (Event.failed e), fail_execution c i s)

-- `except AppException` around the claim
abbrev pub claim_event : Error → Result Event
claim_event e = if is_app_exception e then ok (Event.failed e) else err e

abbrev pub stream_after_claim :
    Env → Executor → ℕ → Result (Approval × User) × State → Result Event × State
stream_after_claim c execute i (err e, s) = (claim_event e, s)
stream_after_claim c execute i (ok (a, u), s) = executed_event c i (run_approval c execute i u s)

unfoldable pub execute_approval_stream : Env → Executor → ℕ → User → State → Result Event × State
execute_approval_stream c execute i u s =
    stream_after_claim c execute i (claim_for_execution c i u s)
