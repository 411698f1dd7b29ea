-- ===== src/Deploy/Service.antt =====
-- `DeployService.execute`: the ends of a deployment, and the whole.
use devops_cd.Prelude.{
  ℕ, String, Bool, true, false, Option, none, List, [], ◌∷◌, ◌++◌, ltb, ◌==◌, length, if◌then◌else◌,
}
use devops_cd.Text.{is_empty, append, take}
use devops_cd.Result.{Result, ok, err, Error, value_error}
use devops_cd.State.{Params, Notice, State, User}
use devops_cd.DeployRun.Signals
use devops_cd.DeployRun.Records.{finish_deploy_record}
use devops_cd.Deploy.Report.{
  ServerResult, build_target_str, build_output, overall, all_ok, status_label, notify_targets,
}
use devops_cd.Deploy.Plan.{Plan, Site, open_record, prepare}
use devops_cd.Deploy.Loop.{Ending, Progress, deploy_each}

-- The reply dict.
pub record Executed : Type 0 where
  pub success : Bool
  pub deploy_id : ℕ
  pub cancelled : Bool
  pub results : List ServerResult
  pub message : String

abbrev pub with_end : String → String → String → String
with_end output mark alone = if is_empty output then alone else append output (append "\n\n" mark)

abbrev pub error_text : Error → String
error_text (value_error m) = m
error_text (Error.unexpected m) = m
error_text e = ""

abbrev pub interrupted_text : Error → String
interrupted_text e = append "部署异常中断: " (error_text e)

abbrev pub is_batch : Plan → Bool
is_batch plan = ltb 1 (length plan.targets)

abbrev pub finish_with : Site → Plan → ℕ → Progress → String → String → State → State
finish_with site plan d g status output s =
    finish_deploy_record site.env.settings d
      (record {
        status = status;
        target = build_target_str g.results (is_batch plan) (length plan.targets);
        output = output;
        duration_ms = site.elapsed g.stages;
        stage_times = g.stages;
        note = none;
        project = plan.project_key;
      })
      s

abbrev pub output_of : Plan → Progress → String
output_of plan g = build_output g.results (is_batch plan) (length plan.targets)

abbrev pub mode_of : Params → String
mode_of p = if is_empty p.deploy_mode then p.deploy_type else p.deploy_mode

abbrev pub finished_notice : Plan → Progress → Notice
finished_notice plan g =
    Notice.finished plan.params.bot_id plan.params.tag plan.project_key plan.image
      (status_label g.results) (mode_of plan.params)
      (notify_targets plan.params.deploy_type g.results)

-- `notify_deploy`: nothing is sent without a bot.
abbrev pub notify_finished : Plan → Progress → State → State
notify_finished plan g s =
    if plan.params.bot_id == 0
    then s
    else record s { notices = s.notices ++ finished_notice plan g ∷ [] }

-- What follows the loop: the record is finished, and the reply or the exception.
unfoldable pub conclude : Site → Plan → ℕ → Progress → Ending → State → Result Executed × State
conclude site plan d g Ending.done s = (
  ok (record {
    success = all_ok g.results;
    deploy_id = d;
    cancelled = false;
    results = g.results;
    message = status_label g.results;
  }),
  notify_finished plan g (finish_with site plan d g (overall g.results) (output_of plan g) s),
)
conclude site plan d g Ending.cancelled s = (
  ok (record {
    success = false;
    deploy_id = d;
    cancelled = true;
    results = g.results;
    message = "❌ Cancelled";
  }),
  finish_with site plan d g "terminated"
      (with_end (output_of plan g) "━━━ Deployment cancelled by user ━━━"
        "Deployment cancelled by user")
      s,
)
conclude site plan d g (Ending.raised e) s = (
  err e,
  finish_with site plan d g "failed"
      (take site.env.settings.log_truncate_chars (
        with_end (output_of plan g) (append "━━━ " (append (interrupted_text e) " ━━━"))
          (interrupted_text e)))
      s,
)

-- The cancel signal is there from the opening of the record to the end.
abbrev pub with_signal : ℕ → (State → Result Executed × State) → State → Result Executed × State
with_signal d body s =
    let (r, t) = body (record s { events = Signals.register d s.events }) in
    (r, record t { events = Signals.unregister d t.events })

abbrev pub run_loop : Site → Plan → ℕ → State → Result Executed × State
run_loop site plan d s =
    let (g, t) = deploy_each plan plan.targets s in conclude site plan d g g.ending t

abbrev pub run_opened : Site → Plan → Result ℕ × State → Result Executed × State
run_opened site plan (err e, s) = (err e, s)
run_opened site plan (ok d, s) = with_signal d (run_loop site plan d) s

abbrev pub run_plan : Site → Result Plan → State → Result Executed × State
run_plan site (err e) s = (err e, s)
run_plan site (ok plan) s = run_opened site plan (open_record site plan s)

unfoldable pub execute : Site → Params → Option User → ℕ → State → Result Executed × State
execute site p user approval_id s = run_plan site (prepare site p user approval_id s) s
