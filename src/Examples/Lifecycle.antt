-- ===== src/Examples/Lifecycle.antt =====
-- An approval from its submission to its execution, and what the theorems say of it.
use devops_cd.Prelude.{◌≤◌, false, some, [], ◌∷◌, if◌then◌else◌, ◌≡◌, refl, arith, count}
use devops_cd.State.{pending, approved, deployed, Approval, State, RunStatus, same_status}
use devops_cd.DeployRun.Locks.{IsValid, running_in}
use devops_cd.DeployRun.Records.{
  NewRecord, start_deploy_record, create_pending_deploy_record, claim_pending_deploy_record,
  reset_pending_deploy_record, mark_approval_log_terminal,
}
use devops_cd.Approval.Machine.{get_by_id, new_approval, create_approval, transition}
use devops_cd.Approval.Actions.{approve, reject, cancel, check_approver}
use devops_cd.Approval.Gate.{gate_deploy, approval_of, record_of, resolve_display_image}
use devops_cd.Approval.Rules.{approval_required, resolve_target_envs, get_rule, match_rule, tags_of}
use devops_cd.Approval.Schedule.{parse_scheduled_at}
use devops_cd.Text.{join}
use devops_cd.Text.Order.{sorted}
use devops_cd.Text.Csv.{parse_csv, parse_server_ids}
use devops_cd.Auth.Perms.{enforce_deploy_perm, resolve_deploy_perm}
use devops_cd.Auth.Context.{load_user_context, identity_disabled, has_system}
use devops_cd.DeployRun.Status.{normalize_rollback_type}
use devops_cd.Approval.Execution.{
  claim_for_execution, execution_user, enforce_execute_perm, settle, RunResult,
}
use devops_cd.Approval.Judging.{succeeded, applies, may_judge, may_cancel, actions_success}
use devops_cd.Approval.Refusing.{refusal_changes_nothing}
use devops_cd.Approval.Evolution.{Follows}
use devops_cd.Approval.Keys.{IsKeyed, Evolves-IsKeyed}
use devops_cd.Approval.Perms.{same_person, is_requester, can_approve}
use devops_cd.System.{Step, Reach}
use devops_cd.System.Safety.{
  Reach-Later, at_most_one_running, approval_history, final_for_ever, four_eyes,
}
use devops_cd.Examples.{env, rule, initial, request, alice, bob}

initial-IsValid : IsValid initial
initial-IsValid = record {
  locked = tt;
  exclusive = λ p. omega arith;
  fresh = tt;
  unique = λ i. omega arith;
}

initial-IsKeyed : IsKeyed initial
initial-IsKeyed = record { fresh = tt; unique = λ i. omega arith }

abbrev submitted : State
submitted = (gate_deploy env request initial).1

abbrev let_through : State
let_through = (approve env 1 bob submitted).1

abbrev claimed : State
claimed = (claim_for_execution env 1 alice let_through).1

abbrev success : RunResult
success = record { status = RunStatus.ok; deploy_id = 1; output = "done" }

abbrev finished : State
finished = settle env 1 success RunStatus.ok claimed

-- What the service does with it.
submission : Reach initial submitted
submission = Reach.next Reach.here (Step.submit env request)

later : Reach submitted finished
later =
    Reach.next
      (Reach.next (Reach.next Reach.here (Step.approve env 1 bob)) (Step.claim env 1 alice))
      (Step.settle env 1 success RunStatus.ok)

run : Reach initial finished
run =
    Reach.next
      (Reach.next (Reach.next submission (Step.approve env 1 bob)) (Step.claim env 1 alice))
      (Step.settle env 1 success RunStatus.ok)

submitted-IsKeyed : IsKeyed submitted
submitted-IsKeyed =
    Evolves-IsKeyed initial submitted (Reach-Later submission initial-IsKeyed) initial-IsKeyed

finished-IsKeyed : IsKeyed finished
finished-IsKeyed =
    Evolves-IsKeyed initial finished (Reach-Later run initial-IsKeyed) initial-IsKeyed

-- Opening this opens every function that a run calls.
runs : Unit {0}
unfolding gate_deploy parse_scheduled_at approval_required resolve_target_envs get_rule match_rule
    parse_csv parse_server_ids tags_of create_approval create_pending_deploy_record
    resolve_display_image approve reject cancel check_approver is_requester same_person can_approve
    transition get_by_id claim_for_execution execution_user load_user_context identity_disabled
    has_system enforce_execute_perm enforce_deploy_perm resolve_deploy_perm
    reset_pending_deploy_record mark_approval_log_terminal start_deploy_record
    claim_pending_deploy_record same_status join sorted normalize_rollback_type
runs = tt

abbrev submitted_row : Approval
submitted_row = new_approval 1 (approval_of env request "" (some rule) [])

abbrev finished_row : Approval
finished_row = record submitted_row {
  status = deployed;
  approver = "bob";
  deploy_id = 1;
  approved_at = some "2026-01-02 03:04:05";
  updated_at = some "2026-01-02 03:04:05";
}

submit_result : get_by_id 1 submitted ≡ some submitted_row
unfolding runs
submit_result = refl

finish_result : get_by_id 1 finished ≡ some finished_row
unfolding runs
finish_result = refl

-- Two deployments of one project are started, one after the other.
abbrev job : NewRecord
job = record_of env request 0

abbrev two_starts : State
two_starts = (start_deploy_record "b" 2 job (start_deploy_record "a" 1 job initial).1).1

at_most_one_running_example : count (running_in "shop") two_starts.logs ≤ 1
at_most_one_running_example =
    at_most_one_running initial two_starts "shop" initial-IsValid
      (Reach.next (Reach.next Reach.here (Step.start "a" 1 job)) (Step.start "b" 2 job))

approval_history_example :
    (b : Approval) × (get_by_id 1 finished ≡ some b) × Follows submitted_row b
approval_history_example =
    approval_history submitted finished 1 submitted_row submitted-IsKeyed later submit_result

-- Another claim and a cancellation after the end.
abbrev afterwards : State
afterwards = (cancel env 1 alice (claim_for_execution env 1 alice finished).1).1

final_for_ever_example : (b : Approval) × (get_by_id 1 afterwards ≡ some b) × (b.status ≡ deployed)
final_for_ever_example =
    final_for_ever finished afterwards 1 finished_row finished-IsKeyed
      (Reach.next (Reach.next Reach.here (Step.claim env 1 alice)) (Step.cancel env 1 alice))
      finish_result refl

four_eyes_example : same_person "alice" "bob" ≡ false
four_eyes_example = four_eyes initial finished 1 finished_row initial-IsKeyed tt run finish_result

actions_success_example :
    (succeeded (approve env 1 bob submitted).0
      ≡ applies (pending ∷ []) (may_judge env bob submitted) (get_by_id 1 submitted))
    × (succeeded (reject env 1 bob "no" submitted).0
        ≡ applies (pending ∷ []) (may_judge env bob submitted) (get_by_id 1 submitted))
    × (succeeded (cancel env 1 bob submitted).0
        ≡ applies (pending ∷ approved ∷ []) (may_cancel env bob) (get_by_id 1 submitted))
actions_success_example = actions_success env 1 bob "no" submitted submitted-IsKeyed

refusal_changes_nothing_example :
    ((approve env 1 alice submitted).1 ≡ (
      if succeeded (approve env 1 alice submitted).0
      then (approve env 1 alice submitted).1
      else submitted))
    × ((reject env 1 alice "no" submitted).1 ≡ (
        if succeeded (reject env 1 alice "no" submitted).0
        then (reject env 1 alice "no" submitted).1
        else submitted))
    × ((cancel env 1 alice submitted).1 ≡ (
        if succeeded (cancel env 1 alice submitted).0
        then (cancel env 1 alice submitted).1
        else submitted))
refusal_changes_nothing_example = refusal_changes_nothing env 1 alice "no" submitted
