-- ===== src/Examples/Claims.antt =====
-- Submission, claims, recovery and locks at concrete states.
use devops_cd.Prelude.{
  refl, true, ◌≤◌, none, ◌+◌, false, not, some, [], ◌∷◌, ◌≡◌, arith, any, if◌then◌else◌,
}
use devops_cd.Result.{err, conflict, ok}
use devops_cd.State.{approved, State}
use devops_cd.DeployRun.Records.{NewRecord, start_deploy_record, find_running_deploy}
use devops_cd.DeployRun.Locks.{IsValid}
use devops_cd.DeployRun.Keeps.{start_deploy_record-IsValid}
use devops_cd.DeployRun.Busy.{is_some, is_opened, start_exclusion}
use devops_cd.Approval.Machine.{get_by_id, new_approval}
use devops_cd.Approval.Actions.{approve}
use devops_cd.Approval.Rules.{approval_required}
use devops_cd.Approval.Schedule.{parse_scheduled_at}
use devops_cd.Approval.Gate.{gate_deploy, approval_of, record_of}
use devops_cd.Approval.Execution.{claim_for_execution, claim_checked, recover_on_startup, abandoned}
use devops_cd.Approval.Keys.{IsKeyed, Evolves-IsKeyed}
use devops_cd.Approval.Judging.{applies}
use devops_cd.Approval.Claiming.{is_result, may_claim, claim_success, claim_once}
use devops_cd.Approval.Submitting.{Gated, gate_deploy-Gated}
use devops_cd.Approval.Recovering.{left_over, recovery_complete}
use devops_cd.System.{Step, Reach}
use devops_cd.System.Safety.{Reach-Later}
use devops_cd.Text.{is_digit, to_number}
use devops_cd.Text.Digits.{pad}
use devops_cd.Lease.{write, partition}
use devops_cd.Lease.Exclusion.{write-excludes}
use devops_cd.Examples.{env, rule, initial, request, alice, bob}

a_takes : (write "a:1" 100 90 none none).0 ≡ true
unfolding write
a_takes = refl

b_takes : (write "b:1" 190 90 (some "a:1|0000000000100") (write "a:1" 100 90 none none).1).0 ≡ true
unfolding write partition pad is_digit to_number
b_takes = refl

empty-IsKeyed : IsKeyed initial
empty-IsKeyed = record { fresh = tt; unique = λ i. omega arith }

empty-IsValid : IsValid initial
empty-IsValid = record {
  locked = tt;
  exclusive = λ p. omega arith;
  fresh = tt;
  unique = λ i. omega arith;
}

abbrev ready : State
ready = (approve env 1 bob (gate_deploy env request initial).1).1

ready-IsKeyed : IsKeyed ready
ready-IsKeyed =
    Evolves-IsKeyed initial ready
      (Reach-Later
        (Reach.next (Reach.next Reach.here (Step.submit env request)) (Step.approve env 1 bob))
        empty-IsKeyed)
      empty-IsKeyed

gate_deploy-Gated_example :
    Gated request
      (parse_scheduled_at "")
      (approval_required request.project request.server_ids false initial)
      initial
      (gate_deploy env request initial)
gate_deploy-Gated_example = gate_deploy-Gated env request initial empty-IsKeyed

claim_success_example :
    is_result (claim_for_execution env 1 alice ready).0
    ≡ applies (approved ∷ []) (may_claim env alice) (get_by_id 1 ready)
claim_success_example = claim_success env 1 alice ready ready-IsKeyed

claim_once_example :
    (claim_checked env 1
      (new_approval 1 (approval_of env request "" (some rule) []))
      (ok bob)
      (claim_checked env 1
        (new_approval 1 (approval_of env request "" (some rule) []))
        (ok alice)
        ready).1).0
    ≡ err (conflict "errors.approval_not_executable")
claim_once_example =
    claim_once env env 1 (new_approval 1 (approval_of env request "" (some rule) []))
      (new_approval 1 (approval_of env request "" (some rule) [])) alice bob ready

recovery_complete_example :
    (any
        (abandoned (recover_on_startup env (claim_for_execution env 1 alice ready).1))
        (recover_on_startup env (claim_for_execution env 1 alice ready).1).approvals
      ≡ false)
    × (any left_over (recover_on_startup env (claim_for_execution env 1 alice ready).1).logs
        ≡ false)
recovery_complete_example = recovery_complete env (claim_for_execution env 1 alice ready).1

abbrev run : NewRecord
run = record_of env request 0

abbrev one_start : State
one_start = (start_deploy_record "a" 1 run initial).1

start_exclusion_example :
    (is_opened (start_deploy_record "b" 2 run one_start).0
      ≡ not (is_some (find_running_deploy "shop" one_start)))
    × ((start_deploy_record "b" 2 run one_start).1 ≡ (
        if is_some (find_running_deploy "shop" one_start)
        then one_start
        else (start_deploy_record "b" 2 run one_start).1))
start_exclusion_example =
    start_exclusion "b" 2 run one_start
      (start_deploy_record-IsValid "a" 1 run initial empty-IsValid)

write-excludes_example : 100 + 90 ≤ 190
write-excludes_example =
    write-excludes "a:1" "b:1" 100 190 90 none (some "a:1|0000000000100") none refl refl
      (omega arith) a_takes b_takes
