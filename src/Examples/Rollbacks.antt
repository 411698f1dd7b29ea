-- ===== src/Examples/Rollbacks.antt =====
-- A rollback of the project's last deployment to the one before it.
use devops_cd.Prelude.{ℕ, String, none, some, [], ◌∷◌, ◌≡◌, refl, arith}
use devops_cd.State.{LogStatus, DeployLog, State}
use devops_cd.DeployRun.Records.{new_row}
use devops_cd.Approval.Keys.{IsKeyed}
use devops_cd.Approval.Gate.{record_of}
use devops_cd.Rollback.{
  RollbackRequest, draft, prepare_rollback, find_rollback_source, find_latest_success, reference,
}
use devops_cd.Rollback.Source.{Replays, rollback_source}
use devops_cd.Rollback.Outcome.{RollsBack, prepare_rollback-RollsBack}
use devops_cd.Examples.{env, initial, alice, request}

abbrev done : ℕ → String → DeployLog
done i version = record (new_row i LogStatus.ok none "" none (record_of env request 0)) {
  tag = version;
}

abbrev deployed : State
deployed = record initial { logs = done 1 "v1" ∷ done 2 "v2" ∷ []; next_log = 3 }

deployed-IsKeyed : IsKeyed deployed
deployed-IsKeyed = record { fresh = tt; unique = λ i. omega arith }

-- The source is the record of v1.
source_found : find_rollback_source "shop" 0 "ssh" deployed ≡ some (done 1 "v1")
unfolding find_rollback_source find_latest_success
source_found = refl

rollback_source_example :
    Replays "shop"
      (reference "shop" 0 "ssh" deployed)
      deployed.logs
      (find_rollback_source "shop" 0 "ssh" deployed)
rollback_source_example = rollback_source "shop" 0 "ssh" deployed

abbrev back : RollbackRequest
back = record {
  project = "shop";
  before_deploy_id = 0;
  deploy_type = "ssh";
  tag = "";
  note = "broken";
  bot_id = 0;
  lang = "en";
}

prepare_rollback-RollsBack_example :
    RollsBack back alice (draft back deployed) deployed (prepare_rollback env back alice deployed)
prepare_rollback-RollsBack_example =
    prepare_rollback-RollsBack env back alice deployed deployed-IsKeyed
