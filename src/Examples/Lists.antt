-- ===== src/Examples/Lists.antt =====
-- Paged lists of approvals and records, and the counts of the menu.
use devops_cd.Prelude.{ℕ, String, true, none, [], ◌∷◌, ◌≡◌, refl, arith, count, map, ◌&&◌, str_eq}
use devops_cd.Text.{strip}
use devops_cd.State.{
  State, Approval, ApprovalStatus, ParamsJson, DeployLog, LogStatus, RollbackType, same_status,
  pending, deploying,
}
use devops_cd.Paging.Cover.{Pages, all_pages}
use devops_cd.Approval.Judging.{may_judge}
use devops_cd.Approval.Queries.{Filter, keeps, matching, list_approvals, count_todo}
use devops_cd.Approval.Listing.{list_approvals_complete, count_todo_agrees}
use devops_cd.Deploy.Logs.{with_approval, log_rows, list_logs}
use devops_cd.Deploy.LogPages.{list_logs_complete}
use devops_cd.Examples.{env, initial, bob}

abbrev approval : ℕ → String → ApprovalStatus → Approval
approval id requester status = record {
  id = id;
  project = "shop";
  tag = "v1";
  image = "";
  deploy_type = "ssh";
  envs = "";
  params_json = ParamsJson.blank;
  status = status;
  requester = requester;
  approver = "";
  scheduled_at = "";
  approve_note = "";
  deploy_id = 0;
  approved_at = none;
  updated_at = none;
}

abbrev log : ℕ → ℕ → DeployLog
log id approval_id = record {
  id = id;
  project = "shop";
  tag = "v1";
  image = "";
  deploy_type = "ssh";
  target = "";
  status = LogStatus.ok;
  output = "";
  triggered_by = "alice";
  deploy_note = "";
  duration_ms = 0;
  stage_times = [];
  lock_key = none;
  params_json = ParamsJson.blank;
  rollback_type = RollbackType.native;
  approval_id = approval_id;
  runner = "";
  heartbeat_at = none;
}

-- Alice and bob wait for a decision; an approval of alice is being deployed.
abbrev full : State
full = record initial {
  approvals =
      approval 1 "alice" pending ∷ approval 2 "alice" deploying ∷ approval 3 "bob" pending ∷ [];
  logs = log 1 2 ∷ log 2 0 ∷ [];
}

abbrev active : Filter
active = record {
  status = "";
  project = "shop";
  requester = "";
  deploy_kind = "ssh";
  active = true;
}

order_test : map (λ (a : Approval). a.id) (matching active full) ≡ 2 ∷ 3 ∷ 1 ∷ []
unfolding matching
order_test = refl

list_approvals_complete_example :
    (count (λ a. str_eq a.requester "alice") (all_pages (λ k. list_approvals active k 2 full))
      ≡ count (λ a. keeps active a && str_eq a.requester "alice") full.approvals)
    × Pages (λ k. list_approvals active k 2 full) (matching active full)
list_approvals_complete_example =
    list_approvals_complete active 2 full (λ a. str_eq a.requester "alice")

count_todo_agrees_example :
    (count_todo env bob full).to_approve
    ≡ count (λ a. same_status a.status pending && may_judge env bob full a) full.approvals
unfolding strip same_status
count_todo_agrees_example =
    count_todo_agrees env bob full (refl, (refl, (refl, tt))) refl refl (omega arith)

list_logs_complete_example :
    Pages (λ k. list_logs "shop" k 1 full) (map (with_approval full) (log_rows "shop" full))
list_logs_complete_example = list_logs_complete "shop" 1 full
