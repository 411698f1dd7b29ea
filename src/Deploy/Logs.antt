-- ===== src/Deploy/Logs.antt =====
-- services/deploy_service.py, `list_logs`: the deployment records by pages, each with its approval.
use devops_cd.Prelude.{
  ℕ, String, ◌==◌, Option, none, some, List, map, str_eq, if◌then◌else◌, select, find_first,
  reversed,
}
use devops_cd.Text.{is_empty}
use devops_cd.State.{ApprovalStatus, Approval, DeployLog, State}
use devops_cd.Paging.{Page, clamped_page}

-- The `approval` of an item.
pub record ApprovalInfo : Type 0 where
  pub approver : String
  pub approved_at : Option String
  pub status : ApprovalStatus

-- An item: the record, of which the page shows all columns but the snapshot and the stage times,
-- and its approval.
pub record LogItem : Type 0 where
  pub log : DeployLog
  pub approval : Option ApprovalInfo

abbrev info_of : Option Approval → Option ApprovalInfo
info_of none = none
info_of (some a) =
    some (record { approver = a.approver; approved_at = a.approved_at; status = a.status })

-- The entry of `amap`; a record without an approval has none.
unfoldable pub approval_info : State → ℕ → Option ApprovalInfo
approval_info s i =
    if i == 0 then none else info_of (find_first (λ (a : Approval). a.id == i) s.approvals)

abbrev pub with_approval : State → DeployLog → LogItem
with_approval s log = record { log = log; approval = approval_info s log.approval_id }

unfoldable pub log_rows : String → State → List DeployLog
log_rows project s = reversed (
    if is_empty project
    then s.logs
    else select (λ (r : DeployLog). str_eq r.project project) s.logs)

unfoldable pub list_logs : String → ℕ → ℕ → State → Page LogItem
unfolding log_rows clamped_page approval_info
list_logs project page page_size s =
    let rows = clamped_page page page_size (log_rows project s) in
    record {
      items = map (with_approval s) rows.items;
      total = rows.total;
      page = rows.page;
      page_size = rows.page_size;
      total_pages = rows.total_pages;
    }
