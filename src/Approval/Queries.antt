-- ===== src/Approval/Queries.antt =====
-- services/approval_service.py: the list of approvals by pages, and the counts of the menu.
use devops_cd.Prelude.{
  ℕ, String, Bool, true, false, not, ◌&&◌, ◌||◌, List, ◌++◌, str_eq, if◌then◌else◌, select, count,
  reversed,
}
use devops_cd.Text.{is_empty, strip, lower}
use devops_cd.Lease.{starts}
use devops_cd.State.{
  ApprovalStatus, pending, approved, deploying, Approval, State, User, same_status,
}
use devops_cd.Paging.{limit, Page, clamped_page}
use devops_cd.Approval.Env.{Env}
use devops_cd.Approval.Rules.{match_rule}
use devops_cd.Approval.Perms.{can_approve}
use devops_cd.Approval.Actions.{or_no_rule}

-- The constants of the statuses.
unfoldable pub status_text : ApprovalStatus → String
status_text ApprovalStatus.pending = "pending"
status_text ApprovalStatus.approved = "approved"
status_text ApprovalStatus.deploying = "deploying"
status_text ApprovalStatus.deployed = "deployed"
status_text ApprovalStatus.failed = "failed"
status_text ApprovalStatus.rejected = "rejected"
status_text ApprovalStatus.cancelled = "cancelled"

-- The arguments of `list_approvals` besides the page.
pub record Filter : Type 0 where
  pub status : String
  pub project : String
  pub requester : String
  pub deploy_kind : String
  pub active : Bool

-- ACTIVE_STATUSES
abbrev pub is_active : ApprovalStatus → Bool
is_active st = same_status st pending || same_status st approved || same_status st deploying

abbrev pub equals_if_given : String → String → Bool
equals_if_given wanted value = is_empty wanted || str_eq value wanted

abbrev pub has_kind : String → String → Bool
has_kind kind deploy_type =
    if str_eq kind "ssh" || str_eq kind "compose"
    then str_eq deploy_type kind
    else if str_eq kind "k8s"
    then str_eq deploy_type "k8s" || starts "k8s/" deploy_type
    else true

-- The WHERE clause.
unfoldable pub keeps : Filter → Approval → Bool
unfolding status_text lower strip same_status
keeps f a =
    (if f.active then is_active a.status else equals_if_given f.status (status_text a.status))
    && equals_if_given f.project a.project
    && equals_if_given f.requester a.requester
    && has_kind (lower (strip f.deploy_kind)) a.deploy_type

abbrev pub of_status : ApprovalStatus → List Approval → List Approval
of_status st xs = select (λ a. same_status a.status st) xs

-- ORDER BY CASE status …, id DESC
abbrev pub by_urgency : List Approval → List Approval
by_urgency xs =
    of_status deploying xs
    ++ of_status approved xs
    ++ of_status pending xs
    ++ select (λ a. not (is_active a.status)) xs

abbrev pub in_order : Bool → List Approval → List Approval
in_order true xs = by_urgency xs
in_order false xs = xs

-- The rows of the query, before LIMIT and OFFSET.
unfoldable pub matching : Filter → State → List Approval
unfolding keeps same_status
matching f s = in_order f.active (reversed (select (keeps f) s.approvals))

unfoldable pub list_approvals : Filter → ℕ → ℕ → State → Page Approval
unfolding matching clamped_page
list_approvals f page page_size s = clamped_page page page_size (matching f s)

pub record Todo : Type 0 where
  pub to_approve : ℕ
  pub to_execute : ℕ

-- Somebody else's approval on which the user may decide.
abbrev pub is_todo : Env → User → State → Approval → Bool
is_todo c u s a =
    not (str_eq a.requester u.username)
    && can_approve c.settings (or_no_rule (match_rule s.rules a.project)) u

unfoldable pub count_todo : Env → User → State → Todo
unfolding limit same_status
count_todo c u s = record {
  to_approve =
      count (is_todo c u s)
        (limit 200 (reversed (select (λ a. same_status a.status pending) s.approvals)));
  to_execute =
      count (λ a. same_status a.status approved && str_eq a.requester u.username) s.approvals;
}
