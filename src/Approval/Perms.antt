-- ===== src/Approval/Perms.antt =====
-- Who may approve, cancel and execute an approval.
use devops_cd.Prelude.{String, Bool, true, false, not, ◌&&◌, ◌||◌, str_eq, if◌then◌else◌}
use devops_cd.Text.{is_empty, strip, contains}
use devops_cd.Text.Csv.{parse_csv}
use devops_cd.State.{ApprovalStatus, Approval, Rule, User, Settings}
use devops_cd.Auth.Perms.{wildcard_perm}

unfoldable pub is_super : Settings → User → Bool
is_super c u = str_eq u.role c.super_admin_role || contains wildcard_perm u.permissions

unfoldable pub can_approve : Settings → Rule → User → Bool
unfolding is_super
can_approve c rule u =
    if is_super c u
    then true
    else if contains "cd.deploy.approve" u.permissions
    then true
    else if contains u.username (parse_csv rule.approvers)
    then true
    else not (is_empty (strip rule.approver_role)) && str_eq u.role (strip rule.approver_role)

abbrev pub is_open : ApprovalStatus → Bool
is_open ApprovalStatus.pending = true
is_open ApprovalStatus.approved = true
is_open _ = false

abbrev pub is_approved : ApprovalStatus → Bool
is_approved ApprovalStatus.approved = true
is_approved _ = false

abbrev pub is_owner : Approval → User → Bool
is_owner a u = str_eq u.username a.requester

unfoldable pub can_cancel : Settings → Approval → User → Bool
unfolding is_super
can_cancel c a u = if not (is_super c u) && not (is_owner a u) then false else is_open a.status

unfoldable pub can_execute : Approval → User → Bool
can_execute a u = if not (is_owner a u) then false else is_approved a.status

-- The test of `_ensure_not_requester` on the two names, which raises a 403 where it holds.
unfoldable pub same_person : String → String → Bool
same_person requester name =
    not (is_empty (strip requester))
    && (not (is_empty (strip name)) && str_eq (strip requester) (strip name))

unfoldable pub is_requester : Approval → User → Bool
is_requester a u = same_person a.requester u.username
