-- ===== src/Approval/Actions.antt =====
-- `approve`, `reject` and `cancel`.
use devops_cd.Prelude.{
  ℕ, String, Bool, true, false, not, ◌&&◌, Option, none, some, [], ◌∷◌, ◌++◌, ◌==◌, if◌then◌else◌,
}
use devops_cd.Text.{is_empty, strip, append}
use devops_cd.Result.{Result, ok, err, app, not_found}
use devops_cd.State.{
  ApprovalStatus, pending, approved, LogStatus, Approval, Rule, Notice, State, User,
}
use devops_cd.DeployRun.Records.{mark_approval_log_terminal}
use devops_cd.Approval.Env.{Env}
use devops_cd.Approval.Rules.{get_rule}
use devops_cd.Approval.Perms.{is_super, can_approve, is_owner, is_requester}
use devops_cd.Approval.Machine.{get_by_id, transition}

-- The reply dict.
pub record Reply : Type 0 where
  pub success : Bool
  pub message : String

-- The fields of `get_rule(…) or {}` where no rule matches.
abbrev pub no_rule : Rule
no_rule = record {
  project = "";
  enabled = false;
  require_envs = "";
  approver_role = "";
  approvers = "";
  notify_bot_id = 0;
  require_rollback_approval = false;
}

abbrev pub or_no_rule : Option Rule → Rule
or_no_rule none = no_rule
or_no_rule (some r) = r

-- `_notify_result`, `_notify_request`: nothing is sent without a bot.
abbrev pub notify : Rule → (ℕ → Notice) → State → State
notify rule notice s =
    if rule.notify_bot_id == 0
    then s
    else record s { notices = s.notices ++ notice rule.notify_bot_id ∷ [] }

abbrev pub already_handled : Reply
already_handled = record { success = false; message = "审批单已处理" }

abbrev pub approved_message : String → String
approved_message sched =
    if is_empty sched then "已批准，待申请人执行部署" else append "已批准，定时 " (append sched " 自动执行")

-- The checks that `approve` and `reject` share, after the row was found.
unfoldable pub check_approver : Env → Rule → Approval → User → Result (Unit {0})
check_approver c rule a u =
    if is_requester a u
    then err (app 403 "errors.self_approval_forbidden")
    else if not (can_approve c.settings rule u)
    then err (app 403 "errors.approve_perm_denied")
    else ok tt

abbrev pub approve_fields : Env → User → Approval → Approval
approve_fields c u a = record a { approver = u.username; approved_at = some c.now }

abbrev pub approve_done : Rule → Approval → User → Bool × State → Result Reply × State
approve_done rule a u (false, s) = (ok already_handled, s)
approve_done rule a u (true, s) = (
  ok (record { success = true; message = approved_message (strip a.scheduled_at) }),
  notify rule (λ bot. Notice.approved bot a.project a.tag u.username) s,
)

abbrev pub approve_checked :
    Env → ℕ → Rule → Approval → User → Result (Unit {0}) → State → Result Reply × State
approve_checked c i rule a u (err e) s = (err e, s)
approve_checked c i rule a u (ok _) s =
    approve_done rule a u (transition c.now i (pending ∷ []) approved (approve_fields c u) s)

abbrev pub approve_found : Env → ℕ → User → Option Approval → State → Result Reply × State
approve_found c i u none s = (err (not_found "errors.approval_not_found"), s)
approve_found c i u (some a) s =
    let rule = or_no_rule (get_rule a.project s) in
    approve_checked c i rule a u (check_approver c rule a u) s

unfoldable pub approve : Env → ℕ → User → State → Result Reply × State
approve c i u s = approve_found c i u (get_by_id i s) s

abbrev pub reject_fields : Env → User → String → Approval → Approval
reject_fields c u note a = record a {
  approver = u.username;
  approve_note = note;
  approved_at = some c.now;
}

abbrev pub reject_done : ℕ → Rule → Approval → User → String → Bool × State → Result Reply × State
reject_done i rule a u note (false, s) = (ok already_handled, s)
reject_done i rule a u note (true, s) = (
  ok (record { success = true; message = "已驳回" }),
  notify rule (λ bot. Notice.rejected bot a.project a.tag u.username note)
      (mark_approval_log_terminal i LogStatus.rejected s),
)

abbrev pub reject_checked :
    Env → ℕ → Rule → Approval → User → String → Result (Unit {0}) → State → Result Reply × State
reject_checked c i rule a u note (err e) s = (err e, s)
reject_checked c i rule a u note (ok _) s =
    reject_done i rule a u note
      (transition c.now i (pending ∷ []) ApprovalStatus.rejected (reject_fields c u note) s)

abbrev pub reject_found : Env → ℕ → User → String → Option Approval → State → Result Reply × State
reject_found c i u note none s = (err (not_found "errors.approval_not_found"), s)
reject_found c i u note (some a) s =
    let rule = or_no_rule (get_rule a.project s) in
    reject_checked c i rule a u note (check_approver c rule a u) s

unfoldable pub reject : Env → ℕ → User → String → State → Result Reply × State
reject c i u note s = reject_found c i u note (get_by_id i s) s

-- The rule is read again after the record was closed.
abbrev pub cancel_done : ℕ → Approval → User → Bool × State → Result Reply × State
cancel_done i a u (false, s) = (ok (record { success = false; message = "仅待审批或已批准未执行的单据可撤销" }), s)
cancel_done i a u (true, s) = (
  ok (record { success = true; message = "已撤销" }),
  notify (or_no_rule (get_rule a.project s))
      (λ bot. Notice.cancelled bot a.project a.tag u.username)
      (mark_approval_log_terminal i LogStatus.cancelled s),
)

abbrev pub cancel_found : Env → ℕ → User → Option Approval → State → Result Reply × State
cancel_found c i u none s = (err (not_found "errors.approval_not_found"), s)
cancel_found c i u (some a) s =
    if not (is_owner a u) && not (is_super c.settings u)
    then (err (app 403 "errors.approval_cancel_perm"), s)
    else cancel_done i a u
        (transition c.now i (pending ∷ approved ∷ []) ApprovalStatus.cancelled (λ r. r) s)

unfoldable pub cancel : Env → ℕ → User → State → Result Reply × State
cancel c i u s = cancel_found c i u (get_by_id i s) s
