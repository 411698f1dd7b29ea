-- ===== src/Approval/Judging.antt =====
-- When `approve`, `reject` and `cancel` succeed.
use devops_cd.Prelude.{
  ℕ, String, Bool, false, not, ◌&&◌, ◌||◌, Option, none, some, List, [], ◌∷◌, ◌≡◌, refl, sym, arith,
  if◌then◌else◌, str_eq,
}
use devops_cd.Text.{is_empty, strip, contains}
use devops_cd.Text.Csv.{parse_csv}
use devops_cd.Result.{Result, ok, err, app}
use devops_cd.State.{
  ApprovalStatus, pending, approved, rejected, cancelled, Approval, State, User, Rule, Settings,
}
use devops_cd.Approval.Env.{Env}
use devops_cd.Approval.Rules.{get_rule}
use devops_cd.Approval.Perms.{is_super, can_approve, is_owner, is_requester}
use devops_cd.Approval.Machine.{get_by_id, transition}
use devops_cd.Approval.Actions.{
  Reply, approve, approve_found, approve_checked, approve_fields, check_approver, or_no_rule,
  reject, reject_found, reject_checked, reject_fields, cancel, cancel_found, cancel_done,
}
use devops_cd.Approval.Keys.{IsKeyed}
use devops_cd.Approval.Transition.{transition-success, fits}

-- The reply reports a success.
abbrev pub succeeded : Result Reply → Bool
succeeded (ok r) = r.success
succeeded (err e) = false

-- `u` is an administrator by the role, has the wildcard or cd.deploy.approve, or the rule names the
-- user or the user's role.
abbrev pub decides : Settings → Rule → User → Bool
decides c rule u =
    (str_eq u.role c.super_admin_role
      || (contains "*" u.permissions || contains "cd.deploy.approve" u.permissions))
    || (contains u.username (parse_csv rule.approvers)
        || (not (is_empty (strip rule.approver_role)) && str_eq u.role (strip rule.approver_role)))

-- `u` did not ask for the deployment, and may decide on it under the project's rule.
abbrev pub may_judge : Env → User → State → Approval → Bool
may_judge c u s a =
    not (is_requester a u) && decides c.settings (or_no_rule (get_rule a.project s)) u

pub can_approve-decides :
    (c : Settings) (rule : Rule) (u : User) → can_approve c rule u ≡ decides c rule u
unfolding can_approve
can_approve-decides c rule u = ground arith

-- `u` asked for the deployment, or has the administrator's role or the wildcard.
abbrev pub may_cancel : Env → User → Approval → Bool
may_cancel c u a =
    is_owner a u || (str_eq u.role c.settings.super_admin_role || contains "*" u.permissions)

-- There is such an approval, in one of the given states, that passes the test.
abbrev pub applies : List ApprovalStatus → (Approval → Bool) → Option Approval → Bool
applies from test none = false
applies from test (some a) = fits from a && test a

approve_checked-success :
    (c : Env) (i : ℕ) (rule : Rule) (a : Approval) (u : User) (s : State)
    → succeeded (approve_checked c i rule a u (check_approver c rule a u) s).0 ≡ (
        (transition c.now i (pending ∷ []) approved (approve_fields c u) s).0
        && (not (is_requester a u) && decides c.settings rule u))
unfolding check_approver transition
approve_checked-success c i rule a u s = ground (arith, can_approve-decides c.settings rule u)

reject_checked-success :
    (c : Env) (i : ℕ) (rule : Rule) (a : Approval) (u : User) (note : String) (s : State)
    → succeeded (reject_checked c i rule a u note (check_approver c rule a u) s).0 ≡ (
        (transition c.now i (pending ∷ []) rejected (reject_fields c u note) s).0
        && (not (is_requester a u) && decides c.settings rule u))
unfolding check_approver transition
reject_checked-success c i rule a u note s = ground (arith, can_approve-decides c.settings rule u)

approve_found-success :
    (c : Env) (i : ℕ) (u : User) (o : Option Approval) (s : State)
    → IsKeyed s
    → get_by_id i s ≡ o
    → succeeded (approve_found c i u o s).0 ≡ applies (pending ∷ []) (may_judge c u s) o
approve_found-success c i u none s k e = refl
approve_found-success c i u (some a) s k e =
    rw (sym (transition-success c.now i (pending ∷ []) approved (approve_fields c u) s a k e))
      (approve_checked-success c i (or_no_rule (get_rule a.project s)) a u s)

reject_found-success :
    (c : Env) (i : ℕ) (u : User) (note : String) (o : Option Approval) (s : State)
    → IsKeyed s
    → get_by_id i s ≡ o
    → succeeded (reject_found c i u note o s).0 ≡ applies (pending ∷ []) (may_judge c u s) o
reject_found-success c i u note none s k e = refl
reject_found-success c i u note (some a) s k e =
    rw (sym (transition-success c.now i (pending ∷ []) rejected (reject_fields c u note) s a k e))
      (reject_checked-success c i (or_no_rule (get_rule a.project s)) a u note s)

cancel_allowed-success :
    (c : Env) (i : ℕ) (a : Approval) (u : User) (s : State)
    → succeeded
        (if not (is_owner a u) && not (is_super c.settings u)
          then (err (app 403 "errors.approval_cancel_perm"), s)
          else cancel_done i a u
              (transition c.now i (pending ∷ approved ∷ []) cancelled (λ r. r) s)).0
      ≡ ((transition c.now i (pending ∷ approved ∷ []) cancelled (λ r. r) s).0 && may_cancel c u a)
unfolding transition is_super
cancel_allowed-success c i a u s = ground arith

cancel_found-success :
    (c : Env) (i : ℕ) (u : User) (o : Option Approval) (s : State)
    → IsKeyed s
    → get_by_id i s ≡ o
    → succeeded (cancel_found c i u o s).0 ≡ applies (pending ∷ approved ∷ []) (may_cancel c u) o
cancel_found-success c i u none s k e = refl
cancel_found-success c i u (some a) s k e =
    rw (sym (transition-success c.now i (pending ∷ approved ∷ []) cancelled (λ r. r) s a k e))
      (cancel_allowed-success c i a u s)

-- `approve` succeeds exactly where an approval has the id, it is pending, the user did not ask for
-- it, and may decide on it under the project's rule.
pub approve_success :
    (c : Env) (i : ℕ) (u : User) (s : State)
    → IsKeyed s
    → succeeded (approve c i u s).0 ≡ applies (pending ∷ []) (may_judge c u s) (get_by_id i s)
unfolding approve
approve_success c i u s k = approve_found-success c i u (get_by_id i s) s k refl

-- `reject` succeeds exactly where `approve` would.
pub reject_success :
    (c : Env) (i : ℕ) (u : User) (note : String) (s : State)
    → IsKeyed s
    → succeeded (reject c i u note s).0 ≡ applies (pending ∷ []) (may_judge c u s) (get_by_id i s)
unfolding reject
reject_success c i u note s k = reject_found-success c i u note (get_by_id i s) s k refl

-- `cancel` succeeds exactly where an approval has the id, it is pending or approved, and the user
-- asked for it or has the administrator's role or the wildcard.
pub cancel_success :
    (c : Env) (i : ℕ) (u : User) (s : State)
    → IsKeyed s
    → succeeded (cancel c i u s).0
      ≡ applies (pending ∷ approved ∷ []) (may_cancel c u) (get_by_id i s)
unfolding cancel
cancel_success c i u s k = cancel_found-success c i u (get_by_id i s) s k refl

-- Where the ids of the approvals are in order: `approve` and `reject` succeed exactly where an
-- approval has the id, it is pending, the user did not ask for it, and the user has the
-- administrator's role, the wildcard or cd.deploy.approve, or the project's rule names the user or
-- the user's role; `cancel` succeeds exactly where an approval has the id, it is pending or approved,
-- and the user asked for it or has the administrator's role or the wildcard.
pub actions_success :
    (c : Env) (i : ℕ) (u : User) (note : String) (s : State)
    → IsKeyed s
    → (succeeded (approve c i u s).0 ≡ applies (pending ∷ []) (may_judge c u s) (get_by_id i s))
      × (succeeded (reject c i u note s).0
          ≡ applies (pending ∷ []) (may_judge c u s) (get_by_id i s))
      × (succeeded (cancel c i u s).0
          ≡ applies (pending ∷ approved ∷ []) (may_cancel c u) (get_by_id i s))
actions_success c i u note s k =
    (approve_success c i u s k, reject_success c i u note s k, cancel_success c i u s k)
