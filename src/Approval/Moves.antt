-- ===== src/Approval/Moves.antt =====
-- Every operation on approvals moves each approval along the edges of the state machine.
use devops_cd.Prelude.{
  ℕ, String, Bool, true, false, not, ◌&&◌, Option, none, some, List, [], ◌∷◌, ◌≡◌, refl, arith, any,
  ◌==◌, inl, inr, Bool-cases, &&-eq-true, All, All-map, sym, unique-find,
}
use mathlib.Core.Path.{subst}
use devops_cd.Approval.Keys.{IsKeyed}
use devops_cd.Result.{Result, ok, err}
use devops_cd.State.{
  ApprovalStatus, pending, approved, deploying, deployed, failed, rejected, cancelled, LogStatus,
  Approval, Rule, Notice, State, User, same_status,
}
use devops_cd.DeployRun.Frame.{Kept, mark-Kept}
use devops_cd.DeployRun.Records.{mark_approval_log_terminal}
use devops_cd.Approval.Env.{Env}
use devops_cd.Approval.Perms.{is_owner, is_super, is_requester}
use devops_cd.Approval.Rules.{get_rule}
use devops_cd.Approval.Machine.{get_by_id, transition, eligible, move_row}
use devops_cd.Approval.Actions.{
  or_no_rule, check_approver, approve_fields, reject_fields, notify, approve_done, approve_checked,
  approve_found, approve, reject_done, reject_checked, reject_found, reject, cancel_done,
  cancel_found, cancel,
}
use devops_cd.Approval.Execution.{set_deploy_id}
use devops_cd.Approval.Evolution.{
  Edge, Follows, Follows-move_row, Follows-refl, Reaches, Evolves, Evolves-refl, Evolves-trans,
  Evolves-update, All-of, same_status-eq,
}

-- A state after another one, as far as the approvals go.
abbrev pub Later : State → State → Type 0
Later s t = Evolves s.next_approval s.approvals t.next_approval t.approvals

pub Later-refl : (s : State) → Later s s
Later-refl s = Evolves-refl s.next_approval s.approvals

pub Later-trans : (s t u : State) → Later s t → Later t u → Later s u
Later-trans s t u =
    Evolves-trans s.next_approval t.next_approval u.next_approval s.approvals t.approvals
      u.approvals

pub Later-same : (s t u : State) → Kept t u → Later s t → Later s u
Later-same s t u e h = rw (e.0, e.1) h

-- Columns that a service sets besides the status, where the approver stays.
pub Follows-plain : (x : Approval) → Follows x (record x { status = x.status })
Follows-plain x = Follows-refl x

pub Follows-deploy_id :
    (d : ℕ) (x : Approval) → Follows x (record (set_deploy_id d x) { status = x.status })
Follows-deploy_id d x = record {
  same_id = refl;
  same_requester = refl;
  same_params = refl;
  same_project = refl;
  moves = Reaches.here;
  judged = inl refl;
}

-- The approver is set to a user who is not the requester.
Follows-approve :
    (c : Env) (u : User) (x : Approval)
    → is_requester x u ≡ false
    → Follows x (record (approve_fields c u x) { status = x.status })
unfolding is_requester
Follows-approve c u x h = record {
  same_id = refl;
  same_requester = refl;
  same_params = refl;
  same_project = refl;
  moves = Reaches.here;
  judged = inr h;
}

Follows-reject :
    (c : Env) (u : User) (note : String) (x : Approval)
    → is_requester x u ≡ false
    → Follows x (record (reject_fields c u note x) { status = x.status })
unfolding is_requester
Follows-reject c u note x h = record {
  same_id = refl;
  same_requester = refl;
  same_params = refl;
  same_project = refl;
  moves = Reaches.here;
  judged = inr h;
}

-- `fields` need keep only the row that has the id.
transition_at-Later :
    (now : String) (i : ℕ) (from : List ApprovalStatus) (to : ApprovalStatus)
    (fields : Approval → Approval) (s : State)
    → All
        (λ (x : Approval). (x.id == i) ≡ true → Follows x (record (fields x) { status = x.status }))
        s.approvals
    → ((a : ApprovalStatus) → any (same_status a) from ≡ true → Edge a to)
    → Later s (transition now i from to fields s).1
unfolding transition
transition_at-Later now i from to fields s k e =
    Evolves-update s.next_approval (eligible i from) _ s.approvals (
      All-map
        (λ (x : Approval). (x.id == i) ≡ true → Follows x (record (fields x) { status = x.status }))
        (λ x. eligible i from x ≡ true → Follows x (move_row now to fields x)) s.approvals
        (λ x f h.
          let (a, b) = &&-eq-true (x.id == i) (any (same_status x.status) from) h in
          Follows-move_row now to fields x (f a) (e x.status b))
        k)

pub transition-Later :
    (now : String) (i : ℕ) (from : List ApprovalStatus) (to : ApprovalStatus)
    (fields : Approval → Approval) (s : State)
    → ((x : Approval) → Follows x (record (fields x) { status = x.status }))
    → ((a : ApprovalStatus) → any (same_status a) from ≡ true → Edge a to)
    → Later s (transition now i from to fields s).1
transition-Later now i from to fields s k =
    transition_at-Later now i from to fields s (All-of s.approvals (λ x _. k x))

pub from_one :
    (b to : ApprovalStatus)
    → Edge b to
    → (a : ApprovalStatus) → any (same_status a) (b ∷ []) ≡ true
    → Edge a to
from_one b to e a h = rw (same_status-eq a b (ground arith)) e

from_open :
    (a : ApprovalStatus) → any (same_status a) (pending ∷ approved ∷ []) ≡ true → Edge a cancelled
unfolding same_status
from_open pending h = Edge.cancel_pending
from_open approved h = Edge.cancel_approved
from_open deploying h = absurd (ground arith)
from_open deployed h = absurd (ground arith)
from_open failed h = absurd (ground arith)
from_open rejected h = absurd (ground arith)
from_open cancelled h = absurd (ground arith)

-- Operations on deployment records, and notices, leave the approvals alone.
pub approvals-notify :
    (r : Rule) (n : ℕ → Notice) (s : State) → (notify r n s).approvals ≡ s.approvals
approvals-notify r n s = ground arith

pub next-notify :
    (r : Rule) (n : ℕ → Notice) (s : State) → (notify r n s).next_approval ≡ s.next_approval
next-notify r n s = ground arith

approvals-mark :
    (i : ℕ) (l : LogStatus) (s : State) → (mark_approval_log_terminal i l s).approvals ≡ s.approvals
approvals-mark i l s = (mark-Kept i l s).0

next-mark :
    (i : ℕ) (l : LogStatus) (s : State)
    → (mark_approval_log_terminal i l s).next_approval ≡ s.next_approval
next-mark i l s = (mark-Kept i l s).1

-- A change of the one row with the id.
only :
    (i : ℕ) (a : Approval) (s : State)
    → IsKeyed s
    → get_by_id i s ≡ some a
    → (fields : Approval → Approval) → Follows a (record (fields a) { status = a.status })
    → All
        (λ (x : Approval). (x.id == i) ≡ true → Follows x (record (fields x) { status = x.status }))
        s.approvals
unfolding get_by_id
only i a s v f fields h =
    All-map (λ (x : Approval). (x.id == i) ≡ true → x ≡ a)
      (λ (x : Approval). (x.id == i) ≡ true → Follows x (record (fields x) { status = x.status }))
      s.approvals
      (λ x e k. subst (λ z. Follows z (record (fields z) { status = z.status })) (sym (e k)) h)
      (unique-find (λ (x : Approval). x.id == i) a s.approvals (v.unique i) f)

not_requester :
    (c : Env) (rule : Rule) (a : Approval) (u : User) (x : Unit {0})
    → check_approver c rule a u ≡ ok x
    → is_requester a u ≡ false
unfolding check_approver
not_requester c rule a u x h = ground arith

approve_done-Later :
    (rule : Rule) (a : Approval) (u : User) (s : State) (r : Bool × State)
    → Later s r.1
    → Later s (approve_done rule a u r).1
approve_done-Later rule a u s (false, t) h = h
approve_done-Later rule a u s (true, t) h = rw (approvals-notify, next-notify) h

approve_checked-Later :
    (c : Env) (i : ℕ) (rule : Rule) (a : Approval) (u : User) (k : Result (Unit {0})) (s : State)
    → IsKeyed s
    → get_by_id i s ≡ some a
    → check_approver c rule a u ≡ k
    → Later s (approve_checked c i rule a u k s).1
approve_checked-Later c i rule a u (err e) s v f g = Later-refl s
approve_checked-Later c i rule a u (ok x) s v f g = approve_done-Later rule a u s _ (
    transition_at-Later c.now i _ approved _ s
      (only i a s v f (approve_fields c u) (Follows-approve c u a (not_requester c rule a u x g)))
      (from_one pending approved Edge.approve))

approve_found-Later :
    (c : Env) (i : ℕ) (u : User) (o : Option Approval) (s : State)
    → IsKeyed s
    → get_by_id i s ≡ o
    → Later s (approve_found c i u o s).1
approve_found-Later c i u none s v f = Later-refl s
approve_found-Later c i u (some a) s v f =
    approve_checked-Later c i (or_no_rule (get_rule a.project s)) a u _ s v f refl

pub approve-Later :
    (c : Env) (i : ℕ) (u : User) (s : State) → IsKeyed s → Later s (approve c i u s).1
unfolding approve
approve-Later c i u s v = approve_found-Later c i u _ s v refl

reject_done-Later :
    (i : ℕ) (rule : Rule) (a : Approval) (u : User) (note : String) (s : State) (r : Bool × State)
    → Later s r.1
    → Later s (reject_done i rule a u note r).1
reject_done-Later i rule a u note s (false, t) h = h
reject_done-Later i rule a u note s (true, t) h =
    rw (approvals-notify, next-notify, approvals-mark, next-mark) h

reject_checked-Later :
    (c : Env) (i : ℕ) (rule : Rule) (a : Approval) (u : User) (note : String)
    (k : Result (Unit {0})) (s : State)
    → IsKeyed s
    → get_by_id i s ≡ some a
    → check_approver c rule a u ≡ k
    → Later s (reject_checked c i rule a u note k s).1
reject_checked-Later c i rule a u note (err e) s v f g = Later-refl s
reject_checked-Later c i rule a u note (ok x) s v f g = reject_done-Later i rule a u note s _ (
    transition_at-Later c.now i _ rejected _ s
      (only i a s v f (reject_fields c u note)
        (Follows-reject c u note a (not_requester c rule a u x g)))
      (from_one pending rejected Edge.reject))

reject_found-Later :
    (c : Env) (i : ℕ) (u : User) (note : String) (o : Option Approval) (s : State)
    → IsKeyed s
    → get_by_id i s ≡ o
    → Later s (reject_found c i u note o s).1
reject_found-Later c i u note none s v f = Later-refl s
reject_found-Later c i u note (some a) s v f =
    reject_checked-Later c i (or_no_rule (get_rule a.project s)) a u note _ s v f refl

pub reject-Later :
    (c : Env) (i : ℕ) (u : User) (note : String) (s : State)
    → IsKeyed s
    → Later s (reject c i u note s).1
unfolding reject
reject-Later c i u note s v = reject_found-Later c i u note _ s v refl

cancel_done-Later :
    (i : ℕ) (a : Approval) (u : User) (s : State) (r : Bool × State)
    → Later s r.1
    → Later s (cancel_done i a u r).1
cancel_done-Later i a u s (false, t) h = h
cancel_done-Later i a u s (true, t) h =
    rw (approvals-notify, next-notify, approvals-mark, next-mark) h

cancel_found-Later :
    (c : Env) (i : ℕ) (u : User) (o : Option Approval) (s : State)
    → Later s (cancel_found c i u o s).1
cancel_found-Later c i u none s = Later-refl s
cancel_found-Later c i u (some a) s =
    elim (Bool-cases (not (is_owner a u) && not (is_super c.settings u))) [
      | inl denied ↦ rw denied (Later-refl s)
      | inr allowed ↦ rw allowed (
          cancel_done-Later i a u s _
            (transition-Later c.now i _ cancelled _ s Follows-plain from_open))
    ]

pub cancel-Later : (c : Env) (i : ℕ) (u : User) (s : State) → Later s (cancel c i u s).1
unfolding cancel
cancel-Later c i u s = cancel_found-Later c i u _ s
