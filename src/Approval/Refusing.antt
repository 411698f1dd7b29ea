-- ===== src/Approval/Refusing.antt =====
-- `approve`, `reject` and `cancel` change nothing where they do not succeed.
use devops_cd.Prelude.{
  ℕ, String, Bool, true, false, not, ◌&&◌, Option, none, some, [], ◌∷◌, ◌≡◌, refl, arith, inl, inr,
  Bool-cases, if◌then◌else◌,
}
use devops_cd.Result.{Result, ok, err}
use devops_cd.State.{pending, approved, rejected, cancelled, Approval, State, User, Rule}
use devops_cd.Approval.Env.{Env}
use devops_cd.Approval.Rules.{get_rule}
use devops_cd.Approval.Perms.{is_super, is_owner}
use devops_cd.Approval.Actions.{
  approve, approve_found, approve_checked, approve_done, approve_fields, or_no_rule, reject,
  reject_found, reject_checked, reject_done, reject_fields, cancel, cancel_found, cancel_done,
}
use devops_cd.Approval.Transition.{transition-failure}
use devops_cd.Approval.Judging.{succeeded}

approve_done-failure :
    (rule : Rule) (a : Approval) (u : User) (s : State) (r : Bool × State)
    → (r.0 ≡ false → r.1 ≡ s)
    → succeeded (approve_done rule a u r).0 ≡ false
    → (approve_done rule a u r).1 ≡ s
approve_done-failure rule a u s (false, t) h e = h refl
approve_done-failure rule a u s (true, t) h e = absurd (ground arith)

approve_checked-failure :
    (c : Env) (i : ℕ) (rule : Rule) (a : Approval) (u : User) (r : Result (Unit {0})) (s : State)
    → succeeded (approve_checked c i rule a u r s).0 ≡ false
    → (approve_checked c i rule a u r s).1 ≡ s
approve_checked-failure c i rule a u (err e) s h = refl
approve_checked-failure c i rule a u (ok x) s h =
    approve_done-failure rule a u s _
      (transition-failure c.now i (pending ∷ []) approved (approve_fields c u) s) h

approve_found-failure :
    (c : Env) (i : ℕ) (u : User) (o : Option Approval) (s : State)
    → succeeded (approve_found c i u o s).0 ≡ false
    → (approve_found c i u o s).1 ≡ s
approve_found-failure c i u none s h = refl
approve_found-failure c i u (some a) s h =
    approve_checked-failure c i (or_no_rule (get_rule a.project s)) a u _ s h

pub approve_failure :
    (c : Env) (i : ℕ) (u : User) (s : State)
    → succeeded (approve c i u s).0 ≡ false
    → (approve c i u s).1 ≡ s
unfolding approve
approve_failure c i u s h = approve_found-failure c i u _ s h

reject_done-failure :
    (i : ℕ) (rule : Rule) (a : Approval) (u : User) (note : String) (s : State) (r : Bool × State)
    → (r.0 ≡ false → r.1 ≡ s)
    → succeeded (reject_done i rule a u note r).0 ≡ false
    → (reject_done i rule a u note r).1 ≡ s
reject_done-failure i rule a u note s (false, t) h e = h refl
reject_done-failure i rule a u note s (true, t) h e = absurd (ground arith)

reject_checked-failure :
    (c : Env) (i : ℕ) (rule : Rule) (a : Approval) (u : User) (note : String)
    (r : Result (Unit {0})) (s : State)
    → succeeded (reject_checked c i rule a u note r s).0 ≡ false
    → (reject_checked c i rule a u note r s).1 ≡ s
reject_checked-failure c i rule a u note (err e) s h = refl
reject_checked-failure c i rule a u note (ok x) s h =
    reject_done-failure i rule a u note s _
      (transition-failure c.now i (pending ∷ []) rejected (reject_fields c u note) s) h

reject_found-failure :
    (c : Env) (i : ℕ) (u : User) (note : String) (o : Option Approval) (s : State)
    → succeeded (reject_found c i u note o s).0 ≡ false
    → (reject_found c i u note o s).1 ≡ s
reject_found-failure c i u note none s h = refl
reject_found-failure c i u note (some a) s h =
    reject_checked-failure c i (or_no_rule (get_rule a.project s)) a u note _ s h

pub reject_failure :
    (c : Env) (i : ℕ) (u : User) (note : String) (s : State)
    → succeeded (reject c i u note s).0 ≡ false
    → (reject c i u note s).1 ≡ s
unfolding reject
reject_failure c i u note s h = reject_found-failure c i u note _ s h

cancel_done-failure :
    (i : ℕ) (a : Approval) (u : User) (s : State) (r : Bool × State)
    → (r.0 ≡ false → r.1 ≡ s)
    → succeeded (cancel_done i a u r).0 ≡ false
    → (cancel_done i a u r).1 ≡ s
cancel_done-failure i a u s (false, t) h e = h refl
cancel_done-failure i a u s (true, t) h e = absurd (ground arith)

cancel_found-failure :
    (c : Env) (i : ℕ) (u : User) (o : Option Approval) (s : State)
    → succeeded (cancel_found c i u o s).0 ≡ false
    → (cancel_found c i u o s).1 ≡ s
cancel_found-failure c i u none s h = refl
cancel_found-failure c i u (some a) s h =
    elim (Bool-cases (not (is_owner a u) && not (is_super c.settings u))) [
      | inl denied ↦ rw denied refl
      | inr allowed ↦ rw allowed (
          cancel_done-failure i a u s _
            (transition-failure c.now i (pending ∷ approved ∷ []) cancelled (λ r. r) s)
            (rw allowed at h))
    ]

pub cancel_failure :
    (c : Env) (i : ℕ) (u : User) (s : State)
    → succeeded (cancel c i u s).0 ≡ false
    → (cancel c i u s).1 ≡ s
unfolding cancel
cancel_failure c i u s h = cancel_found-failure c i u _ s h

unless : (s t : State) (b : Bool) → (b ≡ false → t ≡ s) → t ≡ (if b then t else s)
unless s t true h = refl
unless s t false h = h refl

-- Where `approve`, `reject` or `cancel` does not report a success, it leaves the whole state as it
-- was: approvals, records and notices.
pub refusal_changes_nothing :
    (c : Env) (i : ℕ) (u : User) (note : String) (s : State)
    → ((approve c i u s).1 ≡ (if succeeded (approve c i u s).0 then (approve c i u s).1 else s))
      × ((reject c i u note s).1
          ≡ (if succeeded (reject c i u note s).0 then (reject c i u note s).1 else s))
      × ((cancel c i u s).1 ≡ (if succeeded (cancel c i u s).0 then (cancel c i u s).1 else s))
refusal_changes_nothing c i u note s = (
  unless s (approve c i u s).1 (succeeded (approve c i u s).0) (approve_failure c i u s),
  unless s (reject c i u note s).1 (succeeded (reject c i u note s).0)
      (reject_failure c i u note s),
  unless s (cancel c i u s).1 (succeeded (cancel c i u s).0) (cancel_failure c i u s),
)
