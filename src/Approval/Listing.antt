-- ===== src/Approval/Listing.antt =====
-- services/approval_service.py: the list of approvals leaves none out, and the count of approvals to
-- decide on agrees with what `approve` allows.
use devops_cd.Prelude.{
  ℕ, suc, ◌+◌, ◌≤◌, String, Bool, true, false, not, ◌&&◌, List, [], ◌∷◌, ◌++◌, ◌≡◌, refl, sym, ap,
  ◌∙◌, arith, str_eq, Bool-cases, inl, inr, All, All-map, select, count, reversed, length,
  count-append, count-reversed, count-select, count-ext,
}
use mathlib.Core.Path.{subst}
use text.Mathlib.TextEquality.{eq_iff}
use devops_cd.Text.{is_empty, strip}
use devops_cd.State.{
  ApprovalStatus, pending, approved, deploying, Approval, State, User, same_status,
}
use devops_cd.Paging.Cover.{Pages, all_pages, clamped_page-Pages, limit-all}
use devops_cd.Approval.Env.{Env}
use devops_cd.Approval.Perms.{can_approve, same_person, is_requester}
use devops_cd.Approval.Rules.{get_rule}
use devops_cd.Approval.Actions.{or_no_rule}
use devops_cd.Approval.Judging.{may_judge, can_approve-decides}
use devops_cd.Approval.Queries.{
  Filter, is_active, keeps, of_status, by_urgency, in_order, matching, list_approvals, is_todo,
  count_todo,
}

abbrev one : Bool → ℕ
one true = 1
one false = 0

count-cons {ℓ} :
    {A : Type ℓ} (p : A → Bool) (x : A) (xs : List A) → count p (x ∷ xs) ≡ one (p x) + count p xs
count-cons p x xs = ground arith

-- Every status is in one of the four groups.
one_group :
    (st : ApprovalStatus) (b : Bool)
    → one (same_status st deploying && b)
        + (one (same_status st approved && b)
            + (one (same_status st pending && b) + one (not (is_active st) && b)))
      ≡ one b
unfolding same_status
one_group ApprovalStatus.pending b = omega arith
one_group ApprovalStatus.approved b = omega arith
one_group ApprovalStatus.deploying b = omega arith
one_group ApprovalStatus.deployed b = omega arith
one_group ApprovalStatus.failed b = omega arith
one_group ApprovalStatus.rejected b = omega arith
one_group ApprovalStatus.cancelled b = omega arith

abbrev tested : (ApprovalStatus → Bool) → (Approval → Bool) → List Approval → ℕ
tested t p xs = count (λ a. t a.status && p a) xs

groups-count :
    (p : Approval → Bool) (xs : List Approval)
    → tested (λ st. same_status st deploying) p xs
        + (tested (λ st. same_status st approved) p xs
            + (tested (λ st. same_status st pending) p xs + tested (λ st. not (is_active st)) p xs))
      ≡ count p xs
groups-count p [] = omega arith
groups-count p (x ∷ xs) = omega (
  arith,
  one_group x.status (p x),
  groups-count p xs,
  count-cons p x xs,
  count-cons (λ a. same_status a.status deploying && p a) x xs,
  count-cons (λ a. same_status a.status approved && p a) x xs,
  count-cons (λ a. same_status a.status pending && p a) x xs,
  count-cons (λ a. not (is_active a.status) && p a) x xs,
)

by_urgency-count : (p : Approval → Bool) (xs : List Approval) → count p (by_urgency xs) ≡ count p xs
by_urgency-count p xs =
    let d = of_status deploying xs in
    let a = of_status approved xs in
    let w = of_status pending xs in
    let o = select (λ r. not (is_active r.status)) xs in
    count-append p (d ++ a ++ w) o
    ∙ omega (
      arith,
      count-append p (d ++ a) w,
      count-append p d a,
      count-select p (λ r. same_status r.status deploying) xs,
      count-select p (λ r. same_status r.status approved) xs,
      count-select p (λ r. same_status r.status pending) xs,
      count-select p (λ r. not (is_active r.status)) xs,
      groups-count p xs,
    )

in_order-count :
    (b : Bool) (p : Approval → Bool) (xs : List Approval) → count p (in_order b xs) ≡ count p xs
in_order-count true p xs = by_urgency-count p xs
in_order-count false p xs = refl

matching-count :
    (f : Filter) (p : Approval → Bool) (s : State)
    → count p (matching f s) ≡ count (λ a. keeps f a && p a) s.approvals
unfolding matching
matching-count f p s =
    in_order-count f.active p (reversed (select (keeps f) s.approvals))
    ∙ count-reversed p (select (keeps f) s.approvals)
    ∙ count-select p (keeps f) s.approvals

-- The pages of the list, one after the other, hold every approval that passes the filter exactly as
-- often as the table does and no other: they have as many rows of any kind as the table has rows of
-- that kind that pass the filter. A page has at most 100 items, and every page gives the same total
-- and number of pages.
pub list_approvals_complete :
    (f : Filter) (page_size : ℕ) (s : State) (p : Approval → Bool)
    → (count p (all_pages (λ k. list_approvals f k page_size s))
        ≡ count (λ a. keeps f a && p a) s.approvals)
      × Pages (λ k. list_approvals f k page_size s) (matching f s)
unfolding list_approvals
list_approvals_complete f page_size s p =
    let pages = clamped_page-Pages page_size (matching f s) in
    (ap (count p) pages.covers ∙ matching-count f p s, pages)

both_named :
    (r n : String)
    → is_empty n ≡ false
    → (not (is_empty r) && (not (is_empty n) && str_eq r n)) ≡ str_eq r n
both_named r n h = elim (Bool-cases (str_eq r n)) [
  | inl e ↦
      let there : is_empty r ≡ false = subst (λ x. is_empty x ≡ false) (sym ((eq_iff r n).0 e)) h in
      rw (e, h, there) refl
  | inr e ↦ rw e (ground arith)
]

same_name :
    (r n : String) → strip r ≡ r → strip n ≡ n → is_empty n ≡ false → same_person r n ≡ str_eq r n
unfolding same_person
same_name r n hr hn ne = rw hr (rw hn (both_named r n ne))

length-snoc {ℓ} : {A : Type ℓ} (xs : List A) (y : A) → length (xs ++ y ∷ []) ≡ suc (length xs)
length-snoc [] y = refl
length-snoc (x ∷ xs) y = ap suc (length-snoc xs y)

length-select-reversed :
    (t : Approval → Bool) (xs : List Approval) → length (reversed (select t xs)) ≡ count t xs
length-select-reversed t [] = refl
length-select-reversed t (x ∷ xs) = elim (Bool-cases (t x)) [
  | inl hit ↦ rw hit (length-snoc (reversed (select t xs)) x ∙ ap suc (length-select-reversed t xs))
  | inr miss ↦ rw miss (length-select-reversed t xs)
]

-- Where names have no outer spaces, the user has one, and at most 200 approvals are pending, the
-- number of approvals to decide on is the number of pending approvals that `approve` lets the user
-- approve.
pub count_todo_agrees :
    (c : Env) (u : User) (s : State)
    → All (λ a. strip a.requester ≡ a.requester) s.approvals
    → strip u.username ≡ u.username
    → is_empty u.username ≡ false
    → count (λ a. same_status a.status pending) s.approvals ≤ 200
    → (count_todo c u s).to_approve
      ≡ count (λ a. same_status a.status pending && may_judge c u s a) s.approvals
unfolding count_todo get_rule is_requester
count_todo_agrees c u s names name named few =
    let waiting = select (λ (a : Approval). same_status a.status pending) s.approvals in
    ap (count (is_todo c u s)) (
      limit-all 200 (reversed waiting) (
        omega (arith, few, length-select-reversed (λ a. same_status a.status pending) s.approvals)))
    ∙ count-reversed (is_todo c u s) waiting
    ∙ count-select (is_todo c u s) (λ a. same_status a.status pending) s.approvals
    ∙ count-ext _ _ s.approvals (
        All-map (λ a. strip a.requester ≡ a.requester) _ s.approvals
          (λ a h.
            ap
              (λ b.
                same_status a.status pending
                && (not b && can_approve c.settings (or_no_rule (get_rule a.project s)) u))
              (sym (same_name a.requester u.username h name named))
            ∙ ap (λ b. same_status a.status pending && (not (is_requester a u) && b))
                (can_approve-decides c.settings (or_no_rule (get_rule a.project s)) u))
          names)
