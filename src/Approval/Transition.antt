-- ===== src/Approval/Transition.antt =====
-- What `_transition` reports, what it does to the row with the id and to the other rows.
use devops_cd.Prelude.{
  ℕ, ◌≤◌, String, Bool, false, some, List, [], ◌∷◌, ◌≡◌, ◌≢◌, refl, ap, arith, ltb, count, update,
  any, find_first, inl, inr, Bool-cases, if◌then◌else◌,
}
use mathlib.Core.Path.{subst}
use mathlib.Core.Option.{some-injective}
use devops_cd.State.{ApprovalStatus, Approval, State, same_status}
use devops_cd.Approval.Machine.{get_by_id, transition, eligible, move_row}
use devops_cd.Approval.Keys.{IsKeyed, has_key}

abbrev pub fits : List ApprovalStatus → Approval → Bool
fits from a = any (same_status a.status) from

count_none :
    (i : ℕ) (from : List ApprovalStatus) (xs : List Approval)
    → count (has_key i) xs ≡ 0
    → count (eligible i from) xs ≡ 0
count_none i from [] h = refl
count_none i from (x ∷ xs) h = ground (arith, count_none i from xs)

-- The rowcount tells whether the row's status is one of those that are asked for.
count_found :
    (i : ℕ) (from : List ApprovalStatus) (a : Approval) (xs : List Approval)
    → count (has_key i) xs ≤ 1
    → find_first (has_key i) xs ≡ some a
    → ltb 0 (count (eligible i from) xs) ≡ fits from a
count_found i from a [] h e = cc
count_found i from a (x ∷ xs) h e = elim (Bool-cases (has_key i x)) [
  | inl hit ↦
      let same : x ≡ a = some-injective x a (rw hit at e) in
      subst (λ z. ltb 0 (count (eligible i from) (x ∷ xs)) ≡ fits from z) same
        (ground (arith, count_none i from xs))
  | inr miss ↦ ground (arith, count_found i from a xs)
]

module _ (now : String) (i : ℕ) (from : List ApprovalStatus) (to : ApprovalStatus)
    (fields : Approval → Approval) (s : State) where
  pub transition-success :
      (a : Approval)
      → IsKeyed s
      → get_by_id i s ≡ some a
      → (transition now i from to fields s).0 ≡ fits from a
  unfolding transition get_by_id
  transition-success a k e = count_found i from a s.approvals (k.unique i) e

  find_updated :
      (keeps : (x : Approval) → (fields x).id ≡ x.id) (a : Approval) (xs : List Approval)
      → find_first (has_key i) xs ≡ some a
      → find_first (has_key i) (update (eligible i from) (move_row now to fields) xs)
        ≡ some (if fits from a then move_row now to fields a else a)
  find_updated keeps a [] e = cc
  find_updated keeps a (x ∷ xs) e = elim (Bool-cases (has_key i x)) [
    | inl hit ↦
        let same : x ≡ a = some-injective x a (rw hit at e) in
        subst
          (λ z.
            find_first (has_key i) (update (eligible i from) (move_row now to fields) (x ∷ xs))
            ≡ some (if fits from z then move_row now to fields z else z))
          same (ground (arith, keeps x))
    | inr miss ↦ ground (arith, keeps x, find_updated keeps a xs)
  ]

  pub get-transition :
      (a : Approval)
      → ((x : Approval) → (fields x).id ≡ x.id)
      → get_by_id i s ≡ some a
      → get_by_id i (transition now i from to fields s).1
        ≡ some (if fits from a then move_row now to fields a else a)
  unfolding transition get_by_id
  get-transition a keeps e = find_updated keeps a s.approvals e

  find_other :
      (j : ℕ) (keeps : (x : Approval) → (fields x).id ≡ x.id) (xs : List Approval)
      → i ≢ j
      → find_first (has_key j) (update (eligible i from) (move_row now to fields) xs)
        ≡ find_first (has_key j) xs
  find_other j keeps [] h = refl
  find_other j keeps (x ∷ xs) h = ground (arith, keeps x, find_other j keeps xs)

  pub get-transition_ne :
      (j : ℕ)
      → ((x : Approval) → (fields x).id ≡ x.id)
      → i ≢ j
      → get_by_id j (transition now i from to fields s).1 ≡ get_by_id j s
  unfolding transition get_by_id
  get-transition_ne j keeps h = find_other j keeps s.approvals h

  update_none :
      (xs : List Approval)
      → ltb 0 (count (eligible i from) xs) ≡ false
      → update (eligible i from) (move_row now to fields) xs ≡ xs
  update_none [] h = refl
  update_none (x ∷ xs) h = ground (arith, update_none xs)

  -- An UPDATE without a row changes nothing.
  pub transition-failure :
      (transition now i from to fields s).0 ≡ false → (transition now i from to fields s).1 ≡ s
  unfolding transition
  transition-failure h =
      ap (λ (xs : List Approval). record s { approvals = xs }) (update_none s.approvals h)
