-- ===== src/Prelude/Counting.antt =====
-- How the number of rows that meet a test changes under the row operations.
use Prim.Native.Nat.{◌+◌, ◌≤◌, ◌<◌}
use mathlib.Core.Path.{◌≡◌, refl, sym, subst, ◌∙◌}
use mathlib.Core.Bool.{Bool, true, false, ◌||◌, ◌&&◌}
use mathlib.Core.List.{List, [], ◌∷◌}
use native.Mathlib.Omega.{arith}
use mathlib.Core.Logic.{inl, inr}
use mathlib.Core.Option.{none, some, some-injective, none-ne-some}
use devops_cd.Prelude.Tests.{if◌then◌else◌, Bool-cases, Option-cases}
use devops_cd.Prelude.Lists.{
  All, any, count, update, find_first, find_last, select, reversed, count-append,
}

module _ {ℓ} {A : Type ℓ} where
  -- Rows that meet `p` after an UPDATE were among those that met `b` or `c` before it.
  pub count-update-le :
      (p b c q : A → Bool) (f : A → A) (xs : List A)
      → ((x : A) → p (if q x then f x else x) ≡ true → (b x || c x) ≡ true)
      → count p (update q f xs) ≤ count b xs + count c xs
  count-update-le p b c q f [] h = omega arith
  count-update-le p b c q f (x ∷ xs) h = ground (arith, h x, count-update-le p b c q f xs h)

  pub count-le :
      (p q : A → Bool) (xs : List A)
      → All (λ x. p x ≡ true → q x ≡ true) xs
      → count p xs ≤ count q xs
  count-le p q [] h = omega arith
  count-le p q (x ∷ xs) h = ground (arith, h.0, count-le p q xs h.1)

  pub count-eq-zero : (p : A → Bool) (xs : List A) → any p xs ≡ false → count p xs ≡ 0
  count-eq-zero p [] h = refl
  count-eq-zero p (x ∷ xs) h = ground (arith, count-eq-zero p xs)

  pub count-false : (xs : List A) → count (λ _. false) xs ≡ 0
  count-false [] = refl
  count-false (x ∷ xs) = count-false xs

  count_zero_none :
      (p : A → Bool) (a : A) (xs : List A) → count p xs ≤ 0 → All (λ x. p x ≡ true → x ≡ a) xs
  count_zero_none p a [] h = tt
  count_zero_none p a (x ∷ xs) h =
      ((λ e. absurd (ground arith)), count_zero_none p a xs (ground arith))

  -- Where at most one row meets a test, it is the row that a query by the test finds.
  pub unique-find :
      (p : A → Bool) (a : A) (xs : List A)
      → count p xs ≤ 1
      → find_first p xs ≡ some a
      → All (λ x. p x ≡ true → x ≡ a) xs
  unique-find p a [] h e = tt
  unique-find p a (x ∷ xs) h e = elim (Bool-cases (p x)) [
    | inl hit ↦ ((λ _. some-injective x a (rw hit at e)), count_zero_none p a xs (ground arith))
    | inr miss ↦ ((λ k. absurd (ground arith)), unique-find p a xs (ground arith) (rw miss at e))
  ]

  -- No row meets a test after an UPDATE if no changed and no unchanged row does.
  pub any-update :
      (p q : A → Bool) (f : A → A) (xs : List A)
      → ((x : A) → q x ≡ true → p (f x) ≡ false)
      → ((x : A) → q x ≡ false → p x ≡ false)
      → any p (update q f xs) ≡ false
  any-update p q f [] h k = refl
  any-update p q f (x ∷ xs) h k = ground (arith, h x, k x, any-update p q f xs h k)

  pub count-reversed : (p : A → Bool) (xs : List A) → count p (reversed xs) ≡ count p xs
  count-reversed p [] = refl
  count-reversed p (x ∷ xs) =
      ground (arith, count-append p (reversed xs) (x ∷ []), count-reversed p xs)

  pub count-select :
      (p q : A → Bool) (xs : List A) → count p (select q xs) ≡ count (λ x. q x && p x) xs
  count-select p q [] = refl
  count-select p q (x ∷ xs) = ground (arith, count-select p q xs)

  -- Tests that agree on every row count the same rows.
  pub count-ext : (p q : A → Bool) (xs : List A) → All (λ x. p x ≡ q x) xs → count p xs ≡ count q xs
  count-ext p q [] h = refl
  count-ext p q (x ∷ xs) h = ground (arith, h.0, count-ext p q xs h.1)

  last_here :
      (p : A → Bool) (x a : A) → (if p x then some x else none) ≡ some a → (x ≡ a) × (p a ≡ true)
  last_here p x a e = elim (Bool-cases (p x)) [
    | inl hit ↦
        let same = some-injective x a (rw hit at e) in (same, subst (λ y. p y ≡ true) same hit)
    | inr miss ↦ absurd (none-ne-some a (rw miss at e))
  ]

  -- What a query finds meets its test.
  pub found-last : (p : A → Bool) (xs : List A) (a : A) → find_last p xs ≡ some a → p a ≡ true
  found-last p [] a e = cc
  found-last p (x ∷ xs) a e = elim (Option-cases (find_last p xs)) [
    | inl empty ↦ (last_here p x a (rw empty at e)).1
    | inr (b, later) ↦ found-last p xs a (later ∙ (rw later at e))
  ]

  -- The row that a query finds is counted by every test that it meets.
  pub found-count :
      (p q : A → Bool) (xs : List A) (a : A) → find_last p xs ≡ some a → q a ≡ true → 0 < count q xs
  found-count p q [] a e h = cc
  found-count p q (x ∷ xs) a e h = elim (Option-cases (find_last p xs)) [
    | inl empty ↦
        let same = (last_here p x a (rw empty at e)).0 in
        let hit = subst (λ y. q y ≡ true) (sym same) h in rw hit (omega arith)
    | inr (b, later) ↦ ground (arith, found-count p q xs a (later ∙ (rw later at e)) h)
  ]
