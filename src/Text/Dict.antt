-- ===== src/Text/Dict.antt =====
-- A dict with text keys: an association list, whose first entry for a key counts.
use devops_cd.Prelude.{
  String, Option, none, some, List, [], ◌∷◌, ◌≡◌, refl, arith, str_eq, All, if◌then◌else◌, inl, inr,
  Bool-cases, eq_iff,
}
use mathlib.Core.Path.{subst}

module _ {ℓ} {A : Type ℓ} where
  -- d.get(k)
  abbrev pub get : String → List (String × A) → Option A
  get k [] = none
  get k ((j, a) ∷ d) = let rest = get k d in if str_eq j k then some a else rest

  -- d.pop(k, None)
  abbrev pub pop : String → List (String × A) → List (String × A)
  pop k [] = []
  pop k ((j, a) ∷ d) = let rest = pop k d in if str_eq j k then rest else (j, a) ∷ rest

  -- d[k] = a
  abbrev pub put : String → A → List (String × A) → List (String × A)
  put k a d = (k, a) ∷ pop k d

  pub get-pop : (k : String) (d : List (String × A)) → get k (pop k d) ≡ none
  get-pop k [] = refl
  get-pop k ((j, a) ∷ d) = ground (arith, get-pop k d)

  -- Every value meets `P`.
  abbrev pub AllValues {κ} : (A → Type κ) → List (String × A) → Type κ
  AllValues P d = All (λ (e : String × A). P e.1) d

  pub AllValues-pop {κ} :
      (P : A → Type κ) (k : String) (d : List (String × A)) → AllValues P d → AllValues P (pop k d)
  AllValues-pop P k [] h = tt
  AllValues-pop P k ((j, a) ∷ d) h = elim (Bool-cases (str_eq j k)) [
    | inl hit ↦ rw hit (AllValues-pop P k d h.1)
    | inr miss ↦ rw miss ((h.0, AllValues-pop P k d h.1))
  ]

  -- What a look-up finds meets `P`.
  abbrev pub Found {κ} : (A → Type κ) → Option A → Type κ
  Found P none = Unit
  Found P (some a) = P a

  pub get-Found {κ} :
      (P : A → Type κ) (k : String) (d : List (String × A)) → AllValues P d → Found P (get k d)
  get-Found P k [] h = tt
  get-Found P k ((j, a) ∷ d) h = elim (Bool-cases (str_eq j k)) [
    | inl hit ↦ rw hit h.0
    | inr miss ↦ rw miss (get-Found P k d h.1)
  ]

  pub All-pop {κ} :
      (P : String × A → Type κ) (k : String) (d : List (String × A)) → All P d → All P (pop k d)
  All-pop P k [] h = tt
  All-pop P k ((j, a) ∷ d) h = elim (Bool-cases (str_eq j k)) [
    | inl hit ↦ rw hit (All-pop P k d h.1)
    | inr miss ↦ rw miss ((h.0, All-pop P k d h.1))
  ]

  -- What a look-up finds meets `P` with the key that was looked up.
  pub get-Entry {κ} :
      (P : String × A → Type κ) (k : String) (d : List (String × A))
      → All P d
      → Found (λ a. P (k, a)) (get k d)
  get-Entry P k [] h = tt
  get-Entry P k ((j, a) ∷ d) h = elim (Bool-cases (str_eq j k)) [
    | inl hit ↦ rw hit (subst (λ i. P (i, a)) ((eq_iff j k).0 hit) h.0)
    | inr miss ↦ rw miss (get-Entry P k d h.1)
  ]
