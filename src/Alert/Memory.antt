-- ===== src/Alert/Memory.antt =====
-- services/alert_service.py: how the clean-up of old entries bears on what a look-up finds.
use devops_cd.Prelude.{
  ℕ, ◌+◌, ◌≤◌, String, true, false, some, List, [], ◌∷◌, ◌≡◌, refl, arith, leb, str_eq, Bool-cases,
  inl, inr, ap, sym, ◌∙◌,
}
use mathlib.Core.Option.{some-injective}
use text.Mathlib.TextEquality.{eq_iff}
use mathlib.Core.Path.{subst}
use devops_cd.Text.Dict.{get, pop}
use devops_cd.Alert.Tracking.{drop_old, day}

the_young : (now a : ℕ) → now ≤ a + day → leb now (a + day) ≡ true
the_young now a y = ground arith

young_head :
    (now t : ℕ) (k j : String) (a : ℕ) (d : List (String × ℕ))
    → str_eq j k ≡ true
    → a ≡ t
    → now ≤ t + day
    → get k (drop_old now ((j, a) ∷ d)) ≡ some t
young_head now t k j a d hit e y = rw (the_young now a (omega (arith, e, y))) (rw hit (ap some e))

-- A young entry stays.
pub get-drop_old :
    (now t : ℕ) (k : String) (d : List (String × ℕ))
    → get k d ≡ some t
    → now ≤ t + day
    → get k (drop_old now d) ≡ some t
get-drop_old now t k [] h y = absurd (ground arith)
get-drop_old now t k ((j, a) ∷ d) h y = elim (Bool-cases (str_eq j k)) [
  | inl hit ↦ young_head now t k j a d hit (some-injective a t (rw hit at h)) y
  | inr miss ↦ ground (arith, get-drop_old now t k d (rw miss at h) y)
]

-- An entry that is found after the clean-up is young.
pub drop_old-young :
    (now t : ℕ) (k : String) (d : List (String × ℕ))
    → get k (drop_old now d) ≡ some t
    → now ≤ t + day
drop_old-young now t k [] h = absurd (ground arith)
drop_old-young now t k ((j, a) ∷ d) h = ground (arith, drop_old-young now t k d)

pub get-pop-other :
    (j k : String) (d : List (String × ℕ)) → str_eq j k ≡ false → get k (pop j d) ≡ get k d
get-pop-other j k [] h = refl
get-pop-other j k ((i, a) ∷ d) h = elim (Bool-cases (str_eq i j)) [
  | inl hit ↦
      rw hit
        (rw (subst (λ x. str_eq x k ≡ false) (sym ((eq_iff i j).0 hit)) h) (get-pop-other j k d h))
  | inr miss ↦ rw miss (ground (arith, get-pop-other j k d h))
]

-- A look-up after the clean-up finds what it found before it, or nothing.
pub get-drop_old-cases :
    (now : ℕ) (k : String) (d : List (String × ℕ)) (t : ℕ)
    → get k d ≡ some t
    → now ≤ t + day
    → get k (drop_old now d) ≡ get k d
get-drop_old-cases now k d t h y = get-drop_old now t k d h y ∙ sym h
