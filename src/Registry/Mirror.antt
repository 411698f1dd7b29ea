-- ===== src/Registry/Mirror.antt =====
-- services/registry_service.py: after a synchronisation the table has the tags of the registry.
use devops_cd.Prelude.{
  ℕ, String, Bool, true, false, not, ◌&&◌, ◌||◌, Option, none, some, List, [], ◌∷◌, ◌++◌, ◌≡◌, refl,
  sym, ap, ◌∙◌, arith, ◌==◌, str_eq, if◌then◌else◌, Bool-cases, inl, inr, select, any, find_first,
  update, map,
}
use mathlib.Core.Path.{subst}
use text.Mathlib.TextEquality.{eq_iff}
use text.Mathlib.TextPositions.{eq_refl}
use devops_cd.Text.{contains}
use devops_cd.Registry.Tables.{RawArtifact, Artifact, Tables, Site, same_artifact}
use devops_cd.Registry.Sync.{
  set_columns, new_artifact, put_artifact, upsert, has_tag, upsert_all, tags_of,
}

-- A row of the repository with the tag.
abbrev pub tagged : ℕ → String → Artifact → Bool
tagged repo_id tag a = a.repo_id == repo_id && str_eq a.tag tag

pub any-update-same {ℓ} :
    {A : Type ℓ} (p q : A → Bool) (f : A → A) (xs : List A)
    → ((x : A) → p (f x) ≡ p x)
    → any p (update q f xs) ≡ any p xs
any-update-same p q f [] h = refl
any-update-same p q f (x ∷ xs) h = ground (arith, h x, any-update-same p q f xs h)

pub any-snoc {ℓ} :
    {A : Type ℓ} (p : A → Bool) (xs : List A) (y : A) → any p (xs ++ y ∷ []) ≡ (any p xs || p y)
any-snoc p [] y = ground arith
any-snoc p (x ∷ xs) y = ground (arith, any-snoc p xs y)

-- What a query finds is there for every weaker test.
pub found-any {ℓ} :
    {A : Type ℓ} (p q : A → Bool) (xs : List A) (a : A)
    → find_first p xs ≡ some a
    → ((x : A) → p x ≡ true → q x ≡ true)
    → any q xs ≡ true
found-any p q [] a e h = absurd (ground (arith, e))
found-any p q (x ∷ xs) a e h = elim (Bool-cases (p x)) [
  | inl hit ↦ rw (h x hit) refl
  | inr miss ↦ ground (arith, found-any p q xs a (rw miss at e) h)
]

put_artifact-any :
    (site : Site) (repo_id : ℕ) (tag : String) (raw : RawArtifact) (o : Option Artifact)
    (t : Tables)
    → find_first (same_artifact repo_id raw.tag raw.digest) t.artifacts ≡ o
    → any (tagged repo_id tag) (put_artifact site repo_id raw o t).artifacts
      ≡ (any (tagged repo_id tag) t.artifacts || str_eq raw.tag tag)
put_artifact-any site repo_id tag raw none t e =
    any-snoc (tagged repo_id tag) t.artifacts (new_artifact site t.next_artifact repo_id raw)
    ∙ ground arith
put_artifact-any site repo_id tag raw (some row) t e =
    any-update-same (tagged repo_id tag) (λ a. a.id == row.id) (set_columns site raw) t.artifacts
      (λ a. refl)
    ∙ elim (Bool-cases (str_eq raw.tag tag)) [
      | inl hit ↦
          let there : any (tagged repo_id tag) t.artifacts ≡ true =
            found-any (same_artifact repo_id raw.tag raw.digest) (tagged repo_id tag) t.artifacts
              row e (λ a h. rw (sym ((eq_iff raw.tag tag).0 hit)) (ground (arith, h))) in
          rw there refl
      | inr miss ↦ rw miss (ground arith)
    ]

-- The tags after one artifact, and after all of them.
upsert-any :
    (site : Site) (repo_id : ℕ) (tag : String) (raw : RawArtifact) (t : Tables)
    → any (tagged repo_id tag) (upsert site repo_id raw t).artifacts
      ≡ (any (tagged repo_id tag) t.artifacts || str_eq raw.tag tag)
unfolding upsert
upsert-any site repo_id tag raw t = put_artifact-any site repo_id tag raw _ t refl

str_eq_comm : (a b : String) → str_eq a b ≡ str_eq b a
str_eq_comm a b = elim (Bool-cases (str_eq a b)) [
  | inl e ↦ e ∙ sym (subst (λ x. str_eq x a ≡ true) ((eq_iff a b).0 e) (eq_refl a))
  | inr e ↦ elim (Bool-cases (str_eq b a)) [
    | inl k ↦ subst (λ x. str_eq a x ≡ str_eq x a) (sym ((eq_iff b a).0 k)) refl
    | inr k ↦ e ∙ sym k
  ]
]

or_assoc : (a b c : Bool) → ((a || b) || c) ≡ (a || (b || c))
or_assoc a b c = ground arith

upsert_if-any :
    (b : Bool) (site : Site) (repo_id : ℕ) (tag : String) (raw : RawArtifact) (t : Tables)
    → any (tagged repo_id tag) (if b then upsert site repo_id raw t else t).artifacts
      ≡ (any (tagged repo_id tag) t.artifacts || (b && str_eq raw.tag tag))
upsert_if-any true site repo_id tag raw t = upsert-any site repo_id tag raw t
upsert_if-any false site repo_id tag raw t = ground arith

contains-tags :
    (b : Bool) (tag : String) (raw : RawArtifact) (rest : List RawArtifact)
    → contains tag (map (λ r. r.tag) (if b then raw ∷ rest else rest))
      ≡ ((b && str_eq raw.tag tag) || contains tag (map (λ r. r.tag) rest))
contains-tags true tag raw rest =
    ap (λ b. b || contains tag (map (λ r. r.tag) rest)) (str_eq_comm tag raw.tag)
contains-tags false tag raw rest = refl

pub upsert_all-any :
    (site : Site) (repo_id : ℕ) (tag : String) (raws : List RawArtifact) (t : Tables)
    → any (tagged repo_id tag) (upsert_all site repo_id raws t).artifacts
      ≡ (any (tagged repo_id tag) t.artifacts || contains tag (tags_of raws))
unfolding upsert_all
upsert_all-any site repo_id tag [] t = ground arith
upsert_all-any site repo_id tag (raw ∷ rest) t =
    upsert_all-any site repo_id tag rest (if has_tag raw then upsert site repo_id raw t else t)
    ∙ ap (λ b. b || contains tag (tags_of rest))
        (upsert_if-any (has_tag raw) site repo_id tag raw t)
    ∙ or_assoc (any (tagged repo_id tag) t.artifacts) (has_tag raw && str_eq raw.tag tag)
        (contains tag (tags_of rest))
    ∙ ap (λ b. any (tagged repo_id tag) t.artifacts || b)
        (sym (contains-tags (has_tag raw) tag raw (select has_tag rest)))

pub delete_gone-any :
    (repo_id : ℕ) (tag : String) (tags : List String) (xs : List Artifact)
    → any
        (tagged repo_id tag)
        (select (λ (a : Artifact). not (a.repo_id == repo_id && not (contains a.tag tags))) xs)
      ≡ (any (tagged repo_id tag) xs && contains tag tags)
delete_gone-any repo_id tag tags [] = refl
delete_gone-any repo_id tag tags (x ∷ xs) = elim (Bool-cases (str_eq x.tag tag)) [
  | inl hit ↦ rw ((eq_iff x.tag tag).0 hit) (ground (arith, delete_gone-any repo_id tag tags xs))
  | inr miss ↦ ground (arith, miss, delete_gone-any repo_id tag tags xs)
]
