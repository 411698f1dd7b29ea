-- ===== src/Registry/Unique.antt =====
-- services/registry_service.py: a synchronisation keeps one row for an artifact, as the unique key
-- of the table asks, so that the INSERT of `sync_repo` never meets it.
use devops_cd.Prelude.{
  ℕ, ◌≤◌, String, Bool, true, false, Option, none, some, List, [], ◌∷◌, ◌++◌, ◌≡◌, refl, sym, arith,
  ◌==◌, if◌then◌else◌, Bool-cases, inl, inr, select, find_first, update, count, count-append,
  ==_iff,
}
use mathlib.Core.Path.{subst}
use text.Mathlib.TextEquality.{eq_iff}
use devops_cd.Registry.Tables.{
  Repo, RawArtifact, Artifact, Tables, Fetched, fetched, unavailable, denied, failed, Site,
  same_repo, same_artifact,
}
use devops_cd.Registry.Sync.{
  ensure_repo, set_columns, new_artifact, put_artifact, upsert, has_tag, upsert_all, tags_of,
  delete_gone, sync_fetched, sync_repo,
}

-- At most one row has a repository, a tag and a digest.
abbrev pub IsUnique : Tables → Type 0
IsUnique t =
    (repo_id : ℕ) (tag digest : String) → count (same_artifact repo_id tag digest) t.artifacts ≤ 1

count-update-same {ℓ} :
    {A : Type ℓ} (p q : A → Bool) (f : A → A) (xs : List A)
    → ((x : A) → p (f x) ≡ p x)
    → count p (update q f xs) ≡ count p xs
count-update-same p q f [] h = refl
count-update-same p q f (x ∷ xs) h = ground (arith, h x, count-update-same p q f xs h)

none-count {ℓ} : {A : Type ℓ} (p : A → Bool) (xs : List A) → find_first p xs ≡ none → count p xs ≡ 0
none-count p [] h = refl
none-count p (x ∷ xs) h = ground (arith, h, none-count p xs)

count-select-le {ℓ} :
    {A : Type ℓ} (p q : A → Bool) (xs : List A) → count p (select q xs) ≤ count p xs
count-select-le p q [] = omega arith
count-select-le p q (x ∷ xs) = ground (arith, count-select-le p q xs)

-- The new row has the key that was not found, and no other.
new_row-count :
    (site : Site) (id repo_id : ℕ) (raw : RawArtifact) (xs : List Artifact) (r : ℕ)
    (tag digest : String)
    → find_first (same_artifact repo_id raw.tag raw.digest) xs ≡ none
    → count (same_artifact r tag digest) xs ≤ 1
    → count (same_artifact r tag digest) (xs ++ new_artifact site id repo_id raw ∷ []) ≤ 1
new_row-count site id repo_id raw xs r tag digest e h =
    let row = new_artifact site id repo_id raw in
    let sum = count-append (same_artifact r tag digest) xs (row ∷ []) in
    elim (Bool-cases (same_artifact r tag digest row)) [
      | inl hit ↦
          let absent = none-count (same_artifact r tag digest) xs (moved hit) in
          let single : count (same_artifact r tag digest) (row ∷ []) ≡ 1 = rw hit refl in
          omega (arith, sum, absent, single)
      | inr miss ↦
          let single : count (same_artifact r tag digest) (row ∷ []) ≡ 0 = rw miss refl in
          omega (arith, sum, h, single)
    ]
  where
    moved :
        same_artifact r tag digest (new_artifact site id repo_id raw) ≡ true
        → find_first (same_artifact r tag digest) xs ≡ none
    moved hit =
        let i : repo_id ≡ r = (==_iff repo_id r).0 (ground (arith, hit)) in
        let t : raw.tag ≡ tag = (eq_iff raw.tag tag).0 (ground (arith, hit)) in
        let d : raw.digest ≡ digest = (eq_iff raw.digest digest).0 (ground (arith, hit)) in
        subst (λ x. find_first (same_artifact x tag digest) xs ≡ none) i
          (subst (λ x. find_first (same_artifact repo_id x digest) xs ≡ none) t
            (subst (λ x. find_first (same_artifact repo_id raw.tag x) xs ≡ none) d e))

put_artifact-IsUnique :
    (site : Site) (repo_id : ℕ) (raw : RawArtifact) (o : Option Artifact) (t : Tables)
    → find_first (same_artifact repo_id raw.tag raw.digest) t.artifacts ≡ o
    → IsUnique t
    → IsUnique (put_artifact site repo_id raw o t)
put_artifact-IsUnique site repo_id raw none t e h = λ r tag digest.
    new_row-count site t.next_artifact repo_id raw t.artifacts r tag digest e (h r tag digest)
put_artifact-IsUnique site repo_id raw (some row) t e h = λ r tag digest.
    subst (λ n. n ≤ 1)
      (sym (
        count-update-same (same_artifact r tag digest) (λ a. a.id == row.id) (set_columns site raw)
          t.artifacts (λ a. refl)))
      (h r tag digest)

upsert_if-IsUnique :
    (b : Bool) (site : Site) (repo_id : ℕ) (raw : RawArtifact) (t : Tables)
    → IsUnique t
    → IsUnique (if b then upsert site repo_id raw t else t)
unfolding upsert
upsert_if-IsUnique true site repo_id raw t h =
    put_artifact-IsUnique site repo_id raw
      (find_first (same_artifact repo_id raw.tag raw.digest) t.artifacts) t refl h
upsert_if-IsUnique false site repo_id raw t h = h

upsert_all-IsUnique :
    (site : Site) (repo_id : ℕ) (raws : List RawArtifact) (t : Tables)
    → IsUnique t
    → IsUnique (upsert_all site repo_id raws t)
unfolding upsert_all
upsert_all-IsUnique site repo_id [] t h = h
upsert_all-IsUnique site repo_id (raw ∷ rest) t h =
    upsert_all-IsUnique site repo_id rest (if has_tag raw then upsert site repo_id raw t else t)
      (upsert_if-IsUnique (has_tag raw) site repo_id raw t h)

pub select-IsUnique :
    (q : Artifact → Bool) (t : Tables)
    → IsUnique t
    → IsUnique (record t { artifacts = select q t.artifacts })
select-IsUnique q t h = λ r tag digest.
    omega (arith, count-select-le (same_artifact r tag digest) q t.artifacts, h r tag digest)

delete_gone-IsUnique :
    (repo_id : ℕ) (tags : List String) (t : Tables)
    → IsUnique t
    → IsUnique (delete_gone repo_id tags t)
delete_gone-IsUnique repo_id [] t h = h
delete_gone-IsUnique repo_id (x ∷ xs) t h = select-IsUnique _ t h

ensure_repo-IsUnique :
    (project repo : String) (o : Option Repo) (t : Tables)
    → IsUnique t
    → IsUnique (ensure_repo project repo o t).1
ensure_repo-IsUnique project repo none t h = h
ensure_repo-IsUnique project repo (some r) t h = h

sync_fetched-IsUnique :
    (site : Site) (project repo : String) (f : Fetched (List RawArtifact)) (t : Tables)
    → IsUnique t
    → IsUnique (sync_fetched site project repo f t).1
sync_fetched-IsUnique site project repo (fetched raws) t h =
    let row = find_first (same_repo project repo) t.repos in
    let e = ensure_repo project repo row t in
    delete_gone-IsUnique e.0 (tags_of raws) (upsert_all site e.0 raws e.1)
      (upsert_all-IsUnique site e.0 raws e.1 (ensure_repo-IsUnique project repo row t h))
sync_fetched-IsUnique site project repo unavailable t h = h
sync_fetched-IsUnique site project repo denied t h = h
sync_fetched-IsUnique site project repo failed t h = h

pub sync_repo-IsUnique :
    (site : Site) (project repo : String) (t : Tables)
    → IsUnique t
    → IsUnique (sync_repo site project repo t).1
unfolding sync_repo
sync_repo-IsUnique site project repo t h =
    sync_fetched-IsUnique site project repo (site.list_artifacts repo) t h
