-- ===== src/Registry/Mapping.antt =====
-- services/registry_service.py, `sync_all`: the repositories that are left are those that the CI
-- service maps.
use devops_cd.Prelude.{
  ℕ, String, Bool, true, false, not, ◌&&◌, ◌||◌, Option, none, some, List, [], ◌∷◌, ◌≡◌, refl, sym,
  ◌∙◌, arith, ◌==◌, if◌then◌else◌, Bool-cases, inl, inr, select, select-All, find_first, any, All,
  All-map, All-append,
}
use mathlib.Core.Path.{subst}
use text.Mathlib.TextPositions.{eq_refl}
use devops_cd.Registry.Tables.{
  Repo, RawArtifact, Artifact, Tables, Fetched, fetched, unavailable, denied, failed, Site,
  same_repo, same_artifact, CiRepo, CiProject,
}
use devops_cd.Registry.Sync.{
  ensure_repo, upsert, has_tag, upsert_all, tags_of, delete_gone, sync_fetched, sync_repo,
  put_artifact,
}
use devops_cd.Registry.Rounds.{
  get_ci_repos, is_mapped, drop_repo, drop_unmapped, drop_empty, sync_all, has_artifact,
}
use devops_cd.Registry.Sweep.{sync_each-keeps}

-- Every repository of the table is in the mapping.
abbrev pub AllMapped : List CiRepo → List Repo → Type 0
AllMapped crs rs = All (λ r. is_mapped crs r ≡ true) rs

-- Every unmapped repository of the table is still to be dropped.
abbrev Covered : List CiRepo → List Repo → List Repo → Type 0
Covered crs rs qs =
    All (λ q. is_mapped crs q ≡ false → any (λ r. not (is_mapped crs r) && q.id == r.id) rs ≡ true)
      qs

nothing_forgotten : (crs : List CiRepo) (rs : List Repo) → Covered crs rs rs
nothing_forgotten crs [] = tt
nothing_forgotten crs (r ∷ rs) = (
  (λ e. ground (arith, e)),
  All-map
      (λ q. is_mapped crs q ≡ false → any (λ r. not (is_mapped crs r) && q.id == r.id) rs ≡ true)
      (λ q.
        is_mapped crs q ≡ false
        → (not (is_mapped crs r) && q.id == r.id
            || any (λ r. not (is_mapped crs r) && q.id == r.id) rs)
          ≡ true)
      rs (λ q h e. ground (arith, h e)) (nothing_forgotten crs rs),
)

drop_others :
    (crs : List CiRepo) (r : Repo) (rs qs : List Repo)
    → Covered crs (r ∷ rs) qs
    → Covered crs rs (select (λ (q : Repo). not (q.id == r.id)) qs)
drop_others crs r rs [] h = tt
drop_others crs r rs (q ∷ qs) h = elim (Bool-cases (q.id == r.id)) [
  | inl same ↦ rw same (drop_others crs r rs qs h.1)
  | inr other ↦
      rw other ((λ u. let k = h.0 u in ground (arith, k, other)), drop_others crs r rs qs h.1)
]

-- One repository of the list is handled.
drop_if-Covered :
    (b : Bool) (crs : List CiRepo) (r : Repo) (rs : List Repo) (t : Tables)
    → is_mapped crs r ≡ b
    → Covered crs (r ∷ rs) t.repos
    → Covered crs rs (if b then t else drop_repo r t).repos
drop_if-Covered true crs r rs t e h =
    All-map
      (λ q.
        is_mapped crs q ≡ false → any (λ r. not (is_mapped crs r) && q.id == r.id) (r ∷ rs) ≡ true)
      (λ q. is_mapped crs q ≡ false → any (λ r. not (is_mapped crs r) && q.id == r.id) rs ≡ true)
      t.repos (λ q k u. let k' = k u in ground (arith, k', e)) h
drop_if-Covered false crs r rs t e h = drop_others crs r rs t.repos h

drop_unmapped-AllMapped :
    (crs : List CiRepo) (rs : List Repo) (t : Tables)
    → Covered crs rs t.repos
    → AllMapped crs (drop_unmapped crs rs t).repos
unfolding drop_unmapped
drop_unmapped-AllMapped crs [] t h =
    All-map
      (λ q. is_mapped crs q ≡ false → any (λ r. not (is_mapped crs r) && q.id == r.id) [] ≡ true)
      (λ q. is_mapped crs q ≡ true) t.repos
      (λ q k. elim (Bool-cases (is_mapped crs q)) [
        | inl found ↦ found
        | inr lost ↦ let k' = k lost in absurd (ground (arith, k'))
      ])
      h
drop_unmapped-AllMapped crs (r ∷ rs) t h =
    drop_unmapped-AllMapped crs rs (if is_mapped crs r then t else drop_repo r t)
      (drop_if-Covered (is_mapped crs r) crs r rs t refl h)

put_artifact-repos :
    (site : Site) (repo_id : ℕ) (raw : RawArtifact) (o : Option Artifact) (t : Tables)
    → (put_artifact site repo_id raw o t).repos ≡ t.repos
put_artifact-repos site repo_id raw none t = refl
put_artifact-repos site repo_id raw (some row) t = refl

upsert_if-repos :
    (b : Bool) (site : Site) (repo_id : ℕ) (raw : RawArtifact) (t : Tables)
    → (if b then upsert site repo_id raw t else t).repos ≡ t.repos
unfolding upsert
upsert_if-repos true site repo_id raw t =
    put_artifact-repos site repo_id raw
      (find_first (same_artifact repo_id raw.tag raw.digest) t.artifacts) t
upsert_if-repos false site repo_id raw t = refl

upsert_all-repos :
    (site : Site) (repo_id : ℕ) (raws : List RawArtifact) (t : Tables)
    → (upsert_all site repo_id raws t).repos ≡ t.repos
unfolding upsert_all
upsert_all-repos site repo_id [] t = refl
upsert_all-repos site repo_id (raw ∷ rest) t =
    upsert_all-repos site repo_id rest (if has_tag raw then upsert site repo_id raw t else t)
    ∙ upsert_if-repos (has_tag raw) site repo_id raw t

delete_gone-repos :
    (repo_id : ℕ) (tags : List String) (t : Tables) → (delete_gone repo_id tags t).repos ≡ t.repos
delete_gone-repos repo_id [] t = refl
delete_gone-repos repo_id (x ∷ xs) t = refl

-- A row that is added carries the names of the mapping's entry.
ensure_repo-AllMapped :
    (crs : List CiRepo) (project repo : String) (o : Option Repo) (t : Tables)
    → ((id : ℕ)
        → is_mapped crs (record { id = id; project_name = project; repo_name = repo }) ≡ true)
    → AllMapped crs t.repos
    → AllMapped crs (ensure_repo project repo o t).1.repos
ensure_repo-AllMapped crs project repo (some r) t new h = h
ensure_repo-AllMapped crs project repo none t new h =
    All-append (λ r. is_mapped crs r ≡ true) t.repos _ h (new t.next_repo, tt)

sync_fetched-AllMapped :
    (crs : List CiRepo) (site : Site) (project repo : String) (f : Fetched (List RawArtifact))
    (t : Tables)
    → ((id : ℕ)
        → is_mapped crs (record { id = id; project_name = project; repo_name = repo }) ≡ true)
    → AllMapped crs t.repos
    → AllMapped crs (sync_fetched site project repo f t).1.repos
sync_fetched-AllMapped crs site project repo (fetched raws) t new h =
    let row = find_first (same_repo project repo) t.repos in
    let e = ensure_repo project repo row t in
    subst (AllMapped crs)
      (sym (
        delete_gone-repos e.0 (tags_of raws) (upsert_all site e.0 raws e.1)
        ∙ upsert_all-repos site e.0 raws e.1))
      (ensure_repo-AllMapped crs project repo row t new h)
sync_fetched-AllMapped crs site project repo unavailable t new h = h
sync_fetched-AllMapped crs site project repo denied t new h = h
sync_fetched-AllMapped crs site project repo failed t new h = h

-- Each entry of the mapping maps the row that is made for it.
abbrev MapsRow : List CiRepo → CiRepo → Type 0
MapsRow crs cr =
    (id : ℕ)
    → is_mapped crs (record { id = id; project_name = cr.project; repo_name = cr.repo }) ≡ true

maps_self : (crs : List CiRepo) → All (MapsRow crs) crs
maps_self [] = tt
maps_self (cr ∷ crs) = (
  (λ id. rw (eq_refl cr.project) (rw (eq_refl cr.repo) refl)),
  All-map (MapsRow crs) (MapsRow (cr ∷ crs)) crs (λ c h id. let k = h id in ground (arith, k))
      (maps_self crs),
)

-- Whatever the registry answers, a full synchronisation for which the CI service has given its
-- projects leaves only rows of repositories that these projects map.
pub sync_all-AllMapped :
    (site : Site) (ps : List CiProject) (t : Tables)
    → AllMapped (get_ci_repos ps) (sync_all site (some ps) t).1.repos
unfolding sync_all sync_repo
sync_all-AllMapped site ps t =
    let crs = get_ci_repos ps in
    let left = drop_unmapped crs t.repos t in
    sync_each-keeps (λ s. AllMapped crs s.repos) site crs (drop_empty (λ r. true) left)
      (All-map (MapsRow crs) _ crs
        (λ cr new s h.
          sync_fetched-AllMapped crs site cr.project cr.repo (site.list_artifacts cr.repo) s new h)
        (maps_self crs))
      (select-All (λ r. is_mapped crs r ≡ true) (λ r. has_artifact left r || not true) left.repos
        (drop_unmapped-AllMapped crs t.repos t (nothing_forgotten crs t.repos)))
