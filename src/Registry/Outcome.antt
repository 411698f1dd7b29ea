-- ===== src/Registry/Outcome.antt =====
-- services/registry_service.py, `sync_repo`: which tags the table has of each repository afterwards.
use devops_cd.Prelude.{
  ℕ, String, Bool, true, false, not, ◌&&◌, ◌||◌, Option, none, some, List, [], ◌∷◌, ◌≡◌, refl, ap,
  ◌∙◌, arith, ◌==◌, if◌then◌else◌, select, any, find_first,
}
use devops_cd.Text.{contains}
use devops_cd.Registry.Tables.{
  Repo, RawArtifact, Artifact, Tables, Fetched, fetched, unavailable, denied, failed, Site,
  same_repo, same_artifact,
}
use devops_cd.Registry.Sync.{
  ensure_repo, set_columns, new_artifact, put_artifact, upsert, has_tag, upsert_all, tags_of,
  delete_gone, store, sync_fetched, sync_repo,
}
use devops_cd.Registry.Mirror.{tagged, any-update-same, any-snoc, upsert_all-any, delete_gone-any}

-- The id under which the repository is kept.
abbrev pub repo_id_of : String → String → Tables → ℕ
repo_id_of project repo t =
    (ensure_repo project repo (find_first (same_repo project repo) t.repos) t).0

-- Whether the table has a tag afterwards: if the registry has answered with a tag at all, the
-- answer decides; otherwise the table is as it was.
abbrev by_tags : String → List String → Bool → Bool
by_tags tag [] before = before
by_tags tag (x ∷ xs) before = contains tag (x ∷ xs)

abbrev pub expected : Fetched (List RawArtifact) → String → Bool → Bool
expected (fetched raws) tag before = by_tags tag (tags_of raws) before
expected unavailable tag before = before
expected denied tag before = before
expected failed tag before = before

delete_gone-expected :
    (repo_id : ℕ) (tag : String) (tags : List String) (b : Bool) (t : Tables)
    → any (tagged repo_id tag) t.artifacts ≡ (b || contains tag tags)
    → any (tagged repo_id tag) (delete_gone repo_id tags t).artifacts ≡ by_tags tag tags b
delete_gone-expected repo_id tag [] b t h = h ∙ ground arith
delete_gone-expected repo_id tag (x ∷ xs) b t h =
    delete_gone-any repo_id tag (x ∷ xs) t.artifacts
    ∙ ap (λ c. c && contains tag (x ∷ xs)) h
    ∙ ground arith

ensure_repo-artifacts :
    (project repo : String) (o : Option Repo) (t : Tables)
    → (ensure_repo project repo o t).1.artifacts ≡ t.artifacts
ensure_repo-artifacts project repo none t = refl
ensure_repo-artifacts project repo (some r) t = refl

store-expected :
    (site : Site) (tag : String) (raws : List RawArtifact) (e : ℕ × Tables)
    → any (tagged e.0 tag) (store site raws e).1.artifacts
      ≡ by_tags tag (tags_of raws) (any (tagged e.0 tag) e.1.artifacts)
store-expected site tag raws (repo_id, t) =
    delete_gone-expected repo_id tag (tags_of raws) (any (tagged repo_id tag) t.artifacts)
      (upsert_all site repo_id raws t) (upsert_all-any site repo_id tag raws t)

-- Other repositories.
put_artifact-other :
    (site : Site) (repo_id other : ℕ) (tag : String) (raw : RawArtifact) (o : Option Artifact)
    (t : Tables)
    → (repo_id == other) ≡ false
    → any (tagged other tag) (put_artifact site repo_id raw o t).artifacts
      ≡ any (tagged other tag) t.artifacts
put_artifact-other site repo_id other tag raw none t h =
    any-snoc (tagged other tag) t.artifacts (new_artifact site t.next_artifact repo_id raw)
    ∙ rw h (ground arith)
put_artifact-other site repo_id other tag raw (some row) t h =
    any-update-same (tagged other tag) (λ a. a.id == row.id) (set_columns site raw) t.artifacts
      (λ a. refl)

upsert_if-other :
    (b : Bool) (site : Site) (repo_id other : ℕ) (tag : String) (raw : RawArtifact) (t : Tables)
    → (repo_id == other) ≡ false
    → any (tagged other tag) (if b then upsert site repo_id raw t else t).artifacts
      ≡ any (tagged other tag) t.artifacts
unfolding upsert
upsert_if-other true site repo_id other tag raw t h =
    put_artifact-other site repo_id other tag raw
      (find_first (same_artifact repo_id raw.tag raw.digest) t.artifacts) t h
upsert_if-other false site repo_id other tag raw t h = refl

upsert_all-other :
    (site : Site) (repo_id other : ℕ) (tag : String) (raws : List RawArtifact) (t : Tables)
    → (repo_id == other) ≡ false
    → any (tagged other tag) (upsert_all site repo_id raws t).artifacts
      ≡ any (tagged other tag) t.artifacts
unfolding upsert_all
upsert_all-other site repo_id other tag [] t h = refl
upsert_all-other site repo_id other tag (raw ∷ rest) t h =
    upsert_all-other site repo_id other tag rest
      (if has_tag raw then upsert site repo_id raw t else t) h
    ∙ upsert_if-other (has_tag raw) site repo_id other tag raw t h

gone-other :
    (repo_id other : ℕ) (tag : String) (keep : Artifact → Bool) (xs : List Artifact)
    → (repo_id == other) ≡ false
    → any (tagged other tag) (select (λ (a : Artifact). not (a.repo_id == repo_id && keep a)) xs)
      ≡ any (tagged other tag) xs
gone-other repo_id other tag keep [] h = refl
gone-other repo_id other tag keep (x ∷ xs) h =
    ground (arith, h, gone-other repo_id other tag keep xs h)

delete_gone-other :
    (repo_id other : ℕ) (tag : String) (tags : List String) (t : Tables)
    → (repo_id == other) ≡ false
    → any (tagged other tag) (delete_gone repo_id tags t).artifacts
      ≡ any (tagged other tag) t.artifacts
delete_gone-other repo_id other tag [] t h = refl
delete_gone-other repo_id other tag (x ∷ xs) t h =
    gone-other repo_id other tag (λ a. not (contains a.tag (x ∷ xs))) t.artifacts h

store-other :
    (site : Site) (other : ℕ) (tag : String) (raws : List RawArtifact) (e : ℕ × Tables)
    → (e.0 == other) ≡ false
    → any (tagged other tag) (store site raws e).1.artifacts ≡ any (tagged other tag) e.1.artifacts
store-other site other tag raws (repo_id, t) h =
    delete_gone-other repo_id other tag (tags_of raws) (upsert_all site repo_id raws t) h
    ∙ upsert_all-other site repo_id other tag raws t h

fetched_mirrors :
    (site : Site) (project repo tag : String) (other : ℕ) (f : Fetched (List RawArtifact))
    (t : Tables)
    → (repo_id_of project repo t == other) ≡ false
    → (any (tagged (repo_id_of project repo t) tag) (sync_fetched site project repo f t).1.artifacts
        ≡ expected f tag (any (tagged (repo_id_of project repo t) tag) t.artifacts))
      × (any (tagged other tag) (sync_fetched site project repo f t).1.artifacts
          ≡ any (tagged other tag) t.artifacts)
fetched_mirrors site project repo tag other (fetched raws) t h =
    let row = find_first (same_repo project repo) t.repos in
    let e = ensure_repo project repo row t in
    let same = ensure_repo-artifacts project repo row t in
    (
      store-expected site tag raws e
          ∙ ap (λ xs. by_tags tag (tags_of raws) (any (tagged e.0 tag) xs)) same,
      store-other site other tag raws e h ∙ ap (any (tagged other tag)) same,
    )
fetched_mirrors site project repo tag other unavailable t h = (refl, refl)
fetched_mirrors site project repo tag other denied t h = (refl, refl)
fetched_mirrors site project repo tag other failed t h = (refl, refl)

-- After the synchronisation of a repository the table has exactly the tags of it that the registry
-- has reported, if it has reported any; where the call has failed, or has reported none, the table
-- has the tags that it had. Every other repository keeps its tags.
pub sync_repo_mirrors :
    (site : Site) (project repo tag : String) (other : ℕ) (t : Tables)
    → (repo_id_of project repo t == other) ≡ false
    → (any (tagged (repo_id_of project repo t) tag) (sync_repo site project repo t).1.artifacts
        ≡ expected
            (site.list_artifacts repo)
            tag
            (any (tagged (repo_id_of project repo t) tag) t.artifacts))
      × (any (tagged other tag) (sync_repo site project repo t).1.artifacts
          ≡ any (tagged other tag) t.artifacts)
unfolding sync_repo
sync_repo_mirrors site project repo tag other t h =
    fetched_mirrors site project repo tag other (site.list_artifacts repo) t h
