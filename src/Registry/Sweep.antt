-- ===== src/Registry/Sweep.antt =====
-- services/registry_service.py, `sync_all` and `sync_for_project`: what the whole synchronisations
-- keep, and that `sync_all` leaves no repository that the CI service does not map.
use devops_cd.Prelude.{
  ℕ, String, Bool, true, false, not, Option, none, some, List, [], ◌∷◌, ◌≡◌, refl, sym, ◌==◌,
  if◌then◌else◌, select, All,
}
use mathlib.Core.Path.{subst}
use devops_cd.Registry.Tables.{
  Repo, Artifact, Tables, fetched, unavailable, denied, failed, Site, CiRepo, CiProject,
}
use devops_cd.Registry.Sync.{Synced, sync_repo}
use devops_cd.Registry.Rounds.{
  Ended, get_ci_repos, is_mapped, sync_turn, sync_each, drop_repo, drop_unmapped, drop_empty,
  sync_mapped, with_projects, sync_all, wanted, project_turn, sync_matched, left_behind,
  sync_wanted, sync_for_project, add_total, add_error, Outcome,
}
use devops_cd.Registry.Unique.{IsUnique, select-IsUnique, sync_repo-IsUnique}

add_total-tables : (n : ℕ) (e : Ended) → (add_total n e).1 ≡ e.1
add_total-tables n (Outcome.synced total errors, t) = refl
add_total-tables n (Outcome.no_mapping, t) = refl
add_total-tables n (Outcome.error_key k, t) = refl
add_total-tables n (Outcome.raised, t) = refl

add_error-tables : (repo : String) (e : Ended) → (add_error repo e).1 ≡ e.1
add_error-tables repo (Outcome.synced total errors, t) = refl
add_error-tables repo (Outcome.no_mapping, t) = refl
add_error-tables repo (Outcome.error_key k, t) = refl
add_error-tables repo (Outcome.raised, t) = refl

-- What a turn and the rest of the loop keep.
module _ (P : Tables → Type 0) where
  sync_turn-keeps :
      (repo : String) (r : Synced) (k : Tables → Ended)
      → P r.1
      → ((t : Tables) → P t → P (k t).1)
      → P (sync_turn repo r k).1
  sync_turn-keeps repo (fetched n, t) k h f = subst P (sym (add_total-tables n (k t))) (f t h)
  sync_turn-keeps repo (unavailable, t) k h f = h
  sync_turn-keeps repo (denied, t) k h f = h
  sync_turn-keeps repo (failed, t) k h f = subst P (sym (add_error-tables repo (k t))) (f t h)

  project_turn-keeps :
      (r : Synced) (k : Tables → Ended)
      → P r.1
      → ((t : Tables) → P t → P (k t).1)
      → P (project_turn r k).1
  project_turn-keeps (fetched n, t) k h f = subst P (sym (add_total-tables n (k t))) (f t h)
  project_turn-keeps (unavailable, t) k h f = h
  project_turn-keeps (denied, t) k h f = h
  project_turn-keeps (failed, t) k h f = h

  -- An invariant of the repositories of a list is one of the loops over them.
  module _ (site : Site) where
    abbrev Keeps : CiRepo → Type 0
    Keeps cr = (t : Tables) → P t → P (sync_repo site cr.project cr.repo t).1

    pub sync_each-keeps :
        (crs : List CiRepo) (t : Tables) → All Keeps crs → P t → P (sync_each site crs t).1
    unfolding sync_each
    sync_each-keeps [] t k h = h
    sync_each-keeps (cr ∷ crs) t k h =
        sync_turn-keeps cr.repo (sync_repo site cr.project cr.repo t) (sync_each site crs) (k.0 t h)
          (λ s. sync_each-keeps crs s k.1)

    sync_matched-keeps :
        (crs : List CiRepo) (t : Tables) → All Keeps crs → P t → P (sync_matched site crs t).1
    unfolding sync_matched
    sync_matched-keeps [] t k h = h
    sync_matched-keeps (cr ∷ crs) t k h =
        project_turn-keeps (sync_repo site cr.project cr.repo t) (sync_matched site crs) (k.0 t h)
          (λ s. sync_matched-keeps crs s k.1)

All-every {ℓ κ} : {A : Type ℓ} (P : A → Type κ) (xs : List A) → ((x : A) → P x) → All P xs
All-every P [] h = tt
All-every P (x ∷ xs) h = (h x, All-every P xs h)

drop_if-IsUnique :
    (b : Bool) (r : Repo) (t : Tables) → IsUnique t → IsUnique (if b then t else drop_repo r t)
drop_if-IsUnique true r t h = h
drop_if-IsUnique false r t h = select-IsUnique (λ (a : Artifact). not (a.repo_id == r.id)) t h

drop_unmapped-IsUnique :
    (crs : List CiRepo) (rs : List Repo) (t : Tables)
    → IsUnique t
    → IsUnique (drop_unmapped crs rs t)
unfolding drop_unmapped
drop_unmapped-IsUnique crs [] t h = h
drop_unmapped-IsUnique crs (r ∷ rs) t h =
    drop_unmapped-IsUnique crs rs (if is_mapped crs r then t else drop_repo r t)
      (drop_if-IsUnique (is_mapped crs r) r t h)

with_projects-keeps :
    (P : Tables → Type 0) (ps : Option (List CiProject)) (k : List CiRepo → Tables → Ended)
    (t : Tables)
    → P t
    → ((crs : List CiRepo) → P (k crs t).1)
    → P (with_projects ps k t).1
with_projects-keeps P none k t h f = h
with_projects-keeps P (some ps) k t h f = f (get_ci_repos ps)

sync_wanted-IsUnique :
    (site : Site) (project : String) (crs : List CiRepo) (t : Tables)
    → IsUnique t
    → IsUnique (sync_wanted site project crs t).1
sync_wanted-IsUnique site project [] t h = h
sync_wanted-IsUnique site project (cr ∷ crs) t h =
    sync_matched-keeps IsUnique site (cr ∷ crs) (drop_empty (left_behind project (cr ∷ crs)) t)
      (All-every _ (cr ∷ crs) (λ c. sync_repo-IsUnique site c.project c.repo)) h

-- If the table has at most one row for every repository, tag and digest, then it has after a full
-- synchronisation and after one of a project, whatever the CI service and the registry answer.
pub syncs-IsUnique :
    (site : Site) (ps : Option (List CiProject)) (project : String) (t : Tables)
    → IsUnique t
    → IsUnique (sync_all site ps t).1 × IsUnique (sync_for_project site ps project t).1
unfolding sync_all sync_for_project
syncs-IsUnique site ps project t h = (
  with_projects-keeps IsUnique ps (sync_mapped site) t h (λ crs.
      sync_each-keeps IsUnique site crs (drop_empty (λ r. true) (drop_unmapped crs t.repos t))
        (All-every _ crs (λ c. sync_repo-IsUnique site c.project c.repo))
        (drop_unmapped-IsUnique crs t.repos t h)),
  with_projects-keeps IsUnique ps _ t h
      (λ crs. sync_wanted-IsUnique site project (select (wanted project) crs) t h),
)
