-- ===== src/Registry/Rounds.antt =====
-- services/registry_service.py: `_get_ci_repos`, `sync_all` and `sync_for_project`.
use devops_cd.Prelude.{
  ℕ, ◌+◌, String, Bool, true, not, ◌||◌, Option, none, some, List, [], ◌∷◌, ◌==◌, str_eq,
  if◌then◌else◌, select, any, map,
}
use devops_cd.Text.{is_empty, strip, append, contains}
use devops_cd.Lease.{starts}
use devops_cd.Registry.Tables.{
  Repo, Artifact, Tables, CiRepo, CiProject, fetched, failed, unavailable, denied, Site, same_repo,
}
use devops_cd.Registry.Sync.{Synced, sync_repo}

unfoldable pub mapped_repo : CiProject → String
unfolding strip
mapped_repo p =
    strip (if is_empty p.registry_repository then p.harbor_repository else p.registry_repository)

unfoldable pub get_ci_repos : List CiProject → List CiRepo
unfolding mapped_repo
get_ci_repos [] = []
get_ci_repos (p ∷ ps) =
    let rest = get_ci_repos ps in
    if is_empty (mapped_repo p)
    then rest
    else record { project = p.job_name; repo = mapped_repo p } ∷ rest

-- (project_name, repo_name) in mapped
abbrev pub is_mapped : List CiRepo → Repo → Bool
is_mapped crs r = any (λ cr. same_repo cr.project cr.repo r) crs

-- What `sync_all` and `sync_for_project` return or raise.
pub data Outcome : Type 0 where
  synced : (total : ℕ) (errors : List String) → Outcome
  no_mapping : Outcome
  error_key : String → Outcome
  raised : Outcome

abbrev pub Ended : Type 0
Ended = Outcome × Tables

abbrev pub add_total : ℕ → Ended → Ended
add_total n (synced total errors, t) = (synced (n + total) errors, t)
add_total n (o, t) = (o, t)

abbrev pub add_error : String → Ended → Ended
add_error repo (synced total errors, t) = (synced total (repo ∷ errors), t)
add_error repo (o, t) = (o, t)

-- One turn of the loop of `sync_all`, and what follows it.
abbrev pub sync_turn : String → Synced → (Tables → Ended) → Ended
sync_turn repo (fetched n, t) k = add_total n (k t)
sync_turn repo (unavailable, t) k = (error_key "errors.harbor_unavailable", t)
sync_turn repo (denied, t) k = (error_key "errors.registry_permission_denied", t)
sync_turn repo (failed, t) k = add_error repo (k t)

unfoldable pub sync_each : Site → List CiRepo → Tables → Ended
unfolding sync_repo
sync_each site [] t = (synced 0 [], t)
sync_each site (cr ∷ crs) t =
    sync_turn cr.repo (sync_repo site cr.project cr.repo t) (sync_each site crs)

-- DELETE of a repository's artifacts and of the repository
abbrev pub drop_repo : Repo → Tables → Tables
drop_repo r t = record t {
  artifacts = select (λ (a : Artifact). not (a.repo_id == r.id)) t.artifacts;
  repos = select (λ (q : Repo). not (q.id == r.id)) t.repos;
}

unfoldable pub drop_unmapped : List CiRepo → List Repo → Tables → Tables
drop_unmapped crs [] t = t
drop_unmapped crs (r ∷ rs) t = drop_unmapped crs rs (if is_mapped crs r then t else drop_repo r t)

abbrev pub has_artifact : Tables → Repo → Bool
has_artifact t r = any (λ (a : Artifact). a.repo_id == r.id) t.artifacts

-- DELETE of the repositories without artifacts that pass the test
abbrev pub drop_empty : (Repo → Bool) → Tables → Tables
drop_empty test t = record t {
  repos = select (λ (r : Repo). has_artifact t r || not (test r)) t.repos;
}

abbrev pub sync_mapped : Site → List CiRepo → Tables → Ended
sync_mapped site crs t = sync_each site crs (drop_empty (λ r. true) (drop_unmapped crs t.repos t))

-- The projects of the CI service, `none` where it raises a CiClientError.
abbrev pub with_projects : Option (List CiProject) → (List CiRepo → Tables → Ended) → Tables → Ended
with_projects none k t = (error_key "errors.ci_service_unavailable", t)
with_projects (some ps) k t = k (get_ci_repos ps) t

unfoldable pub sync_all : Site → Option (List CiProject) → Tables → Ended
unfolding sync_each drop_unmapped get_ci_repos
sync_all site projects t = with_projects projects (sync_mapped site) t

abbrev pub wanted : String → CiRepo → Bool
wanted project cr =
    str_eq cr.project project || str_eq cr.repo project || starts (append project "/") cr.repo

-- One turn of the loop of `sync_for_project`, which catches no other exception.
abbrev pub project_turn : Synced → (Tables → Ended) → Ended
project_turn (fetched n, t) k = add_total n (k t)
project_turn (unavailable, t) k = (error_key "errors.harbor_unavailable", t)
project_turn (denied, t) k = (error_key "errors.registry_permission_denied", t)
project_turn (failed, t) k = (raised, t)

unfoldable pub sync_matched : Site → List CiRepo → Tables → Ended
unfolding sync_repo
sync_matched site [] t = (synced 0 [], t)
sync_matched site (cr ∷ crs) t =
    project_turn (sync_repo site cr.project cr.repo t) (sync_matched site crs)

abbrev pub left_behind : String → List CiRepo → Repo → Bool
left_behind project crs r =
    str_eq r.project_name project || contains r.repo_name (map (λ cr. cr.repo) crs)

abbrev pub sync_wanted : Site → String → List CiRepo → Tables → Ended
sync_wanted site project [] t = (no_mapping, t)
sync_wanted site project (cr ∷ crs) t =
    sync_matched site (cr ∷ crs) (drop_empty (left_behind project (cr ∷ crs)) t)

unfoldable pub sync_for_project : Site → Option (List CiProject) → String → Tables → Ended
unfolding sync_matched get_ci_repos
sync_for_project site projects project t =
    with_projects projects (λ crs. sync_wanted site project (select (wanted project) crs)) t
