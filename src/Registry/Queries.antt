-- ===== src/Registry/Queries.antt =====
-- services/registry_service.py: `get_artifacts`, `get_repositories`, `get_sync_interval` and
-- `_norm_summary`.
use devops_cd.Prelude.{
  ℕ, String, Bool, true, false, Option, none, some, List, [], ◌∷◌, ◌==◌, str_eq, if◌then◌else◌,
  select, find_first, count, map, ◌-◌, ◌*◌,
}
use devops_cd.Text.Order.{le_text}
use devops_cd.Paging.{Page, limit, offset, total_pages_of}
use devops_cd.Registry.Tables.{Repo, Artifact, Tables, CiProject}
use devops_cd.Registry.Rounds.{get_ci_repos, is_mapped}

-- NULL comes before every text.
abbrev pub le_time : Option String → Option String → Bool
le_time none b = true
le_time (some a) none = false
le_time (some a) (some b) = le_text a b

abbrev pub insert_by_push : Artifact → List Artifact → List Artifact
insert_by_push a [] = a ∷ []
insert_by_push a (b ∷ bs) =
    let rest = insert_by_push a bs in
    if le_time b.push_time a.push_time then a ∷ b ∷ bs else b ∷ rest

-- ORDER BY push_time DESC; rows of one time stay in the order of the table.
unfoldable pub by_push : List Artifact → List Artifact
unfolding le_text
by_push [] = []
by_push (a ∷ xs) = insert_by_push a (by_push xs)

-- An item of the page: the row and the names of its repository.
pub record ArtifactItem : Type 0 where
  pub artifact : Artifact
  pub project : String
  pub repo : String

-- The JOIN: nothing where the repository is gone.
abbrev pub joined : Option Repo → List Artifact → List ArtifactItem
joined none rows = []
joined (some r) rows =
    map (λ a. record { artifact = a; project = r.project_name; repo = r.repo_name }) rows

abbrev pub of_repo : ℕ → Artifact → Bool
of_repo repo_id a = a.repo_id == repo_id

-- For pages from 1 on and a positive page size.
unfoldable pub get_artifacts : ℕ → ℕ → ℕ → Tables → Page ArtifactItem
unfolding by_push limit offset total_pages_of
get_artifacts repo_id page page_size t =
    let total = count (of_repo repo_id) t.artifacts in
    record {
      items = limit page_size (
          offset ((page - 1) * page_size) (
            joined (find_first (λ (r : Repo). r.id == repo_id) t.repos)
              (by_push (select (of_repo repo_id) t.artifacts))));
      total = total;
      page = page;
      page_size = page_size;
      total_pages = total_pages_of total page_size;
    }

-- What `get_repositories` gives of a repository.
pub record RepoItem : Type 0 where
  pub repo : Repo
  pub tag_count : ℕ
  pub latest_push : String

-- MAX of a column, "" where there is no value
abbrev latest : List String → String
latest [] = ""
latest (x ∷ xs) = let rest = latest xs in if le_text rest x then x else rest

abbrev texts : List (Option String) → List String
texts [] = []
texts (none ∷ xs) = texts xs
texts (some x ∷ xs) = x ∷ texts xs

abbrev repo_item : Tables → Repo → RepoItem
repo_item t r = record {
  repo = r;
  tag_count = count (of_repo r.id) t.artifacts;
  latest_push =
      latest (texts (map (λ (a : Artifact). a.push_time) (select (of_repo r.id) t.artifacts)));
}

abbrev before_repo : Repo → Repo → Bool
before_repo a b =
    if str_eq a.project_name b.project_name
    then le_text a.repo_name b.repo_name
    else le_text a.project_name b.project_name

abbrev insert_repo : Repo → List Repo → List Repo
insert_repo a [] = a ∷ []
insert_repo a (b ∷ bs) =
    let rest = insert_repo a bs in if before_repo a b then a ∷ b ∷ bs else b ∷ rest

-- ORDER BY project_name, repo_name
abbrev by_name : List Repo → List Repo
by_name [] = []
by_name (r ∷ rs) = insert_repo r (by_name rs)

-- The repositories that are mapped, and the time of the last synchronisation; nothing where the CI
-- service raises.
unfoldable pub get_repositories : Option (List CiProject) → Tables → List RepoItem × String
unfolding le_text get_ci_repos
get_repositories none t = ([], "")
get_repositories (some ps) t = (
  map (repo_item t) (select (is_mapped (get_ci_repos ps)) (by_name t.repos)),
  latest (map (λ (a : Artifact). a.last_sync) t.artifacts),
)
