-- ===== src/Registry/Tables.antt =====
-- The tables of services/registry_service.py and what it takes from outside. Ids are given out in
-- increasing order. Texts are compared exactly.
use devops_cd.Prelude.{ℕ, String, Bool, Option, List, ◌&&◌, str_eq, ◌==◌}

-- cd_registry_repositories
pub record Repo : Type 0 where
  pub id : ℕ
  pub project_name : String
  pub repo_name : String

-- What a provider reports of an artifact, and the columns that are set from it.
pub record Scan : Type 0 where
  pub size_bytes : ℕ
  pub scan_status : String
  pub scan_severity : String
  pub vuln_critical : ℕ
  pub vuln_high : ℕ
  pub vuln_medium : ℕ
  pub vuln_low : ℕ
  pub vuln_fixable : ℕ

-- An element of `list_artifacts`.
pub record RawArtifact : Type 0 where
  pub tag : String
  pub digest : String
  pub push_time : String
  pub pull_time : String
  pub scan : Scan

-- cd_registry_artifacts
pub record Artifact : Type 0 where
  pub id : ℕ
  pub repo_id : ℕ
  pub tag : String
  pub digest : String
  pub push_time : Option String
  pub pull_time : Option String
  pub scan : Scan
  pub last_sync : String

pub record Tables : Type 0 where
  pub repos : List Repo
  pub next_repo : ℕ
  pub artifacts : List Artifact
  pub next_artifact : ℕ

-- An entry of the CI mapping with a repository.
pub record CiRepo : Type 0 where
  pub project : String
  pub repo : String

-- What a call of the provider gives: a value, HarborUnavailableError,
-- RegistryPermissionDeniedError, or any other exception.
pub data Fetched {ℓ} (A : Type ℓ) : Type ℓ where
  fetched : A → Fetched A
  unavailable denied failed : Fetched A

-- An element of `get_projects`.
pub record CiProject : Type 0 where
  pub job_name : String
  pub registry_repository : String
  pub harbor_repository : String

-- The provider and the clock.
pub record Site : Type 0 where
  -- `list_artifacts`
  pub list_artifacts : String → Fetched (List RawArtifact)
  -- `datetime.fromisoformat`, brought to UTC and written as the table wants it; `none` where it
  -- raises a ValueError
  pub parse_iso : String → Option String
  pub now : String

abbrev pub same_repo : String → String → Repo → Bool
same_repo project repo r = str_eq r.project_name project && str_eq r.repo_name repo

abbrev pub same_artifact : ℕ → String → String → Artifact → Bool
same_artifact repo_id tag digest a =
    a.repo_id == repo_id && str_eq a.tag tag && str_eq a.digest digest
