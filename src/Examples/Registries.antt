-- ===== src/Examples/Registries.antt =====
-- Synchronisations of the image registry, and a scan report.
use devops_cd.Prelude.{
  ℕ, String, some, none, List, [], ◌∷◌, ◌≡◌, refl, arith, any, str_eq, Bool-cases, inl, inr, false,
}
use mathlib.Core.Path.{subst}
use text.Mathlib.TextEquality.{eq_iff}
use devops_cd.Registry.Tables.{Scan, RawArtifact, Artifact, Tables, Site, CiProject, fetched}
use devops_cd.Registry.Sync.{sync_repo}
use devops_cd.Registry.Rounds.{get_ci_repos, sync_all, sync_for_project}
use devops_cd.Registry.Mirror.{tagged}
use devops_cd.Registry.Outcome.{expected, sync_repo_mirrors}
use devops_cd.Registry.Unique.{IsUnique}
use devops_cd.Registry.Sweep.{syncs-IsUnique}
use devops_cd.Registry.Mapping.{AllMapped, sync_all-AllMapped}

abbrev scan : Scan
scan = record {
  size_bytes = 1048576;
  scan_status = "Success";
  scan_severity = "High";
  vuln_critical = 0;
  vuln_high = 2;
  vuln_medium = 1;
  vuln_low = 0;
  vuln_fixable = 1;
}

abbrev artifact : ℕ → ℕ → String → Artifact
artifact id repo_id tag = record {
  id = id;
  repo_id = repo_id;
  tag = tag;
  digest = "sha256:1";
  push_time = none;
  pull_time = none;
  scan = scan;
  last_sync = "2026-01-02 03:04:05";
}

-- One repository of the mapping with two tags, and one that is no longer mapped.
abbrev tables : Tables
tables = record {
  repos =
      record { id = 1; project_name = "shop"; repo_name = "team/shop" }
      ∷ record { id = 2; project_name = "old"; repo_name = "team/old" }
      ∷ [];
  next_repo = 3;
  artifacts = artifact 1 1 "v1" ∷ artifact 2 1 "v2" ∷ artifact 3 2 "v1" ∷ [];
  next_artifact = 4;
}

-- The registry has the tags v2 and v3 of team/shop.
abbrev raw : String → RawArtifact
raw tag = record {
  tag = tag;
  digest = "sha256:1";
  push_time = "2026-01-02T03:04:05.12Z";
  pull_time = "";
  scan = scan;
}

abbrev site : Site
site = record {
  list_artifacts = λ repo. fetched (raw "v2" ∷ raw "" ∷ raw "v3" ∷ []);
  parse_iso = λ s. none;
  now = "2026-01-03 00:00:00";
}

abbrev projects : List CiProject
projects =
    record { job_name = "shop"; registry_repository = ""; harbor_repository = "team/shop" } ∷ []

gone_test : any (tagged 1 "v1") (sync_repo site "shop" "team/shop" tables).1.artifacts ≡ false
unfolding sync_repo
gone_test = refl

sync_repo_mirrors_example :
    (any (tagged 1 "v3") (sync_repo site "shop" "team/shop" tables).1.artifacts
      ≡ expected (site.list_artifacts "team/shop") "v3" (any (tagged 1 "v3") tables.artifacts))
    × (any (tagged 2 "v3") (sync_repo site "shop" "team/shop" tables).1.artifacts
        ≡ any (tagged 2 "v3") tables.artifacts)
sync_repo_mirrors_example = sync_repo_mirrors site "shop" "team/shop" "v3" 2 tables refl

tables-IsUnique : IsUnique tables
tables-IsUnique = λ r tag digest. elim (Bool-cases (str_eq "v1" tag)) [
  | inl e ↦
      let other : str_eq "v2" tag ≡ false =
        subst (λ x. str_eq "v2" x ≡ false) ((eq_iff "v1" tag).0 e) refl in
      ground (arith, other)
  | inr e ↦ ground (arith, e)
]

syncs-IsUnique_example :
    IsUnique (sync_all site (some projects) tables).1
    × IsUnique (sync_for_project site (some projects) "shop" tables).1
syncs-IsUnique_example = syncs-IsUnique site (some projects) "shop" tables tables-IsUnique

sync_all-AllMapped_example :
    AllMapped (get_ci_repos projects) (sync_all site (some projects) tables).1.repos
sync_all-AllMapped_example = sync_all-AllMapped site projects tables
