-- ===== src/Registry/Sync.antt =====
-- services/registry_service.py: `_to_mysql_dt`, `sync_repo`, `sync_all` and `sync_for_project`.
use Prim.Native.Char.{Char}
use devops_cd.Prelude.{
  ℕ, suc, String, Bool, not, ◌&&◌, Option, none, some, List, [], ◌∷◌, ◌++◌, ◌==◌, if◌then◌else◌,
  select, find_first, update, length, map,
}
use devops_cd.Text.{is_empty, strip, append, contains, split, replace}
use devops_cd.Registry.Tables.{
  Repo, RawArtifact, Artifact, Tables, Fetched, fetched, failed, unavailable, denied, Site,
  same_repo, same_artifact,
}

abbrev space : Char
space = " "

-- s.replace("Z", "")
abbrev without_z : List String → String
without_z [] = ""
without_z (x ∷ xs) = append x (without_z xs)

abbrev first_part : List String → String
first_part [] = ""
first_part (x ∷ xs) = x

-- The text where it is no ISO time: up to the first dot, with T and Z taken out.
unfoldable pub plain_time : String → Option String
unfolding replace split strip
plain_time s =
    let cut = first_part (split b'.' (without_z (split b'Z' (replace b'T' space s)))) in
    if is_empty (strip cut) then none else some cut

abbrev or_plain : Option String → String → Option String
or_plain (some t) s = some t
or_plain none s = plain_time s

unfoldable pub to_mysql_dt : Site → String → Option String
unfolding plain_time
to_mysql_dt site s = if is_empty s then none else or_plain (site.parse_iso s) s

-- The row's id, and the tables with it.
abbrev pub ensure_repo : String → String → Option Repo → Tables → ℕ × Tables
ensure_repo project repo (some r) t = (r.id, t)
ensure_repo project repo none t = (
  t.next_repo,
  record t {
    repos = t.repos ++ record { id = t.next_repo; project_name = project; repo_name = repo } ∷ [];
    next_repo = suc t.next_repo;
  },
)

abbrev pub set_columns : Site → RawArtifact → Artifact → Artifact
set_columns site raw a = record a {
  push_time = to_mysql_dt site raw.push_time;
  pull_time = to_mysql_dt site raw.pull_time;
  scan = raw.scan;
  last_sync = site.now;
}

abbrev pub new_artifact : Site → ℕ → ℕ → RawArtifact → Artifact
new_artifact site id repo_id raw = record {
  id = id;
  repo_id = repo_id;
  tag = raw.tag;
  digest = raw.digest;
  push_time = to_mysql_dt site raw.push_time;
  pull_time = to_mysql_dt site raw.pull_time;
  scan = raw.scan;
  last_sync = site.now;
}

abbrev pub put_artifact : Site → ℕ → RawArtifact → Option Artifact → Tables → Tables
put_artifact site repo_id raw (some row) t = record t {
  artifacts = update (λ (a : Artifact). a.id == row.id) (set_columns site raw) t.artifacts;
}
put_artifact site repo_id raw none t = record t {
  artifacts = t.artifacts ++ new_artifact site t.next_artifact repo_id raw ∷ [];
  next_artifact = suc t.next_artifact;
}

-- UPDATE of the row with the repository, the tag and the digest, or INSERT.
unfoldable pub upsert : Site → ℕ → RawArtifact → Tables → Tables
unfolding to_mysql_dt
upsert site repo_id raw t =
    put_artifact site repo_id raw
      (find_first (same_artifact repo_id raw.tag raw.digest) t.artifacts) t

abbrev pub has_tag : RawArtifact → Bool
has_tag raw = not (is_empty raw.tag)

-- The loop: what has no tag is skipped.
unfoldable pub upsert_all : Site → ℕ → List RawArtifact → Tables → Tables
unfolding upsert
upsert_all site repo_id [] t = t
upsert_all site repo_id (raw ∷ rest) t =
    upsert_all site repo_id rest (if has_tag raw then upsert site repo_id raw t else t)

abbrev pub tags_of : List RawArtifact → List String
tags_of raws = map (λ r. r.tag) (select has_tag raws)

-- Artifacts of the repository whose tag is gone, unless no tag was reported at all.
abbrev pub delete_gone : ℕ → List String → Tables → Tables
delete_gone repo_id [] t = t
delete_gone repo_id (x ∷ xs) t = record t {
  artifacts =
      select (λ (a : Artifact). not (a.repo_id == repo_id && not (contains a.tag (x ∷ xs))))
        t.artifacts;
}

-- How many artifacts were written, or the exception that goes on to the caller.
abbrev pub Synced : Type 0
Synced = Fetched ℕ × Tables

abbrev pub store : Site → List RawArtifact → ℕ × Tables → Synced
store site raws (repo_id, t) = (
  fetched (length (select has_tag raws)),
  delete_gone repo_id (tags_of raws) (upsert_all site repo_id raws t),
)

abbrev pub sync_fetched : Site → String → String → Fetched (List RawArtifact) → Tables → Synced
sync_fetched site project repo unavailable t = (unavailable, t)
sync_fetched site project repo denied t = (denied, t)
sync_fetched site project repo failed t = (fetched 0, t)
sync_fetched site project repo (fetched raws) t =
    store site raws (ensure_repo project repo (find_first (same_repo project repo) t.repos) t)

unfoldable pub sync_repo : Site → String → String → Tables → Synced
unfolding upsert_all
sync_repo site project repo t = sync_fetched site project repo (site.list_artifacts repo) t
