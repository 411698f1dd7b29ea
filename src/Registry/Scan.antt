-- ===== src/Registry/Scan.antt =====
-- services/registry_service.py: `_norm_summary`, `get_scan_report` and `trigger_scan`.
use devops_cd.Prelude.{
  ℕ, ◌+◌, String, Bool, true, false, not, ◌&&◌, ◌||◌, Option, none, some, List, [], ◌∷◌, ◌==◌, ltb,
  str_eq, if◌then◌else◌, find_first, ◌≡◌, refl,
}
use Prim.Native.Char.{code}
use devops_cd.Text.{is_empty, append}
use devops_cd.Text.Dict.{get}
use devops_cd.Registry.Tables.{
  Repo, Scan, Artifact, Tables, Fetched, fetched, unavailable, denied, failed,
}

-- A summary of Harbor: its numbers by key, and those of a nested `summary`.
pub record RawSummary : Type 0 where
  pub numbers : List (String × ℕ)
  pub nested : List (String × ℕ)

pub record Summary : Type 0 where
  pub critical : ℕ
  pub high : ℕ
  pub medium : ℕ
  pub low : ℕ
  pub total : ℕ
  pub fixable : ℕ

abbrev or_number : Option ℕ → ℕ → ℕ
or_number none n = n
or_number (some m) n = m

abbrev level : RawSummary → String → String → ℕ
level raw lower upper =
    or_number (get lower raw.numbers)
      (or_number (get upper raw.numbers) (or_number (get upper raw.nested) 0))

abbrev is_nil {ℓ} : {A : Type ℓ} → List A → Bool
is_nil [] = true
is_nil (x ∷ xs) = false

-- The dict {} for an empty summary is `none`.
unfoldable pub norm_summary : RawSummary → Option Summary
norm_summary raw =
    let c = level raw "critical" "Critical" in
    let h = level raw "high" "High" in
    let m = level raw "medium" "Medium" in
    let l = level raw "low" "Low" in
    if is_nil raw.numbers && is_nil raw.nested
    then none
    else some (record {
      critical = c;
      high = h;
      medium = m;
      low = l;
      total = or_number (get "total" raw.numbers) (c + h + m + l);
      fixable = or_number (get "fixable" raw.numbers) 0;
    })

-- The report of the provider, if there is one.
pub record Live : Type 0 where
  pub has_vulnerabilities : Bool
  pub summary : RawSummary
  pub scan_status : String
  pub severity : String

pub record Report : Type 0 where
  pub scan_status : String
  pub severity : String
  pub summary : Summary
  pub harbor_url : String
  pub is_live : Bool
  pub warned : Bool

pub data Answer : Type 0 where
  unsupported no_tag provider_down : Answer
  report : Report → Answer

-- registry_capabilities()["scan"], the provider, and urllib.parse.quote(_, safe="").
pub record ScanSite : Type 0 where
  pub can_scan : Bool
  pub base_url : Option String
  pub quote : String → String
  pub live_report : String → String → Fetched (Option Live)
  pub start_scan : String → String → Fetched (Unit {0})

abbrev pub db_summary : Scan → Summary
db_summary s = record {
  critical = s.vuln_critical;
  high = s.vuln_high;
  medium = s.vuln_medium;
  low = s.vuln_low;
  total = s.vuln_critical + s.vuln_high + s.vuln_medium + s.vuln_low;
  fixable = s.vuln_fixable;
}

abbrev has_slash : String → Bool
has_slash String.[] = false
has_slash (String.◌∷◌ c s) = code c == b'/' || has_slash s

abbrev at_slash : String → String × String
at_slash String.[] = ("", "")
at_slash (String.◌∷◌ c s) =
    let rest = at_slash s in if code c == b'/' then ("", s) else (String.◌∷◌ c rest.0, rest.1)

-- The project and the rest of a repository's name; a name without a slash is both.
unfoldable pub split_repo : String → String × String
split_repo name = if has_slash name then at_slash name else (name, name)

unfoldable pub harbor_url_of : ScanSite → String → String → String → String
unfolding split_repo
harbor_url_of site base repo digest =
    let parts = split_repo repo in
    append base (
      append "/harbor/projects/" (
        append (site.quote parts.0) (
          append "/repositories/" (
            append (site.quote parts.1)
              (append "/artifacts/" (append (site.quote digest) "?tab=vulnerabilities"))))))

abbrev pub or_text : String → String → String
or_text a b = if is_empty a then b else a

abbrev pub cached : Artifact → String → Bool → Answer
cached a url warned = report (record {
  scan_status = a.scan.scan_status;
  severity = a.scan.scan_severity;
  summary = db_summary a.scan;
  harbor_url = url;
  is_live = false;
  warned = warned;
})

abbrev live_answer : Artifact → String → Live → Summary → Answer
live_answer a url live sm = report (record {
  scan_status = or_text a.scan.scan_status live.scan_status;
  severity = or_text a.scan.scan_severity live.severity;
  summary = if ltb 0 sm.total then sm else db_summary a.scan;
  harbor_url = url;
  is_live = true;
  warned = false;
})

-- A live report whose summary is empty raises a KeyError, which is caught.
abbrev pub by_summary : Artifact → String → Live → Option Summary → Answer
by_summary a url live none = cached a url false
by_summary a url live (some sm) =
    if live.has_vulnerabilities || ltb 0 sm.total
    then live_answer a url live sm
    else cached a url false

abbrev pub by_live : Artifact → String → Fetched (Option Live) → Answer
by_live a url (fetched none) = cached a url false
by_live a url (fetched (some live)) = by_summary a url live (norm_summary live.summary)
by_live a url unavailable = cached a url true
by_live a url denied = cached a url false
by_live a url failed = cached a url false

abbrev with_base : ScanSite → Repo → String → Artifact → Option String → Answer
with_base site r tag a none = provider_down
with_base site r tag a (some base) =
    by_live a (harbor_url_of site base r.repo_name a.digest) (site.live_report r.repo_name tag)

abbrev pub has_key : ℕ → String → Artifact → Bool
has_key repo_id tag a = a.repo_id == repo_id && str_eq a.tag tag

abbrev with_row : ScanSite → String → Option Artifact → Option Repo → Answer
with_row site tag none r = no_tag
with_row site tag (some a) none = no_tag
with_row site tag (some a) (some r) = with_base site r tag a site.base_url

abbrev pub row_of : ℕ → String → Tables → Option Artifact
row_of repo_id tag t = find_first (has_key repo_id tag) t.artifacts

abbrev pub repo_of : ℕ → Tables → Option Repo
repo_of repo_id t = find_first (λ (r : Repo). r.id == repo_id) t.repos

unfoldable pub get_scan_report : ScanSite → ℕ → String → Tables → Answer
unfolding norm_summary harbor_url_of
get_scan_report site repo_id tag t =
    if not site.can_scan
    then unsupported
    else with_row site tag (row_of repo_id tag t) (repo_of repo_id t)

pub data Triggered : Type 0 where
  started : Triggered
  refused : String → Triggered

abbrev by_start : Fetched (Unit {0}) → Triggered
by_start (fetched x) = started
by_start unavailable = refused "镜像仓库不可达，无法触发扫描"
by_start denied = refused "触发扫描失败，请联系管理员"
by_start failed = refused "触发扫描失败，请联系管理员"

abbrev start_row : ScanSite → String → Option Artifact → Option Repo → Triggered
start_row site tag none r = refused "Tag 不存在"
start_row site tag (some a) none = refused "Tag 不存在"
start_row site tag (some a) (some r) = by_start (site.start_scan r.repo_name tag)

unfoldable pub trigger_scan : ScanSite → ℕ → String → Tables → Triggered
trigger_scan site repo_id tag t =
    if not site.can_scan
    then refused "当前镜像仓库类型（registry）不支持漏洞扫描"
    else start_row site tag (row_of repo_id tag t) (repo_of repo_id t)

split_repo_test : split_repo "team/shop/web" ≡ ("team", "shop/web")
unfolding split_repo
split_repo_test = refl
