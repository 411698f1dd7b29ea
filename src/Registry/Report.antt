-- ===== src/Registry/Report.antt =====
-- services/registry_service.py, `get_scan_report`: which summary a report has.
use devops_cd.Prelude.{
  ℕ, String, true, Option, none, some, ◌≡◌, refl, ltb, if◌then◌else◌, Bool-cases, inl, inr,
}
use devops_cd.Registry.Tables.{
  Repo, Artifact, Tables, Fetched, fetched, unavailable, denied, failed,
}
use devops_cd.Registry.Scan.{
  Live, Summary, Answer, report, unsupported, no_tag, provider_down, ScanSite, norm_summary,
  db_summary, by_live, by_summary, row_of, repo_of, harbor_url_of, get_scan_report,
}

abbrev pub summary_of : Answer → Option Summary
summary_of (report r) = some r.summary
summary_of unsupported = none
summary_of no_tag = none
summary_of provider_down = none

-- The numbers that the registry has just given.
abbrev pub fresh_summary : Fetched (Option Live) → Option Summary
fresh_summary (fetched none) = none
fresh_summary (fetched (some live)) = norm_summary live.summary
fresh_summary unavailable = none
fresh_summary denied = none
fresh_summary failed = none

-- Fresh numbers if they count anything, and those of the table otherwise.
abbrev pub preferred : Option Summary → Summary → Summary
preferred none db = db
preferred (some sm) db = if ltb 0 sm.total then sm else db

by_summary-summary :
    (a : Artifact) (url : String) (live : Live) (sm : Option Summary)
    → summary_of (by_summary a url live sm) ≡ some (preferred sm (db_summary a.scan))
by_summary-summary a url live none = refl
by_summary-summary a url live (some sm) = elim (Bool-cases (ltb 0 sm.total)) [
  | inl counts ↦ elim (Bool-cases live.has_vulnerabilities) [
    | inl listed ↦ rw listed refl
    | inr not_listed ↦ rw (not_listed, counts) refl
  ]
  | inr zero_total ↦ elim (Bool-cases live.has_vulnerabilities) [
    | inl listed ↦ rw listed refl
    | inr not_listed ↦ rw (not_listed, zero_total) refl
  ]
]

by_live-summary :
    (a : Artifact) (url : String) (f : Fetched (Option Live))
    → summary_of (by_live a url f) ≡ some (preferred (fresh_summary f) (db_summary a.scan))
by_live-summary a url (fetched none) = refl
by_live-summary a url (fetched (some live)) =
    by_summary-summary a url live (norm_summary live.summary)
by_live-summary a url unavailable = refl
by_live-summary a url denied = refl
by_live-summary a url failed = refl

-- For a tag of the table, on a registry that can scan and whose address is known, a report always
-- comes back, with the numbers that the registry gives just then if they count anything, and
-- otherwise, whatever has failed, with those of the table.
pub scan_report_summary :
    (site : ScanSite) (repo_id : ℕ) (tag base : String) (t : Tables) (a : Artifact) (r : Repo)
    → site.can_scan ≡ true
    → site.base_url ≡ some base
    → row_of repo_id tag t ≡ some a
    → repo_of repo_id t ≡ some r
    → summary_of (get_scan_report site repo_id tag t)
      ≡ some (preferred (fresh_summary (site.live_report r.repo_name tag)) (db_summary a.scan))
unfolding get_scan_report
scan_report_summary site repo_id tag base t a r can known row repo =
    rw (can, row, repo, known)
      (by_live-summary a (harbor_url_of site base r.repo_name a.digest)
        (site.live_report r.repo_name tag))
