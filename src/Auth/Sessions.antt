-- ===== src/Auth/Sessions.antt =====
-- The login sessions of backend/auth.py: the rows of cd_sessions, and the checks of a request. The
-- digest of a token (SHA-256) and the random token of a new session are arguments; the clock is
-- read in whole seconds.
use devops_cd.Prelude.{
  ℕ, ◌+◌, ◌*◌, String, Bool, true, false, not, ◌&&◌, ◌||◌, Option, none, some, List, [], ◌∷◌, ◌++◌,
  ◌==◌, ltb, leb, str_eq, if◌then◌else◌, select, find_first,
}
use devops_cd.Text.{is_empty}
use devops_cd.Result.{Result, ok, err, app, http, Error, is_app_exception, status_code}
use devops_cd.State.{Settings}
use devops_cd.Auth.Context.{Identity, Directory, identity_disabled, has_system}

-- cd_sessions
pub record Session : Type 0 where
  pub token_hash : String
  pub username : String
  pub expires_at : ℕ

-- What the checks read besides the table. `missing_tables` is what `cd_missing_tables` gives;
-- `enabled` is the answer of `cd_integration_state`, or what it raises.
pub record Site : Type 0 where
  pub settings : Settings
  pub directory : Directory
  pub hash : String → String
  pub token_ttl_hours : ℕ
  pub enabled : Result Bool
  pub missing_tables : List String

-- The cookie `cd_token` and the Bearer credentials.
pub record Request : Type 0 where
  pub cookie : Option String
  pub bearer : Option String

abbrev pub of_token : Site → String → Session → Bool
of_token site token s = str_eq s.token_hash (site.hash token)

unfoldable pub lookup_session : Site → String → List Session → Option Session
lookup_session site token rows = find_first (of_token site token) rows

unfoldable pub delete_session : Site → String → List Session → List Session
delete_session site token rows = select (λ s. not (of_token site token s)) rows

-- Expired sessions go, and the new one is added.
unfoldable pub create_session : Site → ℕ → String → String → List Session → List Session
create_session site now token username rows =
    select (λ (s : Session). not (leb s.expires_at now)) rows
    ++ record {
      token_hash = site.hash token;
      username = username;
      expires_at = now + site.token_ttl_hours * 3600;
    }
      ∷ []

-- An empty token counts as none.
abbrev given : Option String → Option String
given none = none
given (some t) = if is_empty t then none else some t

abbrev or_bearer : Option String → Option String → Option String
or_bearer none b = given b
or_bearer (some t) b = some t

unfoldable pub extract_token : Request → Option String
extract_token r = or_bearer (given r.cookie) r.bearer

abbrev tables_gate : List String → Result (Unit {0})
tables_gate [] = ok tt
tables_gate (x ∷ xs) = err (app 503 "errors.cd_not_deployed")

abbrev enabled_gate : Result Bool → List String → Result (Unit {0})
enabled_gate (err e) missing = err e
enabled_gate (ok false) missing = err (app 503 "errors.cd_not_enabled")
enabled_gate (ok true) missing = tables_gate missing

unfoldable pub cd_deploy_gate : Site → Result (Unit {0})
cd_deploy_gate site = enabled_gate site.enabled site.missing_tables

abbrev pub Checked : Type 0
Checked = Result Identity × List Session

-- The lookup of the session: it is refused where there is none or it has expired. The deletion of an
-- expired one and the raise are in one `with db.conn()` block, which rolls the deletion back.
abbrev pub session_found :
    Site → ℕ → String → Option Session → List Session → Result Session × List Session
session_found site now token none rows = (err (http 401), rows)
session_found site now token (some s) rows =
    if ltb s.expires_at now then (err (http 401), rows) else (ok s, rows)

unfoldable pub oidc_session : Site → ℕ → String → List Session → Result Session × List Session
unfolding lookup_session
oidc_session site now token rows =
    session_found site now token (lookup_session site token rows) rows

-- Whether an exception of `get_identity` ends the session.
abbrev pub ends_session : Error → Bool
ends_session e = is_app_exception e && (status_code e == 401 || status_code e == 403)

abbrev pub admission : Site → String → Result Identity → List Session → Checked
admission site token (err e) rows =
    (err e, if ends_session e then delete_session site token rows else rows)
admission site token (ok i) rows =
    if identity_disabled i
    then (err (app 401 "errors.user_disabled"), delete_session site token rows)
    else if not (has_system site.settings i.systems "cd")
    then (err (app 401 "errors.no_cd_access"), delete_session site token rows)
    else (ok i, rows)

unfoldable pub oidc_identity : Site → String → String → List Session → Checked
unfolding delete_session
oidc_identity site token username rows = admission site token (site.directory username) rows

abbrev pub after_session : Site → String → Result Session × List Session → Checked
after_session site token (err e, rows) = (err e, rows)
after_session site token (ok s, rows) = oidc_identity site token s.username rows

abbrev pub after_gate : Site → ℕ → String → Result (Unit {0}) → List Session → Checked
after_gate site now token (err e) rows = (err e, rows)
after_gate site now token (ok x) rows = after_session site token (oidc_session site now token rows)

abbrev pub with_token : Site → ℕ → Option String → List Session → Checked
with_token site now none rows = (err (http 401), rows)
with_token site now (some token) rows = after_gate site now token (cd_deploy_gate site) rows

-- `get_current_user`, whose user has the fields of the identity; `verify_token` makes the same calls
-- and gives the name of the session.
unfoldable pub get_current_user : Site → ℕ → Request → List Session → Checked
unfolding oidc_session oidc_identity extract_token cd_deploy_gate
get_current_user site now request rows = with_token site now (extract_token request) rows

-- logout
unfoldable pub revoke_session : Site → String → List Session → List Session
unfolding delete_session
revoke_session site token rows = delete_session site token rows

-- The token of the CI service, with the configured one; an empty one lets nobody in.
unfoldable pub verify_inbound_api_token : String → Option String → Result (Unit {0})
verify_inbound_api_token configured none = err (http 401)
verify_inbound_api_token configured (some token) =
    if is_empty configured || is_empty token || not (str_eq token configured)
    then err (http 401)
    else ok tt
