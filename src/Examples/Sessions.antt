-- ===== src/Examples/Sessions.antt =====
-- Requests with a session of alice.
use devops_cd.Prelude.{true, some, none, List, [], ◌∷◌, ◌≡◌, refl, arith}
use devops_cd.Text.{append}
use devops_cd.Result.{ok, err, app}
use devops_cd.Auth.Sessions.{
  Session, Site, Request, extract_token, get_current_user, lookup_session, create_session,
  revoke_session,
}
use devops_cd.Auth.Access.{is_ok, lets_in, access_success, login_lasts}
use devops_cd.Examples.{settings, everybody}

abbrev site : Site
site = record {
  settings = settings;
  directory = everybody;
  hash = λ t. append "h:" t;
  token_ttl_hours = 12;
  enabled = ok true;
  missing_tables = [];
}

-- The identity service has disabled the account.
abbrev closed : Site
closed = record site { directory = λ name. err (app 401 "errors.identity_unavailable") }

abbrev sessions : List Session
sessions = record { token_hash = "h:t1"; username = "alice"; expires_at = 5000 } ∷ []

abbrev request : Request
request = record { cookie = none; bearer = some "t1" }

access_success_example :
    is_ok (get_current_user site 4000 request sessions).0
    ≡ lets_in site 4000 sessions (extract_token request)
access_success_example = access_success site 4000 request sessions

-- The deletion of an expired session is rolled back.
expired_test : (get_current_user site 6000 request sessions).1 ≡ sessions
unfolding get_current_user
expired_test = refl

in_test : is_ok (get_current_user site 4000 request sessions).0 ≡ true
unfolding get_current_user lookup_session devops_cd.Auth.Context.has_system
    devops_cd.Auth.Context.identity_disabled
in_test = refl

login_lasts_example :
    (lets_in site 47200 (create_session site 4000 "t2" "alice" sessions) (some "t2") ≡ true)
    × (lookup_session site "t2"
          (revoke_session site "t2" (create_session site 4000 "t2" "alice" sessions))
        ≡ none)
unfolding devops_cd.Auth.Sessions.cd_deploy_gate devops_cd.Auth.Context.has_system
    devops_cd.Auth.Context.identity_disabled
login_lasts_example = login_lasts site 4000 47200 "t2" "alice" sessions refl (omega arith) refl refl
