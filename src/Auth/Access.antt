-- ===== src/Auth/Access.antt =====
-- backend/auth.py: who gets in, and what a refusal does to the session.
use devops_cd.Prelude.{
  ℕ, ◌+◌, ◌*◌, ◌≤◌, String, Bool, true, false, not, ◌&&◌, Option, none, some, List, [], ◌∷◌, ◌++◌,
  ◌≡◌, refl, arith, ltb, leb, if◌then◌else◌, Bool-cases, inl, inr, select, find_first, any,
}
use text.Mathlib.TextPositions.{eq_refl}
use devops_cd.Result.{Result, ok, err}
use devops_cd.Auth.Context.{Identity, identity_disabled, has_system}
use devops_cd.Auth.Sessions.{
  Session, Site, Request, of_token, lookup_session, delete_session, extract_token, cd_deploy_gate,
  session_found, oidc_session, ends_session, admission, oidc_identity, after_session, after_gate,
  with_token, get_current_user, create_session, revoke_session,
}

abbrev pub is_ok {ℓ} : {A : Type ℓ} → Result A → Bool
is_ok (ok a) = true
is_ok (err e) = false

-- The identity is enabled and may use the system.
abbrev pub admits : Site → Result Identity → Bool
admits site (err e) = false
admits site (ok i) = not (identity_disabled i) && has_system site.settings i.systems "cd"

-- The identity service knows that the user is not to get in, as against being out of reach.
abbrev pub expels : Site → Result Identity → Bool
expels site (err e) = ends_session e
expels site (ok i) = not (admits site (ok i))

abbrev pub is_live : Site → ℕ → Option Session → Bool
is_live site now none = false
is_live site now (some s) = not (ltb s.expires_at now) && admits site (site.directory s.username)

-- The session has not expired and its user is expelled.
abbrev pub is_over : Site → ℕ → Option Session → Bool
is_over site now none = false
is_over site now (some s) = not (ltb s.expires_at now) && expels site (site.directory s.username)

-- The deployment gate and the session of a token let it in.
abbrev pub lets_in : Site → ℕ → List Session → Option String → Bool
lets_in site now rows none = false
lets_in site now rows (some token) =
    is_ok (cd_deploy_gate site) && is_live site now (lookup_session site token rows)

lookup-delete :
    (site : Site) (token : String) (rows : List Session)
    → lookup_session site token (delete_session site token rows) ≡ none
unfolding lookup_session delete_session
lookup-delete site token [] = refl
lookup-delete site token (s ∷ rows) = ground (arith, lookup-delete site token rows)

admission-ok :
    (site : Site) (token : String) (r : Result Identity) (rows : List Session)
    → is_ok (admission site token r rows).0 ≡ admits site r
admission-ok site token (err e) rows = refl
admission-ok site token (ok i) rows = ground arith

session_found-ok :
    (site : Site) (now : ℕ) (token : String) (o : Option Session) (rows : List Session)
    → is_ok (after_session site token (session_found site now token o rows)).0 ≡ is_live site now o
unfolding oidc_identity
session_found-ok site now token none rows = refl
session_found-ok site now token (some s) rows = elim (Bool-cases (ltb s.expires_at now)) [
  | inl old ↦ rw old refl
  | inr young ↦ rw young (admission-ok site token (site.directory s.username) rows)
]

after_gate-ok :
    (site : Site) (now : ℕ) (token : String) (g : Result (Unit {0})) (rows : List Session)
    → is_ok (after_gate site now token g rows).0
      ≡ (is_ok g && is_live site now (lookup_session site token rows))
unfolding oidc_session
after_gate-ok site now token (err e) rows = refl
after_gate-ok site now token (ok x) rows =
    session_found-ok site now token (lookup_session site token rows) rows

with_token-ok :
    (site : Site) (now : ℕ) (o : Option String) (rows : List Session)
    → is_ok (with_token site now o rows).0 ≡ lets_in site now rows o
with_token-ok site now none rows = refl
with_token-ok site now (some token) rows = after_gate-ok site now token (cd_deploy_gate site) rows

-- A request gets in exactly if it has a token, the service is enabled with all its tables, the token
-- has a session that has not expired, and its user is known, enabled and may use the system.
pub access_success :
    (site : Site) (now : ℕ) (request : Request) (rows : List Session)
    → is_ok (get_current_user site now request rows).0
      ≡ lets_in site now rows (extract_token request)
unfolding get_current_user
access_success site now request rows = with_token-ok site now (extract_token request) rows

-- The session of the token after the check.
abbrev pub left_over : Site → ℕ → String → List Session → Option Session
left_over site now token rows =
    if is_ok (cd_deploy_gate site) && is_over site now (lookup_session site token rows)
    then none
    else lookup_session site token rows

append-find :
    (p : Session → Bool) (xs : List Session) (y : Session)
    → any p xs ≡ false
    → p y ≡ true
    → find_first p (xs ++ y ∷ []) ≡ some y
append-find p [] y h k = rw k refl
append-find p (x ∷ xs) y h k = ground (arith, append-find p xs y (ground arith) k)

any-select-false {ℓ} :
    {A : Type ℓ} (p q : A → Bool) (xs : List A) → any p xs ≡ false → any p (select q xs) ≡ false
any-select-false p q [] h = refl
any-select-false p q (x ∷ xs) h = ground (arith, any-select-false p q xs)

-- A new session, whose digest no row has, lets its user in until its time to live is over, as long
-- as the service is enabled with all its tables and the user is enabled and may use the system; and
-- after a logout the token has no session.
pub login_lasts :
    (site : Site) (now later : ℕ) (token username : String) (rows : List Session)
    → any (of_token site token) rows ≡ false
    → later ≤ now + site.token_ttl_hours * 3600
    → is_ok (cd_deploy_gate site) ≡ true
    → admits site (site.directory username) ≡ true
    → (lets_in site later (create_session site now token username rows) (some token) ≡ true)
      × (lookup_session site token
            (revoke_session site token (create_session site now token username rows))
          ≡ none)
unfolding create_session lookup_session revoke_session
login_lasts site now later token username rows new young gate known =
    let kept = select (λ (s : Session). not (leb s.expires_at now)) rows in
    let row : Session = record {
      token_hash = site.hash token;
      username = username;
      expires_at = now + site.token_ttl_hours * 3600;
    } in
    let found =
      append-find (of_token site token) kept row
        (any-select-false (of_token site token) (λ (s : Session). not (leb s.expires_at now)) rows
          new)
        (eq_refl (site.hash token)) in
    (
      rw gate (rw found (rw known (ground (arith, young)))),
      lookup-delete site token (create_session site now token username rows),
    )
