-- ===== src/Auth/Glue.antt =====
-- backend/services/glue_identity.py: the identities and permissions of the service Glue, and the
-- caches of the process. Times are whole seconds; one reading of the clock serves a whole call.
use devops_cd.Prelude.{
  ℕ, ◌+◌, String, Bool, true, false, not, ◌&&◌, ◌||◌, Option, none, some, List, [], ◌∷◌, ltb, leb,
  ◌==◌, if◌then◌else◌, max,
}
use devops_cd.Text.{length, is_empty, strip, lower, append}
use devops_cd.Text.Dict.{get, put, pop}
use devops_cd.Result.{Result, ok, err, Error, app}

-- What a request to Glue brings: no answer, a status other than 200, a body that is no JSON or has
-- another shape than the reader expects, or a body.
pub data Response {ℓ} (A : Type ℓ) : Type ℓ where
  unreachable malformed : Response A
  code : ℕ → Response A
  body : A → Response A

-- The body of /api/rbac/users/{username}; an absent or null text is empty. `status` is `none`
-- where it is null.
pub record UserBody : Type 0 where
  pub username : String
  pub role : String
  pub systems : Option String
  pub status : Option ℕ

-- Glue, and the settings of the client.
pub record Glue : Type 0 where
  pub ci_api_url : String
  pub ci_api_token : String
  pub revalidate_seconds : ℕ
  pub stale_grace_seconds : ℕ
  pub users : String → Response UserBody
  pub roles : String → Response (List String)

-- An entry of _identity_cache, and what get_identity returns. `permissions` is `none` for None.
pub record Entry : Type 0 where
  pub username : String
  pub role : String
  pub systems : Option String
  pub status : Option ℕ
  pub permissions : Option (List String)
  pub usable : Bool
  pub checked_at : ℕ
  pub last_ok_at : ℕ

pub record PermEntry : Type 0 where
  pub permissions : List String
  pub checked_at : ℕ

-- The state of the process.
pub record Caches : Type 0 where
  pub identities : List (String × Entry)
  pub perms : List (String × PermEntry)
  -- until when a role is known to be missing
  pub negative : List (String × ℕ)
  pub last_warn : List (String × ℕ)
  -- the keys of the warnings that were logged, the newest first
  pub warnings : List String

-- A value, the explicit denial GlueIdentityError, or the temporary _GlueUnavailable.
pub data Fetched {ℓ} (A : Type ℓ) : Type ℓ where
  got : A → Fetched A
  denied transient : Fetched A

abbrev pub or_zero : Option ℕ → ℕ
or_zero none = 0
or_zero (some n) = n

unfoldable pub warn_throttled : ℕ → String → Caches → Caches
warn_throttled now key s =
    if ltb now (or_zero (get key s.last_warn) + 60)
    then s
    else record s { last_warn = put key now s.last_warn; warnings = key ∷ s.warnings }

-- No request goes out without an address and a token.
unfoldable pub glue_get {ℓ} : {A : Type ℓ} → Glue → Response A → Response A
glue_get g answer =
    if is_empty g.ci_api_url
    then Response.unreachable
    else (if is_empty g.ci_api_token then Response.unreachable else answer)

abbrev pub window : Glue → ℕ
window g = max g.revalidate_seconds 1

abbrev pub fresh_perms : Glue → ℕ → Option PermEntry → Option (List String)
fresh_perms g now none = none
fresh_perms g now (some e) = if ltb now (e.checked_at + window g) then some e.permissions else none

abbrev pub role_missing : Glue → ℕ → String → Caches → Caches
role_missing g now role s =
    warn_throttled now (append "role404:" role)
      (record s { negative = put role (now + window g) s.negative })

abbrev pub role_answer :
    Glue → ℕ → String → Response (List String) → Caches → Fetched (List String) × Caches
role_answer g now role Response.unreachable s = (Fetched.transient, s)
role_answer g now role Response.malformed s = (Fetched.transient, s)
role_answer g now role (Response.code n) s =
    if n == 404 then (Fetched.denied, role_missing g now role s) else (Fetched.transient, s)
role_answer g now role (Response.body perms) s = (
  Fetched.got perms,
  record s {
    perms = put role (record { permissions = perms; checked_at = now }) s.perms;
    negative = pop role s.negative;
  },
)

abbrev pub role_lookup :
    Glue → ℕ → String → Option (List String) → Caches → Fetched (List String) × Caches
role_lookup g now role (some perms) s = (Fetched.got perms, s)
role_lookup g now role none s =
    if ltb now (or_zero (get role s.negative))
    then (Fetched.denied, s)
    else role_answer g now role (glue_get g (g.roles role)) s

unfoldable pub role_permissions : Glue → ℕ → String → Caches → Fetched (List String) × Caches
role_permissions g now raw s =
    let role = strip raw in
    if is_empty role
    then (Fetched.got [], s)
    else role_lookup g now role (fresh_perms g now (get role s.perms)) s

abbrev pub name_or : String → String → String
name_or name default = if is_empty name then default else name

abbrev pub user_answer : String → Response UserBody → Fetched UserBody
user_answer key Response.unreachable = Fetched.transient
user_answer key Response.malformed = Fetched.transient
user_answer key (Response.code n) = if n == 404 then Fetched.denied else Fetched.transient
user_answer key (Response.body u) =
    Fetched.got (record u { username = lower (strip (name_or u.username key)) })

unfoldable pub fetch_identity : Glue → String → Fetched UserBody
fetch_identity g key = user_answer key (glue_get g (g.users key))

abbrev pub unavailable : Error
unavailable = app 401 "errors.identity_unavailable"

abbrev pub service_down : Error
service_down = app 503 "errors.service_unavailable"

abbrev pub in_grace : Glue → ℕ → Entry → Bool
in_grace g now e =
    e.usable && ltb 0 g.stale_grace_seconds && leb now (e.last_ok_at + g.stale_grace_seconds)

-- The window counts from the last successful check, so failing checks do not prolong it.
unfoldable pub soft_fail_or_raise :
    Glue → ℕ → String → Option Entry → Caches → Result Entry × Caches
soft_fail_or_raise g now key none s = (err service_down, s)
soft_fail_or_raise g now key (some e) s =
    if in_grace g now e
    then (ok e, warn_throttled now (append "softfail:" key) s)
    else (err service_down, s)

abbrev pub last_ok : Option Entry → ℕ
last_ok none = 0
last_ok (some e) = e.last_ok_at

abbrev pub entry_of : UserBody → Option (List String) → Bool → ℕ → ℕ → Entry
entry_of u perms usable checked_at last_ok_at = record {
  username = u.username;
  role = u.role;
  systems = u.systems;
  status = u.status;
  permissions = perms;
  usable = usable;
  checked_at = checked_at;
  last_ok_at = last_ok_at;
}

abbrev pub remember : String → Entry → Caches → Caches
remember key e s = record s { identities = put key e s.identities }

abbrev pub with_perms :
    Glue
    → ℕ
    → String
    → Option Entry
    → UserBody
    → Fetched (List String) × Caches
    → Result Entry × Caches
with_perms g now key cached u (Fetched.denied, s) =
    (err unavailable, remember key (entry_of u none false now (last_ok cached)) s)
with_perms g now key cached u (Fetched.transient, s) = soft_fail_or_raise g now key cached s
with_perms g now key cached u (Fetched.got perms, s) =
    let e = entry_of u (some perms) true now now in (ok e, remember key e s)

-- invalidate(username)
unfoldable pub invalidate : String → Caches → Caches
invalidate username s = record s { identities = pop (lower (strip username)) s.identities }

abbrev pub revalidate :
    Glue → ℕ → String → Option Entry → Fetched UserBody → Caches → Result Entry × Caches
revalidate g now key cached Fetched.denied s = (err unavailable, invalidate key s)
revalidate g now key cached Fetched.transient s = soft_fail_or_raise g now key cached s
revalidate g now key cached (Fetched.got u) s =
    with_perms g now key cached u (role_permissions g now u.role s)

abbrev pub is_fresh : Glue → ℕ → Bool → Option Entry → Bool
is_fresh g now force none = false
is_fresh g now force (some e) = not force && ltb now (e.checked_at + window g)

abbrev pub from_cache : Option Entry → Result Entry
from_cache none = err unavailable
from_cache (some e) = if e.usable then ok e else err unavailable

unfoldable pub get_identity : Glue → ℕ → String → Bool → Caches → Result Entry × Caches
get_identity g now username force s =
    let key = lower (strip username) in
    let cached = get key s.identities in
    if is_empty key || ltb 128 (length key)
    then (err unavailable, s)
    else if is_fresh g now force cached
    then (from_cache cached, s)
    else revalidate g now key cached (fetch_identity g key) s

unfoldable pub reset_cache : Caches → Caches
reset_cache s = record s { identities = []; perms = []; negative = []; last_warn = [] }
