-- ===== src/Auth/Context.antt =====
-- `load_user_context` of backend/auth.py and the facts about an identity that it tests.
use devops_cd.Prelude.{
  ℕ, String, Bool, false, not, Option, none, some, List, [], ◌∷◌, ◌==◌, if◌then◌else◌,
}
use devops_cd.Text.{is_empty, strip, split, contains}
use devops_cd.Result.{Result, ok, err, app, and_then}
use devops_cd.State.{User, Settings}

-- What `get_identity` returns. `status` is `none` where the value is None or no integer, which
-- `_identity_disabled` takes for enabled.
pub record Identity : Type 0 where
  pub username : String
  pub role : String
  pub systems : Option String
  pub status : Option ℕ
  pub permissions : List String

-- The calls of `get_identity`: an identity, or what it raises.
abbrev pub Directory : Type 0
Directory = String → Result Identity

abbrev is_zero : Option ℕ → Bool
is_zero none = false
is_zero (some n) = n == 0

unfoldable pub identity_disabled : Identity → Bool
identity_disabled i = is_zero i.status

strip_each : List String → List String
strip_each [] = []
strip_each (x ∷ xs) = strip x ∷ strip_each xs

abbrev listed : Settings → Option String → String → Bool
listed c none target = c.allow_empty_systems
listed c (some s) target =
    if is_empty s then c.allow_empty_systems else contains target (strip_each (split b',' s))

unfoldable pub has_system : Settings → Option String → String → Bool
unfolding strip_each split strip
has_system c systems target = listed c systems target

abbrev name_or : String → String → String
name_or s d = if is_empty s then d else s

abbrev pub admit : Settings → String → Identity → Result User
admit c username i =
    if identity_disabled i
    then err (app 403 "errors.user_disabled")
    else if not (has_system c i.systems "cd")
    then err (app 403 "errors.no_cd_access")
    else ok (record {
      username = name_or i.username username;
      role = i.role;
      permissions = i.permissions;
    })

unfoldable pub load_user_context : Settings → Directory → String → Result User
load_user_context c directory username = and_then (directory username) (admit c username)
