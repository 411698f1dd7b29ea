-- ===== src/Result.antt =====
-- The exceptions of backend/exceptions.py and those of Python and FastAPI that the services raise
-- or catch, and calls that may raise. What was written to the database before a raise stays
-- written, because every `with db.conn()` block commits on its own; so the state comes back beside
-- the error too.
use devops_cd.Prelude.{ℕ, String, Bool, true, false, ◌≡◌, refl, if◌then◌else◌}

-- A constructor for each class, with the `error_key` of those that carry one.
pub data Error : Type 0 where
  -- AppException(status_code, error_key)
  app : ℕ → String → Error
  -- its subclasses: NotFoundError 404, ConflictError 409, ValidationError 400
  not_found : String → Error
  conflict : String → Error
  validation : String → Error
  -- fastapi's HTTPException(status_code)
  http : ℕ → Error
  -- ValueError, and any other subclass of Exception
  value_error : String → Error
  unexpected : String → Error

pub data Result {ℓ} (A : Type ℓ) : Type ℓ where
  ok : A → Result A
  err : Error → Result A

-- `except (AppException, NotFoundError)`
abbrev pub is_app_exception : Error → Bool
is_app_exception (app code key) = true
is_app_exception (not_found key) = true
is_app_exception (conflict key) = true
is_app_exception (validation key) = true
is_app_exception (http code) = false
is_app_exception (value_error m) = false
is_app_exception (unexpected m) = false

-- exc.status_code of an AppException
abbrev pub status_code : Error → ℕ
status_code (app code key) = code
status_code (not_found key) = 404
status_code (conflict key) = 409
status_code (validation key) = 400
status_code (http code) = code
status_code (value_error m) = 500
status_code (unexpected m) = 500

module _ {ℓ κ} {A : Type ℓ} {B : Type κ} where
  abbrev pub and_then : Result A → (A → Result B) → Result B
  and_then (ok a) f = f a
  and_then (err e) f = err e

-- What a call returns, if it returns, meets `P`.
abbrev pub OnOk {ℓ κ} : {A : Type ℓ} → (A → Type κ) → Result A → Type κ
OnOk P (ok a) = P a
OnOk P (err e) = Unit

pub OnOk-if {ℓ κ} :
    {A : Type ℓ} (P : A → Type κ) (b : Bool) (a : A) (e : Error)
    → (b ≡ true → P a)
    → OnOk P (if b then ok a else err e)
OnOk-if P true a e h = h refl
OnOk-if P false a e h = tt
