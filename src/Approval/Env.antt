-- ===== src/Approval/Env.antt =====
-- What an operation of the approval service reads besides the database: the settings, the answers
-- of the identity service, the clock, and what names an image. One reading of the clock serves a
-- whole operation.
use devops_cd.Prelude.{ℕ, String, Option}
use devops_cd.State.{Settings}
use devops_cd.Auth.Context.{Directory}

pub record Env : Type 0 where
  pub settings : Settings
  pub directory : Directory
  -- `utc_now_str()`, and the same moment in epoch seconds
  pub now : String
  pub epoch : ℕ
  -- INSTANCE_ID of backend/dlock.py
  pub instance_id : String
  -- `CiService.resolve_harbor_repo`: `none` where it raises or finds nothing
  pub harbor_repo : String → Option String
  -- `registry_base_url()`: `none` where it raises
  pub registry_base : Option String
