-- ===== src/Alert/Rule.antt =====
-- The rows that services/alert_service.py reads, what a collected result carries, and what the
-- checks take from outside.
use devops_cd.Prelude.{ℕ, String, Bool, List}
use devops_cd.Result.{Result}
use devops_cd.State.{Server}

-- cd_alert_rules
pub record Rule : Type 0 where
  pub id : ℕ
  pub enabled : Bool
  pub resource_type : String
  pub target_type : String
  pub bot_id : ℕ
  pub cooldown_minutes : ℕ
  pub duration_minutes : ℕ
  pub template : String
  pub server_ids : String
  pub threshold : String

-- cd_bots
pub record Bot : Type 0 where
  pub id : ℕ
  pub kind : String
  pub webhook_url : String

-- An element of what `collect_alert_metrics` returns; a missing `name` of a custom resource is the
-- resource.
pub record Metric : Type 0 where
  pub resource : String
  pub value : String
  pub name : String
  pub unit : String
  pub raw : String
  pub entity_label : String
  pub metric_name : String
  pub sub_type : String

pub record Env : Type 0 where
  pub rules : List Rule
  pub servers : List Server
  pub bots : List Bot
  -- `collect_alert_metrics`: the results over the threshold, each with the seconds that pass
  -- before it is handled
  pub collect : Rule → Server → Result (List (ℕ × Metric))
  -- `str.format` with keyword arguments
  pub format : String → List (String × String) → Result String
  -- the clock's reading as `_send_alert` writes it
  pub show_time : ℕ → String
