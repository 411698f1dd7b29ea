-- ===== src/Alert/Tracking.antt =====
-- What services/alert_service.py keeps in memory: when the last alert of a key was sent, and since
-- when a key exceeds its threshold. `clock` is what `time.time()` gives, in whole seconds; it never
-- goes back, and one reading serves the handling of one collected result. `sent` are the calls of
-- `send_webhook`, the latest first.
use devops_cd.Prelude.{
  ℕ, ◌+◌, ◌-◌, ◌*◌, String, Bool, Option, none, some, List, ltb, leb, ◌==◌, if◌then◌else◌, select,
  ◌≡◌, refl,
}
use devops_cd.Text.{append}
use devops_cd.Text.Digits.{decimal}
use devops_cd.Text.Dict.{get, pop, put}

-- A call of `send_webhook`, with what it is about.
pub record Alert : Type 0 where
  pub key : String
  pub rule_id : ℕ
  pub lang : String
  pub at : ℕ
  pub url : String
  pub message : String

pub record Alerts : Type 0 where
  pub clock : ℕ
  pub cooldowns : List (String × ℕ)
  pub durations : List (String × ℕ)
  pub sent : List Alert

abbrev pub day : ℕ
day = 86400

unfoldable pub track_key : ℕ → ℕ → String → String
unfolding decimal
track_key rule_id server_id entity =
    append (decimal rule_id) (append "_" (append (decimal server_id) (append "_" entity)))

-- The entries that are not older than a day.
abbrev pub drop_old : ℕ → List (String × ℕ) → List (String × ℕ)
drop_old now d = select (λ (e : String × ℕ). leb now (e.1 + day)) d

abbrev pub or_zero : Option ℕ → ℕ
or_zero none = 0
or_zero (some t) = t

unfoldable pub check_cooldown : String → ℕ → Alerts → Bool
check_cooldown key cooldown_minutes st =
    ltb st.clock (or_zero (get key st.cooldowns) + cooldown_minutes * 60)

unfoldable pub set_cooldown : String → Alerts → Alerts
set_cooldown key st = record st { cooldowns = drop_old st.clock (put key st.clock st.cooldowns) }

-- `if key not in _durations: _durations[key] = now`
abbrev pub mark_if_absent : Option ℕ → String → ℕ → List (String × ℕ) → List (String × ℕ)
mark_if_absent none key now d = put key now d
mark_if_absent (some t) key now d = d

unfoldable pub mark_exceeded : String → Alerts → Alerts
mark_exceeded key st = record st {
  durations = drop_old st.clock (mark_if_absent (get key st.durations) key st.clock st.durations);
}

-- A first moment of 0 counts as none.
abbrev pub seconds_since : ℕ → ℕ → ℕ
seconds_since now first = if first == 0 then 0 else now - first

unfoldable pub get_exceeded_seconds : String → Alerts → ℕ
get_exceeded_seconds key st = seconds_since st.clock (or_zero (get key st.durations))

unfoldable pub clear_duration : String → Alerts → Alerts
clear_duration key st = record st { durations = pop key st.durations }

track_key_test : track_key 12 3 "web" ≡ "12_3_web"
unfolding track_key
track_key_test = refl
