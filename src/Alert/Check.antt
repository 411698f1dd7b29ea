-- ===== src/Alert/Check.antt =====
-- services/alert_service.py: the checks of one result, one server, one rule and all rules. Each
-- gives the state that it leaves and whether it raised.
use devops_cd.Prelude.{
  ℕ, ◌+◌, ◌*◌, String, Bool, false, not, ◌&&◌, ◌||◌, Option, none, some, List, [], ◌∷◌, ltb, ◌==◌,
  str_eq, if◌then◌else◌, select, find_first,
}
use devops_cd.Text.{is_empty, strip, lower}
use devops_cd.Text.Csv.{parse_server_ids}
use devops_cd.Lease.{starts}
use devops_cd.Result.{Result, ok, err}
use devops_cd.State.{Server}
use devops_cd.Alert.Rule.{Rule, Bot, Metric, Env}
use devops_cd.Alert.Tracking.{
  Alerts, track_key, check_cooldown, set_cooldown, mark_exceeded, get_exceeded_seconds,
  clear_duration,
}
use devops_cd.Alert.Message.{fields, template_for}

abbrev pub Done : Type 0
Done = Alerts × Result Unit

-- `send_webhook(bot["webhook_url"], msg, …)`, if `str.format` has not raised
abbrev pub post : Rule → Bot → String → String → Result String → Alerts → Done
post rule bot key lang (err e) st = (st, err e)
post rule bot key lang (ok msg) st = (
  record st {
    sent =
        record {
          key = key;
          rule_id = rule.id;
          lang = lang;
          at = st.clock;
          url = bot.webhook_url;
          message = msg;
        }
        ∷ st.sent;
  },
  ok tt,
)

-- msg = tpl.format(…)
abbrev pub alert_text : Env → Rule → Server → String → Metric → ℕ → Result String
alert_text env rule server lang m now =
    env.format (template_for (strip rule.template) rule.target_type lang)
      (fields (env.show_time now) lang rule server m)

unfoldable pub send_alert : Env → Rule → Server → Bot → String → String → Metric → Alerts → Done
send_alert env rule server bot key lang m st =
    post rule bot key lang (alert_text env rule server lang m st.clock) st

abbrev pub then_do : Done → (Alerts → Done) → Done
then_do (st, err e) f = (st, err e)
then_do (st, ok x) f = f st

abbrev pub key_of : Rule → Server → Metric → String
key_of rule server m = track_key rule.id server.id m.entity_label

-- `required > 0 and elapsed < required`
abbrev pub too_short : Rule → String → Alerts → Bool
too_short rule key st =
    ltb 0 (rule.duration_minutes * 60)
    && ltb (get_exceeded_seconds key st) (rule.duration_minutes * 60)

-- The alert, in both languages.
unfoldable pub fire : Env → Rule → Server → Bot → String → Metric → Alerts → Done
unfolding send_alert set_cooldown clear_duration
fire env rule server bot key m st =
    then_do (send_alert env rule server bot key "zh" m (clear_duration key (set_cooldown key st)))
      (send_alert env rule server bot key "en" m)

unfoldable pub decide : Env → Rule → Server → Bot → String → Metric → Alerts → Done
unfolding fire check_cooldown get_exceeded_seconds
decide env rule server bot key m st =
    if too_short rule key st || check_cooldown key rule.cooldown_minutes st
    then (st, ok tt)
    else fire env rule server bot key m st

abbrev pub pass_time : ℕ → Alerts → Alerts
pass_time seconds st = record st { clock = st.clock + seconds }

-- One result over the threshold.
unfoldable pub check_metric : Env → Rule → Server → Bot → ℕ × Metric → Alerts → Done
unfolding decide mark_exceeded
check_metric env rule server bot (seconds, m) st =
    decide env rule server bot (key_of rule server m) m
      (mark_exceeded (key_of rule server m) (pass_time seconds st))

unfoldable pub check_metrics : Env → Rule → Server → Bot → List (ℕ × Metric) → Alerts → Done
unfolding check_metric
check_metrics env rule server bot [] st = (st, ok tt)
check_metrics env rule server bot (m ∷ ms) st =
    then_do (check_metric env rule server bot m st) (check_metrics env rule server bot ms)

-- Nothing exceeds: the server's keys of the rule are dropped.
unfoldable pub recover : Rule → Server → Alerts → Alerts
unfolding clear_duration track_key
recover rule server st =
    let cleared = clear_duration (track_key rule.id server.id "") st in
    record cleared {
      durations =
          select (λ (e : String × ℕ). not (starts (track_key rule.id server.id "") e.0))
            cleared.durations;
    }

unfoldable pub check_server : Env → Rule → Server → Bot → Result (List (ℕ × Metric)) → Alerts → Done
unfolding check_metrics recover
check_server env rule server bot (err e) st = (st, ok tt)
check_server env rule server bot (ok []) st = (recover rule server st, ok tt)
check_server env rule server bot (ok (m ∷ ms)) st = check_metrics env rule server bot (m ∷ ms) st

unfoldable pub check_servers : Env → Rule → Bot → List Server → Alerts → Done
unfolding check_server
check_servers env rule bot [] st = (st, ok tt)
check_servers env rule bot (s ∷ ss) st =
    then_do (check_server env rule s bot (env.collect rule s) st) (check_servers env rule bot ss)

abbrev member : ℕ → List ℕ → Bool
member n [] = false
member n (k ∷ ks) = n == k || member n ks

-- The servers of a rule; none are asked for where the ids are no numbers.
unfoldable pub servers_of : Env → Rule → List Server
servers_of env rule =
    if is_empty (strip rule.server_ids)
    then select (λ s. str_eq s.kind "ssh" || str_eq s.kind "docker") env.servers
    else select (λ s. member s.id (parse_server_ids (strip rule.server_ids))) env.servers

abbrev pub with_bot : Env → Rule → Option Bot → Alerts → Done
with_bot env rule none st = (st, ok tt)
with_bot env rule (some bot) st = check_servers env rule bot (servers_of env rule) st

unfoldable pub check_one : Env → Rule → Alerts → Done
unfolding check_servers servers_of
check_one env rule st =
    if is_empty (lower rule.resource_type) || rule.bot_id == 0
    then (st, ok tt)
    else with_bot env rule (find_first (λ b. b.id == rule.bot_id) env.bots) st

abbrev pub check_rules : Env → List Rule → Alerts → Done
check_rules env [] st = (st, ok tt)
check_rules env (r ∷ rs) st = then_do (check_one env r st) (check_rules env rs)

unfoldable pub check_all_rules : Env → Alerts → Done
unfolding check_one
check_all_rules env st = check_rules env (select (λ r. r.enabled) env.rules) st
