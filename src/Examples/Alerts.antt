-- ===== src/Examples/Alerts.antt =====
-- Runs of the alert checks: one rule on one server with a container that uses too much memory.
use devops_cd.Prelude.{
  ℕ, true, some, none, List, [], ◌∷◌, ◌++◌, ◌≡◌, refl, arith, length, ◌<◌, if◌then◌else◌,
}
use devops_cd.Result.{ok, err, unexpected}
use devops_cd.State.{Server}
use devops_cd.Text.Dict.{get}
use devops_cd.Lease.{starts, write}
use devops_cd.Text.{lower, strip}
use devops_cd.Text.Csv.{parse_server_ids}
use devops_cd.Alert.Cooldown.{Spaced}
use devops_cd.Alert.Firing.{sent_of}
use devops_cd.Alert.Rule.{Rule, Bot, Metric, Env}
use devops_cd.Alert.Tracking.{Alerts, track_key}
use devops_cd.Alert.Rounds.{Round, run_loop, started}
use devops_cd.Alert.Check.{check_one, check_server, key_of}
use devops_cd.Alert.Passes.{alerts_keep_cooldown}
use devops_cd.Alert.Again.{Check, check_again}
use devops_cd.Alert.Lasting.{sustained_alerts}
use devops_cd.Alert.Limits.{check_one-silent, recover_lem}

abbrev server : Server
server = record {
  id = 3;
  name = "web-1";
  kind = "docker";
  host = "10.0.0.3";
  port = 22;
  user = "deploy";
  password = "";
  ssh_key = "";
  tags = "prod";
}

abbrev bot : Bot
bot = record { id = 7; kind = "custom"; webhook_url = "https://hook.local" }

-- An alert after five minutes, and again after ten.
abbrev rule : Rule
rule = record {
  id = 12;
  enabled = true;
  resource_type = "docker_memory";
  target_type = "app";
  bot_id = 7;
  cooldown_minutes = 10;
  duration_minutes = 5;
  template = "";
  server_ids = "3";
  threshold = "80";
}

abbrev metric : Metric
metric = record {
  resource = "docker_memory";
  value = "91";
  name = "shop";
  unit = "%";
  raw = "";
  entity_label = "shop";
  metric_name = "";
  sub_type = "docker";
}

-- Every collection takes a second and finds the container over the threshold.
abbrev env : Env
env = record {
  rules = rule ∷ [];
  servers = server ∷ [];
  bots = bot ∷ [];
  collect = λ r s. ok ((1, metric) ∷ []);
  format = λ template fields. ok template;
  show_time = λ now. "";
}

-- A round after `waited` seconds; nobody else holds the lock.
abbrev after : ℕ → Round
after waited = record { interval = 60; waited = waited; cell = none; env = env }

abbrev rounds : List Round
rounds = after 59 ∷ after 299 ∷ after 299 ∷ after 299 ∷ after 299 ∷ after 599 ∷ []

-- Marked, reported, marked again, reported when the cooldown ends, marked, and reported.
rounds_test : length (run_loop "host:1" rounds (started 1000)).sent ≡ 6
unfolding run_loop write lower strip parse_server_ids
rounds_test = refl

alerts_keep_cooldown_example : Spaced (λ _. 10) (run_loop "host:1" rounds (started 1000)).sent
alerts_keep_cooldown_example =
    alerts_keep_cooldown (λ _. 10) "host:1" rounds 1000 (λ _. omega arith)
      ((refl, tt), ((refl, tt), ((refl, tt), ((refl, tt), ((refl, tt), ((refl, tt), tt))))))

-- The container has been over the threshold since 1060, and its last alert was at 600.
abbrev watched : Alerts
watched = record {
  clock = 1300;
  cooldowns = ("12_3_shop", 600) ∷ [];
  durations = ("12_3_shop", 1060) ∷ [];
  sent = [];
}

-- No mark is left, and the last alert was at 600.
abbrev unmarked : Alerts
unmarked = record watched { clock = 1000; durations = [] }

abbrev other : ℕ × Metric
other = (1, record metric { entity_label = "db" })

-- A collection that fails, and one that is about another container.
abbrev between : List Check
between = (60, err (unexpected "ssh")) ∷ (60, ok (other ∷ [])) ∷ []

sustained_alerts_example :
    sent_of (key_of rule server metric) unmarked
    < sent_of
        (key_of rule server metric)
        (check_again env rule server bot
          ((0, ok ((1, metric) ∷ [])) ∷ between
            ++ (190, ok ((other ∷ []) ++ (5, metric) ∷ [])) ∷ [])
          unmarked).0
unfolding track_key
sustained_alerts_example =
    sustained_alerts env rule server bot metric metric 1 5 600 [] (other ∷ []) between 190 unmarked
      (λ lang m now. refl) (omega arith) refl refl ((λ _. omega arith), tt)
      ((λ e. cc), ((λ e. cc), tt)) (omega arith) (omega arith) (omega arith)

check_one-silent_example :
    (check_one env (record rule { duration_minutes = 1500 }) watched).0.sent ≡ []
check_one-silent_example =
    check_one-silent env (record rule { duration_minutes = 1500 }) watched (omega arith)

recover_lem_example :
    (get "12_3_shop" (check_server env rule server bot (ok []) watched).0.durations
      ≡ (if starts (track_key 12 3 "") "12_3_shop" then none else some 1060))
    × (get "12_3_shop"
          (check_server env rule server bot (err (unexpected "ssh")) watched).0.durations
        ≡ some 1060)
recover_lem_example = recover_lem env rule server bot (unexpected "ssh") watched "12_3_shop"
