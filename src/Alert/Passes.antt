-- ===== src/Alert/Passes.antt =====
-- services/alert_service.py: what holds of every result that is checked holds of the whole pass
-- over results, servers and rules.
use devops_cd.Prelude.{
  ℕ, ◌+◌, String, Bool, true, false, Option, none, some, List, [], ◌∷◌, ◌≡◌, ◌||◌, ◌==◌,
  if◌then◌else◌, Bool-cases, inl, inr, All, select, select-All, find_first,
}
use devops_cd.Result.{Result, ok, err}
use devops_cd.State.{Server}
use devops_cd.Text.{is_empty, lower}
use devops_cd.Alert.Rule.{Rule, Bot, Metric, Env}
use devops_cd.Alert.Tracking.{Alerts, clear_duration}
use devops_cd.Alert.Check.{
  Done, then_do, pass_time, check_metric, check_metrics, recover, check_server, check_servers,
  with_bot, servers_of, check_one, check_rules, check_all_rules,
}
use devops_cd.Alert.Rounds.{Round, gets_lock, run_round, run_loop, started}
use devops_cd.Alert.Cooldown.{IsSound, pass_time-IsSound, IsShort, Spaced, check_metric-IsSound}

then_do-keeps :
    (P : Alerts → Type 0) (d : Done) (f : Alerts → Done)
    → P d.0
    → ((s : Alerts) → P s → P (f s).0)
    → P (then_do d f).0
then_do-keeps P (st, err e) f h k = h
then_do-keeps P (st, ok x) f h k = k st h

if-keeps : (P : Alerts → Type 0) (b : Bool) (d e : Done) → P d.0 → P e.0 → P (if b then d else e).0
if-keeps P true d e h k = h
if-keeps P false d e h k = k

-- An invariant of the results that exceed and of the servers where nothing does is an invariant.
module _ (env : Env) (P : Alerts → Type 0) (rule : Rule)
    (keeps : (server : Server) (bot : Bot) (m : ℕ × Metric) (st : Alerts)
      → P st
      → P (check_metric env rule server bot m st).0)
    (clears : (server : Server) (st : Alerts) → P st → P (recover rule server st)) where
  check_metrics-keeps :
      (server : Server) (bot : Bot) (ms : List (ℕ × Metric)) (st : Alerts)
      → P st
      → P (check_metrics env rule server bot ms st).0
  unfolding check_metrics
  check_metrics-keeps server bot [] st h = h
  check_metrics-keeps server bot (m ∷ ms) st h =
      then_do-keeps P (check_metric env rule server bot m st) _ (keeps server bot m st h)
        (check_metrics-keeps server bot ms)

  check_server-keeps :
      (server : Server) (bot : Bot) (r : Result (List (ℕ × Metric))) (st : Alerts)
      → P st
      → P (check_server env rule server bot r st).0
  unfolding check_server
  check_server-keeps server bot (err e) st h = h
  check_server-keeps server bot (ok []) st h = clears server st h
  check_server-keeps server bot (ok (m ∷ ms)) st h = check_metrics-keeps server bot (m ∷ ms) st h

  check_servers-keeps :
      (bot : Bot) (ss : List Server) (st : Alerts) → P st → P (check_servers env rule bot ss st).0
  unfolding check_servers
  check_servers-keeps bot [] st h = h
  check_servers-keeps bot (s ∷ ss) st h =
      then_do-keeps P (check_server env rule s bot (env.collect rule s) st) _
        (check_server-keeps s bot (env.collect rule s) st h) (check_servers-keeps bot ss)

  with_bot-keeps : (b : Option Bot) (st : Alerts) → P st → P (with_bot env rule b st).0
  with_bot-keeps none st h = h
  with_bot-keeps (some bot) st h = check_servers-keeps bot (servers_of env rule) st h

  pub check_one-keeps : (st : Alerts) → P st → P (check_one env rule st).0
  unfolding check_one
  check_one-keeps st h =
      if-keeps P (is_empty (lower rule.resource_type) || rule.bot_id == 0) (st, ok tt)
        (with_bot env rule (find_first (λ b. b.id == rule.bot_id) env.bots) st) h
        (with_bot-keeps (find_first (λ b. b.id == rule.bot_id) env.bots) st h)

check_rules-IsSound :
    (cooldown : ℕ → ℕ) (env : Env) (rules : List Rule) (st : Alerts)
    → IsShort cooldown
    → All (λ r. r.cooldown_minutes ≡ cooldown r.id) rules
    → IsSound cooldown st
    → IsSound cooldown (check_rules env rules st).0
unfolding recover clear_duration
check_rules-IsSound cooldown env [] st short minutes h = h
check_rules-IsSound cooldown env (r ∷ rs) st short minutes h =
    then_do-keeps (IsSound cooldown) (check_one env r st) (check_rules env rs)
      (check_one-keeps env (IsSound cooldown) r
        (λ server bot m s. check_metric-IsSound cooldown env r server bot m s short minutes.0)
        (λ server s k. k) st h)
      (λ s. check_rules-IsSound cooldown env rs s short minutes.1)

-- Every rule has the cooldown that `cooldown` gives for its id.
abbrev pub Configured : (ℕ → ℕ) → Env → Type 0
Configured cooldown env = All (λ r. r.cooldown_minutes ≡ cooldown r.id) env.rules

check_all_rules-IsSound :
    (cooldown : ℕ → ℕ) (env : Env) (st : Alerts)
    → IsShort cooldown
    → Configured cooldown env
    → IsSound cooldown st
    → IsSound cooldown (check_all_rules env st).0
unfolding check_all_rules
check_all_rules-IsSound cooldown env st short minutes h =
    check_rules-IsSound cooldown env (select (λ r. r.enabled) env.rules) st short
      (select-All (λ r. r.cooldown_minutes ≡ cooldown r.id) (λ r. r.enabled) env.rules minutes) h

run_round-IsSound :
    (cooldown : ℕ → ℕ) (instance_id : String) (round : Round) (st : Alerts)
    → IsShort cooldown
    → Configured cooldown round.env
    → IsSound cooldown st
    → IsSound cooldown (run_round instance_id round st)
unfolding run_round
run_round-IsSound cooldown instance_id round st short minutes h =
    let waited = pass_time-IsSound cooldown round.waited st h in
    elim (Bool-cases (gets_lock instance_id round (st.clock + round.waited))) [
      | inl taken ↦ rw taken (
          check_all_rules-IsSound cooldown round.env (pass_time round.waited st) short minutes
            waited)
      | inr refused ↦ rw refused waited
    ]

run_loop-IsSound :
    (cooldown : ℕ → ℕ) (instance_id : String) (rounds : List Round) (st : Alerts)
    → IsShort cooldown
    → All (λ r. Configured cooldown r.env) rounds
    → IsSound cooldown st
    → IsSound cooldown (run_loop instance_id rounds st)
unfolding run_loop
run_loop-IsSound cooldown instance_id [] st short minutes h = h
run_loop-IsSound cooldown instance_id (r ∷ rs) st short minutes h =
    run_loop-IsSound cooldown instance_id rs (run_round instance_id r st) short minutes.1
      (run_round-IsSound cooldown instance_id r st short minutes.0 h)

-- In every run of the checking thread, whatever the collection, the tables, the lock and the waits
-- are, any two calls of send_webhook with one key (rule, server and entity) in one language are
-- apart by at least the rule's cooldown, if the cooldowns do not change and are at most a day.
pub alerts_keep_cooldown :
    (cooldown : ℕ → ℕ) (instance_id : String) (rounds : List Round) (now : ℕ)
    → IsShort cooldown
    → All (λ r. Configured cooldown r.env) rounds
    → Spaced cooldown (run_loop instance_id rounds (started now)).sent
alerts_keep_cooldown cooldown instance_id rounds now short minutes =
    (run_loop-IsSound cooldown instance_id rounds (started now) short minutes (tt, tt)).0
