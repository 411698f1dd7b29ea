-- ===== src/Alert/Rounds.antt =====
-- services/alert_service.py, `_run_loop`: rounds of checks, each after a wait and under the lock
-- `alert_check`, so that one instance checks. What a round raises is only logged.
use devops_cd.Prelude.{ℕ, ◌+◌, ◌*◌, max, String, Bool, Option, List, [], ◌∷◌, if◌then◌else◌}
use devops_cd.Lease.{acquire}
use devops_cd.Alert.Rule.{Env}
use devops_cd.Alert.Tracking.{Alerts}
use devops_cd.Alert.Check.{pass_time, check_all_rules}

-- A round, as it finds the lock's row and the tables after a wait.
pub record Round : Type 0 where
  pub interval : ℕ
  pub waited : ℕ
  pub cell : Option String
  pub env : Env

-- The ttl of the lock covers three rounds.
abbrev pub gets_lock : String → Round → ℕ → Bool
gets_lock instance_id round now =
    (acquire instance_id now (max (round.interval * 3) 90) round.cell).0

unfoldable pub run_round : String → Round → Alerts → Alerts
unfolding check_all_rules acquire
run_round instance_id round st =
    if gets_lock instance_id round (st.clock + round.waited)
    then (check_all_rules round.env (pass_time round.waited st)).0
    else pass_time round.waited st

unfoldable pub run_loop : String → List Round → Alerts → Alerts
unfolding run_round
run_loop instance_id [] st = st
run_loop instance_id (r ∷ rs) st = run_loop instance_id rs (run_round instance_id r st)

-- The memory of a process that has just started.
abbrev pub started : ℕ → Alerts
started now = record { clock = now; cooldowns = []; durations = []; sent = [] }
