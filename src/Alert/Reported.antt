-- ===== src/Alert/Reported.antt =====
-- services/alert_service.py: the result of an entity for which an alert is due sends it.
use devops_cd.Prelude.{
  ℕ, ◌+◌, ◌*◌, ◌≤◌, ◌<◌, String, false, ◌||◌, List, [], ◌∷◌, ◌++◌, ◌≡◌, arith, Bool-cases, inl, inr,
}
use text.Mathlib.TextPositions.{eq_refl}
use devops_cd.Result.{ok}
use devops_cd.State.{Server}
use devops_cd.Alert.Rule.{Rule, Bot, Metric, Env}
use devops_cd.Alert.Tracking.{
  Alerts, day, check_cooldown, set_cooldown, mark_exceeded, get_exceeded_seconds, clear_duration,
}
use devops_cd.Alert.Check.{key_of, too_short, decide, pass_time, check_metric, check_metrics}
use devops_cd.Alert.Firing.{Renders, sent_of, fire-HasSent}
use devops_cd.Alert.Sustained.{
  AlertedBy-get, Watched, Progress, check_metric-Goes, mark_exceeded-Progress, then_do-ok, spent,
}

due :
    (rule : Rule) (key : String) (first last : ℕ) (st : Alerts)
    → 0 < first
    → first + rule.duration_minutes * 60 ≤ st.clock
    → last + rule.cooldown_minutes * 60 ≤ st.clock
    → Watched key first last st
    → (too_short rule key st || check_cooldown key rule.cooldown_minutes st) ≡ false
unfolding get_exceeded_seconds check_cooldown
due rule key first last st marked long cool h =
    let by_last = AlertedBy-get key last st.cooldowns h.1 in
    rw h.0 (ground (arith, by_last, marked, long, cool))

-- The result that decides: watched for long enough, and the cooldown is over.
decide-fires :
    (env : Env) (rule : Rule) (server : Server) (bot : Bot) (m : Metric) (key : String)
    (first last n : ℕ) (st : Alerts)
    → Renders env rule server
    → 0 < first
    → first + rule.duration_minutes * 60 ≤ st.clock
    → last + rule.cooldown_minutes * 60 ≤ st.clock
    → Progress key first last n st
    → n < sent_of key (decide env rule server bot key m st).0
unfolding decide clear_duration set_cooldown
decide-fires env rule server bot m key first last n st renders marked long cool (inl more) =
    let fired = fire-HasSent env rule server bot key key m st renders in
    elim (Bool-cases (too_short rule key st || check_cooldown key rule.cooldown_minutes st)) [
      | inl skip ↦ rw skip more
      | inr go ↦ rw go (omega (arith, more, fired.keeps))
    ]
decide-fires env rule server bot m key first last n st renders marked long cool (inr (le, h)) =
    let fired = fire-HasSent env rule server bot key key m st renders in
    rw (due rule key first last st marked long cool h) (omega (arith, le, fired.more (eq_refl key)))

pub check_metrics-fires :
    (env : Env) (rule : Rule) (server : Server) (bot : Bot) (ms : List (ℕ × Metric)) (seconds : ℕ)
    (m : Metric) (first last n : ℕ) (st : Alerts)
    → Renders env rule server
    → 0 < first
    → first + rule.duration_minutes * 60 ≤ st.clock + (spent ms + seconds)
    → last + rule.cooldown_minutes * 60 ≤ st.clock + (spent ms + seconds)
    → st.clock + (spent ms + seconds) ≤ first + day
    → Progress (key_of rule server m) first last n st
    → n
      < sent_of
          (key_of rule server m)
          (check_metrics env rule server bot (ms ++ (seconds, m) ∷ []) st).0
unfolding check_metrics check_metric mark_exceeded
check_metrics-fires env rule server bot [] seconds m first last n st renders marked long cool young
      h =
    let key = key_of rule server m in
    let g =
      check_metric-Goes env rule server bot seconds m key first last n st renders
        (omega (arith, young)) h in
    rw (then_do-ok (check_metric env rule server bot (seconds, m) st) (λ x. (x, ok tt)) g.returns) (
      decide-fires env rule server bot m key first last n (mark_exceeded key (pass_time seconds st))
        renders marked (omega (arith, long)) (omega (arith, cool))
        (mark_exceeded-Progress first last n key key (pass_time seconds st) (omega (arith, young))
          h))
check_metrics-fires env rule server bot ((dt, x) ∷ ms) seconds m first last n st renders marked long
      cool young h =
    let g =
      check_metric-Goes env rule server bot dt x (key_of rule server m) first last n st renders
        (omega (arith, young)) h in
    let next = (check_metric env rule server bot (dt, x) st).0 in
    let moved : next.clock ≡ st.clock + dt = g.clock in
    rw
      (then_do-ok (check_metric env rule server bot (dt, x) st)
        (check_metrics env rule server bot (ms ++ (seconds, m) ∷ [])) g.returns)
      (check_metrics-fires env rule server bot ms seconds m first last n next renders marked
        (omega (arith, moved, long)) (omega (arith, moved, cool)) (omega (arith, moved, young))
        g.progress)
