-- ===== src/Alert/Lasting.antt =====
-- services/alert_service.py: an entity that is over its threshold round after round is reported.
use devops_cd.Prelude.{
  ℕ, String, sym, ◌+◌, ◌*◌, ◌≤◌, ◌<◌, none, List, [], ◌∷◌, ◌++◌, ◌≡◌, ◌≢◌, refl, arith, All, inr,
}
use mathlib.Core.Path.{subst}
use text.Mathlib.TextPositions.{eq_refl}
use devops_cd.Text.Dict.{get}
use devops_cd.Result.{ok}
use devops_cd.State.{Server}
use devops_cd.Alert.Rule.{Rule, Bot, Metric, Env}
use devops_cd.Alert.Tracking.{Alerts, day, mark_if_absent, mark_exceeded}
use devops_cd.Alert.Memory.{get-drop_old}
use devops_cd.Alert.Check.{key_of, pass_time, check_metric, check_metrics, check_server}
use devops_cd.Alert.Firing.{Renders, sent_of}
use devops_cd.Alert.Sustained.{AlertedBy, Progress, Goes, decide-Goes, spent, then_do-ok}
use devops_cd.Alert.Again.{Check, check_again, elapsed, check_metrics-Goes, check_again-fires}

marked-Progress :
    (key : String) (last : ℕ) (st : Alerts)
    → get key st.durations ≡ none
    → AlertedBy key last st.cooldowns
    → Progress key st.clock last (sent_of key st) (mark_exceeded key st)
unfolding mark_exceeded
marked-Progress key last st new by = inr (
  omega arith,
  (
    get-drop_old st.clock st.clock key
        (mark_if_absent (get key st.durations) key st.clock st.durations)
        (rw (new, eq_refl key) refl) (omega arith),
    by,
  ),
)

-- The first result of an entity that has no mark sets it, or sends an alert at once.
first_result :
    (env : Env) (rule : Rule) (server : Server) (bot : Bot) (m x : Metric) (seconds last : ℕ)
    (st : Alerts)
    → Renders env rule server
    → key_of rule server x ≡ key_of rule server m
    → get (key_of rule server m) st.durations ≡ none
    → AlertedBy (key_of rule server m) last st.cooldowns
    → Goes
        (key_of rule server m)
        (st.clock + seconds)
        last
        (sent_of (key_of rule server m) st)
        (pass_time seconds st)
        (check_metric env rule server bot (seconds, x) st)
unfolding check_metric
first_result env rule server bot m x seconds last st renders same new by =
    let key = key_of rule server m in
    let now = st.clock + seconds in
    let out =
      decide-Goes env rule server bot (key_of rule server x) x key now last (sent_of key st)
        (mark_exceeded (key_of rule server x) (pass_time seconds st)) renders
        (subst
          (λ j. Progress key now last (sent_of key st) (mark_exceeded j (pass_time seconds st)))
          (sym same) (marked-Progress key last (pass_time seconds st) new by)) in
    record { returns = out.returns; clock = out.clock; progress = out.progress }

-- A check whose first result is of an entity that has no mark.
first_check-Goes :
    (env : Env) (rule : Rule) (server : Server) (bot : Bot) (m x : Metric) (seconds last : ℕ)
    (rest : List (ℕ × Metric)) (st : Alerts)
    → Renders env rule server
    → key_of rule server x ≡ key_of rule server m
    → get (key_of rule server m) st.durations ≡ none
    → AlertedBy (key_of rule server m) last st.cooldowns
    → spent rest ≤ day
    → Goes
        (key_of rule server m)
        (st.clock + seconds)
        last
        (sent_of (key_of rule server m) st)
        (pass_time (seconds + spent rest) st)
        (check_server env rule server bot (ok ((seconds, x) ∷ rest)) st)
unfolding check_server check_metrics
first_check-Goes env rule server bot m x seconds last rest st renders same new by young =
    let g = first_result env rule server bot m x seconds last st renders same new by in
    let next = (check_metric env rule server bot (seconds, x) st).0 in
    let moved : next.clock ≡ st.clock + seconds = g.clock in
    let later =
      check_metrics-Goes env rule server bot m (st.clock + seconds) last
        (sent_of (key_of rule server m) st) renders rest next (omega (arith, moved, young))
        g.progress in
    rw
      (then_do-ok (check_metric env rule server bot (seconds, x) st)
        (check_metrics env rule server bot rest) g.returns)
      (record {
        returns = later.returns;
        clock = omega (arith, later.clock, moved);
        progress = later.progress;
      })

-- A rule checks one server again and again, and nothing else in between; `str.format` accepts the
-- rule's template, and the clock is past 0. The first check begins with a result of an entity that
-- has no mark, and no alert of it is remembered that is later than `last`; whatever the checks after
-- it give, other entities, this one, or an exception of the collection, as long as none of them finds
-- that nothing exceeds; and the last check ends with a result of the entity again, at least the
-- rule's duration and at most a day after the first one, and the rule's cooldown after `last`. Then
-- an alert of the entity has been sent by the end of the checks.
pub sustained_alerts :
    (env : Env) (rule : Rule) (server : Server) (bot : Bot) (m x : Metric) (seconds again last : ℕ)
    (rest ms : List (ℕ × Metric)) (cs : List Check) (wait : ℕ) (st : Alerts)
    → Renders env rule server
    → 0 < st.clock
    → key_of rule server x ≡ key_of rule server m
    → get (key_of rule server m) st.durations ≡ none
    → AlertedBy (key_of rule server m) last st.cooldowns
    → All (λ (c : Check). c.1 ≢ ok []) cs
    → rule.duration_minutes * 60 ≤ spent rest + elapsed cs + wait + spent ms + again
    → last + rule.cooldown_minutes * 60
      ≤ st.clock + seconds + spent rest + elapsed cs + wait + spent ms + again
    → spent rest + elapsed cs + wait + spent ms + again ≤ day
    → sent_of (key_of rule server m) st
      < sent_of
          (key_of rule server m)
          (check_again env rule server bot
            ((0, ok ((seconds, x) ∷ rest)) ∷ cs ++ (wait, ok (ms ++ (again, m) ∷ [])) ∷ [])
            st).0
sustained_alerts env rule server bot m x seconds again last rest ms cs wait st renders started same
      new by over long cool young =
    let begun = pass_time 0 st in
    let g =
      first_check-Goes env rule server bot m x seconds last rest begun renders same new by
        (omega (arith, young)) in
    let first_check = check_server env rule server bot (ok ((seconds, x) ∷ rest)) begun in
    let next = first_check.0 in
    let moved : next.clock ≡ st.clock + 0 + (seconds + spent rest) = g.clock in
    rw
      (then_do-ok first_check
        (check_again env rule server bot (cs ++ (wait, ok (ms ++ (again, m) ∷ [])) ∷ [])) g.returns)
      (check_again-fires env rule server bot m (st.clock + 0 + seconds) last
        (sent_of (key_of rule server m) st) renders cs wait ms again next (omega (arith, started))
        over (omega (arith, moved, long)) (omega (arith, moved, cool)) (omega (arith, moved, young))
        g.progress)
