-- ===== src/Alert/Again.antt =====
-- services/alert_service.py: the checks of one server, again and again.
use devops_cd.Prelude.{ℕ, ◌+◌, ◌*◌, ◌≤◌, ◌<◌, List, [], ◌∷◌, ◌++◌, ◌≡◌, ◌≢◌, refl, arith, All}
use devops_cd.Result.{Result, ok, err}
use devops_cd.State.{Server}
use devops_cd.Alert.Rule.{Rule, Bot, Metric, Env}
use devops_cd.Alert.Tracking.{Alerts, day}
use devops_cd.Alert.Check.{
  Done, then_do, key_of, pass_time, check_metric, check_metrics, check_server,
}
use devops_cd.Alert.Firing.{Renders, sent_of}
use devops_cd.Alert.Sustained.{Progress, Goes, check_metric-Goes, spent, then_do-ok}
use devops_cd.Alert.Reported.{check_metrics-fires}

-- A check of the server after a wait: what the collection gave, or its exception.
abbrev pub Check : Type 0
Check = ℕ × Result (List (ℕ × Metric))

-- Checks of one server by one rule, with nothing else checked between them.
abbrev pub check_again : Env → Rule → Server → Bot → List Check → Alerts → Done
check_again env rule server bot [] st = (st, ok tt)
check_again env rule server bot ((wait, answer) ∷ cs) st =
    then_do (check_server env rule server bot answer (pass_time wait st))
      (check_again env rule server bot cs)

abbrev pub cost : Result (List (ℕ × Metric)) → ℕ
cost (ok ms) = spent ms
cost (err e) = 0

-- The seconds that the checks take.
abbrev pub elapsed : List Check → ℕ
elapsed [] = 0
elapsed ((wait, answer) ∷ cs) = wait + cost answer + elapsed cs

module _ (env : Env) (rule : Rule) (server : Server) (bot : Bot) (m : Metric) (first last n : ℕ)
    (renders : Renders env rule server) where
  pub check_metrics-Goes :
      (ms : List (ℕ × Metric)) (st : Alerts)
      → st.clock + spent ms ≤ first + day
      → Progress (key_of rule server m) first last n st
      → Goes
          (key_of rule server m)
          first
          last
          n
          (pass_time (spent ms) st)
          (check_metrics env rule server bot ms st)
  unfolding check_metrics
  check_metrics-Goes [] st young h = record { returns = refl; clock = omega arith; progress = h }
  check_metrics-Goes ((dt, x) ∷ ms) st young h =
      let g =
        check_metric-Goes env rule server bot dt x (key_of rule server m) first last n st renders
          (omega (arith, young)) h in
      let next = (check_metric env rule server bot (dt, x) st).0 in
      let moved : next.clock ≡ st.clock + dt = g.clock in
      let rest = check_metrics-Goes ms next (omega (arith, moved, young)) g.progress in
      rw
        (then_do-ok (check_metric env rule server bot (dt, x) st)
          (check_metrics env rule server bot ms) g.returns)
        (record {
          returns = rest.returns;
          clock = omega (arith, rest.clock, moved);
          progress = rest.progress;
        })

  check_server-Goes :
      (answer : Result (List (ℕ × Metric))) (st : Alerts)
      → answer ≢ ok []
      → st.clock + cost answer ≤ first + day
      → Progress (key_of rule server m) first last n st
      → Goes
          (key_of rule server m)
          first
          last
          n
          (pass_time (cost answer) st)
          (check_server env rule server bot answer st)
  unfolding check_server
  check_server-Goes (err e) st some_over young h = record {
    returns = refl;
    clock = omega arith;
    progress = h;
  }
  check_server-Goes (ok []) st some_over young h = absurd (some_over refl)
  check_server-Goes (ok (x ∷ ms)) st some_over young h = check_metrics-Goes (x ∷ ms) st young h

  last_check-fires :
      (ms : List (ℕ × Metric)) (seconds : ℕ) (st : Alerts)
      → n
        < sent_of
            (key_of rule server m)
            (check_metrics env rule server bot (ms ++ (seconds, m) ∷ []) st).0
      → n
        < sent_of
            (key_of rule server m)
            (check_server env rule server bot (ok (ms ++ (seconds, m) ∷ [])) st).0
  unfolding check_server
  last_check-fires [] seconds st h = h
  last_check-fires (x ∷ ms) seconds st h = h

  alone-fires :
      (d : Done)
      → n < sent_of (key_of rule server m) d.0
      → n < sent_of (key_of rule server m) (then_do d (λ t. (t, ok tt))).0
  alone-fires (t, ok x) h = h
  alone-fires (t, err e) h = h

  pub check_again-fires :
      (cs : List Check) (wait : ℕ) (ms : List (ℕ × Metric)) (seconds : ℕ) (st : Alerts)
      → 0 < first
      → All (λ (c : Check). c.1 ≢ ok []) cs
      → first + rule.duration_minutes * 60 ≤ st.clock + elapsed cs + wait + spent ms + seconds
      → last + rule.cooldown_minutes * 60 ≤ st.clock + elapsed cs + wait + spent ms + seconds
      → st.clock + elapsed cs + wait + spent ms + seconds ≤ first + day
      → Progress (key_of rule server m) first last n st
      → n
        < sent_of
            (key_of rule server m)
            (check_again env rule server bot (cs ++ (wait, ok (ms ++ (seconds, m) ∷ [])) ∷ []) st).0
  check_again-fires [] wait ms seconds st marked over long cool young h =
      alone-fires
        (check_server env rule server bot (ok (ms ++ (seconds, m) ∷ [])) (pass_time wait st))
        (last_check-fires ms seconds (pass_time wait st) (
          check_metrics-fires env rule server bot ms seconds m first last n (pass_time wait st)
            renders marked (omega (arith, long)) (omega (arith, cool)) (omega (arith, young)) h))
  check_again-fires ((pause, answer) ∷ cs) wait ms seconds st marked over long cool young h =
      let g = check_server-Goes answer (pass_time pause st) over.0 (omega (arith, young)) h in
      let next = (check_server env rule server bot answer (pass_time pause st)).0 in
      let moved : next.clock ≡ st.clock + pause + cost answer = g.clock in
      rw
        (then_do-ok (check_server env rule server bot answer (pass_time pause st))
          (check_again env rule server bot (cs ++ (wait, ok (ms ++ (seconds, m) ∷ [])) ∷ []))
          g.returns)
        (check_again-fires cs wait ms seconds next marked over.1 (omega (arith, moved, long))
          (omega (arith, moved, cool)) (omega (arith, moved, young)) g.progress)
