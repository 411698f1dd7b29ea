-- ===== src/Alert/Limits.antt =====
-- services/alert_service.py: what the daily clean-up means for a long duration, and what a recovery
-- forgets.
use devops_cd.Prelude.{
  ℕ, ◌*◌, ◌≤◌, ◌<◌, String, Bool, true, not, none, List, [], ◌∷◌, ◌≡◌, refl, ap, ◌∙◌, arith, str_eq,
  if◌then◌else◌, Bool-cases, Option-cases, inl, inr, select,
}
use mathlib.Core.Path.{subst}
use text.Mathlib.TextEquality.{eq_iff}
use devops_cd.Text.Dict.{get, pop}
use devops_cd.Lease.{starts}
use devops_cd.Result.{Error, ok, err}
use devops_cd.State.{Server}
use devops_cd.Alert.Rule.{Rule, Bot, Metric, Env}
use devops_cd.Alert.Tracking.{
  Alert, Alerts, day, drop_old, mark_if_absent, track_key, mark_exceeded, get_exceeded_seconds,
  clear_duration,
}
use devops_cd.Alert.Check.{
  key_of, too_short, decide, pass_time, check_metric, recover, check_server, check_one,
}
use devops_cd.Alert.Memory.{drop_old-young, get-pop-other}
use devops_cd.Alert.Passes.{check_one-keeps}

-- A marked key has been over its threshold for a day at most.
marked_a_day : (key : String) (st : Alerts) → get_exceeded_seconds key (mark_exceeded key st) ≤ day
unfolding get_exceeded_seconds mark_exceeded
marked_a_day key st =
    let d = mark_if_absent (get key st.durations) key st.clock st.durations in
    elim (Option-cases (get key (drop_old st.clock d))) [
      | inl absent ↦ rw absent (omega arith)
      | inr (t, found) ↦
          let young = drop_old-young st.clock t key d found in rw found (ground (arith, young))
    ]

never_due :
    (rule : Rule) (key : String) (st : Alerts)
    → day < rule.duration_minutes * 60
    → too_short rule key (mark_exceeded key st) ≡ true
never_due rule key st long = let short = marked_a_day key st in ground (arith, short, long)

check_metric-silent :
    (env : Env) (rule : Rule) (sent : List Alert)
    → day < rule.duration_minutes * 60
    → (server : Server) (bot : Bot) (m : ℕ × Metric) (st : Alerts) → st.sent ≡ sent
    → (check_metric env rule server bot m st).0.sent ≡ sent
unfolding check_metric decide mark_exceeded
check_metric-silent env rule sent long server bot (seconds, m) st h =
    rw (never_due rule (key_of rule server m) (pass_time seconds st) long) h

-- A rule whose duration is longer than a day never sends an alert: the check of the rule leaves the
-- alerts as they were, whatever its servers report and however long they have done so.
pub check_one-silent :
    (env : Env) (rule : Rule) (st : Alerts)
    → day < rule.duration_minutes * 60
    → (check_one env rule st).0.sent ≡ st.sent
unfolding recover clear_duration
check_one-silent env rule st long =
    check_one-keeps env (λ s. s.sent ≡ st.sent) rule (check_metric-silent env rule st.sent long)
      (λ server s h. h) st refl

get-select-not :
    (p : String → Bool) (k : String) (d : List (String × ℕ))
    → get k (select (λ (e : String × ℕ). not (p e.0)) d) ≡ (if p k then none else get k d)
get-select-not p k [] = ground arith
get-select-not p k ((j, a) ∷ d) = elim (Bool-cases (str_eq j k)) [
  | inl hit ↦
      let same_test : p j ≡ p k = ap p ((eq_iff j k).0 hit) in
      elim (Bool-cases (p k)) [
        | inl drop ↦ rw (same_test ∙ drop) (rw drop (get-select-not p k d ∙ rw drop refl))
        | inr keep ↦ rw (same_test ∙ keep) (rw keep (rw hit refl))
      ]
  | inr miss ↦ elim (Bool-cases (p j)) [
    | inl drop ↦ rw drop (rw miss (get-select-not p k d))
    | inr keep ↦ rw keep (rw miss (get-select-not p k d))
  ]
]

starts_refl : (s : String) → starts s s ≡ true
starts_refl String.[] = refl
starts_refl (String.◌∷◌ c s) = ground (arith, starts_refl s)

forgets :
    (prefix k : String) (d : List (String × ℕ))
    → (if starts prefix k then none else get k (pop prefix d))
      ≡ (if starts prefix k then none else get k d)
forgets prefix k d = elim (Bool-cases (starts prefix k)) [
  | inl drop ↦ rw drop refl
  | inr keep ↦ rw keep (elim (Bool-cases (str_eq prefix k)) [
    | inl hit ↦ absurd (
        ground (
          arith,
          keep,
          subst (λ x. starts prefix x ≡ true) ((eq_iff prefix k).0 hit) (starts_refl prefix),
        ))
    | inr miss ↦ get-pop-other prefix k d miss
  ])
]

-- Where nothing exceeds on a server, the check forgets since when the server's entities exceeded,
-- and of no other key: a look-up gives nothing for a key that begins with the rule's and the
-- server's prefix, and for any other what it gave before; a collection that raises changes nothing.
pub recover_lem :
    (env : Env) (rule : Rule) (server : Server) (bot : Bot) (e : Error) (st : Alerts) (k : String)
    → (get k (check_server env rule server bot (ok []) st).0.durations
        ≡ (if starts (track_key rule.id server.id "") k then none else get k st.durations))
      × (get k (check_server env rule server bot (err e) st).0.durations ≡ get k st.durations)
unfolding check_server recover clear_duration
recover_lem env rule server bot e st k =
    let prefix = track_key rule.id server.id "" in
    (
      get-select-not (starts prefix) k (pop prefix st.durations) ∙ forgets prefix k st.durations,
      refl,
    )
