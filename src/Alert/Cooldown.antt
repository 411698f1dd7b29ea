-- ===== src/Alert/Cooldown.antt =====
-- services/alert_service.py: the alerts of one key and language, and the cooldown between them.
-- The memory of the cooldowns is cleaned up after a day, so the cooldown is taken to be at most
-- that.
use devops_cd.Prelude.{
  ℕ, ◌+◌, ◌*◌, ◌≤◌, ◌<◌, String, Bool, true, false, ◌&&◌, some, List, [], ◌∷◌, ◌≡◌, refl, sym, ◌∙◌,
  arith, ltb, str_eq, Bool-cases, inl, inr, ◌⊎◌, All, All-map, &&-eq-true,
}
use mathlib.Core.Path.{subst}
use text.Mathlib.TextEquality.{eq_iff}
use text.Mathlib.TextPositions.{eq_refl}
use devops_cd.Text.Dict.{get, put}
use devops_cd.Result.{Result, ok, err}
use devops_cd.State.{Server}
use devops_cd.Alert.Rule.{Rule, Bot, Metric, Env}
use devops_cd.Alert.Tracking.{
  Alert, Alerts, day, drop_old, check_cooldown, set_cooldown, mark_exceeded, clear_duration,
}
use devops_cd.Alert.Check.{
  post, alert_text, send_alert, then_do, key_of, too_short, fire, decide, pass_time, check_metric,
}
use devops_cd.Alert.Memory.{get-drop_old, get-pop-other}

abbrev same : Alert → Alert → Bool
same a b = str_eq a.key b.key && str_eq a.lang b.lang

abbrev After : (ℕ → ℕ) → Alert → Alert → Type 0
After cooldown a b = same a b ≡ true → b.at + cooldown a.rule_id * 60 ≤ a.at

-- Of two alerts of one key and language, the later one comes its rule's cooldown after the other.
abbrev pub Spaced : (ℕ → ℕ) → List Alert → Type 0
Spaced cooldown [] = Unit
Spaced cooldown (a ∷ older) = All (After cooldown a) older × Spaced cooldown older

-- An alert is a day old, or its key's cooldown starts no earlier than it.
abbrev Recalled : ℕ → List (String × ℕ) → Alert → Type 0
Recalled now d a =
    (a.at ≤ now) × ((a.at + day < now) ⊎ ((t : ℕ) × (get a.key d ≡ some t) × (a.at ≤ t)))

abbrev pub IsSound : (ℕ → ℕ) → Alerts → Type 0
IsSound cooldown st = Spaced cooldown st.sent × All (Recalled st.clock st.cooldowns) st.sent

-- Every cooldown is at most a day.
abbrev pub IsShort : (ℕ → ℕ) → Type 0
IsShort cooldown = (rule_id : ℕ) → cooldown rule_id * 60 ≤ day

Recalled-later :
    (now seconds : ℕ) (d : List (String × ℕ)) (a : Alert)
    → Recalled now d a
    → Recalled (now + seconds) d a
Recalled-later now seconds d a (le, inl old) = (omega (arith, le), inl (omega (arith, old)))
Recalled-later now seconds d a (le, inr found) = (omega (arith, le), inr found)

pub pass_time-IsSound :
    (cooldown : ℕ → ℕ) (seconds : ℕ) (st : Alerts)
    → IsSound cooldown st
    → IsSound cooldown (pass_time seconds st)
pass_time-IsSound cooldown seconds st h = (
  h.0,
  All-map (Recalled st.clock st.cooldowns) (Recalled (st.clock + seconds) st.cooldowns) st.sent
      (Recalled-later st.clock seconds st.cooldowns) h.1,
)

cooling_start :
    (key : String) (st : Alerts) → get key (set_cooldown key st).cooldowns ≡ some st.clock
unfolding set_cooldown
cooling_start key st =
    get-drop_old st.clock st.clock key (put key st.clock st.cooldowns) (rw (eq_refl key) refl)
      (omega arith)

-- Another key's entry stays or is more than a day old.
other_key :
    (now t at : ℕ) (j k : String) (d : List (String × ℕ))
    → str_eq j k ≡ false
    → get k d ≡ some t
    → at ≤ t
    → (at + day < now) ⊎ ((u : ℕ) × (get k (drop_old now (put j now d)) ≡ some u) × (at ≤ u))
other_key now t at j k d miss e h = elim (Bool-cases (ltb (t + day) now)) [
  | inl old ↦ inl (ground (arith, old, h))
  | inr young ↦ inr (
    t,
    get-drop_old now t k (put j now d) (rw miss (get-pop-other j k d miss ∙ e))
        (ground (arith, young)),
    h,
  )
]

set_cooldown-Recalled :
    (key : String) (st : Alerts) (a : Alert)
    → Recalled st.clock st.cooldowns a
    → Recalled st.clock (set_cooldown key st).cooldowns a
unfolding set_cooldown
set_cooldown-Recalled key st a (le, inl old) = (le, inl old)
set_cooldown-Recalled key st a (le, inr (t, e, h)) = elim (Bool-cases (str_eq key a.key)) [
  | inl hit ↦ (
    le,
    inr (
      st.clock,
      subst (λ k. get k (set_cooldown key st).cooldowns ≡ some st.clock) ((eq_iff key a.key).0 hit)
          (cooling_start key st),
      le,
    ),
  )
  | inr miss ↦ (le, other_key st.clock t a.at key a.key st.cooldowns miss e h)
]

-- Where the cooldown is over, every alert of the key is its length old.
ready :
    (key : String) (minutes : ℕ) (st : Alerts) (a : Alert)
    → minutes * 60 ≤ day
    → check_cooldown key minutes st ≡ false
    → Recalled st.clock st.cooldowns a
    → str_eq key a.key ≡ true
    → a.at + minutes * 60 ≤ st.clock
unfolding check_cooldown
ready key minutes st a short over (le, inl old) e = omega (arith, old, short)
ready key minutes st a short over (le, inr (t, found, h)) e =
    let same_key = subst (λ k. get k st.cooldowns ≡ some t) (sym ((eq_iff key a.key).0 e)) found in
    let passed : ltb st.clock (t + minutes * 60) ≡ false = rw same_key at over in
    ground (arith, passed, h)

post-IsSound :
    (cooldown : ℕ → ℕ) (rule : Rule) (bot : Bot) (key lang : String) (text : Result String)
    (st : Alerts)
    → IsSound cooldown st
    → get key st.cooldowns ≡ some st.clock
    → All
        (λ b.
          (str_eq key b.key && str_eq lang b.lang) ≡ true → b.at + cooldown rule.id * 60 ≤ st.clock)
        st.sent
    → IsSound cooldown (post rule bot key lang text st).0
post-IsSound cooldown rule bot key lang (err e) st h start apart = h
post-IsSound cooldown rule bot key lang (ok msg) st h start apart =
    ((apart, h.0), ((omega arith, inr (st.clock, start, omega arith)), h.1))

-- What the next alert of a key in a language is to keep apart from.
abbrev Apart : (ℕ → ℕ) → ℕ → String → String → ℕ → List Alert → Type 0
Apart cooldown rule_id key lang now sent =
    All (λ b. (str_eq key b.key && str_eq lang b.lang) ≡ true → b.at + cooldown rule_id * 60 ≤ now)
      sent

both-IsSound :
    (cooldown : ℕ → ℕ) (rule : Rule) (bot : Bot) (key : String) (zh : Result String)
    (en : Alerts → Result String) (st : Alerts)
    → IsSound cooldown st
    → get key st.cooldowns ≡ some st.clock
    → ((lang : String) → Apart cooldown rule.id key lang st.clock st.sent)
    → IsSound cooldown
        (then_do (post rule bot key "zh" zh st) (λ s. post rule bot key "en" (en s) s)).0
both-IsSound cooldown rule bot key (err e) en st h start apart = h
both-IsSound cooldown rule bot key (ok msg) en st h start apart =
    let after = (post rule bot key "zh" (ok msg) st).0 in
    post-IsSound cooldown rule bot key "en" (en after) after
      (post-IsSound cooldown rule bot key "zh" (ok msg) st h start (apart "zh")) start
      ((λ e. absurd (ground arith)), apart "en")

fire-IsSound :
    (cooldown : ℕ → ℕ) (env : Env) (rule : Rule) (server : Server) (bot : Bot) (key : String)
    (m : Metric) (st : Alerts)
    → IsShort cooldown
    → rule.cooldown_minutes ≡ cooldown rule.id
    → check_cooldown key rule.cooldown_minutes st ≡ false
    → IsSound cooldown st
    → IsSound cooldown (fire env rule server bot key m st).0
unfolding fire send_alert clear_duration set_cooldown
fire-IsSound cooldown env rule server bot key m st short minutes over h =
    both-IsSound cooldown rule bot key (alert_text env rule server "zh" m st.clock)
      (λ s. alert_text env rule server "en" m s.clock) (clear_duration key (set_cooldown key st))
      (
        h.0,
        All-map (Recalled st.clock st.cooldowns) (Recalled st.clock (set_cooldown key st).cooldowns)
            st.sent (set_cooldown-Recalled key st) h.1,
      )
      (cooling_start key st)
      (λ lang.
        All-map (Recalled st.clock st.cooldowns) _ st.sent
          (λ b recalled e.
            ready key (cooldown rule.id) st b (short rule.id) (rw (sym minutes) over) recalled
              (&&-eq-true _ _ e).0)
          h.1)

decide-IsSound :
    (cooldown : ℕ → ℕ) (env : Env) (rule : Rule) (server : Server) (bot : Bot) (key : String)
    (m : Metric) (st : Alerts)
    → IsShort cooldown
    → rule.cooldown_minutes ≡ cooldown rule.id
    → IsSound cooldown st
    → IsSound cooldown (decide env rule server bot key m st).0
unfolding decide
decide-IsSound cooldown env rule server bot key m st short minutes h =
    elim (Bool-cases (too_short rule key st)) [
      | inl wait ↦ rw wait h
      | inr long ↦ elim (Bool-cases (check_cooldown key rule.cooldown_minutes st)) [
        | inl cooling ↦ rw long (rw cooling h)
        | inr over ↦
            rw long
              (rw over (fire-IsSound cooldown env rule server bot key m st short minutes over h))
      ]
    ]

pub check_metric-IsSound :
    (cooldown : ℕ → ℕ) (env : Env) (rule : Rule) (server : Server) (bot : Bot) (m : ℕ × Metric)
    (st : Alerts)
    → IsShort cooldown
    → rule.cooldown_minutes ≡ cooldown rule.id
    → IsSound cooldown st
    → IsSound cooldown (check_metric env rule server bot m st).0
unfolding check_metric mark_exceeded
check_metric-IsSound cooldown env rule server bot (seconds, m) st short minutes h =
    decide-IsSound cooldown env rule server bot (key_of rule server m) m
      (mark_exceeded (key_of rule server m) (pass_time seconds st)) short minutes
      (pass_time-IsSound cooldown seconds st h)
