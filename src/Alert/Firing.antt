-- ===== src/Alert/Firing.antt =====
-- services/alert_service.py: what sending an alert does, where `str.format` accepts the template.
use devops_cd.Prelude.{ℕ, ◌≤◌, ◌<◌, String, Bool, true, false, ◌≡◌, refl, ◌∙◌, arith, count, str_eq}
use devops_cd.Result.{Result, ok, err}
use devops_cd.State.{Server}
use devops_cd.Alert.Rule.{Rule, Bot, Metric, Env}
use devops_cd.Alert.Tracking.{Alerts, set_cooldown, clear_duration}
use devops_cd.Alert.Check.{Done, post, alert_text, send_alert, then_do, fire}

abbrev is_ok {ℓ} : {A : Type ℓ} → Result A → Bool
is_ok (ok a) = true
is_ok (err e) = false

-- The rule's template has only fields that `_send_alert` fills.
abbrev pub Renders : Env → Rule → Server → Type 0
Renders env rule server =
    (lang : String) (m : Metric) (now : ℕ) → is_ok (alert_text env rule server lang m now) ≡ true

-- The alerts sent under a key.
abbrev pub sent_of : String → Alerts → ℕ
sent_of key st = count (λ a. str_eq key a.key) st.sent

-- The call returns, and has added alerts of the key `j` only, at least one.
pub record HasSent (key j : String) (st : Alerts) (out : Done) : Type 0 where
  pub returns : out.1 ≡ ok tt
  pub clock : out.0.clock ≡ st.clock
  pub durations : out.0.durations ≡ st.durations
  pub cooldowns : out.0.cooldowns ≡ st.cooldowns
  pub more : str_eq key j ≡ true → sent_of key st < sent_of key out.0
  pub keeps : sent_of key st ≤ sent_of key out.0

post-HasSent :
    (rule : Rule) (bot : Bot) (key j lang : String) (text : Result String) (st : Alerts)
    → is_ok text ≡ true
    → HasSent key j st (post rule bot j lang text st)
post-HasSent rule bot key j lang (ok msg) st h = record {
  returns = refl;
  clock = refl;
  durations = refl;
  cooldowns = refl;
  more = λ e. ground (arith, e);
  keeps = ground arith;
}
post-HasSent rule bot key j lang (err e) st h = absurd (ground arith)

then_do-HasSent :
    (key j : String) (st : Alerts) (d : Done) (f : Alerts → Done)
    → HasSent key j st d
    → HasSent key j d.0 (f d.0)
    → HasSent key j st (then_do d f)
then_do-HasSent key j st (s, ok x) f h k = record {
  returns = k.returns;
  clock = k.clock ∙ h.clock;
  durations = k.durations ∙ h.durations;
  cooldowns = k.cooldowns ∙ h.cooldowns;
  more = λ e. omega (arith, h.more e, k.keeps);
  keeps = omega (arith, h.keeps, k.keeps);
}
then_do-HasSent key j st (s, err e) f h k = absurd (ground (arith, h.returns))

pub fire-HasSent :
    (env : Env) (rule : Rule) (server : Server) (bot : Bot) (key j : String) (m : Metric)
    (st : Alerts)
    → Renders env rule server
    → HasSent key j (clear_duration j (set_cooldown j st)) (fire env rule server bot j m st)
unfolding fire send_alert
fire-HasSent env rule server bot key j m st renders =
    let ready = clear_duration j (set_cooldown j st) in
    let zh = send_alert env rule server bot j "zh" m ready in
    then_do-HasSent key j ready zh (send_alert env rule server bot j "en" m)
      (post-HasSent rule bot key j "zh" (alert_text env rule server "zh" m ready.clock) ready
        (renders "zh" m ready.clock))
      (post-HasSent rule bot key j "en" (alert_text env rule server "en" m zh.0.clock) zh.0
        (renders "en" m zh.0.clock))
