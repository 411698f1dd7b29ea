-- ===== src/Alert/Sustained.antt =====
-- services/alert_service.py: an entity that stays over its threshold is reported.
use devops_cd.Prelude.{
  ℕ, ◌+◌, ◌≤◌, ◌<◌, String, true, false, ◌||◌, none, some, List, [], ◌∷◌, ◌≡◌, refl, sym, ap, ◌∙◌,
  arith, leb, str_eq, Bool-cases, Option-cases, inl, inr, ◌⊎◌, All, select-All,
}
use mathlib.Core.Path.{subst}
use text.Mathlib.TextEquality.{eq_iff}
use text.Mathlib.TextPositions.{eq_refl}
use devops_cd.Text.Dict.{get, put, All-pop}
use devops_cd.Result.{ok, err}
use devops_cd.State.{Server}
use devops_cd.Alert.Rule.{Rule, Bot, Metric, Env}
use devops_cd.Alert.Tracking.{
  Alerts, day, or_zero, mark_if_absent, check_cooldown, set_cooldown, mark_exceeded, clear_duration,
}
use devops_cd.Alert.Check.{Done, then_do, key_of, too_short, fire, decide, pass_time, check_metric}
use devops_cd.Alert.Memory.{get-drop_old, get-pop-other}
use devops_cd.Alert.Firing.{Renders, sent_of, fire-HasSent}

-- No alert of the key is remembered that is later than `last`.
abbrev pub AlertedBy : String → ℕ → List (String × ℕ) → Type 0
AlertedBy key last d = All (λ (e : String × ℕ). str_eq e.0 key ≡ true → e.1 ≤ last) d

pub AlertedBy-get :
    (key : String) (last : ℕ) (d : List (String × ℕ))
    → AlertedBy key last d
    → or_zero (get key d) ≤ last
AlertedBy-get key last [] h = omega arith
AlertedBy-get key last ((j, a) ∷ d) h = ground (arith, h.0, AlertedBy-get key last d h.1)

-- The key has been over its threshold since `first`, and its last alert is no later than `last`.
abbrev pub Watched : String → ℕ → ℕ → Alerts → Type 0
Watched key first last st = (get key st.durations ≡ some first) × AlertedBy key last st.cooldowns

-- More than `n` alerts of the key have been sent, or it is still watched.
abbrev pub Progress : String → ℕ → ℕ → ℕ → Alerts → Type 0
Progress key first last n st =
    (n < sent_of key st) ⊎ ((n ≤ sent_of key st) × Watched key first last st)

none-some : {t : ℕ} → none ≡ some t → ⊥
none-some h = ground (arith, h)

mark-first :
    (now first : ℕ) (j key : String) (d : List (String × ℕ))
    → get key d ≡ some first
    → get key (mark_if_absent (get j d) j now d) ≡ some first
mark-first now first j key d e = elim (Option-cases (get j d)) [
  | inl absent ↦ rw absent (elim (Bool-cases (str_eq j key)) [
    | inl hit ↦
        absurd (
          none-some (sym absent ∙ subst (λ k. get k d ≡ some first) (sym ((eq_iff j key).0 hit)) e))
    | inr miss ↦ rw miss (get-pop-other j key d miss ∙ e)
  ])
  | inr (t, found) ↦ rw found e
]

mark_exceeded-Watched :
    (first last : ℕ) (j key : String) (st : Alerts)
    → st.clock ≤ first + day
    → Watched key first last st
    → Watched key first last (mark_exceeded j st)
unfolding mark_exceeded
mark_exceeded-Watched first last j key st young h = (
  get-drop_old st.clock first key (mark_if_absent (get j st.durations) j st.clock st.durations)
      (mark-first st.clock first j key st.durations h.0) young,
  h.1,
)

-- An alert under another key leaves a key watched.
other-Watched :
    (first last : ℕ) (j key : String) (st : Alerts)
    → str_eq j key ≡ false
    → Watched key first last st
    → Watched key first last (clear_duration j (set_cooldown j st))
unfolding clear_duration set_cooldown
other-Watched first last j key st miss h = (
  get-pop-other j key st.durations miss ∙ h.0,
  select-All (λ (e : String × ℕ). str_eq e.0 key ≡ true → e.1 ≤ last)
      (λ e. leb st.clock (e.1 + day)) (put j st.clock st.cooldowns)
      (
        (λ e. absurd (ground arith)),
        All-pop (λ (e : String × ℕ). str_eq e.0 key ≡ true → e.1 ≤ last) j st.cooldowns h.1,
      ),
)

text-swap : (j k : String) → str_eq j k ≡ true → str_eq k j ≡ true
text-swap j k h = subst (λ x. str_eq x j ≡ true) ((eq_iff j k).0 h) (eq_refl j)

fire-Progress :
    (env : Env) (rule : Rule) (server : Server) (bot : Bot) (j : String) (m : Metric) (key : String)
    (first last n : ℕ) (st : Alerts)
    → Renders env rule server
    → Progress key first last n st
    → Progress key first last n (fire env rule server bot j m st).0
unfolding clear_duration set_cooldown
fire-Progress env rule server bot j m key first last n st renders (inl more) =
    let h = fire-HasSent env rule server bot key j m st renders in
    inl (omega (arith, more, h.keeps))
fire-Progress env rule server bot j m key first last n st renders (inr (le, watched)) =
    let h = fire-HasSent env rule server bot key j m st renders in
    elim (Bool-cases (str_eq j key)) [
      | inl hit ↦ inl (omega (arith, le, h.more (text-swap j key hit)))
      | inr miss ↦
          let after = other-Watched first last j key st miss watched in
          inr (
            omega (arith, le, h.keeps),
            (
              ap (get key) h.durations ∙ after.0,
              subst (AlertedBy key last) (sym h.cooldowns) after.1,
            ),
          )
    ]

-- One result handled in time: the call returns, takes no more time, and the key makes progress.
pub record Goes (key : String) (first last n : ℕ) (st : Alerts) (out : Done) : Type 0 where
  pub returns : out.1 ≡ ok tt
  pub clock : out.0.clock ≡ st.clock
  pub progress : Progress key first last n out.0

pub decide-Goes :
    (env : Env) (rule : Rule) (server : Server) (bot : Bot) (j : String) (m : Metric) (key : String)
    (first last n : ℕ) (st : Alerts)
    → Renders env rule server
    → Progress key first last n st
    → Goes key first last n st (decide env rule server bot j m st)
unfolding decide clear_duration set_cooldown
decide-Goes env rule server bot j m key first last n st renders h =
    let fired = fire-HasSent env rule server bot key j m st renders in
    elim (Bool-cases (too_short rule j st || check_cooldown j rule.cooldown_minutes st)) [
      | inl skip ↦ rw skip (record { returns = refl; clock = refl; progress = h })
      | inr go ↦ rw go (record {
        returns = fired.returns;
        clock = fired.clock;
        progress = fire-Progress env rule server bot j m key first last n st renders h;
      })
    ]

pub mark_exceeded-Progress :
    (first last n : ℕ) (j key : String) (st : Alerts)
    → st.clock ≤ first + day
    → Progress key first last n st
    → Progress key first last n (mark_exceeded j st)
unfolding mark_exceeded
mark_exceeded-Progress first last n j key st young (inl more) = inl more
mark_exceeded-Progress first last n j key st young (inr (le, watched)) =
    inr (le, mark_exceeded-Watched first last j key st young watched)

pub check_metric-Goes :
    (env : Env) (rule : Rule) (server : Server) (bot : Bot) (seconds : ℕ) (m : Metric)
    (key : String) (first last n : ℕ) (st : Alerts)
    → Renders env rule server
    → st.clock + seconds ≤ first + day
    → Progress key first last n st
    → Goes key first last n
        (pass_time seconds st)
        (check_metric env rule server bot (seconds, m) st)
unfolding check_metric mark_exceeded
check_metric-Goes env rule server bot seconds m key first last n st renders young h =
    let j = key_of rule server m in
    let moved = pass_time seconds st in
    let out =
      decide-Goes env rule server bot j m key first last n (mark_exceeded j moved) renders
        (mark_exceeded-Progress first last n j key moved young h) in
    record { returns = out.returns; clock = out.clock; progress = out.progress }

abbrev pub spent : List (ℕ × Metric) → ℕ
spent [] = 0
spent ((seconds, m) ∷ ms) = seconds + spent ms

pub then_do-ok : (d : Done) (f : Alerts → Done) → d.1 ≡ ok tt → then_do d f ≡ f d.0
then_do-ok (st, ok x) f h = refl
then_do-ok (st, err e) f h = absurd (ground (arith, h))
