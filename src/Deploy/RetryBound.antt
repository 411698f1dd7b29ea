-- ===== src/Deploy/RetryBound.antt =====
-- backend/deployers/base.py, `retry_idempotent`: it ends after a limited number of calls.
use devops_cd.Prelude.{
  ◌∙◌, ap, sym, ◌||◌, true, ℕ, zero, suc, ◌+◌, ◌-◌, ◌≤◌, ◌<◌, Bool, false, ◌&&◌, Option, none, some,
  [], ◌==◌, ltb, ◌≡◌, refl, arith, Bool-cases, inl, inr, ltb→lt,
}
use mathlib.Core.Path.{subst}
use devops_cd.Result.{Result, ok, err}
use devops_cd.Deploy.Retry.{
  Trace, retry_from, Ended, retry_idempotent, log_retry, called, pause, after_call,
}

-- The calls of a command, one after the other, and nothing else between them.
module _ {W R : Type 0} (func : W → Result R × W) (exit_code : R → ℕ) (w : W) where
  -- The state after `n` calls, and what the call after them returns or raises.
  abbrev pub world_after : ℕ → W
  world_after zero = w
  world_after (suc n) = (func (world_after n)).1

  abbrev pub outcome : ℕ → Result R
  outcome n = (func (world_after n)).0

  -- The call returned a result that is no success.
  abbrev pub Fails : Result R → Type 0
  Fails (ok r) = (exit_code r == 0) ≡ false
  Fails (err e) = ⊥

  -- The first `n` calls all failed.
  abbrev pub AllFail : ℕ → Type 0
  AllFail zero = Unit
  AllFail (suc n) = AllFail n × Fails (outcome n)

  -- The end of a run of `calls` calls is that of its last call, and all the others failed: a result
  -- that is a success or of the last call allowed, or an exception.
  abbrev pub Settles : ℕ → Ended R → ℕ → Type 0
  Settles attempts (Ended.returned r) zero = ⊥
  Settles attempts (Ended.returned r) (suc n) =
      (outcome n ≡ ok r) × ((exit_code r == 0 || suc n == attempts) ≡ true) × AllFail n
  Settles attempts (Ended.raised e) zero = ⊥
  Settles attempts (Ended.raised e) (suc n) = (outcome n ≡ err e) × AllFail n
  Settles attempts Ended.assertion_failed calls = (attempts ≡ 0) × (calls ≡ 0)

  -- A run has settled after at most the given number of calls, with a pause between two calls only,
  -- and the state is what the calls have made of it.
  pub record IsBounded (attempts : ℕ) (logs : Bool) (run : Ended R × Trace W) : Type 0 where
    pub settles : Settles attempts run.0 run.1.calls
    pub world : run.1.world ≡ world_after run.1.calls
    pub calls : run.1.calls ≤ attempts
    pub pauses : run.1.sleeps ≤ run.1.calls - 1
    pub messages : logs ≡ false → run.1.logged ≡ []

  -- The last result, once the command has been called.
  abbrev pub HasLast : Option R → ℕ → Type 0
  HasLast none calls = calls ≡ 0
  HasLast (some r) zero = ⊥
  HasLast (some r) (suc n) = outcome n ≡ ok r

module _ {W R : Type 0} (func : W → Result R × W) (exit_code : R → ℕ) (w : W) (attempts : ℕ)
    (logs : Bool) where
  abbrev Bounded : Ended R × Trace W → Type 0
  Bounded run = IsBounded func exit_code w attempts logs run

  -- Before an attempt, with `left` attempts to go.
  record Ready (left attempt : ℕ) (t : Trace W) : Type 0 where
    number : attempt ≡ suc t.calls
    rest : left + t.calls ≡ attempts
    here : t.world ≡ world_after func exit_code w t.calls
    failed : AllFail func exit_code w t.calls
    paused : t.sleeps ≤ t.calls
    spared : t.sleeps ≤ attempts - 1
    quiet : logs ≡ false → t.logged ≡ []

  log_retry-Ready :
      (left attempt : ℕ) (t : Trace W)
      → Ready left attempt t
      → Ready left attempt (log_retry func exit_code attempts logs attempt t)
  log_retry-Ready left attempt t h = elim (Bool-cases (ltb 1 attempt && logs)) [
    | inr either ↦ rw either h
    | inl both ↦ rw both (record {
      number = h.number;
      rest = h.rest;
      here = h.here;
      failed = h.failed;
      paused = h.paused;
      spared = h.spared;
      quiet = λ off. absurd (ground (arith, both, off));
    })
  ]

  last-Settles :
      (r : R) (calls : ℕ)
      → calls ≡ attempts
      → AllFail func exit_code w calls
      → HasLast func exit_code w (some r) calls
      → Settles func exit_code w attempts (Ended.returned r) calls
  last-Settles r zero e a h = h
  last-Settles r (suc n) e a h = (h, ground (arith, e), a.0)

  ended-IsBounded :
      (attempt : ℕ) (last : Option R) (t : Trace W)
      → Ready zero attempt t
      → HasLast func exit_code w last t.calls
      → Bounded (retry_from func exit_code attempts logs zero attempt last t)
  unfolding retry_from
  ended-IsBounded attempt none t h l = record {
    settles = (omega (arith, h.rest, l), l);
    world = h.here;
    calls = omega (arith, h.rest);
    pauses = omega (arith, h.rest, h.spared);
    messages = h.quiet;
  }
  ended-IsBounded attempt (some r) t h l = record {
    settles = last-Settles r t.calls (omega (arith, h.rest)) h.failed l;
    world = h.here;
    calls = omega (arith, h.rest);
    pauses = omega (arith, h.rest, h.spared);
    messages = h.quiet;
  }

  log_world :
      (attempt : ℕ) (t : Trace W)
      → (log_retry func exit_code attempts logs attempt t).world ≡ t.world
  log_world attempt t = elim (Bool-cases (ltb 1 attempt && logs)) [
    | inl both ↦ rw both refl
    | inr either ↦ rw either refl
  ]

  pause-last :
      (attempt : ℕ) (r : R) (v : W) (t : Trace W)
      → outcome func exit_code w t.calls ≡ ok r
      → HasLast func exit_code w
          (some r)
          (pause func exit_code attempts logs attempt
            (called func exit_code attempts logs v t)).calls
  pause-last attempt r v t h = elim (Bool-cases (ltb attempt attempts)) [
    | inl again ↦ rw again h
    | inr last ↦ rw last h
  ]

  -- A failed attempt leaves the state ready for the next one.
  next-Ready :
      (left attempt : ℕ) (r : R) (v : W) (t : Trace W)
      → Ready (suc left) attempt t
      → func (world_after func exit_code w t.calls) ≡ (ok r, v)
      → (exit_code r == 0) ≡ false
      → Ready left
          (suc attempt)
          (pause func exit_code attempts logs attempt (called func exit_code attempts logs v t))
  next-Ready left attempt r v t h q bad =
      let reached : v ≡ world_after func exit_code w (suc t.calls) = sym (ap (λ z. z.1) q) in
      let fails : Fails func exit_code w (outcome func exit_code w t.calls) =
        subst (Fails func exit_code w) (sym (ap (λ z. z.0) q)) bad in
      elim (Bool-cases (ltb attempt attempts)) [
        | inl again ↦ rw again (record {
          number = omega (arith, h.number);
          rest = omega (arith, h.rest);
          here = reached;
          failed = (h.failed, fails);
          paused = omega (arith, h.paused);
          spared =
              let more : attempt < attempts = ltb→lt attempt attempts again in
              omega (arith, h.paused, h.number, more);
          quiet = h.quiet;
        })
        | inr last ↦ rw last (record {
          number = omega (arith, h.number);
          rest = omega (arith, h.rest);
          here = reached;
          failed = (h.failed, fails);
          paused = omega (arith, h.paused);
          spared = h.spared;
          quiet = h.quiet;
        })
      ]

  after_call-IsBounded :
      (left attempt : ℕ) (a : Result R × W) (t : Trace W)
      → Ready (suc left) attempt t
      → func (world_after func exit_code w t.calls) ≡ a
      → ((r : R) (s : Trace W)
          → Ready left (suc attempt) s
          → HasLast func exit_code w (some r) s.calls
          → Bounded (retry_from func exit_code attempts logs left (suc attempt) (some r) s))
      → Bounded (
          after_call func exit_code attempts logs attempt a t
            (λ r s. retry_from func exit_code attempts logs left (suc attempt) (some r) s))
  after_call-IsBounded left attempt (err e, v) t h q next = record {
    settles = (ap (λ z. z.0) q, h.failed);
    world = sym (ap (λ z. z.1) q);
    calls = omega (arith, h.rest);
    pauses = omega (arith, h.paused);
    messages = h.quiet;
  }
  after_call-IsBounded left attempt (ok r, v) t h q next = elim (Bool-cases (exit_code r == 0)) [
    | inl done ↦ rw done (record {
      settles = (ap (λ z. z.0) q, rw done refl, h.failed);
      world = sym (ap (λ z. z.1) q);
      calls = omega (arith, h.rest);
      pauses = omega (arith, h.paused);
      messages = h.quiet;
    })
    | inr again ↦ rw again (
        next r
          (pause func exit_code attempts logs attempt (called func exit_code attempts logs v t))
          (next-Ready left attempt r v t h q again) (pause-last attempt r v t (ap (λ z. z.0) q)))
  ]

  retry_from-IsBounded :
      (left attempt : ℕ) (last : Option R) (t : Trace W)
      → Ready left attempt t
      → HasLast func exit_code w last t.calls
      → Bounded (retry_from func exit_code attempts logs left attempt last t)
  unfolding retry_from
  retry_from-IsBounded zero attempt last t h l = ended-IsBounded attempt last t h l
  retry_from-IsBounded (suc left) attempt last t h l =
      let logged = log_retry func exit_code attempts logs attempt t in
      let ready = log_retry-Ready (suc left) attempt t h in
      after_call-IsBounded left attempt (func t.world) logged ready
        (ap func (sym ready.here ∙ log_world attempt t))
        (λ r s k m. retry_from-IsBounded left (suc attempt) (some r) s k m)

-- Whatever the command does, `retry_idempotent` ends after at most `attempts` calls of it, with what
-- its last call gave: an exception, or a result that is a success or of the last call allowed; all
-- calls before that one returned results that are no success. If no call is allowed at all, the
-- assertion fails. The state is what these calls have made of it, one after the other. It sleeps at
-- most once between two calls, and reports nothing where it has no callback.
pub retry_idempotent-IsBounded :
    {W R : Type 0} (func : W → Result R × W) (exit_code : R → ℕ) (attempts : ℕ) (logs : Bool)
    (w : W)
    → IsBounded func exit_code w attempts logs (retry_idempotent func exit_code attempts logs w)
unfolding retry_idempotent
retry_idempotent-IsBounded func exit_code attempts logs w =
    retry_from-IsBounded func exit_code w attempts logs attempts 1 none
      (record { world = w; calls = 0; sleeps = 0; logged = [] })
      (record {
        number = refl;
        rest = omega arith;
        here = refl;
        failed = tt;
        paused = omega arith;
        spared = omega arith;
        quiet = λ off. refl;
      })
      refl
