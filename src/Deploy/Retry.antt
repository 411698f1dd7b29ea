-- ===== src/Deploy/Retry.antt =====
-- backend/deployers/base.py, `retry_idempotent`: a command is run again until it succeeds, a limited
-- number of times. The command may change a state and may raise; its exit code is the last element
-- of what it returns, and 1 where that is empty.
use devops_cd.Prelude.{
  ℕ, zero, suc, Bool, ◌&&◌, Option, none, some, List, [], ◌∷◌, ◌++◌, ◌==◌, ltb, if◌then◌else◌,
}
use devops_cd.Result.{Result, ok, err, Error}

-- What a run has done: the calls of the command and of `time.sleep`, and of `log_fn` with its
-- numbers.
pub record Trace (W : Type 0) : Type 0 where
  pub world : W
  pub calls : ℕ
  pub sleeps : ℕ
  pub logged : List ℕ

-- The assertion fails where the command was never run.
pub data Ended (R : Type 0) : Type 0 where
  returned : R → Ended R
  raised : Error → Ended R
  assertion_failed : Ended R

abbrev ended : {R : Type 0} → Option R → Ended R
ended none = Ended.assertion_failed
ended (some r) = Ended.returned r

module _ {W R : Type 0} (func : W → Result R × W) (exit_code : R → ℕ) (attempts : ℕ)
    (logs : Bool) where
  abbrev pub Run : Type 0
  Run = Ended R × Trace W

  abbrev pub log_retry : ℕ → Trace W → Trace W
  log_retry attempt t =
      if ltb 1 attempt && logs then record t { logged = t.logged ++ attempt ∷ [] } else t

  abbrev pub called : W → Trace W → Trace W
  called w t = record t { world = w; calls = suc t.calls }

  abbrev pub pause : ℕ → Trace W → Trace W
  pause attempt t = if ltb attempt attempts then record t { sleeps = suc t.sleeps } else t

  -- What follows a call: its result, or the next attempt.
  abbrev pub after_call : ℕ → Result R × W → Trace W → (R → Trace W → Run) → Run
  after_call attempt (err e, w) t next = (Ended.raised e, called w t)
  after_call attempt (ok r, w) t next =
      if exit_code r == 0
      then (Ended.returned r, called w t)
      else next r (pause attempt (called w t))

  -- `for attempt in range(…)`, with the attempts that are left and the last result.
  unfoldable pub retry_from : ℕ → ℕ → Option R → Trace W → Run
  retry_from zero attempt last t = (ended last, t)
  retry_from (suc left) attempt last t =
      after_call attempt (func t.world) (log_retry attempt t)
        (λ r s. retry_from left (suc attempt) (some r) s)

  unfoldable pub retry_idempotent : W → Run
  unfolding retry_from
  retry_idempotent w =
      retry_from attempts 1 none (record { world = w; calls = 0; sleeps = 0; logged = [] })
