-- ===== src/Retry.antt =====
-- services/retry.py: `retry_with_backoff`. (`retry_with_backoff_async` has the same loop.)
-- Delays and sleeps are in milliseconds. The call that is retried is a step on a state `S`, its
-- exceptions are values of `E`. What `random.Random(seed).random()` makes of a delay is the
-- parameter `jitter`: `jitter n raw` is `int(raw * (0.5 + r))` for the n-th draw `r`.
-- A retry-after time is finite: for the header value `inf` the code raises an `OverflowError` at
-- `int(retry_after_s * 1000)`, which is not modelled.
pub mod Bounds
mod Tests
use meva_beta_alpha_codex.Base.{
  ℕ, zero, suc, ◌+◌, ◌-◌, ◌*◌, ◌^◌, min, max, Bool, true, false, ◌||◌, not, Option, none, some,
  List, [], ◌∷◌, ltb, leb, if◌then◌else◌,
}

pub record RetryAttempt (E : Type 0) : Type 0 where
  pub attempt : ℕ
  pub delay_ms : ℕ
  pub error : E
  pub used_retry_after : Bool

-- How a call of the retried function ends.
pub data CallResult (A E : Type 0) : Type 0 where
  done : A → CallResult A E
  fails : E → CallResult A E

-- How the retry loop ends; the last two are the `ValueError` of the argument checks and the
-- `RuntimeError` behind the loop.
pub data Retried (A E : Type 0) : Type 0 where
  returned : A → Retried A E
  raised : E → Retried A E
  bad_arguments : Retried A E
  exhausted_unexpectedly : Retried A E

pub record RetrySettings : Type 0 where
  pub max_attempts : ℕ
  pub base_delay_ms : ℕ
  pub max_delay_ms : ℕ
  pub max_total_sleep_ms : Option ℕ

-- What has happened so far: the state of the call, the total sleep and the draws used.
pub record RetryState (S : Type 0) : Type 0 where
  pub inner : S
  pub total_sleep_ms : ℕ
  pub draws : ℕ

-- What the loop leaves: its end, the state, and the retries in order with their sleeps.
pub record RetryRun (S A E : Type 0) : Type 0 where
  pub outcome : Retried A E
  pub state : RetryState S
  pub retries : List (RetryAttempt E)

-- `min(max_delay_ms, base_delay_ms * (2 ** max(0, attempt - 1)))`
abbrev pub raw_delay_ms : RetrySettings → ℕ → ℕ
raw_delay_ms c attempt = min c.max_delay_ms (c.base_delay_ms * 2 ^ (attempt - 1))

-- The delay, and whether the response's retry-after gave it; `retry_after_ms` is
-- `int(retry_after_s * 1000)`.
pub compute_delay_ms : (ℕ → ℕ → ℕ) → RetrySettings → ℕ → ℕ → Option ℕ → ℕ × Bool
compute_delay_ms jitter c attempt draws (some retry_after_ms) =
    (min c.max_delay_ms retry_after_ms, true)
compute_delay_ms jitter c attempt draws none = (jitter draws (raw_delay_ms c attempt), false)

-- `max_total_sleep_seconds is not None and total + delay > max_total_sleep_seconds`
abbrev pub over_budget : Option ℕ → ℕ → Bool
over_budget none total = false
over_budget (some limit) total = ltb limit total

module _ {S A E : Type 0} (call : S → CallResult A E × S) (retryable : E → Bool)
    (retry_after : E → Option ℕ) (jitter : ℕ → ℕ → ℕ) (c : RetrySettings) where
  abbrev pub next_delay : ℕ → RetryState S → E → ℕ × Bool
  next_delay attempt s e = compute_delay_ms jitter c attempt s.draws (retry_after e)

  abbrev pub attempt_of : ℕ → RetryState S → E → RetryAttempt E
  attempt_of attempt s e = record {
    attempt = attempt;
    delay_ms = (next_delay attempt s e).0;
    error = e;
    used_retry_after = (next_delay attempt s e).1;
  }

  -- The state after the sleep; a retry-after takes no draw.
  abbrev pub slept : ℕ → RetryState S → E → S → RetryState S
  slept attempt s e inner = record {
    inner = inner;
    total_sleep_ms = s.total_sleep_ms + (next_delay attempt s e).0;
    draws = if (next_delay attempt s e).1 then s.draws else s.draws + 1;
  }

  abbrev pub stopped : Retried A E → RetryState S → S → RetryRun S A E
  stopped outcome s inner = record {
    outcome = outcome;
    state = record s { inner = inner };
    retries = [];
  }

  abbrev pub add_retry : RetryAttempt E → RetryRun S A E → RetryRun S A E
  add_retry a run = record run { retries = a ∷ run.retries }

  -- The test for which an exception is raised again.
  abbrev pub gives_up : ℕ → RetryState S → E → Bool
  gives_up attempt s e =
      not (retryable e)
      || (leb c.max_attempts attempt
          || over_budget c.max_total_sleep_ms (s.total_sleep_ms + (next_delay attempt s e).0))

  -- The `try` of one attempt, by how the call ended; `rest` is the next iteration.
  pub after_call :
      ℕ → RetryState S → S → (RetryState S → RetryRun S A E) → CallResult A E → RetryRun S A E
  after_call attempt s inner rest (done a) = stopped (returned a) s inner
  after_call attempt s inner rest (fails e) =
      if gives_up attempt s e
      then stopped (raised e) s inner
      else add_retry (attempt_of attempt s e) (rest (slept attempt s e inner))

  -- The iterations from `attempt` on, with `left` of them to go.
  pub retry_loop : (left : ℕ) (attempt : ℕ) → RetryState S → RetryRun S A E
  unfolding after_call
  retry_loop zero attempt s = stopped exhausted_unexpectedly s s.inner
  retry_loop (suc left) attempt s =
      let (result, inner) = call s.inner in
      after_call attempt s inner (retry_loop left (attempt + 1)) result

  pub retry_with_backoff : S → RetryRun S A E
  unfolding retry_loop
  retry_with_backoff inner =
      let start : RetryState S = record { inner = inner; total_sleep_ms = 0; draws = 0 } in
      if ltb c.max_attempts 1
      then stopped bad_arguments start inner
      else retry_loop c.max_attempts 1 start
