-- ===== src/Retry/Tests.antt =====
-- Concrete inputs for the theorems on retries.
use meva_beta_alpha_codex.Base.{
  ℕ, ◌+◌, ◌*◌, ◌/◌, ◌≤◌, ◌<◌, ◌≡◌, ◌≢◌, ◌⊎◌, refl, Bool, true, false, none, some, Option, List, [],
  ◌∷◌, arith, nat_beq, length, All,
}
use meva_beta_alpha_codex.Retry.{
  CallResult, done, fails, returned, exhausted_unexpectedly, bad_arguments, RetrySettings,
  RetryState, over_budget, compute_delay_ms, after_call, retry_loop, retry_with_backoff,
}
use meva_beta_alpha_codex.Retry.Bounds.{
  total_delay, retry_with_backoff-bounds, retry_loop-raised, retry_loop-delay,
}

-- The exceptions that are left, then a value; exception 9 is not retryable.
abbrev scripted : List ℕ → CallResult ℕ ℕ × List ℕ
scripted [] = (done 42, [])
scripted (e ∷ rest) = (fails e, rest)

abbrev is_transient : ℕ → Bool
is_transient e = elim (nat_beq e 9) [ true ↦ false | false ↦ true ]

abbrev no_header : ℕ → Option ℕ
no_header _ = none

abbrev half_more : ℕ → ℕ → ℕ
half_more draw raw = raw * 3 / 2

abbrev settings : RetrySettings
settings = record {
  max_attempts = 3;
  base_delay_ms = 100;
  max_delay_ms = 150;
  max_total_sleep_ms = some 1000;
}

abbrev unlimited : RetrySettings
unlimited = record settings { max_total_sleep_ms = none }

two_failures :
    (retry_with_backoff scripted is_transient no_header half_more settings (1 ∷ 2 ∷ [])).outcome
    ≡ returned 42
unfolding retry_with_backoff retry_loop after_call compute_delay_ms
two_failures = refl

two_sleeps :
    let run = retry_with_backoff scripted is_transient no_header half_more settings (1 ∷ 2 ∷ []) in
    run.state.total_sleep_ms ≡ 375
unfolding retry_with_backoff retry_loop after_call compute_delay_ms
two_sleeps = refl

retry_with_backoff-bounds_example :
    let run =
      retry_with_backoff scripted is_transient no_header half_more settings (1 ∷ 2 ∷ 3 ∷ []) in
    (run.outcome ≢ exhausted_unexpectedly)
    × (run.outcome ≢ bad_arguments)
    × (length run.retries < 3)
    × (run.state.total_sleep_ms ≡ total_delay run.retries)
    × (over_budget (some 1000) run.state.total_sleep_ms ≡ false)
retry_with_backoff-bounds_example =
    retry_with_backoff-bounds scripted is_transient no_header half_more settings (1 ∷ 2 ∷ 3 ∷ [])
      (omega arith)

abbrev three_left : RetryState (List ℕ)
three_left = record { inner = 1 ∷ 2 ∷ 3 ∷ []; total_sleep_ms = 0; draws = 0 }

retry_loop-raised_example :
    let run = retry_loop scripted is_transient no_header half_more unlimited 3 1 three_left in
    (is_transient 3 ≡ false) ⊎ (3 ≤ length run.retries + 1)
unfolding retry_loop after_call compute_delay_ms
retry_loop-raised_example =
    retry_loop-raised scripted is_transient no_header half_more unlimited 3 1 three_left 3 refl refl
      refl

half_more-le : (draw raw : ℕ) → half_more draw raw * 2 ≤ raw * 3
half_more-le draw raw = omega arith

retry_loop-delay_example :
    let run = retry_loop scripted is_transient no_header half_more settings 3 1 three_left in
    All (λ a. a.delay_ms * 2 ≤ 150 * 3) run.retries
retry_loop-delay_example =
    retry_loop-delay scripted is_transient no_header half_more settings half_more-le 3 1 three_left
