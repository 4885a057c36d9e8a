-- ===== src/Retry/Bounds.antt =====
-- What bounds the retries of services/retry.py.
use meva_beta_alpha_codex.Base.{
  ℕ, zero, suc, ◌+◌, ◌*◌, ◌≤◌, ◌<◌, ◌≡◌, ◌≢◌, refl, ◌⊎◌, inl, inr, Bool, true, false, ◌||◌, not,
  Option, none, some, List, [], ◌∷◌, length, ltb, leb, if_intro, arith, All,
}
use meva_beta_alpha_codex.Retry.{
  RetryAttempt, CallResult, done, fails, Retried, raised, bad_arguments, exhausted_unexpectedly,
  RetrySettings, RetryState, RetryRun, raw_delay_ms, compute_delay_ms, over_budget, next_delay,
  slept, stopped, gives_up, after_call, retry_loop, retry_with_backoff,
}

-- The delays of some retries, added up.
abbrev pub total_delay : {E : Type 0} → List (RetryAttempt E) → ℕ
total_delay [] = 0
total_delay (a ∷ rest) = a.delay_ms + total_delay rest

not_below_one : (n : ℕ) → 0 < n → ltb n 1 ≡ false
not_below_one n h = ground arith

nothing_spent : (limit : Option ℕ) → over_budget limit 0 ≡ false
nothing_spent none = refl
nothing_spent (some limit) = ground arith

module _ {S A E : Type 0} (call : S → CallResult A E × S) (retryable : E → Bool)
    (retry_after : E → Option ℕ) (jitter : ℕ → ℕ → ℕ) (c : RetrySettings) where
  -- What holds of a run that began in `s` with `left` attempts to go.
  record IsBounded (left : ℕ) (s : RetryState S) (run : RetryRun S A E) : Type 0 where
    few : length run.retries < left
    slept_all : run.state.total_sleep_ms ≡ s.total_sleep_ms + total_delay run.retries
    in_budget :
        over_budget c.max_total_sleep_ms s.total_sleep_ms ≡ false
        → over_budget c.max_total_sleep_ms run.state.total_sleep_ms ≡ false
    ends : run.outcome ≢ exhausted_unexpectedly
    answers : run.outcome ≢ bad_arguments

  still_left :
      (e : E) (left attempt : ℕ) (s : RetryState S)
      → suc left + attempt ≡ c.max_attempts + 1
      → gives_up call retryable retry_after jitter c attempt s e ≡ false
      → (0 < left)
        × (over_budget c.max_total_sleep_ms
              (s.total_sleep_ms + (next_delay call retryable retry_after jitter c attempt s e).0)
            ≡ false)
  still_left e left attempt s count goes_on = ground arith

  after_call-IsBounded :
      (r : CallResult A E) (left attempt : ℕ) (s : RetryState S) (inner : S)
      (rest : RetryState S → RetryRun S A E)
      → suc left + attempt ≡ c.max_attempts + 1
      → ((t : RetryState S) → 0 < left → IsBounded left t (rest t))
      → IsBounded
          (suc left)
          s
          (after_call call retryable retry_after jitter c attempt s inner rest r)
  unfolding after_call
  after_call-IsBounded (done a) left attempt s inner rest count ih = record {
    few = omega arith;
    slept_all = omega arith;
    in_budget = λ h. h;
    ends = λ e. cc;
    answers = λ e. cc;
  }
  after_call-IsBounded (fails e) left attempt s inner rest count ih =
      if_intro (IsBounded (suc left) s) (gives_up call retryable retry_after jitter c attempt s e)
        (λ _. record {
          few = omega arith;
          slept_all = omega arith;
          in_budget = λ h. h;
          ends = λ f. cc;
          answers = λ f. cc;
        })
        λ goes_on.
          let next = slept call retryable retry_after jitter c attempt s e inner in
          let (some_left, cheap) = still_left e left attempt s count goes_on in
          let later = ih next some_left in
          record {
            few = omega (arith, later.few);
            slept_all = omega (arith, later.slept_all);
            in_budget = λ _. later.in_budget cheap;
            ends = later.ends;
            answers = later.answers;
          }

  loop_IsBounded :
      (left attempt : ℕ) (s : RetryState S)
      → left + attempt ≡ c.max_attempts + 1
      → 0 < left
      → IsBounded left s (retry_loop call retryable retry_after jitter c left attempt s)
  unfolding retry_loop
  loop_IsBounded zero attempt s count some_left = absurd (omega arith)
  loop_IsBounded (suc left) attempt s count some_left =
      let (result, inner) = call s.inner in
      after_call-IsBounded result left attempt s inner
        (retry_loop call retryable retry_after jitter c left (attempt + 1)) count
        λ t more. loop_IsBounded left (attempt + 1) t (omega arith) more

  -- With at least one attempt allowed, the loop ends by a value or by an exception of the call, never
  -- by the RuntimeError behind it; it retries less often than there are attempts, sleeps for exactly
  -- the delays that it reports, and never sleeps beyond the total that is allowed.
  pub retry_with_backoff-bounds :
      (inner : S)
      → 0 < c.max_attempts
      → let run = retry_with_backoff call retryable retry_after jitter c inner in
        (run.outcome ≢ exhausted_unexpectedly)
        × (run.outcome ≢ bad_arguments)
        × (length run.retries < c.max_attempts)
        × (run.state.total_sleep_ms ≡ total_delay run.retries)
        × (over_budget c.max_total_sleep_ms run.state.total_sleep_ms ≡ false)
  unfolding retry_with_backoff
  retry_with_backoff-bounds inner some_left =
      let start : RetryState S = record { inner = inner; total_sleep_ms = 0; draws = 0 } in
      let run = loop_IsBounded c.max_attempts 1 start refl some_left in
      rw (not_below_one c.max_attempts some_left) (
        run.ends,
        run.answers,
        run.few,
        omega (arith, run.slept_all),
        run.in_budget (nothing_spent c.max_total_sleep_ms),
      )

  why_stopped :
      (f e : E) (attempt total : ℕ)
      → c.max_total_sleep_ms ≡ none
      → (not (retryable f)
          || (leb c.max_attempts attempt || over_budget c.max_total_sleep_ms total))
        ≡ true
      → ◌≡◌ {A = Retried A E} (raised f) (raised e)
      → (retryable e ≡ false) ⊎ (c.max_attempts ≤ 0 + attempt)
  why_stopped f e attempt total no_limit stops same = ground arith

  after_call-raised :
      (r : CallResult A E) (left attempt : ℕ) (s : RetryState S) (inner : S)
      (rest : RetryState S → RetryRun S A E) (e : E)
      → c.max_total_sleep_ms ≡ none
      → ((t : RetryState S)
          → (rest t).outcome ≡ raised e
          → (retryable e ≡ false) ⊎ (c.max_attempts ≤ length (rest t).retries + (attempt + 1)))
      → let run = after_call call retryable retry_after jitter c attempt s inner rest r in
        run.outcome ≡ raised e
        → (retryable e ≡ false) ⊎ (c.max_attempts ≤ length run.retries + attempt)
  unfolding after_call
  after_call-raised (done a) left attempt s inner rest e no_limit ih = λ h. cc
  after_call-raised (fails f) left attempt s inner rest e no_limit ih =
      if_intro
        (λ (run : RetryRun S A E).
          run.outcome ≡ raised e
          → (retryable e ≡ false) ⊎ (c.max_attempts ≤ length run.retries + attempt))
        (gives_up call retryable retry_after jitter c attempt s f)
        {x = stopped call retryable retry_after jitter c (raised f) s inner}
        (λ stops h. why_stopped f e attempt _ no_limit stops h)
        λ _ h. later _ (ih (slept call retryable retry_after jitter c attempt s f inner) h)
    where
      later :
          (n : ℕ)
          → (retryable e ≡ false) ⊎ (c.max_attempts ≤ n + (attempt + 1))
          → (retryable e ≡ false) ⊎ (c.max_attempts ≤ suc n + attempt)
      later n (inl fatal) = inl fatal
      later n (inr used) = inr (omega arith)

  -- Where no total is set, the loop gives up only on an exception that is not retryable or when all
  -- attempts are used.
  pub retry_loop-raised :
      (left attempt : ℕ) (s : RetryState S) (e : E)
      → c.max_total_sleep_ms ≡ none
      → left + attempt ≡ c.max_attempts + 1
      → let run = retry_loop call retryable retry_after jitter c left attempt s in
        run.outcome ≡ raised e
        → (retryable e ≡ false) ⊎ (c.max_attempts ≤ length run.retries + attempt)
  unfolding retry_loop
  retry_loop-raised zero attempt s e no_limit count h = cc
  retry_loop-raised (suc left) attempt s e no_limit count h =
      let (result, inner) = call s.inner in
      after_call-raised result left attempt s inner
        (retry_loop call retryable retry_after jitter c left (attempt + 1)) e no_limit
        (λ t. retry_loop-raised left (attempt + 1) t e no_limit (omega arith)) h

module _ {S A E : Type 0} (call : S → CallResult A E × S) (retryable : E → Bool)
    (retry_after : E → Option ℕ) (jitter : ℕ → ℕ → ℕ) (c : RetrySettings)
    (jitter_bound : (n raw : ℕ) → jitter n raw * 2 ≤ raw * 3) where
  compute_delay-le :
      (attempt draws : ℕ) (after : Option ℕ)
      → (compute_delay_ms jitter c attempt draws after).0 * 2 ≤ c.max_delay_ms * 3
  unfolding compute_delay_ms
  compute_delay-le attempt draws (some after) = omega arith
  compute_delay-le attempt draws none = omega (arith, jitter_bound draws (raw_delay_ms c attempt))

  after_call-delay :
      (r : CallResult A E) (attempt : ℕ) (s : RetryState S) (inner : S)
      (rest : RetryState S → RetryRun S A E)
      → ((t : RetryState S) → All (λ a. a.delay_ms * 2 ≤ c.max_delay_ms * 3) (rest t).retries)
      → All
          (λ a. a.delay_ms * 2 ≤ c.max_delay_ms * 3)
          (after_call call retryable retry_after jitter c attempt s inner rest r).retries
  unfolding after_call
  after_call-delay (done a) attempt s inner rest ih = tt
  after_call-delay (fails e) attempt s inner rest ih =
      if_intro
        (λ (run : RetryRun S A E). All (λ a. a.delay_ms * 2 ≤ c.max_delay_ms * 3) run.retries)
        (gives_up call retryable retry_after jitter c attempt s e) (λ _. tt)
        λ _. (compute_delay-le attempt s.draws (retry_after e), ih _)

  -- If a jittered delay is at most one and a half of the raw one, every retry's delay is at most one
  -- and a half of the largest delay.
  pub retry_loop-delay :
      (left attempt : ℕ) (s : RetryState S)
      → All
          (λ a. a.delay_ms * 2 ≤ c.max_delay_ms * 3)
          (retry_loop call retryable retry_after jitter c left attempt s).retries
  unfolding retry_loop
  retry_loop-delay zero attempt s = tt
  retry_loop-delay (suc left) attempt s =
      let (result, inner) = call s.inner in
      after_call-delay result attempt s inner
        (retry_loop call retryable retry_after jitter c left (attempt + 1))
        λ t. retry_loop-delay left (attempt + 1) t
