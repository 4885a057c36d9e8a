-- ===== src/RateLimit.antt =====
-- services/rate_limiter.py: `TokenBucketRateLimiter`.
-- Times are milliseconds, rates are thousandths of a token per second, and tokens are millionths, so
-- a rate times an elapsed time is exact. One reading of the clock stands for those of one call. A
-- call holds the lock, so it is one step. `acquire` is modelled for one caller, whose sleeps are given.
mod Bound
mod Acquired
mod Tests
use meva_beta_alpha_codex.Base.{
  ℕ, zero, suc, ◌+◌, ◌-◌, ◌*◌, ◌/◌, min, max, Bool, true, false, Option, none, some, List, [], ◌∷◌,
  ltb, leb, if◌then◌else◌, get_or, number_key,
}
use meva_beta_alpha_codex.Base.Dict.{Dict, lookup, insert}

pub record EndpointBudget : Type 0 where
  pub rps : ℕ
  pub burst : ℕ

-- `EndpointBudget.validate`, false for a `ValueError`.
abbrev pub is_valid_budget : EndpointBudget → Bool
is_valid_budget b = if leb b.rps 0 then false else leb 1 b.burst

-- The state of one group.
pub record Bucket : Type 0 where
  pub tokens : ℕ
  pub updated_at : ℕ
  pub cooldown_until : ℕ

abbrev pub capacity : EndpointBudget → ℕ
capacity b = b.burst * 1000000

abbrev pub full_bucket : EndpointBudget → (now : ℕ) → Bucket
full_bucket b now = record { tokens = capacity b; updated_at = now; cooldown_until = 0 }

-- `_refill`
unfoldable pub refill : EndpointBudget → (now : ℕ) → Bucket → Bucket
refill b now s =
    if ltb 0 (now - s.updated_at)
    then record s {
      tokens = min (capacity b) (s.tokens + (now - s.updated_at) * b.rps);
      updated_at = now;
    }
    else s

-- The seconds to wait: none, the rest of a cooldown, or a deficit of tokens over the rate.
pub data Wait : Type 0 where
  no_wait : Wait
  cooling : (ms : ℕ) → Wait
  lacking : (tokens : ℕ) → Wait

abbrev pub after_cooldown : (cost : ℕ) → Bucket → ℕ → Wait
after_cooldown cost s (suc ms) = cooling (suc ms)
after_cooldown cost s zero = if leb cost s.tokens then no_wait else lacking (cost - s.tokens)

-- `_wait_seconds_locked` behind its refill.
unfoldable pub wait_seconds : (now cost : ℕ) → Bucket → Wait
wait_seconds now cost s = after_cooldown cost s (s.cooldown_until - now)

abbrev pub taken : (cost : ℕ) → Bucket → Wait → Bool × Bucket
taken cost s no_wait = (true, record s { tokens = s.tokens - cost })
taken cost s (cooling _) = (false, s)
taken cost s (lacking _) = (false, s)

-- `consume` on the state of a group; nothing is free.
unfoldable pub consume : EndpointBudget → (now cost : ℕ) → Bucket → Bool × Bucket
unfolding refill wait_seconds
consume b now zero s = (true, s)
consume b now (suc cost) s =
    let filled = refill b now s in taken (suc cost) filled (wait_seconds now (suc cost) filled)

-- `seconds_until_available` on the state of a group.
unfoldable pub seconds_until_available : EndpointBudget → (now cost : ℕ) → Bucket → Wait × Bucket
unfolding refill wait_seconds
seconds_until_available b now zero s = (no_wait, s)
seconds_until_available b now (suc cost) s =
    let filled = refill b now s in (wait_seconds now (suc cost) filled, filled)

-- `min(1.5, max(0.25, 1.0 / rps))`, in whole milliseconds.
abbrev fallback_cooldown : EndpointBudget → ℕ
fallback_cooldown b = min 1500 (max 250 (1000000 / b.rps))

-- The cooldown for a retry-after that is missing or not positive, or is one.
abbrev cooldown_ms : EndpointBudget → Option ℕ → ℕ
cooldown_ms b (some (suc ms)) = suc ms
cooldown_ms b (some zero) = fallback_cooldown b
cooldown_ms b none = fallback_cooldown b

-- `penalize_on_429` on the state of a group.
unfoldable pub penalize_on_429 :
    EndpointBudget → (now : ℕ) → (retry_after : Option ℕ) → Bucket → Bucket
penalize_on_429 b now retry_after s = record s {
  tokens = 0;
  cooldown_until = max s.cooldown_until (now + cooldown_ms b retry_after);
}

-- Group 0 is "default", whose budget stands for that of an unknown group.
pub record Limiter : Type 0 where
  pub budgets : Dict ℕ EndpointBudget
  pub default_budget : EndpointBudget
  pub state : Dict ℕ Bucket

abbrev pub budget_for : ℕ → Limiter → EndpointBudget
budget_for group l = get_or l.default_budget (lookup group l.budgets)

-- `_state_for`: a group that was not used begins with a full bucket.
abbrev pub state_for : (group now : ℕ) → Limiter → Bucket
state_for group now l = get_or (full_bucket (budget_for group l) now) (lookup group l.state)

abbrev pub with_state : (group : ℕ) → Bucket → Limiter → Limiter
with_state group s l = record l { state = insert group s l.state }

-- `consume` of the limiter; a cost of nothing touches no state.
unfoldable pub consume_group : (group now cost : ℕ) → Limiter → Bool × Limiter
unfolding consume
consume_group group now zero l = (true, l)
consume_group group now (suc cost) l =
    let (granted, s) = consume (budget_for group l) now (suc cost) (state_for group now l) in
    (granted, with_state group s l)

-- One token.
abbrev pub one_token : ℕ
one_token = 1000000

-- A token is taken, or what comes after the sleep.
abbrev pub taken_or : Option (ℕ × Bucket) → (now : ℕ) → Bucket → Wait → Option (ℕ × Bucket)
taken_or later now s no_wait = some (now, record s { tokens = s.tokens - one_token })
taken_or later now s (cooling _) = later
taken_or later now s (lacking _) = later

-- The loop of `acquire` on the state of a group, with at most `fuel` sleeps: the time at its end and the
-- state; `none` when that is not enough. `sleep` says how long the sleep for a wait takes.
unfoldable pub acquire :
    (fuel : ℕ) → EndpointBudget → (sleep : ℕ → Wait → ℕ) → (now : ℕ) → Bucket → Option (ℕ × Bucket)
unfolding refill wait_seconds
acquire zero b sleep now s =
    let filled = refill b now s in taken_or none now filled (wait_seconds now one_token filled)
acquire (suc n) b sleep now s =
    let filled = refill b now s in
    let wait = wait_seconds now one_token filled in
    let later = acquire n b sleep (now + sleep now wait) filled in taken_or later now filled wait
