-- ===== src/RateLimit/Acquired.antt =====
-- How long `acquire` waits.
use meva_beta_alpha_codex.Base.{ℕ, zero, suc, ◌+◌, ◌*◌, ◌≤◌, Option, none, some}
use meva_beta_alpha_codex.RateLimit.{
  EndpointBudget, Bucket, capacity, Wait, no_wait, cooling, lacking, wait_seconds, one_token,
  acquire,
}

-- A sleep is not shorter than it should be: in milliseconds, or in tokens at the rate.
abbrev pub IsLong : EndpointBudget → Wait → ℕ → Type 0
IsLong b no_wait ms = Unit
IsLong b (cooling wait) ms = wait ≤ ms
IsLong b (lacking tokens) ms = tokens ≤ ms * b.rps

-- A token was there and was taken, at a time that is not before the end of the cooldown, and the bucket
-- was not over its capacity.
abbrev pub IsTaken : EndpointBudget → (cooldown_until : ℕ) → Option (ℕ × Bucket) → Type 0
IsTaken b until none = ⊥
IsTaken b until (some (now, s)) = (until ≤ now) × (s.tokens + one_token ≤ capacity b)

-- The bucket before a refill: not filled later than now, nor over its capacity.
pub record IsBefore (b : EndpointBudget) (now : ℕ) (s : Bucket) : Type 0 where
  pub not_later : s.updated_at ≤ now
  pub not_over : s.tokens ≤ capacity b

module _ (b : EndpointBudget) (sleep : ℕ → Wait → ℕ) where
  -- What follows a sleep.
  abbrev after_sleep : (fuel now : ℕ) → Bucket → Option (ℕ × Bucket)
  after_sleep zero now s = none
  after_sleep (suc n) now s = acquire n b sleep (now + sleep now (wait_seconds now one_token s)) s
