-- ===== src/RateLimit/Tests.antt =====
-- A group with two tokens per second and a burst of three.
use meva_beta_alpha_codex.Base.{
  ℕ, some, ◌/◌, ◌+◌, ◌*◌, ◌-◌, ◌≤◌, ◌≡◌, refl, List, [], ◌∷◌, none, arith,
}
use meva_beta_alpha_codex.RateLimit.{
  EndpointBudget, full_bucket, refill, wait_seconds, consume, penalize_on_429, capacity, Bucket,
  Wait, no_wait, cooling, lacking, acquire,
}
use meva_beta_alpha_codex.RateLimit.Bound.{
  Call, asks, penalized, run_call, run_calls, run_calls-bound,
}

abbrev budget : EndpointBudget
budget = record { rps = 2000; burst = 3 }

-- Four tokens are asked for at once, one after half a second, and one under a cooldown.
abbrev calls : List Call
calls =
    asks 1000 1000000
    ∷ asks 1000 1000000
    ∷ asks 1000 1000000
    ∷ asks 1000 1000000
    ∷ asks 1500 1000000
    ∷ penalized 1500 none
    ∷ asks 1600 1000000
    ∷ []

four_granted : (run_calls budget calls (full_bucket budget 1000)).0 ≡ 4000000
unfolding run_calls run_call consume refill wait_seconds penalize_on_429
four_granted = refl

run_calls-bound_example :
    (run_calls budget calls (full_bucket budget 1000)).0 ≤ capacity budget + (1600 - 1000) * 2000
run_calls-bound_example = run_calls-bound budget 1000 1600 calls (omega arith) (
  omega arith,
  (omega arith, (omega arith, (omega arith, (omega arith, (omega arith, (omega arith, tt)))))),
)

-- The next whole millisecond in which the tokens are there.
abbrev sleep : ℕ → Wait → ℕ
sleep now no_wait = 0
sleep now (cooling ms) = ms
sleep now (lacking tokens) = (tokens + 1999) / 2000

abbrev penalized_bucket : Bucket
penalized_bucket = record { tokens = 0; updated_at = 1500; cooldown_until = 1800 }

-- A sleep of 200 ms for the cooldown, and one of 200 ms for the rest of a token.
acquired_at :
    acquire 2 budget sleep 1600 penalized_bucket
    ≡ some (2000, record { tokens = 0; updated_at = 2000; cooldown_until = 1800 })
unfolding acquire refill wait_seconds
acquired_at = refl
