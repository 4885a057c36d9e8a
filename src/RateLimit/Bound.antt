-- ===== src/RateLimit/Bound.antt =====
-- What a limiter grants over time.
use meva_beta_alpha_codex.Base.{
  ℕ, zero, suc, ◌+◌, ◌-◌, ◌*◌, ◌≤◌, ◌≡◌, refl, sym, ap, ◌∙◌, List, [], ◌∷◌, Option, ltb,
  if◌then◌else◌, if_intro, All, arith,
}
use native.Mathlib.Nat.{add-mul, mul-le-mul_right}
use meva_beta_alpha_codex.RateLimit.{
  EndpointBudget, Bucket, capacity, full_bucket, refill, Wait, no_wait, cooling, lacking,
  after_cooldown, wait_seconds, taken, consume, penalize_on_429,
}

-- What happens to a group.
pub data Call : Type 0 where
  asks : (now cost : ℕ) → Call
  penalized : (now : ℕ) (retry_after : Option ℕ) → Call

abbrev pub time_of : Call → ℕ
time_of (asks now cost) = now
time_of (penalized now retry_after) = now

-- One call, with the tokens that it grants.
unfoldable pub run_call : EndpointBudget → Call → Bucket → ℕ × Bucket
unfolding consume penalize_on_429
run_call b (asks now cost) s =
    let (granted, next) = consume b now cost s in (if granted then cost else 0, next)
run_call b (penalized now retry_after) s = (0, penalize_on_429 b now retry_after s)

unfoldable pub run_calls : EndpointBudget → List Call → Bucket → ℕ × Bucket
unfolding run_call
run_calls b [] s = (0, s)
run_calls b (c ∷ rest) s =
    let (granted, next) = run_call b c s in
    let (later, end) = run_calls b rest next in (granted + later, end)

-- From `s` to `next`, with `granted` tokens paid out: the tokens come from the elapsed time, and the
-- time of the last update is not after `until`.
abbrev IsPaid : EndpointBudget → (until : ℕ) → Bucket → ℕ × Bucket → Type 0
IsPaid b until s (granted, next) =
    (next.tokens + granted + s.updated_at * b.rps ≤ s.tokens + next.updated_at * b.rps)
    × (next.updated_at ≤ until)

elapsed_paid : (upd now rps : ℕ) → upd ≤ now → (now - upd) * rps + upd * rps ≡ now * rps
elapsed_paid upd now rps h =
    sym (add-mul (now - upd) upd rps) ∙ ap (λ n. n * rps) (omega (arith, h))

refill-IsPaid :
    (b : EndpointBudget) (now until : ℕ) (s : Bucket)
    → now ≤ until
    → s.updated_at ≤ until
    → IsPaid b until s (0, refill b now s)
unfolding refill
refill-IsPaid b now until s h k =
    if_intro (λ t. IsPaid b until s (0, t)) (ltb 0 (now - s.updated_at))
      (λ e.
        let paid = elapsed_paid s.updated_at now b.rps (ground (arith, e)) in
        (ground (arith, paid), h))
      λ e. (omega arith, k)

taken-IsPaid :
    (b : EndpointBudget) (until cost : ℕ) (s filled : Bucket) (w : Wait)
    → IsPaid b until s (0, filled)
    → (w ≡ no_wait → cost ≤ filled.tokens)
    → let (granted, next) = taken cost filled w in
      IsPaid b until s (if granted then cost else 0, next)
taken-IsPaid b until cost s filled no_wait h enough = (omega (arith, h.0, enough refl), h.1)
taken-IsPaid b until cost s filled (cooling ms) h enough = h
taken-IsPaid b until cost s filled (lacking n) h enough = h

no_wait-enough :
    (cost : ℕ) (s : Bucket) (rest : ℕ) → after_cooldown cost s rest ≡ no_wait → cost ≤ s.tokens
no_wait-enough cost s zero e = ground (arith, e)
no_wait-enough cost s (suc ms) e = ground (arith, e)

run_call-IsPaid :
    (b : EndpointBudget) (until : ℕ) (c : Call) (s : Bucket)
    → time_of c ≤ until
    → s.updated_at ≤ until
    → IsPaid b until s (run_call b c s)
unfolding run_call consume wait_seconds penalize_on_429
run_call-IsPaid b until (asks now zero) s h k = (omega arith, k)
run_call-IsPaid b until (asks now (suc cost)) s h k =
    let filled = refill b now s in
    taken-IsPaid b until (suc cost) s filled (wait_seconds now (suc cost) filled)
      (refill-IsPaid b now until s h k)
      (no_wait-enough (suc cost) filled (filled.cooldown_until - now))
run_call-IsPaid b until (penalized now retry_after) s h k = (omega arith, k)

run_calls-IsPaid :
    (b : EndpointBudget) (until : ℕ) (cs : List Call) (s : Bucket)
    → All (λ c. time_of c ≤ until) cs
    → s.updated_at ≤ until
    → IsPaid b until s (run_calls b cs s)
unfolding run_calls
run_calls-IsPaid b until [] s h k = (omega arith, k)
run_calls-IsPaid b until (c ∷ rest) s h k =
    let first = run_call-IsPaid b until c s h.0 k in
    let later = run_calls-IsPaid b until rest (run_call b c s).1 h.1 first.1 in
    (omega (arith, first.0, later.0), later.1)

-- From a full bucket at `start`, calls that all come by `until` (not before `start`, in any order,
-- penalties among them) are granted at most the burst and what the rate gives from `start` to `until`.
pub run_calls-bound :
    (b : EndpointBudget) (start until : ℕ) (cs : List Call)
    → start ≤ until
    → All (λ c. time_of c ≤ until) cs
    → (run_calls b cs (full_bucket b start)).0 ≤ capacity b + (until - start) * b.rps
run_calls-bound b start until cs later by =
    let paid = run_calls-IsPaid b until cs (full_bucket b start) by later in
    let end = (run_calls b cs (full_bucket b start)).1.updated_at in
    let elapsed = elapsed_paid start until b.rps later in
    let most : end * b.rps ≤ until * b.rps = mul-le-mul_right b.rps paid.1 in
    omega (arith, paid.0, elapsed, most)
