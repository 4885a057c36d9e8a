-- ===== src/Sizing/Grid.antt =====
-- Cutting down to a grid: what is cut fits, is the largest that does, and is not cut again.
use native.Mathlib.Nat.{mul-div_cancel, div-mul-le_self, lt-div-mul-add, mul-pos, pow-suc}
use meva_beta_alpha_codex.Base.{
  ℕ, zero, suc, ◌+◌, ◌-◌, ◌*◌, ◌/◌, ◌^◌, ◌≤◌, ◌<◌, ◌≡◌, ap, ◌∙◌, Option, none, some, arith,
}
use meva_beta_alpha_codex.Base.Int.{ℤ, pos, negsuc}
use meva_beta_alpha_codex.Sizing.{cut_down, step_of}

pow-pos : (n : ℕ) → 0 < 10 ^ n
pow-pos zero = omega arith
pow-pos (suc n) = omega (arith, pow-pos n, pow-suc 10 n)

pub step_of-pos : (o : Option ℤ) (scale : ℕ) → 0 < step_of o scale
step_of-pos none scale = pow-pos (8 - scale)
step_of-pos (some (pos (suc n))) scale = omega arith
step_of-pos (some (pos zero)) scale = pow-pos (8 - scale)
step_of-pos (some (negsuc n)) scale = pow-pos (8 - scale)

module _ (step : ℕ) where
  pub cut_down-again :
      (amount divisor : ℕ)
      → 0 < step
      → cut_down step (cut_down step amount divisor) 1 ≡ cut_down step amount divisor
  unfolding cut_down
  cut_down-again amount divisor h =
      let n = amount / (divisor * step) in
      ap (λ d. n * step / d * step) (omega arith) ∙ ap (λ m. m * step) (mul-div_cancel n h)

  pub cut_down-le : (amount divisor : ℕ) → divisor * cut_down step amount divisor ≤ amount
  unfolding cut_down
  cut_down-le amount divisor =
      let n = amount / (divisor * step) in
      let le : n * (divisor * step) ≤ amount = div-mul-le_self amount (divisor * step) in
      omega (arith, le)

  pub lt-cut_down :
      (amount divisor : ℕ)
      → 0 < step
      → 0 < divisor
      → amount < divisor * (cut_down step amount divisor + step)
  unfolding cut_down
  lt-cut_down amount divisor hs hd =
      let n = amount / (divisor * step) in
      let lt : amount < n * (divisor * step) + divisor * step = lt-div-mul-add (mul-pos hd hs) in
      omega (arith, lt)
