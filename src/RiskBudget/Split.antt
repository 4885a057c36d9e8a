-- ===== src/RiskBudget/Split.antt =====
-- The money that a split of profits keeps.
use meva_beta_alpha_codex.Base.{
  ℕ, ◌+◌, ◌*◌, ◌/◌, ◌≤◌, ◌≡◌, ◌≢◌, sym, ap, ◌∙◌, true, if_intro, arith,
}
use native.Mathlib.Nat.{mul-add}
use meva_beta_alpha_codex.Base.Int.{ℤ, pos, negsuc, ◌+ℤ◌, ◌*ℤ◌, ◌≤ℤ◌, ltb_ℤ, trunc_div, int_laws}
use meva_beta_alpha_codex.RiskBudget.{SelfFinancingPolicy, scaled, apply_self_financing}

pub scaled-pos : (n r : ℕ) → scaled (pos n) r ≡ pos (n * r / 10000)
unfolding scaled ◌*ℤ◌ trunc_div
scaled-pos n r = ground arith

-- The money before and after, with at most one unit of 10^-8 lost by rounding.
abbrev pub Keeps : (before : ℤ) → ℤ × ℤ → Type 0
Keeps before (capital, treasury) =
    (capital +ℤ treasury ≤ℤ before) × (before ≤ℤ capital +ℤ treasury +ℤ pos 1)

split_parts :
    (n r s : ℕ)
    → r + s ≡ 10000
    → (n * r / 10000 + n * s / 10000 ≤ n) × (n ≤ n * r / 10000 + n * s / 10000 + 1)
split_parts n r s whole =
    let sum : n * r + n * s ≡ n * 10000 = sym (mul-add n r s) ∙ ap (λ k. n * k) whole in
    (omega (arith, sum), omega (arith, sum))

not_positive : (n : ℕ) → ltb_ℤ (pos 0) (negsuc n) ≢ true
not_positive n e = ground (arith, e)

-- Where the ratios of the policy add up to one, a profit or a loss goes into trading capital and
-- treasury whole, up to one unit of 10^-8 that rounding may drop and never adds.
pub apply_self_financing-Keeps :
    (p : SelfFinancingPolicy) (capital treasury delta : ℤ)
    → p.profit_compound_ratio + p.profit_treasury_ratio ≡ 10000
    → Keeps (capital +ℤ treasury +ℤ delta) (apply_self_financing p capital treasury delta)
unfolding apply_self_financing
apply_self_financing-Keeps p capital treasury (negsuc n) whole =
    if_intro (Keeps (capital +ℤ treasury +ℤ negsuc n)) (ltb_ℤ (pos 0) (negsuc n))
      (λ e. absurd (not_positive n e)) λ e. (omega int_laws, omega int_laws)
apply_self_financing-Keeps p capital treasury (pos n) whole =
    let parts = split_parts n p.profit_compound_ratio p.profit_treasury_ratio whole in
    if_intro (Keeps (capital +ℤ treasury +ℤ pos n)) (ltb_ℤ (pos 0) (pos n))
      {x = (
        capital +ℤ scaled (pos n) p.profit_compound_ratio,
        treasury +ℤ scaled (pos n) p.profit_treasury_ratio,
      )}
      (λ e.
        rw (scaled-pos n p.profit_compound_ratio, scaled-pos n p.profit_treasury_ratio)
          (omega (int_laws, parts), omega (int_laws, parts)))
      λ e. (omega int_laws, omega int_laws)
