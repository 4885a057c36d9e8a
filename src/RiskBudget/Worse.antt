-- ===== src/RiskBudget/Worse.antt =====
-- A worse day never has looser limits.
use native.Mathlib.Nat.{mul-le-mul_left}
use meva_beta_alpha_codex.Base.{ℕ, ◌*◌, ◌/◌, ◌≤◌, ◌≡◌, sym, subst, Bool, true, arith}
use meva_beta_alpha_codex.Base.Int.{
  ℤ, pos, pos_part, ◌≤ℤ◌, ◌-ℤ◌, leb_ℤ, max_ℤ, neg_ℤ, nonneg-pos, -ℤ_parts,
}
use meva_beta_alpha_codex.Degrade.{Mode, normal, reduce_risk_only, observe_only}
use meva_beta_alpha_codex.RiskBudget.{
  SelfFinancingPolicy, RiskBudgetView, BudgetInput, scaled, loses_too_much, is_drawn_down,
  base_multiplier, after_daily, after_drawdown, above_zero, daily_loss_limit, drawdown_limit,
  evaluate,
}
use meva_beta_alpha_codex.RiskBudget.Split.{scaled-pos}

-- From the same capital and peak: not more equity, not more profit, not fewer losses in a row, and no
-- calmer a market.
pub record IsWorse (i j : BudgetInput) : Type 0 where
  pub same_capital : j.trading_capital_try ≡ i.trading_capital_try
  pub same_peak : j.peak_equity_try ≡ i.peak_equity_try
  pub equity : j.equity_try ≤ℤ i.equity_try
  pub profit : j.realized_pnl_today_try ≤ℤ i.realized_pnl_today_try
  pub streak : i.consecutive_loss_streak ≤ j.consecutive_loss_streak
  pub stress : i.is_stressed ≡ true → j.is_stressed ≡ true

abbrev rank : Mode → ℕ
rank normal = 0
rank reduce_risk_only = 1
rank observe_only = 2

-- Limits and mode of `w` are at least as tight as those of `v`.
pub record IsTighter (v w : RiskBudgetView) : Type 0 where
  pub exposure : w.max_gross_exposure_try ≤ℤ v.max_gross_exposure_try
  pub order : w.max_order_notional_try ≤ℤ v.max_order_notional_try
  pub multiplier : w.position_sizing_multiplier ≤ v.position_sizing_multiplier
  pub mode : rank v.mode ≤ rank w.mode

base_multiplier-le :
    (p : SelfFinancingPolicy) (i j : BudgetInput)
    → i.consecutive_loss_streak ≤ j.consecutive_loss_streak
    → (i.is_stressed ≡ true → j.is_stressed ≡ true)
    → base_multiplier p j ≤ base_multiplier p i
base_multiplier-le p i j longer stress = ground (arith, longer, stress)

decided-IsTighter :
    (loses drawn loses' drawn' : Bool) (m m' : ℕ)
    → (loses ≡ true → loses' ≡ true)
    → (drawn ≡ true → drawn' ≡ true)
    → m' ≤ m
    → let (mode, multiplier) = after_drawdown drawn (after_daily loses m) in
      let (mode', multiplier') = after_drawdown drawn' (after_daily loses' m') in
      (rank mode ≤ rank mode') × (multiplier' ≤ multiplier)
decided-IsTighter loses drawn loses' drawn' m m' a b h = ground (arith, a, b, h)

scaled-le : (n r s : ℕ) → r ≤ s → scaled (pos n) r ≤ℤ scaled (pos n) s
scaled-le n r s h =
    let le : n * r ≤ n * s = mul-le-mul_left n h in
    rw (scaled-pos n r, scaled-pos n s) (omega (arith, le))

limit-le :
    (a b : ℤ) (ratio r s : ℕ)
    → b ≡ a
    → r ≤ s
    → scaled (scaled (above_zero b) ratio) r ≤ℤ scaled (scaled (above_zero a) ratio) s
limit-le a b ratio r s same h =
    let n = pos_part (above_zero a) in
    let le : scaled (scaled (pos n) ratio) r ≤ℤ scaled (scaled (pos n) ratio) s =
      rw (scaled-pos n ratio) (scaled-le (n * ratio / 10000) r s h) in
    subst (λ c. scaled (scaled (above_zero c) ratio) r ≤ℤ scaled (scaled (above_zero a) ratio) s)
      (sym same)
      (subst (λ c. scaled (scaled c ratio) r ≤ℤ scaled (scaled c ratio) s)
        (sym (nonneg-pos (above_zero a) (ground arith))) le)

loses-worse : (limit a b : ℤ) → b ≤ℤ a → leb_ℤ a (neg_ℤ limit) ≡ true → leb_ℤ b (neg_ℤ limit) ≡ true
loses-worse limit a b h e = ground (arith, h, e)

drawn-worse :
    (limit peak a b : ℤ)
    → b ≤ℤ a
    → leb_ℤ limit (max_ℤ (pos 0) (peak -ℤ a)) ≡ true
    → leb_ℤ limit (max_ℤ (pos 0) (peak -ℤ b)) ≡ true
drawn-worse limit peak a b h e = ground (arith, h, e, -ℤ_parts peak a, -ℤ_parts peak b)

-- Of two days with the same capital and the same peak, the one that is not better in equity, in profit,
-- in its losses in a row and in its market has limits of exposure and of order size and a multiplier
-- that are not larger, and a mode that is not less strict.
pub evaluate-IsTighter :
    (p : SelfFinancingPolicy) (i j : BudgetInput)
    → IsWorse i j
    → IsTighter (evaluate p i) (evaluate p j)
unfolding evaluate
evaluate-IsTighter p i j w =
    let capital = w.same_capital in
    let peak = w.same_peak in
    let loses : loses_too_much p i ≡ true → loses_too_much p j ≡ true = λ e. rw capital (
      loses-worse (daily_loss_limit p i) i.realized_pnl_today_try j.realized_pnl_today_try w.profit
        e) in
    let drawn : is_drawn_down p i ≡ true → is_drawn_down p j ≡ true = λ e.
      rw peak
        (drawn-worse (drawdown_limit p i) i.peak_equity_try i.equity_try j.equity_try w.equity e) in
    let (stricter, smaller) =
      decided-IsTighter (loses_too_much p i) (is_drawn_down p i) (loses_too_much p j)
        (is_drawn_down p j) (base_multiplier p i) (base_multiplier p j) loses drawn
        (base_multiplier-le p i j w.streak w.stress) in
    record {
      exposure =
          limit-le i.trading_capital_try j.trading_capital_try p.max_exposure_ratio _ _ capital
            smaller;
      order =
          limit-le i.trading_capital_try j.trading_capital_try p.max_order_ratio _ _ capital
            smaller;
      multiplier = smaller;
      mode = stricter;
    }
