-- ===== src/RiskBudget.antt =====
-- risk/budget.py: `RiskBudgetPolicy`, the limits of a day and the split of profits.
-- Money is in whole numbers of 10^-8, the quantum of `quantize_money` (ROUND_DOWN); ratios and the
-- multiplier are whole numbers of 10^-4. `is_stressed` tells whether the volatility regime is "high"
-- or "stressed".
pub mod Split
mod Worse
mod Tests
use meva_beta_alpha_codex.Base.{ℕ, min, Bool, true, false, ◌&&◌, ltb, leb, if◌then◌else◌}
use meva_beta_alpha_codex.Base.Int.{ℤ, pos, ◌+ℤ◌, ◌-ℤ◌, ◌*ℤ◌, neg_ℤ, ltb_ℤ, leb_ℤ, max_ℤ, trunc_div}
use meva_beta_alpha_codex.Degrade.{Mode, normal, reduce_risk_only, observe_only}

pub record SelfFinancingPolicy : Type 0 where
  pub profit_compound_ratio : ℕ
  pub profit_treasury_ratio : ℕ
  pub loss_streak_reduce_multiplier : ℕ
  pub drawdown_reduce_multiplier : ℕ
  pub halt_drawdown_ratio : ℕ
  pub halt_daily_loss_ratio : ℕ
  pub max_exposure_ratio : ℕ
  pub max_order_ratio : ℕ

abbrev pub default_policy : SelfFinancingPolicy
default_policy = record {
  profit_compound_ratio = 6000;
  profit_treasury_ratio = 4000;
  loss_streak_reduce_multiplier = 5000;
  drawdown_reduce_multiplier = 2500;
  halt_drawdown_ratio = 1500;
  halt_daily_loss_ratio = 500;
  max_exposure_ratio = 12000;
  max_order_ratio = 2000;
}

pub record RiskBudgetView : Type 0 where
  pub trading_capital_try : ℤ
  pub treasury_try : ℤ
  pub available_risk_capital_try : ℤ
  pub daily_loss_limit_try : ℤ
  pub drawdown_halt_limit_try : ℤ
  pub max_gross_exposure_try : ℤ
  pub max_order_notional_try : ℤ
  pub position_sizing_multiplier : ℕ
  pub mode : Mode

-- The keyword arguments of `evaluate`; the first three are the fields of the accounting state it reads.
pub record BudgetInput : Type 0 where
  pub trading_capital_try : ℤ
  pub treasury_try : ℤ
  pub equity_try : ℤ
  pub peak_equity_try : ℤ
  pub realized_pnl_today_try : ℤ
  pub consecutive_loss_streak : ℕ
  pub is_stressed : Bool

-- `quantize_money(amount * ratio)`
unfoldable pub scaled : ℤ → ℕ → ℤ
scaled amount ratio = trunc_div (amount *ℤ pos ratio) 10000

abbrev pub above_zero : ℤ → ℤ
above_zero amount = max_ℤ amount (pos 0)

abbrev pub daily_loss_limit : SelfFinancingPolicy → BudgetInput → ℤ
daily_loss_limit p i = scaled (above_zero i.trading_capital_try) p.halt_daily_loss_ratio

abbrev pub drawdown_limit : SelfFinancingPolicy → BudgetInput → ℤ
drawdown_limit p i = scaled (above_zero i.peak_equity_try) p.halt_drawdown_ratio

-- `realized_pnl_today_try <= -daily_loss_limit`
abbrev pub loses_too_much : SelfFinancingPolicy → BudgetInput → Bool
loses_too_much p i = leb_ℤ i.realized_pnl_today_try (neg_ℤ (daily_loss_limit p i))

-- `drawdown_try >= drawdown_limit`
abbrev pub is_drawn_down : SelfFinancingPolicy → BudgetInput → Bool
is_drawn_down p i = leb_ℤ (drawdown_limit p i) (max_ℤ (pos 0) (i.peak_equity_try -ℤ i.equity_try))

-- The multiplier for the losses in a row and the volatility.
abbrev pub base_multiplier : SelfFinancingPolicy → BudgetInput → ℕ
base_multiplier p i =
    let first =
      if leb 3 i.consecutive_loss_streak
      then min 10000 p.loss_streak_reduce_multiplier
      else 10000 in
    if i.is_stressed then min first p.drawdown_reduce_multiplier else first

abbrev is_normal : Mode → Bool
is_normal normal = true
is_normal reduce_risk_only = false
is_normal observe_only = false

-- Mode and multiplier after the daily test, and after the drawdown test.
abbrev pub after_daily : (loses : Bool) → ℕ → Mode × ℕ
after_daily true multiplier = (observe_only, 0)
after_daily false multiplier = (normal, multiplier)

abbrev pub after_drawdown : (drawn_down : Bool) → Mode × ℕ → Mode × ℕ
after_drawdown true (mode, multiplier) = (observe_only, 0)
after_drawdown false (mode, multiplier) =
    if ltb multiplier 10000 && is_normal mode
    then (reduce_risk_only, multiplier)
    else (mode, multiplier)

unfoldable pub evaluate : SelfFinancingPolicy → BudgetInput → RiskBudgetView
unfolding scaled
evaluate p i =
    let capital = above_zero i.trading_capital_try in
    let (mode, multiplier) =
      after_drawdown (is_drawn_down p i) (after_daily (loses_too_much p i) (base_multiplier p i)) in
    record {
      trading_capital_try = capital;
      treasury_try = above_zero i.treasury_try;
      available_risk_capital_try = capital;
      daily_loss_limit_try = daily_loss_limit p i;
      drawdown_halt_limit_try = drawdown_limit p i;
      max_gross_exposure_try = scaled (scaled capital p.max_exposure_ratio) multiplier;
      max_order_notional_try = scaled (scaled capital p.max_order_ratio) multiplier;
      position_sizing_multiplier = multiplier;
      mode = mode;
    }

-- `apply_self_financing`: trading capital and treasury after a profit or a loss.
unfoldable pub apply_self_financing :
    SelfFinancingPolicy → (trading_capital_try treasury_try realized_pnl_delta_try : ℤ) → ℤ × ℤ
unfolding scaled
apply_self_financing p capital treasury delta =
    if ltb_ℤ (pos 0) delta
    then (
      capital +ℤ scaled delta p.profit_compound_ratio,
      treasury +ℤ scaled delta p.profit_treasury_ratio,
    )
    else (capital +ℤ delta, treasury)
