-- ===== src/RiskBudget/Tests.antt =====
-- A day with a loss beyond its limit, and the split of a profit of 101 units.
use meva_beta_alpha_codex.Base.{◌≡◌, refl, true, false, arith}
use meva_beta_alpha_codex.Base.Int.{pos, negsuc, ◌+ℤ◌, ◌*ℤ◌, trunc_div}
use meva_beta_alpha_codex.RiskBudget.{
  BudgetInput, default_policy, scaled, loses_too_much, evaluate, apply_self_financing,
}
use meva_beta_alpha_codex.RiskBudget.Worse.{IsTighter, evaluate-IsTighter}
use meva_beta_alpha_codex.RiskBudget.Split.{Keeps, apply_self_financing-Keeps}

-- A capital of 1000 units that lost 60 today, with a limit of 50.
abbrev bad_day : BudgetInput
bad_day = record {
  trading_capital_try = pos 1000;
  treasury_try = pos 0;
  equity_try = pos 940;
  peak_equity_try = pos 1000;
  realized_pnl_today_try = negsuc 59;
  consecutive_loss_streak = 0;
  is_stressed = false;
}

-- The same day without the loss.
abbrev flat_day : BudgetInput
flat_day = record bad_day { equity_try = pos 1000; realized_pnl_today_try = pos 0 }

evaluate-IsTighter_example :
    IsTighter (evaluate default_policy flat_day) (evaluate default_policy bad_day)
evaluate-IsTighter_example = evaluate-IsTighter default_policy flat_day bad_day (record {
  same_capital = refl;
  same_peak = refl;
  equity = omega arith;
  profit = omega arith;
  streak = omega arith;
  stress = λ e. e;
})

halts : loses_too_much default_policy bad_day ≡ true
unfolding scaled ◌*ℤ◌ trunc_div
halts = refl

apply_self_financing-Keeps_example :
    Keeps
      (pos 1000 +ℤ pos 5 +ℤ pos 101)
      (apply_self_financing default_policy (pos 1000) (pos 5) (pos 101))
apply_self_financing-Keeps_example =
    apply_self_financing-Keeps default_policy (pos 1000) (pos 5) (pos 101) refl
