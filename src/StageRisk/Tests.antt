-- ===== src/StageRisk/Tests.antt =====
-- Concrete inputs for the theorems on Stage 4's action limits.
use meva_beta_alpha_codex.Base.{◌≡◌, refl, none, some, List, [], ◌∷◌, arith}
use meva_beta_alpha_codex.Base.Int.{pos, negsuc, ◌+ℤ◌, ◌-ℤ◌, ◌*ℤ◌, ◌≤ℤ◌}
use meva_beta_alpha_codex.Stage4.{
  LifecycleAction, submit, cancel, buy, sell, new_intent, stale, PnlSnapshot, Position,
}
use meva_beta_alpha_codex.StageRisk.{
  RiskPolicy, Book, Projection, type_step, submit_step, side_step, buy_step, sell_step,
  sell_blocked, below_min_profit, replace_blocked, old_notional, filter_loop, filter_actions,
}
use meva_beta_alpha_codex.StageRisk.OpenOrders.{IsWithin, filter_actions-IsWithin}
use meva_beta_alpha_codex.StageRisk.Sells.{sold, filter_loop-bought_sold}
use meva_beta_alpha_codex.StageRisk.Exposure.{bought, filter_loop-bought}

abbrev limits : RiskPolicy
limits = record {
  max_open_orders = 2;
  max_order_notional_try = pos 500;
  max_position_notional_try = pos 600;
  max_daily_loss_try = pos 100;
  max_drawdown_pct = pos 10;
  fee_bps_taker = pos 100000;
  slippage_bps_buffer = pos 100000;
  min_profit_bps = pos 300000;
  replace_inflight_budget_per_symbol_try = pos 600;
  max_gross_exposure_try = pos 600;
}

abbrev held : Position
held = record { symbol = 1; qty = pos 5; avg_cost_try = pos 40; realized_pnl_try = pos 0 }

abbrev book : Book
book = record { positions_by_symbol = (1, held) ∷ []; open_orders_by_client_id = [] }

abbrev buy_ten : LifecycleAction
buy_ten = record {
  action_type = submit;
  symbol = 2;
  side = buy;
  price = pos 30;
  qty = pos 10;
  reason = new_intent;
  client_order_id = some 7;
  exchange_order_id = none;
  replace_for_client_order_id = none;
}

abbrev sell_low : LifecycleAction
sell_low = record buy_ten { symbol = 1; side = sell; price = pos 40; qty = pos 5 }

abbrev cancel_old : LifecycleAction
cancel_old = record buy_ten { action_type = cancel; reason = stale }

abbrev good_day : PnlSnapshot
good_day = record {
  total_equity_try = pos 1000;
  realized_today_try = pos 5;
  drawdown_pct = pos 1;
  realized_total_try = pos 5;
}

abbrev bad_day : PnlSnapshot
bad_day = record good_day { realized_today_try = negsuc 99 }

abbrev batch : List LifecycleAction
batch = buy_ten ∷ cancel_old ∷ buy_ten ∷ buy_ten ∷ []

abbrev from_start : Projection
from_start = record { open_orders = 0; position_notional = pos 0 }

-- The third buy would bring the position to 900.
batch_run :
    (filter_actions limits book 0 (pos 0) good_day batch).0 ≡ buy_ten ∷ cancel_old ∷ buy_ten ∷ []
unfolding filter_actions filter_loop type_step submit_step side_step buy_step replace_blocked
    old_notional ◌+ℤ◌ ◌-ℤ◌ ◌*ℤ◌
batch_run = refl

-- With no room for another order the cancel makes room for one buy.
full_run : (filter_actions limits book 2 (pos 0) good_day batch).0 ≡ cancel_old ∷ buy_ten ∷ []
unfolding filter_actions filter_loop type_step submit_step side_step buy_step replace_blocked
    old_notional ◌+ℤ◌ ◌-ℤ◌ ◌*ℤ◌
full_run = refl

-- On a day with a loss at its limit nothing is accepted, the cancel included.
halted_run : (filter_actions limits book 0 (pos 0) bad_day batch).0 ≡ []
unfolding filter_actions
halted_run = refl

filter_actions-IsWithin_example :
    IsWithin 2 2 (filter_actions limits book 2 (pos 0) good_day batch).0
filter_actions-IsWithin_example = filter_actions-IsWithin limits book 2 (pos 0) good_day batch

filter_loop-bought_example :
    let (kept, _, end) = filter_loop limits book from_start batch in
    (end.position_notional ≡ pos 0 +ℤ bought kept) × (pos 0 +ℤ bought kept ≤ℤ pos 600)
filter_loop-bought_example =
    filter_loop-bought limits book from_start batch (refl, (refl, (refl, (refl, tt)))) (omega arith)

abbrev spent : Projection
spent = record { open_orders = 0; position_notional = pos 500 }

-- Positions of 500 leave room for 100. The sell of 200 is rejected by the profit test, and yet after
-- it the buy of 300 is accepted, which without it is not.
rejected_sell_run :
    (filter_actions limits book 0 (pos 500) good_day (sell_low ∷ buy_ten ∷ [])).0 ≡ buy_ten ∷ []
unfolding filter_actions filter_loop type_step submit_step side_step buy_step sell_step sell_blocked
    below_min_profit replace_blocked old_notional ◌+ℤ◌ ◌-ℤ◌ ◌*ℤ◌
rejected_sell_run = refl

buy_alone_run : (filter_actions limits book 0 (pos 500) good_day (buy_ten ∷ [])).0 ≡ []
unfolding filter_actions filter_loop type_step submit_step side_step buy_step replace_blocked
    old_notional ◌+ℤ◌ ◌-ℤ◌ ◌*ℤ◌
buy_alone_run = refl

filter_loop-bought_sold_example :
    pos 500 +ℤ bought (filter_loop limits book spent (sell_low ∷ buy_ten ∷ [])).0
    ≤ℤ pos 600 +ℤ sold (sell_low ∷ buy_ten ∷ [])
unfolding ◌*ℤ◌
filter_loop-bought_sold_example =
    filter_loop-bought_sold limits book spent (sell_low ∷ buy_ten ∷ []) (omega arith)
      (omega arith, (omega arith, tt)) (omega arith)
