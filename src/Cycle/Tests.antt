-- ===== src/Cycle/Tests.antt =====
-- A cycle with a stale order, one whose symbol failed, and limits that leave no room.
use meva_beta_alpha_codex.Base.{ℕ, ◌≡◌, refl, true, none, some, List, [], ◌∷◌, filter}
use meva_beta_alpha_codex.Base.Int.{pos, ◌*ℤ◌, ◌-ℤ◌}
use meva_beta_alpha_codex.Stage4.{Side, buy, sell, Order, live}
use meva_beta_alpha_codex.Lifecycle.{LifecycleSettings, is_stale}
use meva_beta_alpha_codex.Lifecycle.Counts.{count, OrderTest, passes, is_cancel_of}
use meva_beta_alpha_codex.StageRisk.{RiskPolicy}
use meva_beta_alpha_codex.StageRisk.Cancels.{IsTrading}
use meva_beta_alpha_codex.Cycle.{CycleView, accepted_actions, mid_price}
use meva_beta_alpha_codex.Cycle.Cancels.{safe_test, accepted_actions-cancels}

abbrev settings : LifecycleSettings
settings = record {
  stale_after_sec = 120;
  drift_bps = pos 250000;
  price_tolerance_bps = pos 50000;
  qty_tolerance_ratio = pos 1000000;
}

abbrev no_room : RiskPolicy
no_room = record {
  max_open_orders = 0;
  max_order_notional_try = pos 0;
  max_position_notional_try = pos 0;
  max_daily_loss_try = pos 100;
  max_drawdown_pct = pos 10;
  fee_bps_taker = pos 0;
  slippage_bps_buffer = pos 0;
  min_profit_bps = pos 0;
  replace_inflight_budget_per_symbol_try = pos 0;
  max_gross_exposure_try = pos 0;
}

abbrev order : ℕ → ℕ → Side → ℕ → Order
order id symbol side updated_at = record {
  symbol = symbol;
  side = side;
  price = pos 100000;
  qty = pos 1000;
  status = 1;
  created_at = 0;
  updated_at = updated_at;
  exchange_order_id = none;
  client_order_id = some id;
  exchange_client_id = none;
  mode = live;
}

-- Orders 1 and 2 are too old, and the symbol of order 2 has failed.
abbrev view : CycleView
view = record {
  now = 500;
  open_orders = order 1 5 buy 300 ∷ order 2 6 sell 300 ∷ order 3 5 sell 490 ∷ [];
  positions =
      record { symbol = 5; qty = pos 2; avg_cost_try = pos 40; realized_pnl_try = pos 0 } ∷ [];
  mark_prices = (5, pos 100000) ∷ (6, pos 3000) ∷ [];
  snapshot = record {
    total_equity_try = pos 1000;
    realized_today_try = pos 5;
    drawdown_pct = pos 1;
    realized_total_try = pos 5;
  };
  failed_symbols = 6 ∷ [];
}

abbrev intents : List Order
intents = order 4 5 buy 500 ∷ []

abbrev as_written : ℕ → ℕ
as_written symbol = symbol

abbrev all_orders : OrderTest
all_orders symbol side price qty id = true

trading : IsTrading no_room view.snapshot
trading = record { loss_allows = refl; drawdown_allows = refl }

accepted_actions-cancels_example :
    count (is_cancel_of all_orders) (accepted_actions as_written settings no_room view intents).0
    ≡ count
        (passes (safe_test as_written view.failed_symbols all_orders))
        (filter (is_stale settings 500 (mid_price view.mark_prices)) view.open_orders)
accepted_actions-cancels_example =
    accepted_actions-cancels all_orders as_written settings no_room view intents trading

one_left :
    count
      (passes (safe_test as_written view.failed_symbols all_orders))
      (filter (is_stale settings 500 (mid_price view.mark_prices)) view.open_orders)
    ≡ 1
unfolding is_stale mid_price ◌-ℤ◌ ◌*ℤ◌
one_left = refl

-- A fresh order at the mark price of its own symbol is stale by the mark price of the first one.
stale_by_other_symbol :
    is_stale settings 500
      (mid_price view.mark_prices)
      (record (order 9 6 sell 490) { price = pos 3000 })
    ≡ true
unfolding is_stale mid_price ◌-ℤ◌ ◌*ℤ◌
stale_by_other_symbol = refl
