-- ===== src/Lifecycle/Tests.antt =====
-- A plan with a stale order, a duplicate and a new intent.
use meva_beta_alpha_codex.Base.{ℕ, ◌≡◌, refl, true, none, some, List, [], ◌∷◌, filter}
use meva_beta_alpha_codex.Base.Int.{pos, ◌*ℤ◌, ◌-ℤ◌}
use meva_beta_alpha_codex.Stage4.{Side, buy, sell, Order, live}
use meva_beta_alpha_codex.Lifecycle.{
  LifecycleSettings, is_stale, find_duplicate, duplicates, plan, place, intent_step, intent_loop,
  group_stale, stale_cancels,
}
use meva_beta_alpha_codex.Lifecycle.Counts.{count, OrderTest, passes, is_cancel_of, is_submit_of}
use meva_beta_alpha_codex.Lifecycle.Cancels.{plan-cancels}
use meva_beta_alpha_codex.Lifecycle.Submits.{is_accepted, plan-submits}

abbrev settings : LifecycleSettings
settings = record {
  stale_after_sec = 120;
  drift_bps = pos 250000;
  price_tolerance_bps = pos 50000;
  qty_tolerance_ratio = pos 1000000;
}

abbrev order : ℕ → Side → ℕ → ℕ → Order
order id side price updated_at = record {
  symbol = 5;
  side = side;
  price = pos price;
  qty = pos 1000;
  status = 1;
  created_at = 0;
  updated_at = updated_at;
  exchange_order_id = none;
  client_order_id = some id;
  exchange_client_id = none;
  mode = live;
}

-- At time 500 order 1 is too old, and order 2 is not.
abbrev open_orders : List Order
open_orders = order 1 buy 100000 300 ∷ order 2 sell 101000 490 ∷ []

-- The second intent duplicates order 2.
abbrev intents : List Order
intents = order 3 buy 100500 500 ∷ order 4 sell 101000 500 ∷ []

abbrev all_orders : OrderTest
all_orders symbol side price qty id = true

plan-cancels_example :
    count (is_cancel_of all_orders) (plan settings 500 intents open_orders (pos 101000)).actions
    ≡ count (passes all_orders) (filter (is_stale settings 500 (pos 101000)) open_orders)
plan-cancels_example = plan-cancels all_orders settings 500 intents open_orders (pos 101000)

one_cancel :
    count (is_cancel_of all_orders) (plan settings 500 intents open_orders (pos 101000)).actions ≡ 1
unfolding plan is_stale intent_loop intent_step place find_duplicate duplicates group_stale
    stale_cancels ◌-ℤ◌ ◌*ℤ◌
one_cancel = refl

plan-submits_example :
    count (is_submit_of all_orders) (plan settings 500 intents open_orders (pos 101000)).actions
    ≡ count (passes all_orders) (filter (is_accepted settings open_orders) intents)
plan-submits_example = plan-submits all_orders settings 500 intents open_orders (pos 101000)
