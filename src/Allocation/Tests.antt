-- ===== src/Allocation/Tests.antt =====
-- Runs of the allocation with a reserve of 300, a fee of 20 basis points and a cap of 500.
use meva_beta_alpha_codex.Base.{ℕ, ◌*◌, ◌-◌, ◌≡◌, refl, some, List, [], ◌∷◌, map}
use meva_beta_alpha_codex.Base.Int.{pos, ◌+ℤ◌, ◌-ℤ◌, ◌*ℤ◌}
use meva_beta_alpha_codex.Stage4.{Side, buy, sell}
use meva_beta_alpha_codex.Allocation.Limits.{size}
use meva_beta_alpha_codex.Allocation.Budget.{
  AllocationKnobs, use_all, resolve_investable_budget, by_mode,
}
use meva_beta_alpha_codex.Allocation.Reserve.{IsAllocated, allocate-IsAllocated}
use meva_beta_alpha_codex.Allocation.Caps.{Intent, place, Market, terms_of}
use meva_beta_alpha_codex.Allocation.{
  allocate, allocate_loop, intent_step, under_terms, settle, accept, deploy_budget,
}

-- One TRY.
abbrev lira : ℕ
lira = 10000000000000000

abbrev knobs : AllocationKnobs
knobs = record {
  target_try_cash = pos (300 * lira);
  try_cash_max = pos 0;
  min_order_notional_try = pos (10 * lira);
  fee_buffer_bps = pos 200000;
  fee_buffer_ratio = pos 0;
  max_intent_notional_try = pos 0;
  max_position_try_per_symbol = pos (150 * lira);
  max_total_notional_try_per_cycle = pos (500 * lira);
  investable_usage_mode = use_all;
  investable_usage_fraction = pos 100000000;
  max_try_per_cycle = pos 0;
}

abbrev intent : Side → ℕ → ℕ → Intent
intent side symbol amount = record {
  symbol = symbol;
  side = side;
  intent_type = place;
  target_notional_try = some (pos (amount * lira));
  strategy_id = 1;
}

-- The price is 100, and one unit of symbol 5 is held.
abbrev market : Market
market = record {
  knobs = knobs;
  positions = (5, record { qty = pos 100000000; avg_cost = pos 100 }) ∷ [];
  mark_prices = (5, pos 10000000000) ∷ (6, pos 10000000000) ∷ [];
}

abbrev intents : List Intent
intents = intent buy 6 120 ∷ intent buy 7 50 ∷ intent buy 6 100 ∷ intent sell 5 130 ∷ []

allocate-IsAllocated_example :
    IsAllocated (pos (501 * lira)) market (allocate intents (pos (501 * lira)) market)
allocate-IsAllocated_example = allocate-IsAllocated intents (pos (501 * lira)) market

-- The unit of 10^-16 in that of `allocate`.
abbrev fine_lira : ℕ
fine_lira = 100000000 * 100200000 * lira

-- Without a price there is no buy; the sell is cut to what is held.
amounts :
    map (λ a. a.notional_try) (allocate intents (pos (501 * lira)) market).actions
    ≡ pos (120 * fine_lira)
      ∷ pos (201 * 100000000 * 100000000 * lira - 120 * fine_lira)
      ∷ pos (100 * fine_lira)
      ∷ []
unfolding allocate allocate_loop intent_step under_terms terms_of settle accept size deploy_budget
    resolve_investable_budget by_mode ◌*ℤ◌ ◌+ℤ◌ ◌-ℤ◌
amounts = refl

-- Two sells of the same symbol are each cut to all that is held.
sold_twice :
    map
      (λ a. a.notional_try)
      (allocate (intent sell 5 100 ∷ intent sell 5 100 ∷ []) (pos 0) market).actions
    ≡ pos (100 * fine_lira) ∷ pos (100 * fine_lira) ∷ []
unfolding allocate allocate_loop intent_step under_terms terms_of settle accept size deploy_budget
    resolve_investable_budget by_mode ◌*ℤ◌ ◌+ℤ◌ ◌-ℤ◌
sold_twice = refl
