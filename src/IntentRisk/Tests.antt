-- ===== src/IntentRisk/Tests.antt =====
-- An evaluation of a buy that is cut, one that costs too much in all, and one without a price.
use meva_beta_alpha_codex.Base.{ℕ, ◌*◌, ◌≡◌, refl, true, none, some, List, [], ◌∷◌}
use meva_beta_alpha_codex.Base.Int.{pos, ◌*ℤ◌, ◌+ℤ◌}
use meva_beta_alpha_codex.Stage4.{buy}
use meva_beta_alpha_codex.Sizing.{cut_down}
use meva_beta_alpha_codex.IntentRisk.Rules.{RulesProvider, get_rules, exchange_rules}
use meva_beta_alpha_codex.IntentRisk.{
  Intent, RiskPolicyContext, RiskPolicy, notional_cap, missing_limit_price, evaluate, evaluate_loop,
  record_judgement, judge, priced, normalized, afforded, under_order_cap, under_cycle_cap,
}

-- One TRY, and one as a price or a quantity.
abbrev lira : ℕ
lira = 10000000000000000

abbrev one : ℕ
one = 100000000

-- The service gives a minimum of 10 TRY, a tick of 0.01 and a step of 0.5.
abbrev provider : RulesProvider
provider = record {
  cache_ttl_seconds = 600;
  allow_default_fallback = true;
  fetch = λ symbol now. some (record {
    min_total = some (pos (10 * lira));
    tick_size = some 1000000;
    step_size = some 50000000;
  });
}

abbrev policy : RiskPolicy
policy = record {
  rules_provider = provider;
  max_orders_per_cycle = 3;
  max_open_orders_per_symbol = 1;
  cooldown_seconds = 60;
  notional_cap_try_per_cycle = pos (15 * lira);
  max_notional_per_order_try = pos (9 * lira);
}

abbrev context : RiskPolicyContext
context = record {
  open_orders_by_symbol = [];
  last_intent_ts = λ symbol side. none;
  investable_try = pos (100 * lira);
}

-- 3 at 4 TRY.
abbrev buy_three : Intent
buy_three = record {
  intent_id = 1;
  symbol = 5;
  side = buy;
  qty = pos (3 * one);
  limit_price = some (pos (4 * one));
}

abbrev intents : List Intent
intents =
    buy_three
    ∷ record buy_three { intent_id = 2 }
    ∷ record buy_three { intent_id = 3; limit_price = none }
    ∷ record buy_three { intent_id = 4 }
    ∷ []

-- The cap of 9 TRY cuts the first order to 2 at 4 TRY, which is below the minimum of 10 TRY.
capped_below_minimum :
    (evaluate policy context (λ i. 100) intents []).approved_intents
    ≡ record buy_three { qty = pos (2 * one) } ∷ []
unfolding evaluate evaluate_loop record_judgement judge priced normalized afforded under_order_cap
    under_cycle_cap get_rules exchange_rules cut_down ◌*ℤ◌ ◌+ℤ◌
capped_below_minimum = refl

two_blocked :
    (evaluate policy context (λ i. 100) intents []).last_blocked_events
    ≡ record { intent_id = 2; reason_code = notional_cap }
      ∷ record { intent_id = 3; reason_code = missing_limit_price }
      ∷ []
unfolding evaluate evaluate_loop record_judgement judge priced normalized afforded under_order_cap
    under_cycle_cap get_rules exchange_rules cut_down ◌*ℤ◌ ◌+ℤ◌
two_blocked = refl
