-- ===== src/IntentRisk.antt =====
-- risk/policy.py: the limits on the intents of a cycle, before they become orders.
-- A price and a quantity are whole numbers of 10^-8, an amount one of 10^-16; the quotient of an
-- amount by a price is not rounded before it is cut to the step. Symbols are numbers, in canonical
-- form. The clock is read once for an intent. What is logged of an event is its reason.
pub mod Rules
pub mod Judged
mod Limits
mod Tests
use meva_beta_alpha_codex.Base.{
  ℕ, zero, suc, ◌+◌, Bool, true, false, ◌&&◌, ◌||◌, Option, none, some, List, [], ◌∷◌, ◌++◌, take,
  if◌then◌else◌, get_or, ltb, leb, number_key, Key, nat_beq, ◌↔◌, ◌≡◌, ◌==◌,
}
use meva_beta_alpha_codex.Base.Int.{ℤ, pos, negsuc, pos_part, ◌+ℤ◌, ◌*ℤ◌, ltb_ℤ, leb_ℤ, neg_ℤ}
use meva_beta_alpha_codex.Base.Dict.{Dict, lookup}
use meva_beta_alpha_codex.Stage4.{Side, buy, sell, side_rank}
use meva_beta_alpha_codex.Sizing.{cut_down, quantize_to_step}
use meva_beta_alpha_codex.IntentRisk.Rules.{ExchangeRules, RulesProvider, RulesCache, get_rules}

-- Without the fields that the policy only copies.
pub record Intent : Type 0 where
  pub intent_id : ℕ
  pub symbol : ℕ
  pub side : Side
  pub qty : ℤ
  pub limit_price : Option ℤ

-- The reason codes of the blocked events.
pub data BlockReason : Type 0 where
  max_open_orders_per_symbol cooldown rules_unavailable missing_limit_price : BlockReason
  non_positive_after_quantize min_notional cash_reserve_target : BlockReason
  max_notional_per_order_cap_non_positive notional_cap : BlockReason

pub record RiskPolicyContext : Type 0 where
  pub open_orders_by_symbol : Dict ℕ ℕ
  pub last_intent_ts : (symbol : ℕ) → Side → Option ℕ
  pub investable_try : ℤ

pub record RiskPolicy : Type 0 where
  pub rules_provider : RulesProvider
  pub max_orders_per_cycle : ℕ
  pub max_open_orders_per_symbol : ℕ
  pub cooldown_seconds : ℕ
  pub notional_cap_try_per_cycle : ℤ
  pub max_notional_per_order_try : ℤ

-- What becomes of an intent: it is blocked, or it goes on with its quantized price and quantity.
pub data Judgement : Type 0 where
  blocked : BlockReason → Judgement
  approved : (price qty : ℤ) → Judgement

-- `age < self.cooldown_seconds`
abbrev pub is_cooling : RiskPolicy → (now : ℕ) → Option ℕ → Bool
is_cooling p now none = false
is_cooling p now (some last) = ltb now (last + p.cooldown_seconds)

-- `_quantize_to_step`, toward zero.
abbrev pub round_to : (step : ℕ) → ℤ → ℤ
round_to step (pos n) = pos (quantize_to_step step n)
round_to step (negsuc n) = neg_ℤ (pos (quantize_to_step step (suc n)))

-- `round_qty(max_notional_per_order_try / price, …)`, where the step is positive, as in all rules that
-- the provider gives.
abbrev pub capped_qty : RiskPolicy → ExchangeRules → (price : ℤ) → ℤ
capped_qty p r price =
    pos (cut_down r.qty_step (pos_part p.max_notional_per_order_try) (pos_part price))

-- The cap of the cycle.
unfoldable pub under_cycle_cap : RiskPolicy → (used_notional price qty : ℤ) → Judgement
under_cycle_cap p used price qty =
    if ltb_ℤ p.notional_cap_try_per_cycle (used +ℤ qty *ℤ price)
    then blocked notional_cap
    else approved price qty

-- The cap of one order, which lowers the quantity.
unfoldable pub under_order_cap :
    RiskPolicy → ExchangeRules → (used_notional price qty : ℤ) → Judgement
unfolding under_cycle_cap
under_order_cap p r used price qty =
    if ltb_ℤ (pos 0) p.max_notional_per_order_try
      && ltb_ℤ p.max_notional_per_order_try (qty *ℤ price)
    then (if leb_ℤ (capped_qty p r price) (pos 0)
        then blocked max_notional_per_order_cap_non_positive
        else under_cycle_cap p used price (capped_qty p r price))
    else under_cycle_cap p used price qty

abbrev pub is_buy : Side → Bool
is_buy buy = true
is_buy sell = false

-- The cash reserve, for a buy.
unfoldable pub afforded :
    RiskPolicy
    → RiskPolicyContext
    → ExchangeRules
    → Side
    → (used_notional price qty : ℤ) → Judgement
unfolding under_order_cap
afforded p c r side used price qty =
    if is_buy side
      && ltb_ℤ (pos 0) c.investable_try
      && ltb_ℤ c.investable_try (used +ℤ qty *ℤ price)
    then blocked cash_reserve_target
    else under_order_cap p r used price qty

-- `_normalize_intent` with the rules of the symbol, and what follows it.
unfoldable pub normalized :
    RiskPolicy
    → RiskPolicyContext
    → Side
    → (used_notional price qty : ℤ) → Option ExchangeRules
    → Judgement
unfolding afforded
normalized p c side used price qty none = blocked rules_unavailable
normalized p c side used price qty (some r) =
    let q_price = round_to r.price_tick price in
    let q_qty = round_to r.qty_step qty in
    if leb_ℤ q_price (pos 0) || leb_ℤ q_qty (pos 0)
    then blocked non_positive_after_quantize
    else if ltb_ℤ (q_price *ℤ q_qty) r.min_notional
    then blocked min_notional
    else afforded p c r side used q_price q_qty

-- An intent that is neither one too many nor too early.
unfoldable pub priced :
    RiskPolicy
    → RiskPolicyContext
    → (now : ℕ) → (used_notional : ℤ) → Intent
    → Option ℤ
    → RulesCache
    → Judgement × RulesCache
unfolding normalized
priced p c now used i none cache = (blocked missing_limit_price, cache)
priced p c now used i (some price) cache =
    let (rules, cache') = get_rules p.rules_provider i.symbol now cache in
    (normalized p c i.side used price i.qty rules, cache')

-- The body of the loop, up to the verdict on the intent.
unfoldable pub judge :
    RiskPolicy
    → RiskPolicyContext
    → (now : ℕ) → (used_notional : ℤ) → Intent
    → RulesCache
    → Judgement × RulesCache
unfolding priced
judge p c now used i cache =
    if leb p.max_open_orders_per_symbol (get_or 0 (lookup i.symbol c.open_orders_by_symbol))
    then (blocked max_open_orders_per_symbol, cache)
    else if is_cooling p now (c.last_intent_ts i.symbol i.side)
    then (blocked cooldown, cache)
    else priced p c now used i i.limit_price cache

pub record BlockedEvent : Type 0 where
  pub intent_id : ℕ
  pub reason_code : BlockReason

-- What the loop changes.
pub record Evaluation : Type 0 where
  pub approved_intents : List Intent
  pub used_notional : ℤ
  pub last_blocked_events : List BlockedEvent
  pub cache : RulesCache

unfoldable pub record_judgement : Intent → Judgement × RulesCache → Evaluation → Evaluation
record_judgement i (blocked reason, cache) s = record s {
  last_blocked_events =
      s.last_blocked_events ++ record { intent_id = i.intent_id; reason_code = reason } ∷ [];
  cache = cache;
}
record_judgement i (approved price qty, cache) s = record s {
  approved_intents = s.approved_intents ++ record i { qty = qty; limit_price = some price } ∷ [];
  used_notional = s.used_notional +ℤ qty *ℤ price;
  cache = cache;
}

-- The loop; `clock` gives the reading for an intent.
unfoldable pub evaluate_loop :
    RiskPolicy → RiskPolicyContext → (clock : Intent → ℕ) → List Intent → Evaluation → Evaluation
unfolding record_judgement judge
evaluate_loop p c clock [] s = s
evaluate_loop p c clock (i ∷ rest) s =
    evaluate_loop p c clock rest
      (record_judgement i (judge p c (clock i) s.used_notional i s.cache) s)

-- `evaluate`
unfoldable pub evaluate :
    RiskPolicy → RiskPolicyContext → (clock : Intent → ℕ) → List Intent → RulesCache → Evaluation
unfolding evaluate_loop
evaluate p c clock intents cache =
    evaluate_loop p c clock (take p.max_orders_per_cycle intents) (record {
      approved_intents = [];
      used_notional = pos 0;
      last_blocked_events = [];
      cache = cache;
    })
