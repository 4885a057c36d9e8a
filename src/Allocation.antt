-- ===== src/Allocation.antt =====
-- services/allocation_service.py and domain/allocation.py: the cash of a cycle shared out among its
-- intents. A price and a quantity are whole numbers of 10^-8, an amount of TRY one of 10^-16; ratios
-- are whole numbers of 10^-8, basis points of 10^-4. `allocate` divides the investable amount by
-- one plus the fee ratio and multiplies it with a fraction: inside it all amounts are whole numbers of
-- a unit that is finer by the factor `fine`, so nothing is rounded. A quantity is given as the amount
-- to be divided by the price. Symbols are numbers, in canonical form.
pub mod Limits
pub mod Budget
mod Fits
mod Bounds
mod Reserve
mod Tests
pub mod Caps
use meva_beta_alpha_codex.Base.{
  ℕ, suc, ◌+◌, ◌*◌, Bool, true, false, not, ◌&&◌, ◌||◌, Option, none, some, List, [], ◌∷◌, ◌++◌,
  map, if◌then◌else◌, get_or, number_key, all,
}
use meva_beta_alpha_codex.Base.Int.{ℤ, pos, pos_part, ◌+ℤ◌, ◌-ℤ◌, ◌*ℤ◌, ltb_ℤ, leb_ℤ, min_ℤ, max_ℤ}
use meva_beta_alpha_codex.Base.Dict.{Dict, lookup, insert}
use meva_beta_alpha_codex.Stage4.{Side, buy, sell}
use meva_beta_alpha_codex.Allocation.Limits.{
  ReasonCode, ok, not_implemented, no_mark_price, cash_target, min_notional, max_intent_cap,
  cycle_notional_cap, max_position_exposure_cap, no_position, position_value_cap, Limit, Sizing,
  too_small, sized, size,
}
use meva_beta_alpha_codex.Allocation.Budget.{
  AllocationKnobs, UsagePart, resolve_investable_budget, fine, fee_multiplier,
}
use meva_beta_alpha_codex.Allocation.Caps.{
  IntentType, place, cancel, replace, Intent, PositionSummary, Status, accepted, scaled, rejected,
  SizedAction, AllocationDecision, Progress, Market, refined, apply_optional_cap,
  max_new_position_notional, intent_limits, cycle_limit, value_of, buy_limits, sell_limits, Terms,
  refused, limited, is_positive, holds, terms_of,
}

-- `_append_decision`, for a rejection.
abbrev pub reject : Intent → (index : ℕ) → ReasonCode → Progress → Progress
reject i index reason s = record s {
  decisions =
      s.decisions
      ++ record {
        intent = i;
        allocated_notional_try = none;
        status = rejected;
        reason = reason;
        intent_index = index;
      }
        ∷ [];
}

abbrev pub is_ok : ReasonCode → Bool
is_ok r = elim r [ ok ↦ true | _ ↦ false ]

abbrev pub spent_by : Side → ℤ → ℤ
spent_by buy x = x
spent_by sell x = pos 0

-- The decision, the action and what is left.
unfoldable pub accept :
    Intent → (index : ℕ) → AllocationKnobs → (price notional : ℤ) → ReasonCode → Progress → Progress
accept i index k price x reason s = record {
  remaining_deploy_budget_try = s.remaining_deploy_budget_try -ℤ spent_by i.side x;
  remaining_cycle_notional =
      if ltb_ℤ (pos 0) k.max_total_notional_try_per_cycle
      then s.remaining_cycle_notional -ℤ x
      else s.remaining_cycle_notional;
  actions =
      s.actions
      ++ record {
        symbol = i.symbol;
        side = i.side;
        notional_try = x;
        price = price;
        rationale = reason;
        strategy_id = i.strategy_id;
        intent_index = index;
      }
        ∷ [];
  decisions =
      s.decisions
      ++ record {
        intent = i;
        allocated_notional_try = some x;
        status = if is_ok reason then accepted else scaled;
        reason = reason;
        intent_index = index;
      }
        ∷ [];
}

-- The sizing of an intent under its terms, and what it does to the run.
unfoldable pub settle :
    Intent → (index : ℕ) → AllocationKnobs → (price : ℤ) → Sizing → Progress → Progress
unfolding accept
settle i index k price (too_small reason) s = reject i index reason s
settle i index k price (sized x reason) s = accept i index k price x reason s

unfoldable pub under_terms :
    Intent → (index : ℕ) → AllocationKnobs → (requested : ℤ) → Terms → Progress → Progress
unfolding settle
under_terms i index k requested (refused reason) s = reject i index reason s
under_terms i index k requested (limited limits price) s =
    settle i index k price (size (refined k k.min_order_notional_try) requested limits) s

-- `intent.intent_type != "place"`
abbrev pub is_place : IntentType → Bool
is_place place = true
is_place cancel = false
is_place replace = false

-- The body of the loop.
unfoldable pub intent_step : Market → Intent → (index : ℕ) → Progress → Progress
unfolding under_terms terms_of
intent_step m i index s =
    if not (is_place i.intent_type)
    then reject i index not_implemented s
    else if not (is_positive i.target_notional_try)
    then reject i index min_notional s
    else (let requested = refined m.knobs (get_or (pos 0) i.target_notional_try) in
        under_terms i index m.knobs requested
          (terms_of i.side m.knobs s (lookup i.symbol m.positions) (lookup i.symbol m.mark_prices)
            requested)
          s)

unfoldable pub allocate_loop : Market → List Intent → (index : ℕ) → Progress → Progress
unfolding intent_step
allocate_loop m [] index s = s
allocate_loop m (i ∷ rest) index s = allocate_loop m rest (index + 1) (intent_step m i index s)

-- The sum of the amounts of the actions on one side, or on both.
abbrev pub sum_where : (Side → Bool) → List SizedAction → ℤ
sum_where p [] = pos 0
sum_where p (a ∷ rest) =
    let others = sum_where p rest in if p a.side then a.notional_try +ℤ others else others

abbrev pub is_buy : Side → Bool
is_buy buy = true
is_buy sell = false

abbrev pub planned_total : List SizedAction → ℤ
planned_total actions = sum_where is_buy actions

pub record AllocationResult : Type 0 where
  pub actions : List SizedAction
  pub decisions : List AllocationDecision
  pub cash_try : ℤ
  pub investable_total_try : ℤ
  pub investable_this_cycle_try : ℤ
  pub deploy_budget_try : ℤ
  pub planned_total_try : ℤ
  pub unused_budget_try : ℤ
  pub investable_usage_reason : List UsagePart

abbrev pub investable_total : (cash_try : ℤ) → AllocationKnobs → ℤ
investable_total cash k = max_ℤ (cash -ℤ k.target_try_cash) (pos 0)

-- The investable amount of the cycle over one plus the fee ratio.
unfoldable pub deploy_budget : (cash_try : ℤ) → AllocationKnobs → ℤ
deploy_budget cash k = (resolve_investable_budget (investable_total cash k) k).0 *ℤ pos 100000000

abbrev pub start : (cash_try : ℤ) → AllocationKnobs → Progress
start cash k = record {
  remaining_deploy_budget_try = deploy_budget cash k;
  remaining_cycle_notional = refined k k.max_total_notional_try_per_cycle;
  actions = [];
  decisions = [];
}

unfoldable pub allocate : List Intent → (cash_try : ℤ) → Market → AllocationResult
unfolding allocate_loop
allocate intents cash m =
    let end = allocate_loop m intents 0 (start cash m.knobs) in
    let total = investable_total cash m.knobs in
    let (amount, reason) = resolve_investable_budget total m.knobs in
    record {
      actions = end.actions;
      decisions = end.decisions;
      cash_try = cash;
      investable_total_try = total;
      investable_this_cycle_try = amount;
      deploy_budget_try = deploy_budget cash m.knobs;
      planned_total_try = planned_total end.actions;
      unused_budget_try = max_ℤ (pos 0) (deploy_budget cash m.knobs -ℤ planned_total end.actions);
      investable_usage_reason = reason;
    }
