-- ===== src/Allocation/Caps.antt =====
-- The records of the allocation, and the limits of one intent: what a buy or a sell may take.
use meva_beta_alpha_codex.Base.{
  ℕ, Bool, false, not, Option, none, some, List, [], ◌∷◌, if◌then◌else◌, get_or, number_key,
}
use meva_beta_alpha_codex.Base.Int.{ℤ, pos, ◌-ℤ◌, ◌*ℤ◌, ltb_ℤ, leb_ℤ, max_ℤ}
use meva_beta_alpha_codex.Base.Dict.{Dict}
use meva_beta_alpha_codex.Stage4.{Side, buy, sell}
use meva_beta_alpha_codex.Allocation.Limits.{
  ReasonCode, no_mark_price, cash_target, max_intent_cap, cycle_notional_cap,
  max_position_exposure_cap, no_position, position_value_cap, Limit,
}
use meva_beta_alpha_codex.Allocation.Budget.{AllocationKnobs, fine}

pub data IntentType : Type 0 where
  place cancel replace : IntentType

-- Without `rationale` and `confidence`, which are not read here.
pub record Intent : Type 0 where
  pub symbol : ℕ
  pub side : Side
  pub intent_type : IntentType
  pub target_notional_try : Option ℤ
  pub strategy_id : ℕ

pub record PositionSummary : Type 0 where
  pub qty : ℤ
  pub avg_cost : ℤ

pub data Status : Type 0 where
  accepted scaled rejected : Status

-- `rationale` is the text of the reason.
pub record SizedAction : Type 0 where
  pub symbol : ℕ
  pub side : Side
  pub notional_try : ℤ
  pub price : ℤ
  pub rationale : ReasonCode
  pub strategy_id : ℕ
  pub intent_index : ℕ

pub record AllocationDecision : Type 0 where
  pub intent : Intent
  pub allocated_notional_try : Option ℤ
  pub status : Status
  pub reason : ReasonCode
  pub intent_index : ℕ

-- What the loop changes.
pub record Progress : Type 0 where
  pub remaining_deploy_budget_try : ℤ
  pub remaining_cycle_notional : ℤ
  pub actions : List SizedAction
  pub decisions : List AllocationDecision

-- What the loop reads: the knobs, the holdings and the prices.
pub record Market : Type 0 where
  pub knobs : AllocationKnobs
  pub positions : Dict ℕ PositionSummary
  pub mark_prices : Dict ℕ ℤ

-- The amount in the unit of the loop.
abbrev pub refined : AllocationKnobs → ℤ → ℤ
refined k x = x *ℤ pos (fine k)

-- `_apply_optional_cap`
abbrev pub apply_optional_cap : (requested_notional cap_value configured_cap : ℤ) → ℤ
apply_optional_cap requested cap configured =
    if leb_ℤ configured (pos 0) then requested else max_ℤ cap (pos 0)

-- `_max_new_position_notional`: `none` is infinity.
abbrev pub max_new_position_notional : (current max_position : ℤ) → Option ℤ
max_new_position_notional current cap =
    if leb_ℤ cap (pos 0) then none else some (max_ℤ (cap -ℤ current) (pos 0))

-- The limit that is there when its knob is positive.
abbrev pub intent_limits : AllocationKnobs → List Limit
intent_limits k =
    if ltb_ℤ (pos 0) k.max_intent_notional_try
    then (max_intent_cap, some (refined k k.max_intent_notional_try)) ∷ []
    else []

abbrev pub cycle_limit : AllocationKnobs → Progress → (requested : ℤ) → Limit
cycle_limit k s requested = (
  cycle_notional_cap,
  some (apply_optional_cap requested s.remaining_cycle_notional k.max_total_notional_try_per_cycle),
)

-- `position.qty * mark_price` of a positive position.
abbrev pub value_of : AllocationKnobs → Option PositionSummary → (mark_price : ℤ) → ℤ
value_of k none mark = pos 0
value_of k (some p) mark = if ltb_ℤ (pos 0) p.qty then refined k (p.qty *ℤ mark) else pos 0

abbrev pub buy_limits :
    AllocationKnobs → Progress → Option PositionSummary → (mark_price requested : ℤ) → List Limit
buy_limits k s position mark requested =
    (cash_target, some s.remaining_deploy_budget_try)
    ∷ (
      max_position_exposure_cap,
      max_new_position_notional (value_of k position mark)
          (refined k k.max_position_try_per_symbol),
    )
    ∷ cycle_limit k s requested
    ∷ intent_limits k

abbrev pub sell_limits :
    AllocationKnobs → Progress → Option PositionSummary → (mark_price requested : ℤ) → List Limit
sell_limits k s position mark requested =
    (position_value_cap, some (value_of k position mark))
    ∷ cycle_limit k s requested
    ∷ intent_limits k

-- The limits in their order of precedence, and the price; or the reason of a rejection.
pub data Terms : Type 0 where
  refused : ReasonCode → Terms
  limited : List Limit → ℤ → Terms

abbrev pub is_positive : Option ℤ → Bool
is_positive none = false
is_positive (some x) = ltb_ℤ (pos 0) x

abbrev pub holds : Option PositionSummary → Bool
holds none = false
holds (some p) = ltb_ℤ (pos 0) p.qty

unfoldable pub terms_of :
    Side
    → AllocationKnobs
    → Progress
    → Option PositionSummary
    → (mark : Option ℤ) → (requested : ℤ) → Terms
terms_of buy k s position mark requested =
    if is_positive mark
    then limited (buy_limits k s position (get_or (pos 0) mark) requested) (get_or (pos 0) mark)
    else refused no_mark_price
terms_of sell k s position mark requested =
    if not (holds position)
    then refused no_position
    else if is_positive mark
    then limited (sell_limits k s position (get_or (pos 0) mark) requested) (get_or (pos 0) mark)
    else refused no_mark_price
