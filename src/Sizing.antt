-- ===== src/Sizing.antt =====
-- domain/money_policy.py and domain/models.py: an order of a given amount on the grid of its symbol.
-- A price, a quantity, a tick and a step are whole numbers of 10^-8, an amount one of 10^-16. The
-- quotient of an amount by a price is not rounded before it is cut to the step; the code divides to 28
-- digits. A scale finer than 10^-8 has the step of one unit, which cuts nothing off. `none` is a
-- `ValidationError` that leaves the function.
pub mod Grid
mod Accepted
mod Tests
use meva_beta_alpha_codex.Base.{
  ℕ, zero, suc, ◌-◌, ◌*◌, ◌/◌, ◌^◌, Bool, true, false, not, ◌&&◌, ◌||◌, Option, none, some,
  if◌then◌else◌,
}
use meva_beta_alpha_codex.Base.Int.{ℤ, pos, negsuc, pos_part, ◌*ℤ◌, ltb_ℤ, leb_ℤ, max_ℤ}

pub record SymbolRules : Type 0 where
  pub price_scale : ℕ
  pub quantity_scale : ℕ
  pub min_total : Option ℤ
  pub min_price : Option ℤ
  pub max_price : Option ℤ
  pub min_qty : Option ℤ
  pub max_qty : Option ℤ
  pub tick_size : Option ℤ
  pub step_size : Option ℤ

-- The step that is given if it is positive, else the quantum of the scale, which has at most 8 digits.
abbrev pub step_of : Option ℤ → (scale : ℕ) → ℕ
step_of none scale = 10 ^ (8 - scale)
step_of (some (pos (suc n))) scale = suc n
step_of (some (pos zero)) scale = 10 ^ (8 - scale)
step_of (some (negsuc n)) scale = 10 ^ (8 - scale)

-- The quotient of the amounts, cut down to a multiple of the step.
unfoldable pub cut_down : (step amount divisor : ℕ) → ℕ
cut_down step amount divisor = amount / (divisor * step) * step

-- `_quantize_to_step` of what is not negative: without a positive step the value stays.
abbrev pub quantize_to_step : (step : ℕ) → ℕ → ℕ
quantize_to_step zero value = value
quantize_to_step (suc s) value = cut_down (suc s) value 1

-- The quotient by a positive number; a negative one is refused.
abbrev quantize : (step : ℕ) → ℤ → (divisor : ℕ) → Option ℤ
quantize step (pos n) divisor = some (pos (cut_down step n divisor))
quantize step (negsuc n) divisor = none

unfoldable pub quantize_price : ℤ → SymbolRules → Option ℤ
quantize_price price r = quantize (step_of r.tick_size r.price_scale) price 1

-- `quantize_quantity` of the quotient of an amount by a price. With a `quantity_scale` above 8 the code
-- keeps more digits than this; the unit here has 8.
unfoldable pub quantize_quotient : (amount price : ℤ) → SymbolRules → Option ℤ
quantize_quotient amount price r =
    quantize (step_of r.step_size r.quantity_scale) amount (pos_part price)

abbrev pub quantize_quantity : ℤ → SymbolRules → Option ℤ
quantize_quantity qty r = quantize_quotient qty (pos 1) r

abbrev is_not : ℤ → Option ℤ → Bool
is_not x none = true
is_not x (some y) = not (leb_ℤ x y && leb_ℤ y x)

abbrev is_below : ℤ → Option ℤ → Bool
is_below x none = false
is_below x (some limit) = ltb_ℤ x limit

abbrev is_above : ℤ → Option ℤ → Bool
is_above x none = false
is_above x (some limit) = ltb_ℤ limit x

-- The errors of `validate_order`.
pub data Violation : Type 0 where
  price_not_positive quantity_not_positive price_scale_violation : Violation
  quantity_scale_violation below_min_price above_max_price : Violation
  below_min_qty above_max_qty below_min_total : Violation

-- `validate_order`; `none` is a return without an error.
unfoldable pub validate_order : (price qty : ℤ) → SymbolRules → Option Violation
validate_order price qty r =
    if leb_ℤ price (pos 0)
    then some price_not_positive
    else if leb_ℤ qty (pos 0)
    then some quantity_not_positive
    else if is_not price (quantize_price price r)
    then some price_scale_violation
    else if is_not qty (quantize_quantity qty r)
    then some quantity_scale_violation
    else if is_below price r.min_price
    then some below_min_price
    else if is_above price r.max_price
    then some above_max_price
    else if is_below qty r.min_qty
    then some below_min_qty
    else if is_above qty r.max_qty
    then some above_max_qty
    else if is_below (price *ℤ qty) r.min_total
    then some below_min_total
    else none

pub data OrderSizingStatus : Type 0 where
  order_ok below_min_notional invalid_price invalid_quantity violates_rules : OrderSizingStatus

pub data SizingReason : Type 0 where
  desired_notional_non_positive desired_price_non_positive : SizingReason
  desired_below_min_notional price_non_positive_after_quantize : SizingReason
  quantity_non_positive_after_quantize notional_below_min_notional_after_quantize : SizingReason
  symbol_rule_validation_failed : SizingReason

pub record OrderSizingResult : Type 0 where
  pub status : OrderSizingStatus
  pub quantized_price : ℤ
  pub quantized_quantity : ℤ
  pub notional_try : ℤ
  pub reason : Option SizingReason

abbrev pub refused : OrderSizingStatus → (price qty notional : ℤ) → SizingReason → OrderSizingResult
refused status price qty notional reason = record {
  status = status;
  quantized_price = price;
  quantized_quantity = qty;
  notional_try = notional;
  reason = some reason;
}

-- `rules.min_total or fallback_min_notional_try`
abbrev pub min_notional : SymbolRules → (fallback : ℤ) → ℤ
min_notional r fallback = elim r.min_total [
  | none ↦ fallback
  | some total ↦ if leb_ℤ total (pos 0) && leb_ℤ (pos 0) total then fallback else total
]

abbrev pub validated : (price qty : ℤ) → Option Violation → OrderSizingResult
validated price qty none = record {
  status = order_ok;
  quantized_price = price;
  quantized_quantity = qty;
  notional_try = price *ℤ qty;
  reason = none;
}
validated price qty (some _) =
    refused violates_rules price qty (price *ℤ qty) symbol_rule_validation_failed

-- From the quantized quantity on.
unfoldable pub with_quantity : SymbolRules → (least price qty : ℤ) → OrderSizingResult
with_quantity r least price qty =
    let notional = price *ℤ qty in
    if leb_ℤ qty (pos 0)
    then refused invalid_quantity price qty notional quantity_non_positive_after_quantize
    else if ltb_ℤ (pos 0) least && ltb_ℤ notional least
    then refused below_min_notional price qty notional notional_below_min_notional_after_quantize
    else validated price qty (validate_order price qty r)

-- What comes of a value, if no error leaves the function before it is there.
abbrev pub after {ℓ κ} : {A : Type ℓ} {B : Type κ} → Option A → (A → Option B) → Option B
after none f = none
after (some a) f = f a

-- From the quantized price on.
unfoldable pub with_price : SymbolRules → (least target price : ℤ) → Option OrderSizingResult
unfolding with_quantity
with_price r least target price =
    if leb_ℤ price (pos 0)
    then some (refused invalid_price price (pos 0) (pos 0) price_non_positive_after_quantize)
    else after (quantize_quotient target price r) (λ qty. some (with_quantity r least price qty))

-- The amount that the order is to have.
abbrev pub target_notional : SymbolRules → (desired fallback : ℤ) → (allow_upgrade : Bool) → ℤ
target_notional r desired fallback allow =
    if allow then max_ℤ desired (min_notional r fallback) else desired

unfoldable pub size_order_from_notional :
    (desired_notional_try desired_price : ℤ)
    → SymbolRules
    → (fallback_min_notional_try : ℤ) → (allow_min_notional_upgrade : Bool)
    → Option OrderSizingResult
unfolding with_price
size_order_from_notional desired price r fallback allow =
    let least = min_notional r fallback in
    if leb_ℤ desired (pos 0)
    then some (refused invalid_quantity (pos 0) (pos 0) (pos 0) desired_notional_non_positive)
    else if leb_ℤ price (pos 0)
    then some (refused invalid_price (pos 0) (pos 0) (pos 0) desired_price_non_positive)
    else if ltb_ℤ desired least && not allow
    then after (quantize_price price r)
        (λ p. some (refused below_min_notional p (pos 0) (pos 0) desired_below_min_notional))
    else after (quantize_price price r)
        (λ p. with_price r least (target_notional r desired fallback allow) p)
