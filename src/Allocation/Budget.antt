-- ===== src/Allocation/Budget.antt =====
-- What may be spent in a cycle: `_resolve_investable_budget` and `_resolve_fee_buffer_ratio`.
use meva_beta_alpha_codex.Base.{ℕ, ◌+◌, ◌*◌, List, [], ◌∷◌, if◌then◌else◌}
use meva_beta_alpha_codex.Base.Int.{ℤ, pos, pos_part, ◌-ℤ◌, ◌*ℤ◌, ltb_ℤ, min_ℤ, max_ℤ}

-- `investable_usage_mode.strip().lower()`; any other text is `use_all`.
pub data UsageMode : Type 0 where
  fraction cap use_all : UsageMode

pub record AllocationKnobs : Type 0 where
  pub target_try_cash : ℤ
  pub try_cash_max : ℤ
  pub min_order_notional_try : ℤ
  pub fee_buffer_bps : ℤ
  pub fee_buffer_ratio : ℤ
  pub max_intent_notional_try : ℤ
  pub max_position_try_per_symbol : ℤ
  pub max_total_notional_try_per_cycle : ℤ
  pub investable_usage_mode : UsageMode
  pub investable_usage_fraction : ℤ
  pub max_try_per_cycle : ℤ

-- The parts of the text that says how the budget came about.
pub data UsagePart : Type 0 where
  fraction_part cap_part cash_max_part : ℤ → UsagePart
  use_all_part : UsagePart

abbrev pub unit : ℤ
unit = pos 100000000

abbrev pub clipped_fraction : AllocationKnobs → ℤ
clipped_fraction k = min_ℤ (max_ℤ k.investable_usage_fraction (pos 0)) unit

-- The amount in units of 10^-24.
unfoldable pub by_mode : UsageMode → (investable_total_try : ℤ) → AllocationKnobs → ℤ × UsagePart
by_mode fraction total k = (total *ℤ clipped_fraction k, fraction_part (clipped_fraction k))
by_mode cap total k =
    let limit = max_ℤ k.max_try_per_cycle (pos 0) in (min_ℤ total limit *ℤ unit, cap_part limit)
by_mode use_all total k = (total *ℤ unit, use_all_part)

unfoldable pub resolve_investable_budget :
    (investable_total_try : ℤ) → AllocationKnobs → ℤ × List UsagePart
unfolding by_mode
resolve_investable_budget total k =
    let (amount, part) = by_mode k.investable_usage_mode total k in
    let limit = max_ℤ (k.try_cash_max -ℤ k.target_try_cash) (pos 0) *ℤ unit in
    if ltb_ℤ (pos 0) k.try_cash_max
    then (
      min_ℤ amount limit,
      part ∷ (if ltb_ℤ limit amount then cash_max_part k.try_cash_max ∷ [] else []),
    )
    else (amount, part ∷ [])

-- `_resolve_fee_buffer_ratio`: a basis point of 10^-4 is 10^-8.
abbrev pub resolve_fee_buffer_ratio : AllocationKnobs → ℕ
resolve_fee_buffer_ratio k =
    if ltb_ℤ (pos 0) k.fee_buffer_ratio
    then pos_part k.fee_buffer_ratio
    else pos_part k.fee_buffer_bps

-- One plus the ratio.
abbrev pub fee_multiplier : AllocationKnobs → ℕ
fee_multiplier k = 100000000 + resolve_fee_buffer_ratio k

-- How many units of `allocate` make one of 10^-16.
abbrev pub fine : AllocationKnobs → ℕ
fine k = 100000000 * fee_multiplier k
