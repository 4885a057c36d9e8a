-- ===== src/Allocation/Limits.antt =====
-- The amount of one intent under its limits: the least of them, raised to the minimum if every limit
-- but that of the intent allows it.
use meva_beta_alpha_codex.Base.{
  Bool, true, false, ◌&&◌, ◌||◌, Option, none, some, List, [], ◌∷◌, all, if◌then◌else◌,
}
use meva_beta_alpha_codex.Base.Int.{ℤ, ltb_ℤ, leb_ℤ, min_ℤ}

-- `ReasonCode`; `not_implemented` is `not_implemented_in_pr3`.
pub data ReasonCode : Type 0 where
  ok not_implemented no_mark_price cash_target min_notional max_intent_cap : ReasonCode
  cycle_notional_cap max_position_exposure_cap no_position position_value_cap : ReasonCode

-- `none` is infinity.
abbrev pub Limit : Type 0
Limit = ReasonCode × Option ℤ

abbrev pub least_of : ℤ → Option ℤ → ℤ
least_of x none = x
least_of x (some c) = min_ℤ x c

-- `min(requested_notional, *limits.values())`
abbrev pub least : ℤ → List Limit → ℤ
least x [] = x
least x (l ∷ rest) = least (least_of x l.1) rest

abbrev pub allows : ℤ → Option ℤ → Bool
allows x none = true
allows x (some c) = leb_ℤ x c

abbrev equals : ℤ → Option ℤ → Bool
equals x none = false
equals x (some c) = leb_ℤ x c && leb_ℤ c x

abbrev pub is_intent_cap : ReasonCode → Bool
is_intent_cap r = elim r [ max_intent_cap ↦ true | _ ↦ false ]

-- The first limit that equals the amount, or the last limit.
abbrev first_binding : ReasonCode → (allocated : ℤ) → List Limit → ReasonCode
first_binding last x [] = last
first_binding last x (l ∷ rest) =
    let later = first_binding l.0 x rest in if equals x l.1 then l.0 else later

-- `_first_binding_reason`
abbrev pub first_binding_reason : (requested allocated : ℤ) → List Limit → ReasonCode
first_binding_reason requested allocated limits =
    if leb_ℤ requested allocated then ok else first_binding ok allocated limits

-- `all(limits[key] >= min_required for key in precedence if key != REASON_MAX_INTENT_CAP)`
abbrev pub can_raise : (min_required : ℤ) → List Limit → Bool
can_raise x limits = all (λ l. is_intent_cap l.0 || allows x l.1) limits

-- The first limit below the minimum.
abbrev blocking_cap : ReasonCode → (min_required : ℤ) → List Limit → ReasonCode
blocking_cap binding x [] = binding
blocking_cap binding x (l ∷ rest) =
    let later = blocking_cap binding x rest in if allows x l.1 then later else l.0

abbrev reject_reason : ReasonCode → ReasonCode
reject_reason r = elim r [ cash_target ↦ cash_target | _ ↦ min_notional ]

pub data Sizing : Type 0 where
  too_small : ReasonCode → Sizing
  sized : ℤ → ReasonCode → Sizing

-- The reason of an amount that is accepted.
abbrev decision_reason : (requested x : ℤ) → ReasonCode → ReasonCode
decision_reason requested x binding = if equals x (some requested) then ok else binding

unfoldable pub size : (min_order_notional_try requested : ℤ) → List Limit → Sizing
size min_required requested limits =
    let x = least requested limits in
    let binding = first_binding_reason requested x limits in
    if ltb_ℤ x min_required
    then (if can_raise min_required limits
        then sized min_required (decision_reason requested min_required binding)
        else too_small (reject_reason (blocking_cap binding min_required limits)))
    else sized x (decision_reason requested x binding)
