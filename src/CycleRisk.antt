-- ===== src/CycleRisk.antt =====
-- services/risk_policy_service.py: the limits of a cycle's risk output on a list of actions.
pub mod Admission
mod Tests
use meva_beta_alpha_codex.Base.{
  ℕ, suc, ◌+◌, ◌-◌, Bool, true, false, ◌&&◌, ◌||◌, not, List, [], ◌∷◌, ltb, if◌then◌else◌, get_or,
  number_key,
}
use meva_beta_alpha_codex.Base.Int.{ℤ, pos, ◌+ℤ◌, ◌-ℤ◌, ◌*ℤ◌, ltb_ℤ, abs_ℤ}
use meva_beta_alpha_codex.Base.Dict.{Dict, lookup}
use meva_beta_alpha_codex.Degrade.{Mode, normal, reduce_risk_only, observe_only}
use meva_beta_alpha_codex.Stage4.{
  LifecycleAction, LifecycleActionType, submit, cancel, replace, Side, buy, sell,
}

-- The fields of domain/risk_engine.py's `CycleRiskOutput` that the filter reads.
pub record CycleRiskOutput : Type 0 where
  pub mode : Mode
  pub max_order_notional_try : ℤ
  pub max_orders_per_cycle : ℕ
  pub max_symbol_exposure_try : ℤ
  pub allow_submit : Bool
  pub allow_cancel : Bool

pub data PolicyReason : Type 0 where
  accepted risk_submit_disabled risk_cancel_disabled risk_cap_max_orders : PolicyReason
  risk_cap_max_notional risk_cap_max_exposure risk_reduce_only_blocked : PolicyReason

pub record RiskPolicyDecision : Type 0 where
  pub is_accepted : Bool
  pub reason : PolicyReason
  pub action : LifecycleAction

-- `portfolio.positions_by_symbol.get(symbol, Decimal("0"))`
abbrev pub symbol_pos : Dict ℕ ℤ → LifecycleAction → ℤ
symbol_pos positions a = get_or (pos 0) (lookup a.symbol positions)

-- Whether the action's side is against the sign of the position; the code does not compare its
-- quantity with what is held.
abbrev pub is_reduce : Side → ℤ → Bool
is_reduce buy held = ltb_ℤ held (pos 0)
is_reduce sell held = ltb_ℤ (pos 0) held

abbrev pub is_reduce_only : Mode → Bool
is_reduce_only reduce_risk_only = true
is_reduce_only normal = false
is_reduce_only observe_only = false

-- The position after the action has filled.
pub projected : Side → ℤ → LifecycleAction → ℤ
projected buy held a = held +ℤ a.qty
projected sell held a = held -ℤ a.qty

abbrev pub exposure : Dict ℕ ℤ → LifecycleAction → ℤ
exposure positions a = abs_ℤ (projected a.side (symbol_pos positions a) a) *ℤ a.price

abbrev pub order_notional : LifecycleAction → ℤ
order_notional a = a.price *ℤ a.qty

-- The tests on a submit, with the number of submits accepted so far.
pub submit_reason : CycleRiskOutput → Dict ℕ ℤ → ℕ → LifecycleAction → ℕ × PolicyReason
submit_reason r positions count a =
    if not r.allow_submit
    then (count, risk_submit_disabled)
    else if is_reduce_only r.mode && not (is_reduce a.side (symbol_pos positions a))
    then (count, risk_reduce_only_blocked)
    else if ltb r.max_orders_per_cycle (count + 1)
    then (count + 1 - 1, risk_cap_max_orders)
    else if ltb_ℤ r.max_order_notional_try (order_notional a)
    then (count + 1 - 1, risk_cap_max_notional)
    else if ltb_ℤ r.max_symbol_exposure_try (exposure positions a)
    then (count + 1 - 1, risk_cap_max_exposure)
    else (count + 1, accepted)

-- The body of the loop, by the type of the action.
pub policy_step :
    LifecycleActionType → CycleRiskOutput → Dict ℕ ℤ → ℕ → LifecycleAction → ℕ × PolicyReason
unfolding submit_reason
policy_step cancel r positions count a =
    (count, if not r.allow_cancel then risk_cancel_disabled else accepted)
policy_step submit r positions count a = submit_reason r positions count a
policy_step replace r positions count a = (count, accepted)

abbrev pub accepts : PolicyReason → Bool
accepts reason = elim reason [ accepted ↦ true | _ ↦ false ]

abbrev pub policy_decision : LifecycleAction → PolicyReason → RiskPolicyDecision
policy_decision a reason = record { is_accepted = accepts reason; reason = reason; action = a }

pub filter_from :
    CycleRiskOutput
    → Dict ℕ ℤ
    → ℕ
    → List LifecycleAction
    → List LifecycleAction × List RiskPolicyDecision
filter_from r positions count [] = ([], [])
filter_from r positions count (a ∷ rest) =
    let (count', reason) = policy_step a.action_type r positions count a in
    let (kept, decisions) = filter_from r positions count' rest in
    (if accepts reason then a ∷ kept else kept, policy_decision a reason ∷ decisions)

pub filter_actions :
    CycleRiskOutput
    → Dict ℕ ℤ
    → List LifecycleAction
    → List LifecycleAction × List RiskPolicyDecision
unfolding filter_from
filter_actions r positions actions = filter_from r positions 0 actions
