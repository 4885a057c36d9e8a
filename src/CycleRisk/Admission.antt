-- ===== src/CycleRisk/Admission.antt =====
-- What `RiskPolicyService.filter_actions` lets through.
use meva_beta_alpha_codex.Base.{
  ℕ, suc, ◌+◌, ◌≤◌, ◌<◌, ◌↔◌, ◌≡◌, refl, subst, true, false, not, ◌&&◌, List, [], ◌∷◌,
  if◌then◌else◌, arith, All, Bool-cases, inl, inr, get_or, number_key,
}
use meva_beta_alpha_codex.Base.Int.{ℤ, pos, ◌≤ℤ◌, ◌<ℤ◌, ◌+ℤ◌, ◌-ℤ◌, ◌*ℤ◌, abs_ℤ, ltb_ℤ}
use meva_beta_alpha_codex.Base.Dict.{Dict, lookup}
use meva_beta_alpha_codex.Degrade.{Mode, normal, reduce_risk_only, observe_only}
use meva_beta_alpha_codex.Stage4.{
  LifecycleAction, LifecycleActionType, submit, cancel, replace, Side, buy, sell,
}
use meva_beta_alpha_codex.CycleRisk.{
  CycleRiskOutput, accepted, symbol_pos, is_reduce, is_reduce_only, projected, exposure,
  order_notional, submit_reason, policy_step, accepts, filter_from, filter_actions,
}

-- A sell of a symbol that is held, or a buy of one that is held short.
abbrev pub IsAgainst : Side → (held : ℤ) → Type 0
IsAgainst sell held = pos 0 <ℤ held
IsAgainst buy held = held <ℤ pos 0

-- The size of the position after the fill, either way, costs at most the limit.
abbrev pub IsExposed : Side → (held qty price limit : ℤ) → Type 0
IsExposed buy held qty price limit = abs_ℤ (held +ℤ qty) *ℤ price ≤ℤ limit
IsExposed sell held qty price limit = abs_ℤ (held -ℤ qty) *ℤ price ≤ℤ limit

-- What must hold of a submit, when `held` is the position in its symbol.
pub record MaySubmit (r : CycleRiskOutput) (held : ℤ) (a : LifecycleAction) : Type 0 where
  pub enabled : r.allow_submit ≡ true
  pub against : r.mode ≡ reduce_risk_only → IsAgainst a.side held
  pub fits_order : a.price *ℤ a.qty ≤ℤ r.max_order_notional_try
  pub fits_symbol : IsExposed a.side held a.qty a.price r.max_symbol_exposure_try

-- The position in a symbol, 0 without one.
abbrev pub held_of : Dict ℕ ℤ → ℕ → ℤ
held_of positions symbol = get_or (pos 0) (lookup symbol positions)

abbrev pub Admissible : LifecycleActionType → CycleRiskOutput → Dict ℕ ℤ → LifecycleAction → Type 0
Admissible submit r positions a = MaySubmit r (held_of positions a.symbol) a
Admissible cancel r positions a = r.allow_cancel ≡ true
Admissible replace r positions a = Unit {0}

abbrev pub count_submits : List LifecycleAction → ℕ
count_submits [] = 0
count_submits (a ∷ rest) = elim a.action_type [
  | submit ↦ suc (count_submits rest)
  | cancel ↦ count_submits rest
  | replace ↦ count_submits rest
]

is_reduce-IsAgainst : (d : Side) (held : ℤ) → is_reduce d held ≡ true → IsAgainst d held
is_reduce-IsAgainst sell held h = ground (arith, h)
is_reduce-IsAgainst buy held h = ground (arith, h)

IsAgainst-is_reduce : (d : Side) (held : ℤ) → IsAgainst d held → is_reduce d held ≡ true
IsAgainst-is_reduce sell held h = ground (arith, h)
IsAgainst-is_reduce buy held h = ground (arith, h)

reduce_only-IsAgainst :
    (mode : Mode) (d : Side) (held : ℤ)
    → (is_reduce_only mode && not (is_reduce d held)) ≡ false
    → mode ≡ reduce_risk_only
    → IsAgainst d held
reduce_only-IsAgainst mode d held h e =
    let h' : (is_reduce_only reduce_risk_only && not (is_reduce d held)) ≡ false =
      subst (λ m. (is_reduce_only m && not (is_reduce d held)) ≡ false) e h in
    is_reduce-IsAgainst d held (ground (arith, h'))

IsAgainst-reduce_only :
    (mode : Mode) (d : Side) (held : ℤ)
    → (mode ≡ reduce_risk_only → IsAgainst d held)
    → (is_reduce_only mode && not (is_reduce d held)) ≡ false
IsAgainst-reduce_only reduce_risk_only d held h = rw (IsAgainst-is_reduce d held (h refl)) refl
IsAgainst-reduce_only normal d held h = refl
IsAgainst-reduce_only observe_only d held h = refl

exposure-IsExposed :
    (d : Side) (held limit : ℤ) (a : LifecycleAction)
    → ltb_ℤ limit (abs_ℤ (projected d held a) *ℤ a.price) ≡ false
    → IsExposed d held a.qty a.price limit
unfolding projected
exposure-IsExposed buy held limit a h = ground (arith, h)
exposure-IsExposed sell held limit a h = ground (arith, h)

IsExposed-exposure :
    (d : Side) (held limit : ℤ) (a : LifecycleAction)
    → IsExposed d held a.qty a.price limit
    → ltb_ℤ limit (abs_ℤ (projected d held a) *ℤ a.price) ≡ false
unfolding projected
IsExposed-exposure buy held limit a h = ground (arith, h)
IsExposed-exposure sell held limit a h = ground (arith, h)

-- The tests of a submit, all passed.
abbrev Passes : CycleRiskOutput → Dict ℕ ℤ → LifecycleAction → Type 0
Passes r positions a =
    (r.allow_submit ≡ true)
    × ((is_reduce_only r.mode && not (is_reduce a.side (symbol_pos positions a))) ≡ false)
    × (ltb_ℤ r.max_order_notional_try (order_notional a) ≡ false)
    × (ltb_ℤ r.max_symbol_exposure_try (exposure positions a) ≡ false)

submit_reason-Passes :
    (r : CycleRiskOutput) (positions : Dict ℕ ℤ) (count : ℕ) (a : LifecycleAction)
    → (submit_reason r positions count a).1 ≡ accepted
    → Passes r positions a
unfolding submit_reason
submit_reason-Passes r positions count a ok = ground arith

submit_reason-MaySubmit :
    (r : CycleRiskOutput) (positions : Dict ℕ ℤ) (count : ℕ) (a : LifecycleAction)
    → (submit_reason r positions count a).1 ≡ accepted
    → MaySubmit r (held_of positions a.symbol) a
submit_reason-MaySubmit r positions count a ok =
    let (enabled, against, small, exposed) = submit_reason-Passes r positions count a ok in
    record {
      enabled = enabled;
      against = reduce_only-IsAgainst r.mode a.side (held_of positions a.symbol) against;
      fits_order = ground (arith, small);
      fits_symbol =
          exposure-IsExposed a.side (held_of positions a.symbol) r.max_symbol_exposure_try a
            exposed;
    }

policy_step-Admissible :
    (t : LifecycleActionType) (r : CycleRiskOutput) (positions : Dict ℕ ℤ) (count : ℕ)
    (a : LifecycleAction)
    → accepts (policy_step t r positions count a).1 ≡ true
    → Admissible t r positions a
unfolding policy_step
policy_step-Admissible submit r positions count a ok =
    submit_reason-MaySubmit r positions count a (ground arith)
policy_step-Admissible cancel r positions count a ok = ground arith
policy_step-Admissible replace r positions count a ok = tt

filter_from-Admissible :
    (r : CycleRiskOutput) (positions : Dict ℕ ℤ) (count : ℕ) (actions : List LifecycleAction)
    → All (λ a. Admissible a.action_type r positions a) (filter_from r positions count actions).0
unfolding filter_from
filter_from-Admissible r positions count [] = tt
filter_from-Admissible r positions count (a ∷ rest) =
    let (count', reason) = policy_step a.action_type r positions count a in
    let later = filter_from-Admissible r positions count' rest in
    elim (Bool-cases (accepts reason)) [
      | inl ok ↦ rw ok (policy_step-Admissible a.action_type r positions count a ok, later)
      | inr blocked ↦ rw blocked later
    ]

-- Every action that is let through is allowed by the cycle's risk output: a cancel only if cancels
-- are enabled, a submit only if submits are, if its notional is within its limit, if the size of the
-- position after it, times its price, is within its limit, and, in the mode REDUCE_RISK_ONLY, if it
-- sells a symbol that is held or buys one that is held short.
pub filter_actions-Admissible :
    (r : CycleRiskOutput) (positions : Dict ℕ ℤ) (actions : List LifecycleAction)
    → All (λ a. Admissible a.action_type r positions a) (filter_actions r positions actions).0
unfolding filter_actions
filter_actions-Admissible r positions actions = filter_from-Admissible r positions 0 actions

step_count :
    (t : LifecycleActionType) (r : CycleRiskOutput) (positions : Dict ℕ ℤ) (count : ℕ)
    (a : LifecycleAction)
    → count ≤ r.max_orders_per_cycle
    → let (count', reason) = policy_step t r positions count a in
      (count' ≤ r.max_orders_per_cycle)
      × (count' ≡ count + (if accepts reason then elim t [ submit ↦ 1 | _ ↦ 0 ] else 0))
unfolding policy_step submit_reason
step_count t r positions count a h = ground arith

filter_from-count :
    (r : CycleRiskOutput) (positions : Dict ℕ ℤ) (count : ℕ) (actions : List LifecycleAction)
    → count ≤ r.max_orders_per_cycle
    → count + count_submits (filter_from r positions count actions).0 ≤ r.max_orders_per_cycle
unfolding filter_from
filter_from-count r positions count [] h = omega arith
filter_from-count r positions count (a ∷ rest) h =
    let (count', reason) = policy_step a.action_type r positions count a in
    let step = step_count a.action_type r positions count a h in
    ground (arith, step, filter_from-count r positions count' rest step.0)

-- At most as many submits pass as the cycle's risk output allows.
pub filter_actions-count :
    (r : CycleRiskOutput) (positions : Dict ℕ ℤ) (actions : List LifecycleAction)
    → count_submits (filter_actions r positions actions).0 ≤ r.max_orders_per_cycle
unfolding filter_actions
filter_actions-count r positions actions =
    omega (arith, filter_from-count r positions 0 actions (omega arith))

-- While fewer submits were accepted than the cycle's risk output allows, an action of any type is let
-- through exactly when it is allowed: a replace always, a cancel if cancels are enabled, and a submit
-- if submits are, its notional and the exposure after it are within their limits and, in the mode
-- REDUCE_RISK_ONLY, it sells a symbol that is held or buys one that is held short.
pub policy_step_iff :
    (t : LifecycleActionType) (r : CycleRiskOutput) (positions : Dict ℕ ℤ) (count : ℕ)
    (a : LifecycleAction)
    → count < r.max_orders_per_cycle
    → (accepts (policy_step t r positions count a).1 ≡ true) ↔ Admissible t r positions a
unfolding policy_step submit_reason
policy_step_iff submit r positions count a room = (
  policy_step-Admissible submit r positions count a,
  λ m.
      let held = held_of positions a.symbol in
      rw
        (
          m.enabled,
          IsAgainst-reduce_only r.mode a.side held m.against,
          IsExposed-exposure a.side held r.max_symbol_exposure_try a m.fits_symbol,
        )
        (ground (arith, room, m.fits_order)),
)
policy_step_iff cancel r positions count a room =
    (policy_step-Admissible cancel r positions count a, λ m. ground arith)
policy_step_iff replace r positions count a room = (λ _. tt, λ _. refl)
