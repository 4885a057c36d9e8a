-- ===== src/StageRisk.antt =====
-- services/risk_policy.py: Stage 4's limits on a list of lifecycle actions.
pub mod Cancels
pub mod OpenOrders
pub mod Exposure
mod Sells
mod Tests
use meva_beta_alpha_codex.Base.{
  ℕ, suc, ◌+◌, ◌-◌, Bool, true, false, ◌&&◌, ◌||◌, Option, none, some, List, [], ◌∷◌, map, ltb,
  if◌then◌else◌, get_or, is_some, number_key,
}
use meva_beta_alpha_codex.Base.Int.{ℤ, pos, ◌+ℤ◌, ◌-ℤ◌, ◌*ℤ◌, ltb_ℤ, leb_ℤ, max_ℤ, neg_ℤ}
use meva_beta_alpha_codex.Base.Dict.{Dict, lookup}
use meva_beta_alpha_codex.Stage4.{
  LifecycleAction, LifecycleActionType, submit, cancel, replace, Side, buy, sell, Order, Position,
  PnlSnapshot, ActionReason, replace_submit, truthy,
}

-- The `reason` of a decision.
pub data Verdict : Type 0 where
  accepted max_daily_loss max_drawdown max_open_orders max_order_notional : Verdict
  replace_worst_case_exposure_blocked max_position_notional min_profit_threshold : Verdict

pub record RiskDecision : Type 0 where
  pub action : LifecycleAction
  pub is_accepted : Bool
  pub verdict : Verdict

-- The attributes that `__init__` sets, its three defaults resolved.
pub record RiskPolicy : Type 0 where
  pub max_open_orders : ℕ
  pub max_order_notional_try : ℤ
  pub max_position_notional_try : ℤ
  pub max_daily_loss_try : ℤ
  pub max_drawdown_pct : ℤ
  pub fee_bps_taker : ℤ
  pub slippage_bps_buffer : ℤ
  pub min_profit_bps : ℤ
  pub replace_inflight_budget_per_symbol_try : ℤ
  pub max_gross_exposure_try : ℤ

-- `__init__`, with its optional limits.
unfoldable pub risk_policy :
    (max_open_orders : ℕ) (max_order_notional_try : Option ℤ) (max_position_notional_try : ℤ)
    (max_daily_loss_try max_drawdown_pct fee_bps_taker slippage_bps_buffer min_profit_bps : ℤ)
    (replace_inflight_budget_per_symbol_try max_gross_exposure_try : Option ℤ)
    → RiskPolicy
risk_policy max_open order position loss drawdown fee slippage profit inflight gross = record {
  max_open_orders = max_open;
  max_order_notional_try = get_or position order;
  max_position_notional_try = position;
  max_daily_loss_try = loss;
  max_drawdown_pct = drawdown;
  fee_bps_taker = fee;
  slippage_bps_buffer = slippage;
  min_profit_bps = profit;
  replace_inflight_budget_per_symbol_try = get_or position inflight;
  max_gross_exposure_try = get_or position gross;
}

pub record Projection : Type 0 where
  pub open_orders : ℕ
  pub position_notional : ℤ

-- What `filter_actions` looks up.
pub record Book : Type 0 where
  pub positions_by_symbol : Dict ℕ Position
  pub open_orders_by_client_id : Dict ℕ Order

abbrev pub notional : LifecycleAction → ℤ
notional a = a.price *ℤ a.qty

abbrev is_replace_submit : LifecycleAction → Bool
is_replace_submit a = elim a.reason [
  | replace_submit ↦ true
  | _ ↦ is_some a.replace_for_client_order_id
]

-- The notional of the order that a submit replaces, 0 if it is not known.
pub old_notional : Book → LifecycleAction → ℤ
old_notional b a =
    if truthy a.replace_for_client_order_id
    then elim (lookup (get_or 0 a.replace_for_client_order_id) b.open_orders_by_client_id) [
      | none ↦ pos 0
      | some o ↦ o.price *ℤ o.qty
    ]
    else pos 0

-- The worst case while both the old and the new order may fill.
pub replace_blocked : RiskPolicy → Book → Projection → LifecycleAction → Bool
unfolding old_notional
replace_blocked p b s a =
    is_replace_submit a
    && (ltb_ℤ p.replace_inflight_budget_per_symbol_try (old_notional b a +ℤ notional a)
        || ltb_ℤ p.max_gross_exposure_try (s.position_notional +ℤ old_notional b a +ℤ notional a))

-- `action.price < avg_cost * (1 + bps / 10000)`, with basis points in units of 10^-4.
pub below_min_profit : RiskPolicy → Position → LifecycleAction → Bool
below_min_profit p q a = ltb_ℤ (a.price *ℤ pos 100000000) (
    q.avg_cost_try
    *ℤ (pos 100000000 +ℤ (p.fee_bps_taker +ℤ p.slippage_bps_buffer +ℤ p.min_profit_bps)))

pub sell_blocked : RiskPolicy → Book → LifecycleAction → Bool
unfolding below_min_profit
sell_blocked p b a = elim (lookup a.symbol b.positions_by_symbol) [
  | none ↦ false
  | some q ↦ ltb_ℤ (pos 0) q.qty && below_min_profit p q a
]

-- The buy branch of a submit, with the open order already counted.
pub buy_step : RiskPolicy → Book → Projection → LifecycleAction → Projection × Verdict
unfolding replace_blocked
buy_step p b s a =
    if replace_blocked p b s a
    then (record s { open_orders = s.open_orders - 1 }, replace_worst_case_exposure_blocked)
    else (let after = s.position_notional +ℤ notional a in
        if ltb_ℤ p.max_position_notional_try after
        then (
          record { open_orders = s.open_orders - 1; position_notional = after -ℤ notional a },
          max_position_notional,
        )
        else (record s { position_notional = after }, accepted))

-- The other branch: the projected notional is lowered before the profit test, and stays so.
pub sell_step : RiskPolicy → Book → Projection → LifecycleAction → Projection × Verdict
unfolding sell_blocked
sell_step p b s a =
    let lowered = record s {
      position_notional = max_ℤ (pos 0) (s.position_notional -ℤ notional a);
    } in
    if sell_blocked p b a
    then (record lowered { open_orders = s.open_orders - 1 }, min_profit_threshold)
    else (lowered, accepted)

pub side_step : Side → RiskPolicy → Book → Projection → LifecycleAction → Projection × Verdict
unfolding buy_step sell_step
side_step buy p b s a = buy_step p b s a
side_step sell p b s a = sell_step p b s a

pub submit_step : RiskPolicy → Book → Projection → LifecycleAction → Projection × Verdict
unfolding side_step
submit_step p b s a =
    let counted = record s { open_orders = s.open_orders + 1 } in
    if ltb p.max_open_orders counted.open_orders
    then (record counted { open_orders = counted.open_orders - 1 }, max_open_orders)
    else if ltb_ℤ p.max_order_notional_try (notional a)
    then (record counted { open_orders = counted.open_orders - 1 }, max_order_notional)
    else side_step a.side p b counted a

-- The body of the loop over the actions, by the action's type.
pub type_step :
    LifecycleActionType → RiskPolicy → Book → Projection → LifecycleAction → Projection × Verdict
unfolding submit_step
type_step cancel p b s a = (record s { open_orders = s.open_orders - 1 }, accepted)
type_step replace p b s a = (s, accepted)
type_step submit p b s a = submit_step p b s a

abbrev pub action_step : RiskPolicy → Book → Projection → LifecycleAction → Projection × Verdict
action_step p b s a = type_step a.action_type p b s a

abbrev pub is_accepted_verdict : Verdict → Bool
is_accepted_verdict v = elim v [ accepted ↦ true | _ ↦ false ]

abbrev pub decision : LifecycleAction → Verdict → RiskDecision
decision a v = record { action = a; is_accepted = is_accepted_verdict v; verdict = v }

-- The loop: accepted actions, decisions, and the projection at its end.
pub filter_loop :
    RiskPolicy
    → Book
    → Projection
    → List LifecycleAction
    → List LifecycleAction × List RiskDecision × Projection
filter_loop p b s [] = ([], [], s)
filter_loop p b s (a ∷ rest) =
    let (s', v) = action_step p b s a in
    let (kept, decisions, end) = filter_loop p b s' rest in
    (if is_accepted_verdict v then a ∷ kept else kept, decision a v ∷ decisions, end)

abbrev pub reject_all : Verdict → List LifecycleAction → List LifecycleAction × List RiskDecision
reject_all v actions = ([], map (λ a. decision a v) actions)

pub filter_actions :
    RiskPolicy
    → Book
    → (open_orders_count : ℕ) → (current_position_notional_try : ℤ) → PnlSnapshot
    → List LifecycleAction
    → List LifecycleAction × List RiskDecision
unfolding filter_loop
filter_actions p b open_orders position pnl actions =
    if leb_ℤ pnl.realized_today_try (neg_ℤ p.max_daily_loss_try)
    then reject_all max_daily_loss actions
    else if leb_ℤ p.max_drawdown_pct pnl.drawdown_pct
    then reject_all max_drawdown actions
    else (let (kept, decisions, _) =
          filter_loop p b (record { open_orders = open_orders; position_notional = position })
            actions in
        (kept, decisions))
