-- ===== src/Lifecycle.antt =====
-- services/order_lifecycle_service.py: the actions that bring the open orders to the intents.
-- Seconds for the times. One reading of the clock stands for the readings of `_is_stale` in one plan.
-- A quotient is compared by cross-multiplication, its divisor positive where it is formed.
pub mod Counts
pub mod Cancels
mod Submits
mod Tests
use meva_beta_alpha_codex.Base.{
  ℕ, zero, suc, ◌+◌, ◌≡◌, ◌↔◌, refl, ap, ap₂, Bool, true, false, not, ◌&&◌, ◌||◌, Option, none,
  some, List, [], ◌∷◌, ◌++◌, map, ltb, leb, nat_beq, nat_beq_iff, if◌then◌else◌, get_or, filter,
  sorted, Key, arith,
}
use meva_beta_alpha_codex.Base.Int.{ℤ, pos, ◌*ℤ◌, ◌-ℤ◌, abs_ℤ, leb_ℤ}
use meva_beta_alpha_codex.Base.Dict.{Dict, lookup, insert, values}
use meva_beta_alpha_codex.Stage4.{
  Side, buy, sell, side_rank, LifecycleActionType, submit, cancel, replace, ActionReason,
  replace_cancel, replace_submit, new_intent, stale, LifecycleAction, Order,
}

pub record LifecycleSettings : Type 0 where
  pub stale_after_sec : ℕ
  pub drift_bps : ℤ
  pub price_tolerance_bps : ℤ
  pub qty_tolerance_ratio : ℤ

pub data AuditReason : Type 0 where
  invalid_intent deduped : (client_order_id : Option ℕ) → AuditReason

pub record LifecyclePlan : Type 0 where
  pub actions : List LifecycleAction
  pub audit_reasons : List AuditReason

same_side : (a b : Side) → side_rank a ≡ side_rank b → a ≡ b
same_side a b h = ground arith

-- The keys `(symbol, side)`.
abbrev pub Group : Type 0
Group = ℕ × Side

pub same_group :
    (x y : Group) → ((nat_beq x.0 y.0 && nat_beq (side_rank x.1) (side_rank y.1)) ≡ true) ↔ (x ≡ y)
same_group x y = (
  λ h.
      ap₂ (λ (a : ℕ) (b : Side). (a, b)) (ground (arith, h))
        (same_side x.1 y.1 (ground (arith, h))),
  λ e.
      let first : x.0 ≡ y.0 = ap (λ (z : Group). z.0) e in
      let second : side_rank x.1 ≡ side_rank y.1 = ap (λ (z : Group). side_rank z.1) e in
      ground (arith, first, second),
)

instance abbrev pub group_key : Key Group
group_key = record {
  same = λ x y. nat_beq x.0 y.0 && nat_beq (side_rank x.1) (side_rank y.1);
  same_iff = same_group;
}

-- A price or a quantity that is not positive.
abbrev pub is_invalid_order : Order → Bool
is_invalid_order o = leb_ℤ o.price (pos 0) || leb_ℤ o.qty (pos 0)

-- `abs(a - b) / b <= limit`, for a limit in units of `1 / scale` and a positive `b`.
abbrev within : (scale : ℕ) (a b limit : ℤ) → Bool
within scale a b limit = leb_ℤ (abs_ℤ (a -ℤ b) *ℤ pos scale) (limit *ℤ b)

-- The test of one open order in `_find_duplicate`.
unfoldable pub duplicates : LifecycleSettings → Order → Order → Bool
duplicates c intent order =
    (nat_beq order.symbol intent.symbol && nat_beq (side_rank order.side) (side_rank intent.side))
    && not (is_invalid_order order)
    && within 100000000 order.price intent.price c.price_tolerance_bps
    && within 100000000 order.qty intent.qty c.qty_tolerance_ratio

-- `_find_duplicate`: the first open order that duplicates the intent.
unfoldable pub find_duplicate : LifecycleSettings → Order → List Order → Option Order
unfolding duplicates
find_duplicate c intent [] = none
find_duplicate c intent (order ∷ rest) =
    if is_invalid_order intent
    then none
    else if duplicates c intent order
    then some order
    else find_duplicate c intent rest

-- `drift >= self.drift_bps`
abbrev drifts : LifecycleSettings → (price mid_price : ℤ) → Bool
drifts c price mid = leb_ℤ (c.drift_bps *ℤ mid) (abs_ℤ (price -ℤ mid) *ℤ pos 100000000)

-- `_is_stale`
unfoldable pub is_stale : LifecycleSettings → (now : ℕ) (mid_price : ℤ) → Order → Bool
is_stale c now mid order =
    if leb (order.updated_at + c.stale_after_sec) now
    then true
    else if leb_ℤ mid (pos 0) || leb_ℤ order.price (pos 0)
    then false
    else drifts c order.price mid

abbrev pub Groups : Type 0
Groups = Dict Group (List Order)

abbrev pub orders_of : Group → Groups → List Order
orders_of g groups = get_or [] (lookup g groups)

-- `stale_by_key.setdefault(key, []).append(existing)`
abbrev pub add_stale : Order → Groups → Groups
add_stale o groups =
    insert (o.symbol, o.side) (orders_of (o.symbol, o.side) groups ++ o ∷ []) groups

-- The first loop: the stale orders by symbol and side.
unfoldable pub group_stale : (Order → Bool) → List Order → Groups → Groups
group_stale stale_test [] groups = groups
group_stale stale_test (o ∷ rest) groups =
    group_stale stale_test rest (if stale_test o then add_stale o groups else groups)

abbrev pub cancel_action : ActionReason → Order → LifecycleAction
cancel_action reason o = record {
  action_type = cancel;
  symbol = o.symbol;
  side = o.side;
  price = o.price;
  qty = o.qty;
  reason = reason;
  client_order_id = o.client_order_id;
  exchange_order_id = o.exchange_order_id;
  replace_for_client_order_id = none;
}

abbrev pub submit_action : ActionReason → (replaced : Option ℕ) → Order → LifecycleAction
submit_action reason replaced o = record {
  action_type = submit;
  symbol = o.symbol;
  side = o.side;
  price = o.price;
  qty = o.qty;
  reason = reason;
  client_order_id = o.client_order_id;
  exchange_order_id = none;
  replace_for_client_order_id = replaced;
}

-- What the loop over the intents changes.
pub record PlanState : Type 0 where
  pub stale_by_key : Groups
  pub actions : List LifecycleAction
  pub audit_reasons : List AuditReason

-- An intent that is valid and no duplicate, by the stale orders of its group.
unfoldable pub place : Order → List Order → PlanState → PlanState
place intent [] s = record s { actions = s.actions ++ submit_action new_intent none intent ∷ [] }
place intent (first ∷ rest) s = record s {
  stale_by_key = insert (intent.symbol, intent.side) [] s.stale_by_key;
  actions =
      (s.actions ++ map (cancel_action replace_cancel) (first ∷ rest))
      ++ submit_action replace_submit first.client_order_id intent ∷ [];
}

abbrev pub audited : AuditReason → PlanState → PlanState
audited reason s = record s { audit_reasons = s.audit_reasons ++ reason ∷ [] }

abbrev pub deduped_or_placed : Order → Option Order → PlanState → PlanState
deduped_or_placed intent (some _) s = audited (deduped intent.client_order_id) s
deduped_or_placed intent none s =
    place intent (orders_of (intent.symbol, intent.side) s.stale_by_key) s

-- The body of the loop over the intents.
unfoldable pub intent_step : LifecycleSettings → List Order → Order → PlanState → PlanState
unfolding place
intent_step c open_orders intent s =
    if is_invalid_order intent
    then audited (invalid_intent intent.client_order_id) s
    else deduped_or_placed intent (find_duplicate c intent open_orders) s

unfoldable pub intent_loop : LifecycleSettings → List Order → List Order → PlanState → PlanState
unfolding intent_step
intent_loop c open_orders [] s = s
intent_loop c open_orders (i ∷ rest) s =
    intent_loop c open_orders rest (intent_step c open_orders i s)

-- The cancels of the groups that no intent replaced.
unfoldable pub stale_cancels : List (List Order) → List LifecycleAction
stale_cancels [] = []
stale_cancels (orders ∷ rest) = map (cancel_action stale) orders ++ stale_cancels rest

abbrev priority : LifecycleActionType → ℕ
priority cancel = 0
priority replace = 1
priority submit = 2

-- The order of the sort key; an id that is missing counts as the empty string.
abbrev pub not_after : LifecycleAction → LifecycleAction → Bool
not_after a b =
    ltb a.symbol b.symbol
    || (nat_beq a.symbol b.symbol
        && (ltb (side_rank a.side) (side_rank b.side)
            || (nat_beq (side_rank a.side) (side_rank b.side)
                && (ltb (priority a.action_type) (priority b.action_type)
                    || (nat_beq (priority a.action_type) (priority b.action_type)
                        && leb (get_or 0 a.client_order_id) (get_or 0 b.client_order_id))))))

unfoldable pub plan :
    LifecycleSettings → (now : ℕ) (intents open_orders : List Order) (mid_price : ℤ) → LifecyclePlan
unfolding intent_loop group_stale stale_cancels
plan c now intents open_orders mid =
    let start : PlanState = record {
      stale_by_key = group_stale (is_stale c now mid) open_orders [];
      actions = [];
      audit_reasons = [];
    } in
    let s = intent_loop c open_orders intents start in
    record {
      actions = sorted not_after (s.actions ++ stale_cancels (values s.stale_by_key));
      audit_reasons = s.audit_reasons;
    }
