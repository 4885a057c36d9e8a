-- ===== src/Lifecycle/Submits.antt =====
-- Every intent that is accepted is submitted once.
use meva_beta_alpha_codex.Base.{
  ℕ, ◌+◌, ◌≡◌, refl, Bool, not, ◌&&◌, none, List, [], ◌∷◌, ◌++◌, map, Bool-cases, Option-cases, inl,
  inr, filter, arith, is_some,
}
use meva_beta_alpha_codex.Base.Int.{ℤ}
use meva_beta_alpha_codex.Base.Dict.{values}
use meva_beta_alpha_codex.Stage4.{
  ActionReason, replace_cancel, replace_submit, new_intent, stale, Order,
}
use meva_beta_alpha_codex.Lifecycle.{
  LifecycleSettings, group_key, group_stale, is_invalid_order, find_duplicate, is_stale,
  cancel_action, submit_action, PlanState, place, intent_step, intent_loop, stale_cancels,
  not_after, plan,
}
use meva_beta_alpha_codex.Lifecycle.Counts.{
  count, count-append, count-sorted, filter-count, OrderTest, passes, is_submit_of,
}

-- The intents that are valid and duplicate no open order.
abbrev pub is_accepted : LifecycleSettings → List Order → Order → Bool
is_accepted c open_orders i =
    not (is_invalid_order i) && not (is_some (find_duplicate c i open_orders))

module _ (q : OrderTest) where
  no_submits :
      (reason : ActionReason) (orders : List Order)
      → count (is_submit_of q) (map (cancel_action reason) orders) ≡ 0
  no_submits reason [] = refl
  no_submits reason (o ∷ rest) = omega (arith, no_submits reason rest)

  stale_cancels-submits :
      (groups : List (List Order)) → count (is_submit_of q) (stale_cancels groups) ≡ 0
  unfolding stale_cancels
  stale_cancels-submits [] = refl
  stale_cancels-submits (orders ∷ rest) = omega (
    arith,
    no_submits stale orders,
    stale_cancels-submits rest,
    count-append (is_submit_of q) (map (cancel_action stale) orders) (stale_cancels rest),
  )

  place-submits :
      (intent : Order) (orders : List Order) (s : PlanState)
      → count (is_submit_of q) (place intent orders s).actions
        ≡ count (is_submit_of q) s.actions + count (passes q) (intent ∷ [])
  unfolding place
  place-submits intent [] s =
      count-append (is_submit_of q) s.actions (submit_action new_intent none intent ∷ [])
  place-submits intent (first ∷ rest) s =
      let cancels = map (cancel_action replace_cancel) (first ∷ rest) in
      let new = submit_action replace_submit first.client_order_id intent in
      omega (
        arith,
        count-append (is_submit_of q) (s.actions ++ cancels) (new ∷ []),
        count-append (is_submit_of q) s.actions cancels,
        no_submits replace_cancel (first ∷ rest),
      )

  module _ (c : LifecycleSettings) (open_orders : List Order) where
    intent_step-submits :
        (i : Order) (s : PlanState)
        → count (is_submit_of q) (intent_step c open_orders i s).actions
          ≡ count (is_submit_of q) s.actions
            + count (passes q) (filter (is_accepted c open_orders) (i ∷ []))
    unfolding intent_step
    intent_step-submits i s = elim (Bool-cases (is_invalid_order i)) [
      | inl e ↦ rw e (omega arith)
      | inr e ↦ elim (Option-cases (find_duplicate c i open_orders)) [
        | inl f ↦ rw (e, f) (place-submits i _ s)
        | inr (o, f) ↦ rw (e, f) (omega arith)
      ]
    ]

    intent_loop-submits :
        (intents : List Order) (s : PlanState)
        → count (is_submit_of q) (intent_loop c open_orders intents s).actions
          ≡ count (is_submit_of q) s.actions
            + count (passes q) (filter (is_accepted c open_orders) intents)
    unfolding intent_loop
    intent_loop-submits [] s = omega arith
    intent_loop-submits (i ∷ rest) s = omega (
      arith,
      intent_loop-submits rest (intent_step c open_orders i s),
      intent_step-submits i s,
      filter-count (passes q) (is_accepted c open_orders) i rest,
    )

  -- For every test of orders that reads symbol, side, price, quantity and client order id: a plan has
  -- as many submits that pass it as there are intents that pass it, are valid and duplicate no open
  -- order.
  pub plan-submits :
      (c : LifecycleSettings) (now : ℕ) (intents open_orders : List Order) (mid_price : ℤ)
      → count (is_submit_of q) (plan c now intents open_orders mid_price).actions
        ≡ count (passes q) (filter (is_accepted c open_orders) intents)
  unfolding plan
  plan-submits c now intents open_orders mid =
      let groups = group_stale (is_stale c now mid) open_orders [] in
      let start : PlanState = record { stale_by_key = groups; actions = []; audit_reasons = [] } in
      let s = intent_loop c open_orders intents start in
      let last = stale_cancels (values s.stale_by_key) in
      omega (
        arith,
        count-sorted (is_submit_of q) not_after (s.actions ++ last),
        count-append (is_submit_of q) s.actions last,
        stale_cancels-submits (values s.stale_by_key),
        intent_loop-submits c open_orders intents start,
      )
