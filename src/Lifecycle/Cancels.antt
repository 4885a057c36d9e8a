-- ===== src/Lifecycle/Cancels.antt =====
-- Every stale order is cancelled once.
use meva_beta_alpha_codex.Base.{
  ℕ, ◌+◌, ◌≡◌, refl, ap, ◌∙◌, Bool, Option, none, some, List, [], ◌∷◌, ◌++◌, map, if_intro,
  Bool-cases, inl, inr, filter, arith, ◌==◌,
}
use meva_beta_alpha_codex.Base.Int.{ℤ}
use meva_beta_alpha_codex.Base.Dict.{insert, values}
use meva_beta_alpha_codex.Stage4.{replace_cancel, replace_submit, new_intent, stale, Order}
use meva_beta_alpha_codex.Lifecycle.{
  LifecycleSettings, Group, group_key, Groups, orders_of, add_stale, group_stale, is_invalid_order,
  find_duplicate, is_stale, cancel_action, submit_action, PlanState, place, deduped_or_placed,
  intent_step, intent_loop, stale_cancels, not_after, plan,
}
use meva_beta_alpha_codex.Lifecycle.Counts.{
  count, count-append, count-sorted, count-map, OrderTest, passes, is_cancel_of,
}

-- The orders that pass in all groups.
abbrev pending : OrderTest → Groups → ℕ
pending q [] = 0
pending q ((_, orders) ∷ rest) = count (passes q) orders + pending q rest

module _ (q : OrderTest) where
  -- What a group had is traded for what it gets.
  pending-insert :
      (g : Group) (orders : List Order) (d : Groups)
      → pending q (insert g orders d) + count (passes q) (orders_of g d)
        ≡ pending q d + count (passes q) orders
  pending-insert g orders [] = omega arith
  pending-insert g orders ((k, old) ∷ d) = elim (Bool-cases (g == k)) [
    | inl e ↦ rw e (omega arith)
    | inr e ↦ rw e (omega (arith, pending-insert g orders d))
  ]

  group_stale-pending :
      (stale_test : Order → Bool) (orders : List Order) (d : Groups)
      → pending q (group_stale stale_test orders d)
        ≡ pending q d + count (passes q) (filter stale_test orders)
  unfolding group_stale
  group_stale-pending stale_test [] d = omega arith
  group_stale-pending stale_test (o ∷ rest) d = elim (Bool-cases (stale_test o)) [
    | inl e ↦
        let g : Group = (o.symbol, o.side) in
        rw e (
          omega (
            arith,
            group_stale-pending stale_test rest (add_stale o d),
            pending-insert g (orders_of g d ++ o ∷ []) d,
            count-append (passes q) (orders_of g d) (o ∷ []),
          ))
    | inr e ↦ rw e (group_stale-pending stale_test rest d)
  ]

  stale_cancels-count :
      (d : Groups) → count (is_cancel_of q) (stale_cancels (values d)) ≡ pending q d
  unfolding stale_cancels
  stale_cancels-count [] = refl
  stale_cancels-count ((g, orders) ∷ d) = omega (
    arith,
    stale_cancels-count d,
    count-append (is_cancel_of q) (map (cancel_action stale) orders) (stale_cancels (values d)),
    count-map (is_cancel_of q) (passes q) (cancel_action stale) orders (λ o. refl),
  )

  -- The cancels made and to be made.
  abbrev due : PlanState → ℕ
  due s = count (is_cancel_of q) s.actions + pending q s.stale_by_key

  place-due :
      (intent : Order) (orders : List Order) (s : PlanState)
      → orders ≡ orders_of (intent.symbol, intent.side) s.stale_by_key
      → due (place intent orders s) ≡ due s
  unfolding place
  place-due intent [] s e =
      let new = submit_action new_intent none intent in
      omega (arith, count-append (is_cancel_of q) s.actions (new ∷ []))
  place-due intent (first ∷ rest) s e =
      let g : Group = (intent.symbol, intent.side) in
      let olds = first ∷ rest in
      let cancels = map (cancel_action replace_cancel) olds in
      let new = submit_action replace_submit first.client_order_id intent in
      omega (
        arith,
        count-append (is_cancel_of q) (s.actions ++ cancels) (new ∷ []),
        count-append (is_cancel_of q) s.actions cancels,
        count-map (is_cancel_of q) (passes q) (cancel_action replace_cancel) olds (λ o. refl),
        pending-insert g [] s.stale_by_key,
        ap (count (passes q)) e,
      )

  deduped_or_placed-due :
      (intent : Order) (found : Option Order) (s : PlanState)
      → due (deduped_or_placed intent found s) ≡ due s
  deduped_or_placed-due intent (some _) s = refl
  deduped_or_placed-due intent none s = place-due intent _ s refl

  module _ (c : LifecycleSettings) (open_orders : List Order) where
    intent_loop-due :
        (intents : List Order) (s : PlanState) → due (intent_loop c open_orders intents s) ≡ due s
    unfolding intent_loop intent_step
    intent_loop-due [] s = refl
    intent_loop-due (i ∷ rest) s =
        intent_loop-due rest (intent_step c open_orders i s)
        ∙ if_intro (λ t. due t ≡ due s) (is_invalid_order i) (λ e. refl)
            λ e. deduped_or_placed-due i (find_duplicate c i open_orders) s

  -- For every test of orders that reads symbol, side, price, quantity and client order id: a plan has
  -- as many cancels of orders that pass it as there are stale open orders that pass it.
  pub plan-cancels :
      (c : LifecycleSettings) (now : ℕ) (intents open_orders : List Order) (mid_price : ℤ)
      → count (is_cancel_of q) (plan c now intents open_orders mid_price).actions
        ≡ count (passes q) (filter (is_stale c now mid_price) open_orders)
  unfolding plan
  plan-cancels c now intents open_orders mid =
      let groups = group_stale (is_stale c now mid) open_orders [] in
      let start : PlanState = record { stale_by_key = groups; actions = []; audit_reasons = [] } in
      let s = intent_loop c open_orders intents start in
      let last = stale_cancels (values s.stale_by_key) in
      omega (
        arith,
        count-sorted (is_cancel_of q) not_after (s.actions ++ last),
        count-append (is_cancel_of q) s.actions last,
        stale_cancels-count s.stale_by_key,
        intent_loop-due c open_orders intents start,
        group_stale-pending (is_stale c now mid) open_orders [],
      )
