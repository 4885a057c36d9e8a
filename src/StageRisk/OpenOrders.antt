-- ===== src/StageRisk/OpenOrders.antt =====
-- How many submits `filter_actions` accepts, by the number of open orders it projects.
use meva_beta_alpha_codex.Base.{
  ℕ, ◌+◌, ◌≤◌, Bool, true, false, List, [], ◌∷◌, max, arith, if_intro, if◌then◌else◌,
}
use meva_beta_alpha_codex.Base.Int.{ℤ, leb_ℤ, neg_ℤ}
use meva_beta_alpha_codex.Stage4.{
  LifecycleAction, LifecycleActionType, submit, cancel, replace, PnlSnapshot,
}
use meva_beta_alpha_codex.StageRisk.{
  RiskDecision, RiskPolicy, Book, Projection, action_step, type_step, submit_step, side_step,
  buy_step, sell_step, is_accepted_verdict, filter_loop, filter_actions,
}

abbrev one_submit : LifecycleActionType → ℕ
one_submit submit = 1
one_submit cancel = 0
one_submit replace = 0

abbrev one_cancel : LifecycleActionType → ℕ
one_cancel cancel = 1
one_cancel submit = 0
one_cancel replace = 0

abbrev pub submits : List LifecycleAction → ℕ
submits [] = 0
submits (a ∷ rest) = one_submit a.action_type + submits rest

abbrev pub cancels : List LifecycleAction → ℕ
cancels [] = 0
cancels (a ∷ rest) = one_cancel a.action_type + cancels rest

-- Among the actions let through, the submits exceed the cancels by no more than what `n` open orders
-- leave of the limit.
abbrev pub IsWithin : (limit n : ℕ) → List LifecycleAction → Type 0
IsWithin limit n kept = n + submits kept ≤ max limit n + cancels kept

type_step-open_orders :
    (t : LifecycleActionType) (p : RiskPolicy) (b : Book) (s : Projection) (a : LifecycleAction)
    → let (s', v) = type_step t p b s a in
      let ok = is_accepted_verdict v in
      (s'.open_orders ≤ max p.max_open_orders s.open_orders)
      × (s.open_orders + (if ok then one_submit t else 0)
          ≤ s'.open_orders + (if ok then one_cancel t else 0))
unfolding type_step submit_step side_step buy_step sell_step
type_step-open_orders t p b s a = ground arith

add_up :
    (limit n next : ℕ) (a : LifecycleAction) (kept : List LifecycleAction) (ok : Bool)
    → next ≤ max limit n
    → n + (if ok then one_submit a.action_type else 0)
      ≤ next + (if ok then one_cancel a.action_type else 0)
    → IsWithin limit next kept
    → IsWithin limit n (if ok then a ∷ kept else kept)
add_up limit n next a kept true bound step later = omega (arith, bound, step, later)
add_up limit n next a kept false bound step later = omega (arith, bound, step, later)

filter_loop-IsWithin :
    (p : RiskPolicy) (b : Book) (s : Projection) (actions : List LifecycleAction)
    → IsWithin p.max_open_orders s.open_orders (filter_loop p b s actions).0
unfolding filter_loop
filter_loop-IsWithin p b s [] = omega arith
filter_loop-IsWithin p b s (a ∷ rest) =
    let (s', v) = action_step p b s a in
    let (bound, step) = type_step-open_orders a.action_type p b s a in
    add_up p.max_open_orders s.open_orders s'.open_orders a (filter_loop p b s' rest).0
      (is_accepted_verdict v) bound step (filter_loop-IsWithin p b s' rest)

-- The open orders that the filter is told of and the submits it accepts together are at most the
-- limit (or those open orders, if they are more) and one more for each cancel that it accepts.
pub filter_actions-IsWithin :
    (p : RiskPolicy) (b : Book) (n : ℕ) (position : ℤ) (pnl : PnlSnapshot)
    (actions : List LifecycleAction)
    → IsWithin p.max_open_orders n (filter_actions p b n position pnl actions).0
unfolding filter_actions
filter_actions-IsWithin p b n position pnl actions =
    let P : List LifecycleAction × List RiskDecision → Type 0 =
      λ r. IsWithin p.max_open_orders n r.0 in
    let nothing : IsWithin p.max_open_orders n [] = omega arith in
    if_intro P (leb_ℤ pnl.realized_today_try (neg_ℤ p.max_daily_loss_try)) (λ _. nothing)
      λ _.
        if_intro P (leb_ℤ p.max_drawdown_pct pnl.drawdown_pct) (λ _. nothing)
          λ _.
            filter_loop-IsWithin p b (record { open_orders = n; position_notional = position })
              actions
