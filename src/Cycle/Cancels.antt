-- ===== src/Cycle/Cancels.antt =====
-- Which cancels the risk policy leaves of those that the lifecycle plan makes.
use meva_beta_alpha_codex.Base.{
  ℕ, ◌≡◌, refl, ◌∙◌, Bool, not, ◌&&◌, List, [], ◌∷◌, Bool-cases, inl, inr, filter, arith, length,
}
use meva_beta_alpha_codex.Stage4.{
  LifecycleActionType, submit, cancel, replace, LifecycleAction, Order,
}
use meva_beta_alpha_codex.Lifecycle.{LifecycleSettings, is_stale, plan}
use meva_beta_alpha_codex.Lifecycle.Counts.{count, OrderTest, passes, is_cancel_of}
use meva_beta_alpha_codex.Lifecycle.Cancels.{plan-cancels}
use meva_beta_alpha_codex.StageRisk.{RiskPolicy}
use meva_beta_alpha_codex.StageRisk.Cancels.{IsTrading, filter_actions-cancels}
use meva_beta_alpha_codex.Cycle.{
  member, mid_price, safe_actions, CycleView, book_of, accepted_actions, position_notional,
}

-- The symbol of the order has no failure.
abbrev pub is_safe : (norm : ℕ → ℕ) (failed_symbols : List ℕ) → ℕ → Bool
is_safe norm failed symbol = not (member (norm symbol) failed)

count-filter {ℓ} :
    {A : Type ℓ} (p t r : A → Bool) (xs : List A)
    → ((x : A) → r x ≡ (t x && p x))
    → count p (filter t xs) ≡ count r xs
count-filter p t r [] h = refl
count-filter p t r (x ∷ xs) h = elim (Bool-cases (t x)) [
  | inl e ↦ rw (h x, e) (omega (arith, count-filter p t r xs h))
  | inr e ↦ rw (h x, e) (omega (arith, count-filter p t r xs h))
]

module _ (norm : ℕ → ℕ) (failed : List ℕ) (q : OrderTest) where
  -- The test that also asks for a symbol without a failure.
  abbrev pub safe_test : OrderTest
  safe_test symbol side price qty id = is_safe norm failed symbol && q symbol side price qty id

  is_cancel_of-safe :
      (type : LifecycleActionType) (a : LifecycleAction)
      → a.action_type ≡ type
      → is_cancel_of safe_test a ≡ (is_safe norm failed a.symbol && is_cancel_of q a)
  is_cancel_of-safe cancel a e = rw e refl
  is_cancel_of-safe submit a e = rw e (ground arith)
  is_cancel_of-safe replace a e = rw e (ground arith)

  safe_actions-cancels :
      (actions : List LifecycleAction)
      → count (is_cancel_of q) (safe_actions norm failed actions)
        ≡ count (is_cancel_of safe_test) actions
  unfolding safe_actions
  safe_actions-cancels actions =
      count-filter (is_cancel_of q) (λ a. is_safe norm failed a.symbol) (is_cancel_of safe_test)
        actions (λ a. is_cancel_of-safe a.action_type a refl)

-- For every test of orders that reads symbol, side, price, quantity and client order id: where
-- neither the daily loss nor the drawdown has reached its limit, the actions that the risk policy
-- accepts have as many cancels of orders that pass it as there are stale open orders that pass it and
-- whose symbol has no failure.
pub accepted_actions-cancels :
    (q : OrderTest) (norm : ℕ → ℕ) (c : LifecycleSettings) (p : RiskPolicy) (v : CycleView)
    (intents : List Order)
    → IsTrading p v.snapshot
    → count (is_cancel_of q) (accepted_actions norm c p v intents).0
      ≡ count
          (passes (safe_test norm v.failed_symbols q))
          (filter (is_stale c v.now (mid_price v.mark_prices)) v.open_orders)
unfolding accepted_actions
accepted_actions-cancels q norm c p v intents t =
    let planned = (plan c v.now intents v.open_orders (mid_price v.mark_prices)).actions in
    filter_actions-cancels q p (book_of norm v) (length v.open_orders)
      (position_notional norm v.mark_prices v.positions) v.snapshot
      (safe_actions norm v.failed_symbols planned) t
    ∙ safe_actions-cancels norm v.failed_symbols q planned
    ∙ plan-cancels (safe_test norm v.failed_symbols q) c v.now intents v.open_orders
        (mid_price v.mark_prices)
