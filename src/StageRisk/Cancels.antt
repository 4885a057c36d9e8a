-- ===== src/StageRisk/Cancels.antt =====
-- The loop over the actions accepts every cancel.
use meva_beta_alpha_codex.Base.{
  ℕ, ◌≡◌, refl, false, List, [], ◌∷◌, if◌then◌else◌, Bool-cases, inl, inr, arith,
}
use meva_beta_alpha_codex.Base.Int.{ℤ, leb_ℤ, neg_ℤ}
use meva_beta_alpha_codex.Stage4.{
  LifecycleActionType, submit, cancel, replace, LifecycleAction, PnlSnapshot,
}
use meva_beta_alpha_codex.Lifecycle.Counts.{count, OrderTest, is_cancel_of}
use meva_beta_alpha_codex.StageRisk.{
  RiskPolicy, Verdict, Projection, Book, type_step, action_step, is_accepted_verdict, filter_loop,
  filter_actions,
}

-- Neither the daily loss nor the drawdown has reached its limit.
pub record IsTrading (p : RiskPolicy) (pnl : PnlSnapshot) : Type 0 where
  pub loss_allows : leb_ℤ pnl.realized_today_try (neg_ℤ p.max_daily_loss_try) ≡ false
  pub drawdown_allows : leb_ℤ p.max_drawdown_pct pnl.drawdown_pct ≡ false

module _ (q : OrderTest) where
  -- What the loop makes of a verdict leaves the cancels in place, where a rejected action is none.
  kept-cancels :
      (v : Verdict) (a : LifecycleAction) (kept rest : List LifecycleAction)
      → (is_accepted_verdict v ≡ false → is_cancel_of q a ≡ false)
      → count (is_cancel_of q) kept ≡ count (is_cancel_of q) rest
      → count (is_cancel_of q) (if is_accepted_verdict v then a ∷ kept else kept)
        ≡ count (is_cancel_of q) (a ∷ rest)
  kept-cancels v a kept rest h e = elim (Bool-cases (is_accepted_verdict v)) [
    | inl k ↦ rw k (omega (arith, e))
    | inr k ↦ rw (k, h k) (omega (arith, e))
  ]

  type_step-cancel :
      (type : LifecycleActionType) (p : RiskPolicy) (b : Book) (s : Projection)
      (a : LifecycleAction)
      → a.action_type ≡ type
      → is_accepted_verdict (type_step type p b s a).1 ≡ false
      → is_cancel_of q a ≡ false
  unfolding type_step
  type_step-cancel cancel p b s a e h = ground (arith, h)
  type_step-cancel replace p b s a e h = ground (arith, h)
  type_step-cancel submit p b s a e h = rw e refl

  filter_loop-cancels :
      (p : RiskPolicy) (b : Book) (s : Projection) (actions : List LifecycleAction)
      → count (is_cancel_of q) (filter_loop p b s actions).0 ≡ count (is_cancel_of q) actions
  unfolding filter_loop
  filter_loop-cancels p b s [] = refl
  filter_loop-cancels p b s (a ∷ rest) =
      let step = action_step p b s a in
      kept-cancels step.1 a (filter_loop p b step.0 rest).0 rest
        (type_step-cancel a.action_type p b s a refl) (filter_loop-cancels p b step.0 rest)

  pub filter_actions-cancels :
      (p : RiskPolicy) (b : Book) (open_orders : ℕ) (position : ℤ) (pnl : PnlSnapshot)
      (actions : List LifecycleAction)
      → IsTrading p pnl
      → count (is_cancel_of q) (filter_actions p b open_orders position pnl actions).0
        ≡ count (is_cancel_of q) actions
  unfolding filter_actions
  filter_actions-cancels p b open_orders position pnl actions t =
      rw (t.loss_allows, t.drawdown_allows)
        (filter_loop-cancels p b
          (record { open_orders = open_orders; position_notional = position }) actions)
