-- ===== src/Cycle.antt =====
-- services/stage4_cycle_runner.py, `run_one_cycle`: from the intents of a cycle to the actions that
-- the risk policy accepts, where the lifecycle plan meets that policy. The filters that the cycle puts
-- behind it (the cap on the universe, the shrinking of buys, the gate of the mode, the minimum amount,
-- the kill switch and the freeze) are not part of this.
-- `norm` is domain/symbols.py `canonical_symbol` on the numbers that stand for symbols; what is
-- shown holds for every function in its place.
mod Cancels
mod Tests
use meva_beta_alpha_codex.Base.{
  ℕ, Bool, not, Option, none, some, List, [], ◌∷◌, if◌then◌else◌, get_or, filter, any, nat_beq,
  length, number_key,
}
use meva_beta_alpha_codex.Base.Int.{ℤ, pos, ◌+ℤ◌, ◌*ℤ◌}
use meva_beta_alpha_codex.Base.Dict.{Dict, lookup, insert}
use meva_beta_alpha_codex.Stage4.{LifecycleAction, Order, Position, PnlSnapshot, truthy}
use meva_beta_alpha_codex.Lifecycle.{LifecycleSettings, plan}
use meva_beta_alpha_codex.StageRisk.{RiskPolicy, RiskDecision, Book, filter_actions}

-- `symbol in failed_symbols`
abbrev pub member : ℕ → List ℕ → Bool
member x xs = any (nat_beq x) xs

-- `safe_actions`: the planned actions of symbols without a failure.
unfoldable pub safe_actions :
    (norm : ℕ → ℕ) (failed_symbols : List ℕ) → List LifecycleAction → List LifecycleAction
safe_actions norm failed actions = filter (λ a. not (member (norm a.symbol) failed)) actions

-- The loop of the dict comprehension: orders with a client order id, a later one in place of an
-- earlier one.
abbrev by_client_id : List Order → Dict ℕ Order → Dict ℕ Order
by_client_id [] d = d
by_client_id (o ∷ rest) d =
    by_client_id rest
      (if truthy o.client_order_id then insert (get_or 0 o.client_order_id) o d else d)

abbrev by_symbol : (norm : ℕ → ℕ) → List Position → Dict ℕ Position → Dict ℕ Position
by_symbol norm [] d = d
by_symbol norm (p ∷ rest) d = by_symbol norm rest (insert (norm p.symbol) p d)

unfoldable pub open_orders_by_client_id : List Order → Dict ℕ Order
open_orders_by_client_id open_orders = by_client_id open_orders []

-- `{self.norm(p.symbol): p for p in positions}`
unfoldable pub positions_by_symbol : (norm : ℕ → ℕ) → List Position → Dict ℕ Position
positions_by_symbol norm positions = by_symbol norm positions []

-- The value of the positions: at the mark price, or at the average cost without one.
unfoldable pub position_notional : (norm : ℕ → ℕ) (mark_prices : Dict ℕ ℤ) → List Position → ℤ
position_notional norm marks [] = pos 0
position_notional norm marks (p ∷ rest) =
    p.qty *ℤ get_or p.avg_cost_try (lookup (norm p.symbol) marks)
    +ℤ position_notional norm marks rest

-- The first mark price, whatever its symbol, or 0.
unfoldable pub mid_price : Dict ℕ ℤ → ℤ
mid_price [] = pos 0
mid_price ((_, price) ∷ _) = price

-- What a cycle has read before it plans.
pub record CycleView : Type 0 where
  pub now : ℕ
  pub open_orders : List Order
  pub positions : List Position
  pub mark_prices : Dict ℕ ℤ
  pub snapshot : PnlSnapshot
  pub failed_symbols : List ℕ

abbrev pub book_of : (norm : ℕ → ℕ) → CycleView → Book
book_of norm v = record {
  positions_by_symbol = positions_by_symbol norm v.positions;
  open_orders_by_client_id = open_orders_by_client_id v.open_orders;
}

-- `accepted_actions` as the risk policy returns it: the lifecycle service, the actions of failed symbols
-- dropped, and the risk policy.
unfoldable pub accepted_actions :
    (norm : ℕ → ℕ)
    → LifecycleSettings
    → RiskPolicy
    → CycleView
    → (intents : List Order) → List LifecycleAction × List RiskDecision
accepted_actions norm c p v intents =
    filter_actions p (book_of norm v) (length v.open_orders)
      (position_notional norm v.mark_prices v.positions) v.snapshot
      (safe_actions norm v.failed_symbols
        (plan c v.now intents v.open_orders (mid_price v.mark_prices)).actions)
