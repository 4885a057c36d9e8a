-- ===== src/Stage4.antt =====
-- domain/stage4.py: the orders, positions and lifecycle actions that Stage 4 passes around.
-- Symbols and order ids are only compared and ordered, so they are numbers; 0 is the empty string.
-- A price, a quantity and a ratio are whole numbers of 10^-8, a notional one of 10^-16, and so is a
-- product of a price and a quantity. Basis points are whole numbers of 10^-4.
use meva_beta_alpha_codex.Base.{ℕ, zero, suc, Bool, true, false, Option, none, some}
use meva_beta_alpha_codex.Base.Int.{ℤ}

pub data Side : Type 0 where
  buy sell : Side

abbrev pub side_rank : Side → ℕ
side_rank buy = 0
side_rank sell = 1

pub data LifecycleActionType : Type 0 where
  submit cancel replace : LifecycleActionType

pub data OrderMode : Type 0 where
  dry_run live external : OrderMode

-- The reasons that the lifecycle service writes; any other string is `other_reason`.
pub data ActionReason : Type 0 where
  replace_cancel replace_submit new_intent stale other_reason : ActionReason

pub record LifecycleAction : Type 0 where
  pub action_type : LifecycleActionType
  pub symbol : ℕ
  pub side : Side
  pub price : ℤ
  pub qty : ℤ
  pub reason : ActionReason
  pub client_order_id : Option ℕ
  pub exchange_order_id : Option ℕ
  pub replace_for_client_order_id : Option ℕ

pub record Order : Type 0 where
  pub symbol : ℕ
  pub side : Side
  pub price : ℤ
  pub qty : ℤ
  pub status : ℕ
  pub created_at : ℕ
  pub updated_at : ℕ
  pub exchange_order_id : Option ℕ
  pub client_order_id : Option ℕ
  pub exchange_client_id : Option ℕ
  pub mode : OrderMode

pub record Position : Type 0 where
  pub symbol : ℕ
  pub qty : ℤ
  pub avg_cost_try : ℤ
  pub realized_pnl_try : ℤ

pub record PnlSnapshot : Type 0 where
  pub total_equity_try : ℤ
  pub realized_today_try : ℤ
  pub drawdown_pct : ℤ
  pub realized_total_try : ℤ

-- The truth value of an optional string: neither `None` nor empty.
abbrev pub truthy : Option ℕ → Bool
truthy none = false
truthy (some zero) = false
truthy (some (suc _)) = true
