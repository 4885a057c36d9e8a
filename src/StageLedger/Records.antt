-- ===== src/StageLedger/Records.antt =====
-- The records of domain/ledger.py and the roundings of domain/money_policy.py.
use meva_beta_alpha_codex.Base.{ℕ, suc, ◌-◌, ◌^◌, Option, List, [], number_key}
use meva_beta_alpha_codex.Base.Int.{ℤ, pos, negsuc, neg_ℤ}
use meva_beta_alpha_codex.Base.Dict.{Dict}
use meva_beta_alpha_codex.Sizing.{cut_down, quantize_to_step}

pub data LedgerEventType : Type 0 where
  order_placed order_canceled fill fee_paid adjustment : LedgerEventType

-- `side.upper()`
pub data EventSide : Type 0 where
  buy_side sell_side other_side : EventSide

-- A time without a zone, or an instant with the offset of its zone.
pub data Timestamp : Type 0 where
  naive : ℕ → Timestamp
  aware : (instant : ℕ) (offset : ℤ) → Timestamp

-- `ensure_utc`
abbrev pub ensure_utc : Timestamp → Timestamp
ensure_utc (naive t) = aware t (pos 0)
ensure_utc (aware t _) = aware t (pos 0)

abbrev pub instant_of : Timestamp → ℕ
instant_of (naive t) = t
instant_of (aware t _) = t

-- Without the fields that are only passed through.
pub record LedgerEvent : Type 0 where
  pub event_id : ℕ
  pub ts : Timestamp
  pub symbol : ℕ
  pub type : LedgerEventType
  pub side : Option EventSide
  pub qty : ℕ
  pub price : Option ℕ
  pub fee : Option ℤ
  pub fee_currency : Option ℕ

pub record PositionLot : Type 0 where
  pub symbol : ℕ
  pub qty : ℕ
  pub unit_cost : ℕ
  pub opened_at : Timestamp

pub record SymbolLedger : Type 0 where
  pub symbol : ℕ
  pub lots : List PositionLot
  pub realized_pnl : ℤ

pub record LedgerState : Type 0 where
  pub symbols : Dict ℕ SymbolLedger
  pub fees_by_currency : Dict ℕ ℤ

abbrev pub new_state : LedgerState
new_state = record { symbols = []; fees_by_currency = [] }

-- The fields of `MoneyMathPolicy` that the ledger reads.
pub record MoneyMathPolicy : Type 0 where
  pub price_tick : ℕ
  pub qty_step : ℕ
  pub quote_precision : ℕ
  pub fee_precision : ℕ

abbrev pub round_qty : MoneyMathPolicy → ℕ → ℕ
round_qty p qty = quantize_to_step p.qty_step qty

abbrev pub round_price : MoneyMathPolicy → ℕ → ℕ
round_price p price = quantize_to_step p.price_tick price

-- `quantize(_quantum(precision))` of an amount.
abbrev pub quantize_amount : (precision : ℕ) → ℤ → ℤ
quantize_amount precision (pos n) = pos (cut_down (10 ^ (16 - precision)) n 1)
quantize_amount precision (negsuc n) = neg_ℤ (pos (cut_down (10 ^ (16 - precision)) (suc n) 1))

abbrev pub round_quote : MoneyMathPolicy → ℤ → ℤ
round_quote p amount = quantize_amount p.quote_precision amount

abbrev pub round_fee : MoneyMathPolicy → ℤ → ℤ
round_fee p fee = quantize_amount p.fee_precision fee
