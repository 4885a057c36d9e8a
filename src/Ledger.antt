-- ===== src/Ledger.antt =====
-- accounting/ledger.py and accounting/models.py: the replay of accounting events into positions,
-- cash and profit.
-- Quantities, prices and amounts are whole numbers of 10^-8, the quantum that `quantize_money` and
-- `quantize_qty` round to, so a product of two is rounded down by 10^8 (toward zero, `ROUND_DOWN`).
-- Symbols are numbers, 0 for none; times are numbers. `balances_try` has the one key "TRY".
pub mod Replay
pub mod Fifo
pub mod Holdings
pub mod Dedupe
pub mod Oversell
mod Tests
use meva_beta_alpha_codex.Base.{
  ℕ, zero, suc, ◌+◌, ◌-◌, min, Bool, true, false, Option, none, some, List, [], ◌∷◌, ◌++◌, leb,
  if◌then◌else◌, get_or,
}
use meva_beta_alpha_codex.Base.Int.{
  ℤ, pos, pos_part, neg_part, abs_ℤ, neg_ℤ, ◌+ℤ◌, ◌-ℤ◌, ◌*ℤ◌, trunc_div,
}
use meva_beta_alpha_codex.Stage4.{Side, buy, sell}

pub data AccountingEventType : Type 0 where
  fill_recorded fee_recorded funding_cost_recorded slippage_recorded : AccountingEventType
  transfer rebalance withdrawal : AccountingEventType

-- A side that is neither BUY nor SELL is `none`.
pub record AccountingLedgerEvent : Type 0 where
  pub event_id : ℕ
  pub ts : ℕ
  pub type : AccountingEventType
  pub symbol : ℕ
  pub side : Option Side
  pub qty : ℤ
  pub price_try : Option ℤ
  pub amount_try : Option ℤ

pub record PositionLot : Type 0 where
  pub qty : ℕ
  pub unit_cost_try : ℤ
  pub opened_at : ℕ

pub record SymbolState : Type 0 where
  pub lots : List PositionLot
  pub realized_pnl_try : ℤ
  pub fees_try : ℤ
  pub funding_cost_try : ℤ
  pub slippage_try : ℤ

abbrev pub empty_symbol_state : SymbolState
empty_symbol_state = record {
  lots = [];
  realized_pnl_try = pos 0;
  fees_try = pos 0;
  funding_cost_try = pos 0;
  slippage_try = pos 0;
}

-- `quantize_money` of a product of two quantized amounts.
unfoldable pub product : ℤ → ℤ → ℤ
product a b = trunc_div (a *ℤ b) 100000000

-- What is left of a sale: the part not matched, the profit so far, the lots.
pub record Matched : Type 0 where
  pub remaining : ℕ
  pub realized : ℤ
  pub lots : List PositionLot

-- `while remaining > 0 and lots`: the oldest lot first. A lot that is not used up means that nothing
-- remains, so the loop ends there.
unfoldable pub match_lots : (price : ℤ) (remaining : ℕ) (realized : ℤ) → List PositionLot → Matched
match_lots price zero realized lots = record { remaining = 0; realized = realized; lots = lots }
match_lots price (suc r) realized [] = record { remaining = suc r; realized = realized; lots = [] }
match_lots price (suc r) realized (lot ∷ rest) =
    let matched = min (suc r) lot.qty in
    let gain = realized +ℤ product (price -ℤ lot.unit_cost_try) (pos matched) in
    let later = match_lots price (suc r - matched) gain rest in
    if leb (lot.qty - matched) 0 then later else (record {
      remaining = suc r - matched;
      realized = gain;
      lots = record lot { qty = lot.qty - matched } ∷ rest;
    })

-- The effect of an event: the state of its symbol, and the changes of the TRY balance and of the
-- treasury.
pub record Booking : Type 0 where
  pub state : SymbolState
  pub cash : ℤ
  pub treasury : ℤ

abbrev pub only_cash : SymbolState → ℤ → Booking
only_cash s cash = record { state = s; cash = cash; treasury = pos 0 }

-- A sale after its matching; what remains is an oversell, a `ValueError`.
unfoldable pub sold : (notional : ℤ) → SymbolState → Matched → Option Booking
sold notional s m =
    if leb m.remaining 0
    then some (only_cash (record s { lots = m.lots; realized_pnl_try = m.realized }) notional)
    else none

unfoldable pub book_fill :
    Option Side → (qty : ℕ) (price : ℤ) (ts : ℕ) → SymbolState → Option Booking
unfolding sold match_lots
book_fill none qty price ts s = some (only_cash s (pos 0))
book_fill (some buy) qty price ts s =
    let lot : PositionLot = record { qty = qty; unit_cost_try = price; opened_at = ts } in
    some (only_cash (record s { lots = s.lots ++ lot ∷ [] }) (pos 0 -ℤ product (pos qty) price))
book_fill (some sell) qty price ts s =
    sold (product (pos qty) price) s (match_lots price qty s.realized_pnl_try s.lots)

-- `event.amount_try or Decimal("0")`
abbrev pub amount : AccountingLedgerEvent → ℤ
amount e = get_or (pos 0) e.amount_try

-- `quantize_qty(abs(event.qty))`
abbrev pub quantity : AccountingLedgerEvent → ℕ
quantity e = pos_part e.qty + neg_part e.qty

-- A fill without a symbol books nothing.
unfoldable pub book_symbol_fill :
    (symbol : ℕ) → AccountingLedgerEvent → SymbolState → Option Booking
unfolding book_fill
book_symbol_fill zero e s = some (only_cash s (pos 0))
book_symbol_fill (suc _) e s = book_fill e.side (quantity e) (get_or (pos 0) e.price_try) e.ts s

unfoldable pub book : AccountingEventType → AccountingLedgerEvent → SymbolState → Option Booking
unfolding book_symbol_fill
book fill_recorded e s = book_symbol_fill e.symbol e s
book fee_recorded e s =
    let fee = abs_ℤ (amount e) in
    some (only_cash (record s { fees_try = s.fees_try +ℤ fee }) (pos 0 -ℤ fee))
book funding_cost_recorded e s =
    let cost = abs_ℤ (amount e) in
    some (only_cash (record s { funding_cost_try = s.funding_cost_try +ℤ cost }) (pos 0 -ℤ cost))
book slippage_recorded e s =
    some (only_cash (record s { slippage_try = s.slippage_try +ℤ abs_ℤ (amount e) }) (pos 0))
book transfer e s = some (only_cash s (amount e))
book rebalance e s = some (record { state = s; cash = pos 0 -ℤ amount e; treasury = amount e })
book withdrawal e s = some (only_cash s (pos 0 -ℤ abs_ℤ (amount e)))
