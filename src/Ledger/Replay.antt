-- ===== src/Ledger/Replay.antt =====
-- `AccountingLedger.recompute` and `_dedupe_events` of accounting/ledger.py, and
-- `PortfolioAccountingState` of accounting/models.py.
-- The parameter `sort_key` is the place of an event in the order of `_sort_key`'s tuples.
use meva_beta_alpha_codex.Base.{
  ℕ, zero, suc, ◌+◌, Bool, true, ◌||◌, ◌&&◌, Option, none, some, List, [], ◌∷◌, ltb, leb, nat_beq,
  if◌then◌else◌, get_or, filter, sorted, number_key, map,
}
use meva_beta_alpha_codex.Base.Int.{ℤ, pos, ◌+ℤ◌, ◌-ℤ◌, ◌*ℤ◌, trunc_div}
use meva_beta_alpha_codex.Base.Dict.{Dict, lookup, insert, values}
use meva_beta_alpha_codex.Ledger.{
  AccountingLedgerEvent, PositionLot, SymbolState, empty_symbol_state, Booking, book,
}

pub record LedgerState : Type 0 where
  pub symbol_state : Dict ℕ SymbolState
  pub try_balance : ℤ
  pub treasury_try : ℤ

-- `symbol_state[symbol] = …`, where there is a symbol.
abbrev pub file_symbol : (symbol : ℕ) → SymbolState → Dict ℕ SymbolState → Dict ℕ SymbolState
file_symbol zero s d = d
file_symbol (suc n) s d = insert (suc n) s d

abbrev pub state_of : (symbol : ℕ) → LedgerState → SymbolState
state_of symbol st = get_or empty_symbol_state (lookup symbol st.symbol_state)

abbrev pub booked : AccountingLedgerEvent → LedgerState → Option Booking → Option LedgerState
booked e st none = none
booked e st (some b) = some (record {
  symbol_state = file_symbol e.symbol b.state st.symbol_state;
  try_balance = st.try_balance +ℤ b.cash;
  treasury_try = st.treasury_try +ℤ b.treasury;
})

-- The body of the loop over the events; `none` is the `ValueError` of an oversell.
unfoldable pub apply_event : AccountingLedgerEvent → LedgerState → Option LedgerState
apply_event e st = booked e st (book e.type e (state_of e.symbol st))

-- An exception ends the loop.
abbrev pub and_then : Option LedgerState → (LedgerState → Option LedgerState) → Option LedgerState
and_then none next = none
and_then (some st) next = next st

unfoldable pub replay : List AccountingLedgerEvent → LedgerState → Option LedgerState
unfolding apply_event
replay [] st = some st
replay (e ∷ rest) st = and_then (apply_event e st) (replay rest)

pub record SymbolPnlState : Type 0 where
  pub symbol : ℕ
  pub qty : ℕ
  pub avg_cost_try : ℤ
  pub realized_pnl_try : ℤ
  pub unrealized_pnl_try : ℤ
  pub fees_try : ℤ
  pub funding_cost_try : ℤ
  pub slippage_try : ℤ

abbrev pub lots_qty : List PositionLot → ℕ
lots_qty [] = 0
lots_qty (lot ∷ rest) = lot.qty + lots_qty rest

-- The sum of `lot.qty * lot.unit_cost_try`.
abbrev lots_cost : List PositionLot → ℤ
lots_cost [] = pos 0
lots_cost (lot ∷ rest) = pos lot.qty *ℤ lot.unit_cost_try +ℤ lots_cost rest

-- The sum of `(mark - lot.unit_cost_try) * lot.qty`.
abbrev lots_gain : (mark : ℤ) → List PositionLot → ℤ
lots_gain mark [] = pos 0
lots_gain mark (lot ∷ rest) = (mark -ℤ lot.unit_cost_try) *ℤ pos lot.qty +ℤ lots_gain mark rest

abbrev avg_cost : List PositionLot → ℕ → ℤ
avg_cost lots zero = pos 0
avg_cost lots (suc qty) = trunc_div (lots_cost lots) (suc qty)

abbrev unrealized : List PositionLot → (mark : Option ℤ) → ℤ
unrealized lots none = pos 0
unrealized lots (some mark) = trunc_div (lots_gain mark lots) 100000000

unfoldable pub symbol_pnl : (mark_prices_try : Dict ℕ ℤ) → ℕ × SymbolState → SymbolPnlState
symbol_pnl marks (symbol, s) = record {
  symbol = symbol;
  qty = lots_qty s.lots;
  avg_cost_try = avg_cost s.lots (lots_qty s.lots);
  realized_pnl_try = s.realized_pnl_try;
  unrealized_pnl_try = unrealized s.lots (lookup symbol marks);
  fees_try = s.fees_try;
  funding_cost_try = s.funding_cost_try;
  slippage_try = s.slippage_try;
}

pub record PortfolioAccountingState : Type 0 where
  pub as_of : ℕ
  pub treasury_try : ℤ
  pub trading_capital_try : ℤ
  pub realized_pnl_try : ℤ
  pub unrealized_pnl_try : ℤ
  pub fees_try : ℤ
  pub funding_cost_try : ℤ
  pub slippage_try : ℤ
  pub symbols : List SymbolPnlState

abbrev pub total : (SymbolPnlState → ℤ) → List SymbolPnlState → ℤ
total f [] = pos 0
total f (s ∷ rest) = f s +ℤ total f rest

-- The state that `recompute` returns at the end of a replay.
unfoldable pub summary : (as_of : ℕ) (marks : Dict ℕ ℤ) → LedgerState → PortfolioAccountingState
unfolding symbol_pnl
summary as_of marks st =
    let symbols = map (symbol_pnl marks) (sorted (λ a b. leb a.0 b.0) st.symbol_state) in
    record {
      as_of = as_of;
      treasury_try = st.treasury_try;
      trading_capital_try = st.try_balance;
      realized_pnl_try = total (λ s. s.realized_pnl_try) symbols;
      unrealized_pnl_try = total (λ s. s.unrealized_pnl_try) symbols;
      fees_try = total (λ s. s.fees_try) symbols;
      funding_cost_try = total (λ s. s.funding_cost_try) symbols;
      slippage_try = total (λ s. s.slippage_try) symbols;
      symbols = symbols;
    }

-- `PortfolioAccountingState.equity_try`
unfoldable pub equity_try : PortfolioAccountingState → ℤ
equity_try p =
    p.trading_capital_try +ℤ p.treasury_try +ℤ p.realized_pnl_try +ℤ p.unrealized_pnl_try
    -ℤ p.fees_try -ℤ p.funding_cost_try -ℤ p.slippage_try

module _ (sort_key : AccountingLedgerEvent → ℕ) where
  abbrev pub replaces : AccountingLedgerEvent → Option AccountingLedgerEvent → Bool
  replaces e none = true
  replaces e (some current) = ltb (sort_key e) (sort_key current)

  -- The loop of `_dedupe_events`.
  unfoldable pub dedupe_into :
      List AccountingLedgerEvent → Dict ℕ AccountingLedgerEvent → Dict ℕ AccountingLedgerEvent
  dedupe_into [] d = d
  dedupe_into (e ∷ rest) d =
      dedupe_into rest (if replaces e (lookup e.event_id d) then insert e.event_id e d else d)

  unfoldable pub dedupe_events : List AccountingLedgerEvent → List AccountingLedgerEvent
  unfolding dedupe_into
  dedupe_events events = values (dedupe_into events [])

  abbrev pub before : AccountingLedgerEvent → AccountingLedgerEvent → Bool
  before a b = ltb a.ts b.ts || (nat_beq a.ts b.ts && leb a.event_id b.event_id)

  abbrev summarized :
      (as_of : ℕ) (mark_prices_try : Dict ℕ ℤ)
      → Option LedgerState
      → Option PortfolioAccountingState
  summarized as_of marks none = none
  summarized as_of marks (some st) = some (summary as_of marks st)

  -- `recompute` behind `_dedupe_events`.
  unfoldable pub of_deduped :
      (deduped : List AccountingLedgerEvent) (as_of : ℕ) (mark_prices_try : Dict ℕ ℤ)
      (initial_trading_capital_try initial_treasury_try : ℤ)
      → Option PortfolioAccountingState
  of_deduped deduped as_of marks capital treasury = summarized as_of marks (
      replay (sorted before (filter (λ e. leb e.ts as_of) deduped))
        (record { symbol_state = []; try_balance = capital; treasury_try = treasury }))

  unfoldable pub recompute :
      (events : List AccountingLedgerEvent) (as_of : ℕ) (mark_prices_try : Dict ℕ ℤ)
      (initial_trading_capital_try initial_treasury_try : ℤ)
      → Option PortfolioAccountingState
  recompute events as_of marks capital treasury =
      of_deduped (dedupe_events events) as_of marks capital treasury
