-- ===== src/Ledger/Oversell.antt =====
-- The one error of a replay.
use meva_beta_alpha_codex.Base.{ℕ, zero, suc, ◌<◌, ◌≡◌, ◌≢◌, ◌↔◌, refl, Option, none, some, arith}
use meva_beta_alpha_codex.Base.Int.{ℤ, pos}
use meva_beta_alpha_codex.Stage4.{Side, buy, sell}
use meva_beta_alpha_codex.Ledger.{
  AccountingEventType, fill_recorded, fee_recorded, funding_cost_recorded, slippage_recorded,
  transfer, rebalance, withdrawal, AccountingLedgerEvent, SymbolState, Matched, match_lots, product,
  Booking, sold, book_fill, quantity, book_symbol_fill, book,
}
use meva_beta_alpha_codex.Ledger.Replay.{LedgerState, state_of, booked, apply_event, lots_qty}
use meva_beta_alpha_codex.Ledger.Fifo.{match_lots-IsFifo}
use meva_beta_alpha_codex.Ledger.Holdings.{held}

sold-none :
    (notional : ℤ) (s : SymbolState) (m : Matched) → (sold notional s m ≡ none) ↔ (0 < m.remaining)
unfolding sold
sold-none notional s m = (λ h. ground (arith, h), λ h. ground (arith, h))

book_fill-none :
    (side : Option Side) (q : ℕ) (price : ℤ) (ts : ℕ) (s : SymbolState)
    → (book_fill side q price ts s ≡ none) ↔ ((side ≡ some sell) × (lots_qty s.lots < q))
unfolding book_fill
book_fill-none none q price ts s = (λ h. ground (arith, h), λ h. ground (arith, h))
book_fill-none (some buy) q price ts s = (λ h. ground (arith, h), λ h. ground (arith, h))
book_fill-none (some sell) q price ts s =
    let m = match_lots price q s.realized_pnl_try s.lots in
    let remains = (match_lots-IsFifo price q s.realized_pnl_try s.lots).1 in
    let r = sold-none (product (pos q) price) s m in
    (λ h. (refl, omega (arith, r.0 h, remains)), λ h. r.1 (omega (arith, h.1, remains)))

book_symbol_fill-none :
    (symbol : ℕ) (e : AccountingLedgerEvent) (s : SymbolState)
    → (book_symbol_fill symbol e s ≡ none)
      ↔ ((e.side ≡ some sell) × (symbol ≢ 0) × (lots_qty s.lots < quantity e))
unfolding book_symbol_fill
book_symbol_fill-none zero e s = (λ h. ground (arith, h), λ h. absurd (h.1 refl))
book_symbol_fill-none (suc n) e s =
    let r = book_fill-none e.side (quantity e) _ e.ts s in
    (λ h. ((r.0 h).0, (λ z. ground (arith, z)), (r.0 h).1), λ h. r.1 (h.0, h.2))

-- An event is an oversell: a sale of a symbol that exceeds what is held.
abbrev pub Oversells : AccountingEventType → AccountingLedgerEvent → (holding : ℕ) → Type 0
Oversells t e holding =
    (t ≡ fill_recorded) × (e.side ≡ some sell) × (e.symbol ≢ 0) × (holding < quantity e)

book-none :
    (t : AccountingEventType) (e : AccountingLedgerEvent) (s : SymbolState)
    → (book t e s ≡ none) ↔ Oversells t e (lots_qty s.lots)
unfolding book
book-none fill_recorded e s =
    let r = book_symbol_fill-none e.symbol e s in
    (λ h. (refl, (r.0 h).0, (r.0 h).1, (r.0 h).2), λ h. r.1 (h.1, h.2, h.3))
book-none fee_recorded e s = (λ h. ground (arith, h), λ h. ground (arith, h))
book-none funding_cost_recorded e s = (λ h. ground (arith, h), λ h. ground (arith, h))
book-none slippage_recorded e s = (λ h. ground (arith, h), λ h. ground (arith, h))
book-none transfer e s = (λ h. ground (arith, h), λ h. ground (arith, h))
book-none rebalance e s = (λ h. ground (arith, h), λ h. ground (arith, h))
book-none withdrawal e s = (λ h. ground (arith, h), λ h. ground (arith, h))

booked-none :
    (e : AccountingLedgerEvent) (st : LedgerState) (r : Option Booking)
    → (booked e st r ≡ none) ↔ (r ≡ none)
booked-none e st none = (λ h. refl, λ h. refl)
booked-none e st (some b) = (λ h. ground (arith, h), λ h. ground (arith, h))

-- An event raises the error if and only if it is the fill of a sale of a symbol, of more units than
-- the symbol's lots hold.
pub apply_event-oversell :
    (e : AccountingLedgerEvent) (st : LedgerState)
    → (apply_event e st ≡ none) ↔ Oversells e.type e (held e.symbol st)
unfolding apply_event
apply_event-oversell e st =
    let outer = booked-none e st (book e.type e (state_of e.symbol st)) in
    let inner = book-none e.type e (state_of e.symbol st) in
    (λ h. inner.0 (outer.0 h), λ h. outer.1 (inner.1 h))
