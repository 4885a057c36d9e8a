-- ===== src/Ledger/Tests.antt =====
-- Two purchases, a sale that reaches into the second, and a fee.
use meva_beta_alpha_codex.Base.{
  ℕ, ◌+◌, ◌≡◌, ◌↔◌, ◌++◌, refl, none, some, List, [], ◌∷◌, inl, inr, arith, number_key,
}
use meva_beta_alpha_codex.Base.Int.{pos, ◌+ℤ◌, ◌-ℤ◌, ◌*ℤ◌, trunc_div}
use meva_beta_alpha_codex.Stage4.{Side, buy, sell}
use meva_beta_alpha_codex.Ledger.{
  fill_recorded, fee_recorded, AccountingLedgerEvent, PositionLot, match_lots, product, sold,
  book_fill, book_symbol_fill, book,
}
use meva_beta_alpha_codex.Ledger.Replay.{
  LedgerState, apply_event, replay, symbol_pnl, summary, equity_try, recompute,
}
use meva_beta_alpha_codex.Ledger.Fifo.{IsFifo, match_lots-IsFifo}
use meva_beta_alpha_codex.Ledger.Holdings.{held, replay-held}
use meva_beta_alpha_codex.Ledger.Oversell.{Oversells, apply_event-oversell}
use meva_beta_alpha_codex.Ledger.Dedupe.{recompute-again}

-- Three units at 100 and two at 120 (in 10^-8).
abbrev two_lots : List PositionLot
two_lots =
    (record { qty = 300000000; unit_cost_try = pos 10000000000; opened_at = 1 })
    ∷ (record { qty = 200000000; unit_cost_try = pos 12000000000; opened_at = 2 })
    ∷ []

abbrev trade : ℕ → Side → ℕ → ℕ → AccountingLedgerEvent
trade id side units price = record {
  event_id = id;
  ts = id;
  type = fill_recorded;
  symbol = 5;
  side = some side;
  qty = pos units;
  price_try = some (pos price);
  amount_try = none;
}

abbrev fee_of_one : AccountingLedgerEvent
fee_of_one = record {
  event_id = 4;
  ts = 4;
  type = fee_recorded;
  symbol = 5;
  side = none;
  qty = pos 0;
  price_try = none;
  amount_try = some (pos 100000000);
}

abbrev trades : List AccountingLedgerEvent
trades = trade 1 buy 3 100 ∷ trade 2 buy 2 120 ∷ trade 3 sell 4 150 ∷ []

abbrev start : LedgerState
start = record { symbol_state = []; try_balance = pos 0; treasury_try = pos 0 }

abbrev end_state : LedgerState
unfolding replay apply_event book book_symbol_fill book_fill sold match_lots product ◌-ℤ◌ ◌+ℤ◌ ◌*ℤ◌
    trunc_div
end_state = elim (replay trades start) [ none ↦ start | some st ↦ st ]

trades_end : replay trades start ≡ some end_state
unfolding replay apply_event book book_symbol_fill book_fill sold match_lots product ◌-ℤ◌ ◌+ℤ◌ ◌*ℤ◌
    trunc_div end_state
trades_end = refl

abbrev small_lots : List PositionLot
small_lots =
    (record { qty = 3; unit_cost_try = pos 100; opened_at = 1 })
    ∷ (record { qty = 2; unit_cost_try = pos 120; opened_at = 2 })
    ∷ []

match_lots-IsFifo_example : IsFifo small_lots 4 (match_lots (pos 150) 4 (pos 0) small_lots)
match_lots-IsFifo_example = match_lots-IsFifo (pos 150) 4 (pos 0) small_lots

-- The four oldest units are sold: 3 at a gain of 50 and 1 at a gain of 30.
sale_of_four : (match_lots (pos 15000000000) 400000000 (pos 0) two_lots).realized ≡ pos 18000000000
unfolding match_lots product ◌-ℤ◌ ◌+ℤ◌ ◌*ℤ◌ trunc_div
sale_of_four = refl

replay-held_example : held 5 end_state + 4 ≡ 5
replay-held_example = replay-held 5 trades start end_state (λ z. ground (arith, z)) trades_end

apply_event-oversell_example :
    (apply_event (trade 9 sell 1 100) start ≡ none) ↔ Oversells fill_recorded (trade 9 sell 1 100) 0
apply_event-oversell_example = apply_event-oversell (trade 9 sell 1 100) start

recompute-again_example :
    recompute (λ e. e.event_id) (trades ++ trade 2 buy 2 120 ∷ []) 10 [] (pos 1000) (pos 0)
    ≡ recompute (λ e. e.event_id) trades 10 [] (pos 1000) (pos 0)
recompute-again_example =
    recompute-again (λ e. e.event_id) trades (trade 2 buy 2 120 ∷ []) 10 [] (pos 1000) (pos 0)
      (inr (inl refl), tt)

-- With a cash of 10, a fee of 1 lowers the equity to 8.
equity_after_fee :
    equity_try (
      summary 10 []
        (elim (replay (fee_of_one ∷ []) (record start { try_balance = pos 1000000000 })) [
          | none ↦ start
          | some st ↦ st
        ]))
    ≡ pos 800000000
unfolding equity_try summary symbol_pnl replay apply_event book ◌-ℤ◌ ◌+ℤ◌ ◌*ℤ◌ trunc_div
equity_after_fee = refl
