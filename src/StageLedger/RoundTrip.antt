-- ===== src/StageLedger/RoundTrip.antt =====
-- A state that is written and read back.
use meva_beta_alpha_codex.Base.{ℕ, ◌≡◌, refl, ap, ◌∙◌, some, List, [], ◌∷◌, map, number_key}
use mathlib.Core.Option
use meva_beta_alpha_codex.Base.Int.{ℤ, pos}
use meva_beta_alpha_codex.Base.Dict.{Dict, lookup, IsKeyed}
use meva_beta_alpha_codex.Base.Sorted.{
  sorted_entries, IsSorted, map_values, lookup-sorted_entries, sorted_entries-IsSorted,
  sorted_entries-same, lookup-map_values, map_values-IsSorted,
}
use meva_beta_alpha_codex.StageLedger.Records.{
  Timestamp, naive, aware, ensure_utc, PositionLot, SymbolLedger, LedgerState,
}
use meva_beta_alpha_codex.StageLedger.Payload.{
  Texts, AreLossless, read_all, lot_payload, symbol_payload, serialize_ledger_state, read_quantity,
  read_lot, read_symbol, read_fee, deserialize_ledger_state,
}

-- The lot with its time in UTC, under the symbol of its ledger.
abbrev pub restored_lot : (symbol : ℕ) → PositionLot → PositionLot
restored_lot symbol lot = record lot { symbol = symbol; opened_at = ensure_utc lot.opened_at }

abbrev pub restored_ledger : (symbol : ℕ) → SymbolLedger → SymbolLedger
restored_ledger symbol l = record l { symbol = symbol; lots = map (restored_lot symbol) l.lots }

-- No key twice in the two dictionaries.
pub record AreKeyed (s : LedgerState) : Type 0 where
  pub symbols_keyed : IsKeyed s.symbols
  pub fees_keyed : IsKeyed s.fees_by_currency

-- The state that was read has for every symbol the ledger of the state that was written, with the times
-- in UTC, and for every currency its fees.
pub record IsRestored (s restored : LedgerState) : Type 0 where
  pub ledgers :
      (symbol : ℕ)
      → lookup symbol restored.symbols
        ≡ Option.map (restored_ledger symbol) (lookup symbol s.symbols)
  pub fees :
      (currency : ℕ)
      → lookup currency restored.fees_by_currency ≡ lookup currency s.fees_by_currency

ensure_utc-again : (x : Timestamp) → ensure_utc (ensure_utc x) ≡ ensure_utc x
ensure_utc-again (naive t) = refl
ensure_utc-again (aware t o) = refl

module _ {ℓ κ} {Field : Type ℓ} {Text : Type κ} (t : Texts Field Text)
    (lossless : AreLossless t) where
  read_quantity-show : (n : ℕ) → read_quantity t (t.show_decimal 8 (pos n)) ≡ some n
  read_quantity-show n = rw (lossless.decimal_back 8 (pos n)) refl

  read_lot-show :
      (symbol : ℕ) (lot : PositionLot)
      → read_lot t symbol (lot_payload t lot) ≡ some (restored_lot symbol lot)
  read_lot-show symbol lot =
      rw
        (
          read_quantity-show lot.qty,
          read_quantity-show lot.unit_cost,
          lossless.time_back lot.opened_at,
        )
        (ap (λ at. some (record lot { symbol = symbol; opened_at = at }))
          (ensure_utc-again lot.opened_at))

  read_lots-show :
      (symbol : ℕ) (lots : List PositionLot)
      → read_all (read_lot t symbol) (map (lot_payload t) lots)
        ≡ some (map (restored_lot symbol) lots)
  read_lots-show symbol [] = refl
  read_lots-show symbol (lot ∷ rest) =
      rw (read_lot-show symbol lot, read_lots-show symbol rest) refl

  read_symbol-show :
      (symbol : ℕ) (l : SymbolLedger)
      → read_symbol t (symbol, symbol_payload t l) ≡ some (symbol, restored_ledger symbol l)
  read_symbol-show symbol l =
      rw (read_lots-show symbol l.lots, lossless.decimal_back 16 l.realized_pnl) refl

  read_symbols-show :
      (d : Dict ℕ SymbolLedger)
      → read_all (read_symbol t) (map_values (λ _. symbol_payload t) d)
        ≡ some (map_values restored_ledger d)
  read_symbols-show [] = refl
  read_symbols-show ((symbol, l) ∷ d) = rw (read_symbol-show symbol l, read_symbols-show d) refl

  read_fees-show :
      (d : Dict ℕ ℤ) → read_all (read_fee t) (map_values (λ _. t.show_decimal 16) d) ≡ some d
  read_fees-show [] = refl
  read_fees-show ((currency, fee) ∷ d) = rw (lossless.decimal_back 16 fee, read_fees-show d) refl

  -- The state that is read.
  abbrev pub restored : LedgerState → LedgerState
  restored s = record {
    symbols = map_values restored_ledger (sorted_entries s.symbols);
    fees_by_currency = sorted_entries s.fees_by_currency;
  }

  deserialize-serialize :
      (s : LedgerState)
      → AreKeyed s
      → deserialize_ledger_state t (serialize_ledger_state t s) ≡ some (restored s)
  unfolding serialize_ledger_state deserialize_ledger_state
  deserialize-serialize s k =
      let symbols = map_values (λ _. symbol_payload t) (sorted_entries s.symbols) in
      let fees = map_values (λ _. t.show_decimal 16) (sorted_entries s.fees_by_currency) in
      let symbols_sorted : IsSorted symbols =
        map_values-IsSorted (λ _. symbol_payload t) (sorted_entries s.symbols)
          (sorted_entries-IsSorted s.symbols k.symbols_keyed) in
      let fees_sorted : IsSorted fees =
        map_values-IsSorted (λ _. t.show_decimal 16) (sorted_entries s.fees_by_currency)
          (sorted_entries-IsSorted s.fees_by_currency k.fees_keyed) in
      rw (lossless.payload_back symbols fees symbols_sorted fees_sorted) (
        rw (sorted_entries-same symbols symbols_sorted, sorted_entries-same fees fees_sorted)
          (rw
            (
              read_symbols-show (sorted_entries s.symbols),
              read_fees-show (sorted_entries s.fees_by_currency),
            )
            refl))

  restored-IsRestored : (s : LedgerState) → AreKeyed s → IsRestored s (restored s)
  restored-IsRestored s k = record {
    ledgers = λ symbol.
        lookup-map_values restored_ledger symbol (sorted_entries s.symbols)
        ∙ ap (Option.map (restored_ledger symbol))
            (lookup-sorted_entries symbol s.symbols k.symbols_keyed);
    fees = λ currency. lookup-sorted_entries currency s.fees_by_currency k.fees_keyed;
  }

-- Where numbers, times and payloads with sorted keys are read back as they were written, a state whose
-- dictionaries have no key twice is written and read back without an error, and the state that is read
-- has for every symbol the same ledger, its lots under that symbol with their times in UTC, and for
-- every currency the same fees.
pub deserialize-serialize-IsRestored {ℓ κ} :
    {Field : Type ℓ} {Text : Type κ} (t : Texts Field Text)
    → AreLossless t
    → (s : LedgerState) → AreKeyed s
    → (read : LedgerState) × (deserialize_ledger_state t (serialize_ledger_state t s) ≡ some read)
      × IsRestored s read
deserialize-serialize-IsRestored t lossless s k = (
  restored t lossless s,
  deserialize-serialize t lossless s k,
  restored-IsRestored t lossless s k,
)
