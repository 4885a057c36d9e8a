-- ===== src/StageLedger/Payload.antt =====
-- domain/ledger.py: a ledger state as a text and back.
-- `json`, the texts of decimals and those of times are parameters. A payload is what `json.dumps`
-- takes and `json.loads` gives: a field that `raw.get` may miss is optional, a dict is in the order
-- of its keys. The text of a number of 10^-8 or of 10^-16 is made with that exponent. A quantity or
-- a cost that is negative, or a text that is none, ends the reading with an error.
use meva_beta_alpha_codex.Base.{ℕ, ◌≡◌, Option, none, some, List, [], ◌∷◌, map, get_or}
use meva_beta_alpha_codex.Base.Int.{ℤ, pos, negsuc}
use meva_beta_alpha_codex.Base.Dict.{Dict}
use meva_beta_alpha_codex.Base.Sorted.{sorted_entries, IsSorted, map_values}
use meva_beta_alpha_codex.StageLedger.Records.{
  Timestamp, ensure_utc, PositionLot, SymbolLedger, LedgerState,
}

pub record LotPayload {ℓ} (Text : Type ℓ) : Type ℓ where
  pub qty : Text
  pub unit_cost : Text
  pub opened_at : Text

pub record SymbolPayload {ℓ} (Text : Type ℓ) : Type ℓ where
  pub lots : Option (List (LotPayload Text))
  pub realized_pnl : Option Text

pub record Payload {ℓ} (Text : Type ℓ) : Type ℓ where
  pub symbols : Option (Dict ℕ (SymbolPayload Text))
  pub fees_by_currency : Option (Dict ℕ Text)

-- The functions of the libraries, on the texts inside a payload and on the text of a whole one, and what
-- is documented of them: a number and a time are read back as they were written, and so is a payload
-- whose keys are sorted.
pub record Texts {ℓ κ} (Field : Type ℓ) (Text : Type κ) : Type (ℓ ⊔ κ) where
  pub show_decimal : (exponent : ℕ) → ℤ → Field
  pub read_decimal : (exponent : ℕ) → Field → Option ℤ
  pub isoformat : Timestamp → Field
  pub fromisoformat : Field → Option Timestamp
  pub dumps : Payload Field → Text
  pub loads : Text → Option (Payload Field)

pub record AreLossless {ℓ κ} {Field : Type ℓ} {Text : Type κ} (t : Texts Field Text)
    : Type (ℓ ⊔ κ) where
  pub decimal_back :
      (exponent : ℕ) (x : ℤ) → t.read_decimal exponent (t.show_decimal exponent x) ≡ some x
  pub time_back :
      (x : Timestamp) → t.fromisoformat (t.isoformat (ensure_utc x)) ≡ some (ensure_utc x)
  pub payload_back :
      (symbols : Dict ℕ (SymbolPayload Field)) (fees : Dict ℕ Field)
      → IsSorted symbols
      → IsSorted fees
      → let p : Payload Field = record { symbols = some symbols; fees_by_currency = some fees } in
        t.loads (t.dumps p) ≡ some p

-- What comes of a value that was read, unless there was an error.
abbrev pub after {ℓ κ} : {A : Type ℓ} {B : Type κ} → Option A → (A → Option B) → Option B
after none f = none
after (some a) f = f a

-- Every element is read, or there is an error.
abbrev pub read_all {ℓ κ} : {A : Type ℓ} {B : Type κ} → (A → Option B) → List A → Option (List B)
read_all f [] = some []
read_all f (x ∷ xs) = after (f x) (λ y. after (read_all f xs) (λ ys. some (y ∷ ys)))

module _ {ℓ κ} {Field : Type ℓ} {Text : Type κ} (t : Texts Field Text) where
  abbrev pub lot_payload : PositionLot → LotPayload Field
  lot_payload lot = record {
    qty = t.show_decimal 8 (pos lot.qty);
    unit_cost = t.show_decimal 8 (pos lot.unit_cost);
    opened_at = t.isoformat (ensure_utc lot.opened_at);
  }

  abbrev pub symbol_payload : SymbolLedger → SymbolPayload Field
  symbol_payload l = record {
    lots = some (map lot_payload l.lots);
    realized_pnl = some (t.show_decimal 16 l.realized_pnl);
  }

  unfoldable pub serialize_ledger_state : LedgerState → Text
  serialize_ledger_state s = t.dumps (record {
    symbols = some (map_values (λ _. symbol_payload) (sorted_entries s.symbols));
    fees_by_currency =
        some (map_values (λ _. t.show_decimal 16) (sorted_entries s.fees_by_currency));
  })

  abbrev not_negative : ℤ → Option ℕ
  not_negative (pos n) = some n
  not_negative (negsuc n) = none

  abbrev pub read_quantity : Field → Option ℕ
  read_quantity text = after (t.read_decimal 8 text) not_negative

  abbrev pub read_lot : (symbol : ℕ) → LotPayload Field → Option PositionLot
  read_lot symbol p = after (read_quantity p.qty) (λ qty. after (read_quantity p.unit_cost) (λ cost.
      after (t.fromisoformat p.opened_at) (λ opened_at. some (record {
        symbol = symbol;
        qty = qty;
        unit_cost = cost;
        opened_at = ensure_utc opened_at;
      }))))

  abbrev read_realized : Option Field → Option ℤ
  read_realized none = some (pos 0)
  read_realized (some text) = t.read_decimal 16 text

  abbrev pub read_symbol : ℕ × SymbolPayload Field → Option (ℕ × SymbolLedger)
  read_symbol (symbol, p) = after (read_all (read_lot symbol) (get_or [] p.lots)) (λ lots.
      after (read_realized p.realized_pnl) (λ realized.
        some (symbol, record { symbol = symbol; lots = lots; realized_pnl = realized })))

  abbrev pub read_fee : ℕ × Field → Option (ℕ × ℤ)
  read_fee (currency, text) = after (t.read_decimal 16 text) (λ fee. some (currency, fee))

  abbrev read_payload : Payload Field → Option LedgerState
  read_payload p = after (read_all read_symbol (sorted_entries (get_or [] p.symbols))) (λ symbols.
      after (read_all read_fee (sorted_entries (get_or [] p.fees_by_currency)))
        (λ fees. some (record { symbols = symbols; fees_by_currency = fees })))

  unfoldable pub deserialize_ledger_state : Text → Option LedgerState
  deserialize_ledger_state text = after (t.loads text) read_payload
