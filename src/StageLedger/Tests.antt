-- ===== src/StageLedger/Tests.antt =====
-- Buys, a sale and a fee of one symbol; the state that comes of them, written and read.
use meva_beta_alpha_codex.Base.{ℕ, ◌≡◌, refl, Option, none, some, List, [], ◌∷◌, number_key}
use meva_beta_alpha_codex.Base.Int.{ℤ, pos, ◌+ℤ◌, ◌-ℤ◌, ◌*ℤ◌}
use meva_beta_alpha_codex.Sizing.{cut_down}
use meva_beta_alpha_codex.StageLedger.Records.{
  LedgerEvent, fill, fee_paid, EventSide, buy_side, sell_side, naive, Timestamp, LedgerState,
  new_state, MoneyMathPolicy,
}
use meva_beta_alpha_codex.StageLedger.{
  Outcome, done, raised, oversell, apply_events, apply_each, apply_typed, apply_priced, apply_fill,
  apply_fee, sale_loop, sale_step, ledger_of, sort_events,
}
use meva_beta_alpha_codex.StageLedger.Holdings.{spec_each}
use meva_beta_alpha_codex.StageLedger.Refines.{Refines, apply_events-Refines}
use meva_beta_alpha_codex.StageLedger.Payload.{
  Payload, Texts, AreLossless, deserialize_ledger_state, serialize_ledger_state,
}
use meva_beta_alpha_codex.StageLedger.RoundTrip.{
  AreKeyed, IsRestored, deserialize-serialize-IsRestored,
}

-- A tick of 0.01 and a step of 0.1.
abbrev policies : ℕ → MoneyMathPolicy
policies symbol = record {
  price_tick = 1000000;
  qty_step = 10000000;
  quote_precision = 8;
  fee_precision = 8;
}

abbrev event : ℕ → EventSide → ℕ → ℕ → LedgerEvent
event id side qty price = record {
  event_id = id;
  ts = naive id;
  symbol = 5;
  type = fill;
  side = some side;
  qty = qty;
  price = some price;
  fee = none;
  fee_currency = none;
}

abbrev paid : LedgerEvent
paid = record {
  event_id = 9;
  ts = naive 9;
  symbol = 5;
  type = fee_paid;
  side = none;
  qty = 0;
  price = none;
  fee = some (pos 123456789123);
  fee_currency = some 1;
}

-- 1.05 and 2 are bought, of which 1.5 are sold: the first quantity is cut to 1.
abbrev events : List LedgerEvent
events =
    event 3 sell_side 150000000 1000000000
    ∷ paid
    ∷ event 1 buy_side 105000000 500000000
    ∷ event 2 buy_side 200000000 600000000
    ∷ []

apply_events-Refines_example :
    Refines policies
      (apply_events policies events new_state)
      (spec_each policies (sort_events events) (λ symbol. 0))
apply_events-Refines_example = apply_events-Refines policies events

state_of : Outcome LedgerState → LedgerState
state_of (done s) = s
state_of (raised _) = new_state

abbrev traded : LedgerState
traded = state_of (apply_events policies events new_state)

one_lot_left :
    (ledger_of 5 traded).lots
    ≡ record { symbol = 5; qty = 150000000; unit_cost = 600000000; opened_at = naive 2 } ∷ []
unfolding state_of apply_events apply_each apply_typed apply_priced apply_fill apply_fee sale_loop
    sale_step cut_down ◌+ℤ◌ ◌-ℤ◌ ◌*ℤ◌
one_lot_left = refl

too_much :
    apply_events policies
      (event 1 buy_side 100000000 500000000 ∷ event 2 sell_side 150000000 1 ∷ [])
      new_state
    ≡ raised (oversell 50000000 2)
unfolding apply_events apply_each apply_typed apply_priced apply_fill sale_loop sale_step cut_down
    ◌+ℤ◌ ◌-ℤ◌ ◌*ℤ◌
too_much = refl

-- Texts that keep what they are made from.
data Field : Type 0 where
  decimal : ℤ → Field
  time : Timestamp → Field

abbrev read_number : Field → Option ℤ
read_number (decimal x) = some x
read_number (time _) = none

abbrev read_time : Field → Option Timestamp
read_time (decimal _) = none
read_time (time x) = some x

abbrev texts : Texts Field (Payload Field)
texts = record {
  show_decimal = λ exponent x. decimal x;
  read_decimal = λ exponent text. read_number text;
  isoformat = λ x. time x;
  fromisoformat = λ text. read_time text;
  dumps = λ p. p;
  loads = λ p. some p;
}

lossless : AreLossless texts
lossless = record {
  decimal_back = λ exponent x. refl;
  time_back = λ x. refl;
  payload_back = λ symbols fees s f. refl;
}

traded-AreKeyed : AreKeyed traded
unfolding state_of apply_events apply_each apply_typed apply_priced apply_fill apply_fee sale_loop
    sale_step cut_down ◌+ℤ◌ ◌-ℤ◌ ◌*ℤ◌
traded-AreKeyed = record { symbols_keyed = (refl, tt); fees_keyed = (refl, tt) }

deserialize-serialize-IsRestored_example :
    (read : LedgerState) × (deserialize_ledger_state texts (serialize_ledger_state texts traded)
      ≡ some read)
    × IsRestored traded read
deserialize-serialize-IsRestored_example =
    deserialize-serialize-IsRestored texts lossless traded traded-AreKeyed
