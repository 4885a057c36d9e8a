-- ===== src/StageLedger.antt =====
-- domain/ledger.py: the ledger of Stage 4, lots per symbol from a list of events.
-- A price and a quantity are whole numbers of 10^-8 and not negative; fees and profits are whole
-- numbers of 10^-16. Symbols, ids and currencies are numbers in the order of their texts, 0 is the
-- empty text; a currency and a side are in upper case. The roundings are those of
-- domain/money_policy.py, toward zero; a tick or step of 0 stands for one that is not positive.
pub mod Matching
mod Holdings
mod Refines
pub mod Payload
mod RoundTrip
mod Tests
pub mod Records
use meva_beta_alpha_codex.Base.{
  ℕ, zero, suc, ◌+◌, ◌-◌, ◌*◌, ◌^◌, min, Bool, true, false, not, ◌&&◌, ◌||◌, Option, none, some,
  List, [], ◌∷◌, ◌++◌, length, if◌then◌else◌, get_or, ltb, leb, nat_beq, number_key, sorted,
  is_some,
}
use meva_beta_alpha_codex.Base.Int.{ℤ, pos, negsuc, ◌+ℤ◌, ◌-ℤ◌, ◌*ℤ◌, neg_ℤ}
use meva_beta_alpha_codex.Base.Dict.{Dict, lookup, insert}
use meva_beta_alpha_codex.Sizing.{cut_down, quantize_to_step}
use meva_beta_alpha_codex.StageLedger.Records.{
  LedgerEventType, order_placed, order_canceled, fill, fee_paid, adjustment, EventSide, buy_side,
  sell_side, other_side, Timestamp, naive, aware, ensure_utc, instant_of, LedgerEvent, PositionLot,
  SymbolLedger, LedgerState, new_state, MoneyMathPolicy, round_qty, round_price, quantize_amount,
  round_quote, round_fee,
}

-- What the `while` loop of a sale changes.
pub record Sale : Type 0 where
  pub remaining : ℕ
  pub lots : List PositionLot
  pub realized : ℤ

-- The body of the loop, for the first lot and the others.
unfoldable pub sale_step :
    MoneyMathPolicy → (price : ℕ) → PositionLot → List PositionLot → Sale → Sale
sale_step p price lot rest s =
    let matched = min s.remaining lot.qty in
    let leftover = round_qty p (lot.qty - matched) in
    record {
      remaining = round_qty p (s.remaining - matched);
      lots = if leb leftover 0 then rest else record lot { qty = leftover } ∷ rest;
      realized = round_quote p (s.realized +ℤ (pos price -ℤ pos lot.unit_cost) *ℤ pos matched);
    }

-- `while remaining > 0 and lots`, at most `fuel` times; `none` when that is not enough.
unfoldable pub sale_loop :
    (fuel : ℕ) → MoneyMathPolicy → (price : ℕ) → Sale → List PositionLot → Option Sale
unfolding sale_step
sale_loop fuel p price s [] = some s
sale_loop zero p price s (lot ∷ rest) = if leb s.remaining 0 then some s else none
sale_loop (suc n) p price s (lot ∷ rest) =
    let next = sale_step p price lot rest s in
    let later = sale_loop n p price next next.lots in if leb s.remaining 0 then some s else later

-- The errors that `apply_events` raises, and a loop that did not end.
pub data LedgerError : Type 0 where
  oversell : (remaining event_id : ℕ) → LedgerError
  bad_fee : (event_id : ℕ) → LedgerError
  endless : LedgerError

pub data Outcome {ℓ} (A : Type ℓ) : Type ℓ where
  done : A → Outcome A
  raised : LedgerError → Outcome A

abbrev pub ledger_of : (symbol : ℕ) → LedgerState → SymbolLedger
ledger_of symbol s =
    get_or (record { symbol = symbol; lots = []; realized_pnl = pos 0 }) (lookup symbol s.symbols)

abbrev pub with_ledger : (symbol : ℕ) → List PositionLot → ℤ → LedgerState → LedgerState
with_ledger symbol lots realized s = record s {
  symbols =
      insert symbol (record { symbol = symbol; lots = lots; realized_pnl = realized }) s.symbols;
}

abbrev pub sold : LedgerEvent → Option Sale → LedgerState → Outcome LedgerState
sold e none s = raised endless
sold e (some end) s =
    if leb end.remaining 0
    then done (with_ledger e.symbol end.lots end.realized s)
    else raised (oversell end.remaining e.event_id)

-- A fill with a price and a side.
unfoldable pub apply_fill :
    MoneyMathPolicy → LedgerEvent → (price : ℕ) → EventSide → LedgerState → Outcome LedgerState
unfolding sale_loop
apply_fill p e price buy_side s =
    let current = ledger_of e.symbol s in
    let lot : PositionLot = record {
      symbol = e.symbol;
      qty = round_qty p e.qty;
      unit_cost = round_price p price;
      opened_at = e.ts;
    } in
    done (with_ledger e.symbol (current.lots ++ lot ∷ []) current.realized_pnl s)
apply_fill p e price sell_side s =
    let current = ledger_of e.symbol s in
    let start : Sale = record {
      remaining = round_qty p e.qty;
      lots = current.lots;
      realized = current.realized_pnl;
    } in
    sold e (sale_loop (length current.lots) p (round_price p price) start current.lots) s
apply_fill p e price other_side s =
    let current = ledger_of e.symbol s in
    done (with_ledger e.symbol current.lots current.realized_pnl s)

-- The symbol is filed, with nothing changed but the profit.
abbrev pub filed : LedgerEvent → ℤ → LedgerState → LedgerState
filed e gain s =
    let current = ledger_of e.symbol s in
    with_ledger e.symbol current.lots (current.realized_pnl +ℤ gain) s

-- TRY.
abbrev pub try_currency : ℕ
try_currency = 1

-- The fee of a fee event, added to its currency; only that of TRY is rounded.
abbrev pub add_fee : MoneyMathPolicy → (currency : ℕ) → ℤ → LedgerState → LedgerState
add_fee p currency fee s =
    let sum = get_or (pos 0) (lookup currency s.fees_by_currency) +ℤ fee in
    record s {
      fees_by_currency =
          insert currency (if nat_beq currency try_currency then round_fee p sum else sum)
            s.fees_by_currency;
    }

-- A fee event with a fee and a currency must have neither side nor price nor quantity.
unfoldable pub apply_fee :
    MoneyMathPolicy → LedgerEvent → Option ℤ → Option ℕ → LedgerState → Outcome LedgerState
apply_fee p e (some fee) (some (suc c)) s =
    if is_some e.side || not (nat_beq e.qty 0) || is_some e.price
    then raised (bad_fee e.event_id)
    else done (filed e (pos 0) (add_fee p (suc c) fee s))
apply_fee p e (some fee) (some zero) s = done (filed e (pos 0) s)
apply_fee p e (some fee) none s = done (filed e (pos 0) s)
apply_fee p e none currency s = done (filed e (pos 0) s)

unfoldable pub apply_priced :
    MoneyMathPolicy → LedgerEvent → Option ℕ → Option EventSide → LedgerState → Outcome LedgerState
unfolding apply_fill
apply_priced p e (some price) (some side) s = apply_fill p e price side s
apply_priced p e (some price) none s = done (filed e (pos 0) s)
apply_priced p e none side s = done (filed e (pos 0) s)

-- The body of the loop over the events.
unfoldable pub apply_typed :
    LedgerEventType → MoneyMathPolicy → LedgerEvent → LedgerState → Outcome LedgerState
unfolding apply_priced apply_fee
apply_typed fill p e s = apply_priced p e e.price e.side s
apply_typed fee_paid p e s = apply_fee p e e.fee e.fee_currency s
apply_typed adjustment p e s = done (filed e (get_or (pos 0) e.fee) s)
apply_typed order_placed p e s = done (filed e (pos 0) s)
apply_typed order_canceled p e s = done (filed e (pos 0) s)

-- What follows a state, unless an error was raised.
abbrev pub and_then {ℓ κ} : {A : Type ℓ} {B : Type κ} → Outcome A → (A → Outcome B) → Outcome B
and_then (done a) f = f a
and_then (raised e) f = raised e

-- `policy_resolver`, the default policy where it is missing.
unfoldable pub apply_each :
    (policies : ℕ → MoneyMathPolicy) → List LedgerEvent → LedgerState → Outcome LedgerState
unfolding apply_typed
apply_each policies [] s = done s
apply_each policies (e ∷ rest) s =
    and_then (apply_typed e.type (policies e.symbol) e s) (apply_each policies rest)

-- The order of `_sort_events`.
abbrev pub not_after_event : LedgerEvent → LedgerEvent → Bool
not_after_event a b =
    ltb (instant_of a.ts) (instant_of b.ts)
    || (nat_beq (instant_of a.ts) (instant_of b.ts) && leb a.event_id b.event_id)

abbrev pub sort_events : List LedgerEvent → List LedgerEvent
sort_events events = sorted not_after_event events

unfoldable pub apply_events :
    (policies : ℕ → MoneyMathPolicy) → List LedgerEvent → LedgerState → Outcome LedgerState
unfolding apply_each
apply_events policies events s = apply_each policies (sort_events events) s
