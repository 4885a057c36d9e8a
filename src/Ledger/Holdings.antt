-- ===== src/Ledger/Holdings.antt =====
-- What a replay does to the position of a symbol and to the cash, told from the events alone.
use meva_beta_alpha_codex.Base.{
  ℕ, zero, suc, ◌+◌, ◌-◌, ◌≡◌, ◌≢◌, refl, min, ap, subst, ◌∙◌, Option, none, some, List, [], ◌∷◌,
  ◌++◌, leb, nat_beq, nat_beq_iff, if◌then◌else◌, if_intro, Bool-cases, inl, inr, arith, get_or,
  number_key,
}
use meva_beta_alpha_codex.Base.Int.{ℤ, pos, ◌+ℤ◌, ◌-ℤ◌}
use meva_beta_alpha_codex.Base.Dict.{Dict, lookup, lookup-insert}
use meva_beta_alpha_codex.Stage4.{Side, buy, sell}
use meva_beta_alpha_codex.Ledger.{
  AccountingEventType, fill_recorded, fee_recorded, funding_cost_recorded, slippage_recorded,
  transfer, rebalance, withdrawal, AccountingLedgerEvent, PositionLot, SymbolState,
  empty_symbol_state, Matched, match_lots, product, Booking, sold, book_fill, quantity,
  book_symbol_fill, book,
}
use meva_beta_alpha_codex.Ledger.Replay.{
  LedgerState, file_symbol, state_of, booked, apply_event, and_then, replay, lots_qty,
}

lots_qty-append :
    (lots : List PositionLot) (lot : PositionLot)
    → lots_qty (lots ++ lot ∷ []) ≡ lots_qty lots + lot.qty
lots_qty-append [] lot = omega arith
lots_qty-append (x ∷ lots) lot = omega (arith, lots_qty-append lots lot)

-- The units that a fill brings in and takes out.
abbrev pub fill_in : AccountingEventType → Option Side → ℕ → ℕ
fill_in fill_recorded (some buy) q = q
fill_in _ _ q = 0

abbrev pub fill_out : AccountingEventType → Option Side → ℕ → ℕ
fill_out fill_recorded (some sell) q = q
fill_out _ _ q = 0

-- The units of symbol `k` that the events buy and sell.
abbrev pub bought : (k : ℕ) → List AccountingLedgerEvent → ℕ
bought k [] = 0
bought k (e ∷ rest) =
    (if nat_beq k e.symbol then fill_in e.type e.side (quantity e) else 0) + bought k rest

abbrev pub sold_units : (k : ℕ) → List AccountingLedgerEvent → ℕ
sold_units k [] = 0
sold_units k (e ∷ rest) =
    (if nat_beq k e.symbol then fill_out e.type e.side (quantity e) else 0) + sold_units k rest

match_lots-kept :
    (price : ℤ) (q : ℕ) (realized : ℤ) (lots : List PositionLot)
    → lots_qty (match_lots price q realized lots).lots + q
      ≡ lots_qty lots + (match_lots price q realized lots).remaining
unfolding match_lots
match_lots-kept price zero realized lots = refl
match_lots-kept price (suc r) realized [] = refl
match_lots-kept price (suc r) realized (lot ∷ rest) =
    let q = suc r in
    let matched = min q lot.qty in
    let gain = realized +ℤ product (price -ℤ lot.unit_cost_try) (pos matched) in
    let later = match_lots price (q - matched) gain rest in
    if_intro (λ (m : Matched). lots_qty m.lots + q ≡ lots_qty (lot ∷ rest) + m.remaining)
      (leb (lot.qty - matched) 0) {x = later}
      (λ e. ground (arith, match_lots-kept price (q - matched) gain rest, e)) λ e. ground (arith, e)

-- What holds of a result, if there is one.
abbrev pub IfSome {ℓ κ} : {A : Type ℓ} → (A → Type κ) → Option A → Type κ
IfSome P none = Unit
IfSome P (some a) = P a

abbrev Moves : (into out : ℕ) → SymbolState → Booking → Type 0
Moves into out s b = lots_qty b.state.lots + out ≡ lots_qty s.lots + into

sold-Moves :
    (notional : ℤ) (s : SymbolState) (q : ℕ) (m : Matched)
    → lots_qty m.lots + q ≡ lots_qty s.lots + m.remaining
    → IfSome (Moves 0 q s) (sold notional s m)
unfolding sold
sold-Moves notional s q m h =
    if_intro (IfSome (Moves 0 q s)) (leb m.remaining 0) (λ e. ground (arith, h, e)) (λ e. tt)

book_fill-Moves :
    (side : Option Side) (q : ℕ) (price : ℤ) (ts : ℕ) (s : SymbolState)
    → IfSome
        (Moves (fill_in fill_recorded side q) (fill_out fill_recorded side q) s)
        (book_fill side q price ts s)
unfolding book_fill
book_fill-Moves none q price ts s = refl
book_fill-Moves (some buy) q price ts s = omega (arith, lots_qty-append s.lots _)
book_fill-Moves (some sell) q price ts s =
    sold-Moves (product (pos q) price) s q _ (match_lots-kept price q s.realized_pnl_try s.lots)

book_symbol_fill-Moves :
    (symbol : ℕ) (e : AccountingLedgerEvent) (s : SymbolState)
    → symbol ≢ 0
    → IfSome
        (Moves
          (fill_in fill_recorded e.side (quantity e))
          (fill_out fill_recorded e.side (quantity e))
          s)
        (book_symbol_fill symbol e s)
unfolding book_symbol_fill
book_symbol_fill-Moves zero e s h = absurd (h refl)
book_symbol_fill-Moves (suc n) e s h = book_fill-Moves e.side (quantity e) _ e.ts s

book-Moves :
    (t : AccountingEventType) (e : AccountingLedgerEvent) (s : SymbolState)
    → e.symbol ≢ 0
    → IfSome (Moves (fill_in t e.side (quantity e)) (fill_out t e.side (quantity e)) s) (book t e s)
unfolding book
book-Moves fill_recorded e s h = book_symbol_fill-Moves e.symbol e s h
book-Moves fee_recorded e s h = refl
book-Moves funding_cost_recorded e s h = refl
book-Moves slippage_recorded e s h = refl
book-Moves transfer e s h = refl
book-Moves rebalance e s h = refl
book-Moves withdrawal e s h = refl

-- The units of `k` held in a state.
abbrev pub held : ℕ → LedgerState → ℕ
held k st = lots_qty (state_of k st).lots

abbrev in_of : ℕ → AccountingLedgerEvent → ℕ
in_of k e = if nat_beq k e.symbol then fill_in e.type e.side (quantity e) else 0

abbrev out_of : ℕ → AccountingLedgerEvent → ℕ
out_of k e = if nat_beq k e.symbol then fill_out e.type e.side (quantity e) else 0

filed :
    (k symbol : ℕ) (s : SymbolState) (d : Dict ℕ SymbolState)
    → k ≢ 0
    → get_or empty_symbol_state (lookup k (file_symbol symbol s d))
      ≡ (if nat_beq k symbol then s else get_or empty_symbol_state (lookup k d))
filed k zero s d h = ground (arith, nat_beq_iff k 0)
filed k (suc n) s d h = ground (arith, lookup-insert k (suc n) s d)

filed-qty :
    (k symbol : ℕ) (s : SymbolState) (d : Dict ℕ SymbolState)
    → k ≢ 0
    → lots_qty (get_or empty_symbol_state (lookup k (file_symbol symbol s d))).lots ≡ (
        if nat_beq k symbol
        then lots_qty s.lots
        else lots_qty (get_or empty_symbol_state (lookup k d)).lots)
filed-qty k symbol s d h =
    ap (λ (u : SymbolState). lots_qty u.lots) (filed k symbol s d h)
    ∙ if_intro
        (λ (u : SymbolState). lots_qty u.lots ≡ (
          if nat_beq k symbol
          then lots_qty s.lots
          else lots_qty (get_or empty_symbol_state (lookup k d)).lots))
        (nat_beq k symbol) (λ t. rw t refl) (λ t. rw t refl)

booked-held :
    (k : ℕ) (e : AccountingLedgerEvent) (st : LedgerState) (r : Option Booking)
    → k ≢ 0
    → (e.symbol ≢ 0
        → IfSome
            (Moves
              (fill_in e.type e.side (quantity e))
              (fill_out e.type e.side (quantity e))
              (state_of e.symbol st))
            r)
    → IfSome (λ next. held k next + out_of k e ≡ held k st + in_of k e) (booked e st r)
booked-held k e st none h moves = tt
booked-held k e st (some b) h moves =
    let after = filed-qty k e.symbol b.state st.symbol_state h in
    elim (Bool-cases (nat_beq k e.symbol)) [
      | inl t ↦
          let same : k ≡ e.symbol = (nat_beq_iff k e.symbol).0 t in
          let here = ap (λ j. held j st) same in
          rw t (omega (arith, rw t at after, here, moves (λ z. h (same ∙ z))))
      | inr t ↦ rw t (omega (arith, rw t at after))
    ]

apply_event-held :
    (k : ℕ) (e : AccountingLedgerEvent) (st : LedgerState)
    → k ≢ 0
    → IfSome (λ next. held k next + out_of k e ≡ held k st + in_of k e) (apply_event e st)
unfolding apply_event
apply_event-held k e st h = booked-held k e st _ h (book-Moves e.type e (state_of e.symbol st))

and_then-IfSome :
    (P Q : LedgerState → Type 0) (r : Option LedgerState) (next : LedgerState → Option LedgerState)
    → IfSome P r
    → ((st : LedgerState) → P st → IfSome Q (next st))
    → IfSome Q (and_then r next)
and_then-IfSome P Q none next h step = tt
and_then-IfSome P Q (some st) next h step = step st h

replay-balance :
    (k : ℕ) (es : List AccountingLedgerEvent) (st : LedgerState)
    → k ≢ 0
    → IfSome (λ end. held k end + sold_units k es ≡ held k st + bought k es) (replay es st)
unfolding replay
replay-balance k [] st h = refl
replay-balance k (e ∷ rest) st h =
    let Q : LedgerState → Type 0 =
      λ end. held k end + sold_units k (e ∷ rest) ≡ held k st + bought k (e ∷ rest) in
    and_then-IfSome _ Q (apply_event e st) (replay rest) (apply_event-held k e st h)
      λ next first. weaken next (replay rest next) first (replay-balance k rest next h)
  where
    weaken :
        (next : LedgerState) (r : Option LedgerState)
        → held k next + out_of k e ≡ held k st + in_of k e
        → IfSome (λ end. held k end + sold_units k rest ≡ held k next + bought k rest) r
        → IfSome (λ end. held k end + sold_units k (e ∷ rest) ≡ held k st + bought k (e ∷ rest)) r
    weaken next none first later = tt
    weaken next (some end) first later = omega (arith, first, later)

-- After a replay that goes through, a symbol holds what it held, plus what the events buy of it, less
-- what they sell of it.
pub replay-held :
    (k : ℕ) (es : List AccountingLedgerEvent) (st end : LedgerState)
    → k ≢ 0
    → replay es st ≡ some end
    → held k end + sold_units k es ≡ held k st + bought k es
replay-held k es st end h e =
    subst (IfSome (λ end. held k end + sold_units k es ≡ held k st + bought k es)) e
      (replay-balance k es st h)
