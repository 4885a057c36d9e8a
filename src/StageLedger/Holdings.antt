-- ===== src/StageLedger/Holdings.antt =====
-- The ledger as a book of holdings: a quantity per symbol, which a buy raises and a sale lowers.
use meva_beta_alpha_codex.Base.{
  ℕ, zero, suc, ◌+◌, ◌-◌, ◌≡◌, refl, ap, sym, ◌∙◌, subst, not, ◌||◌, Option, none, some, List, [],
  ◌∷◌, if◌then◌else◌, if_intro, leb, nat_beq, is_some, Bool-cases, inl, inr, ◌==◌, number_key,
}
use meva_beta_alpha_codex.Base.Int.{ℤ}
use meva_beta_alpha_codex.Base.Dict.{lookup-insert}
use meva_beta_alpha_codex.StageLedger.Records.{
  LedgerEventType, order_placed, order_canceled, fill, fee_paid, adjustment, EventSide, buy_side,
  sell_side, other_side, LedgerEvent, PositionLot, LedgerState, MoneyMathPolicy, round_qty,
}
use meva_beta_alpha_codex.StageLedger.{ledger_of, with_ledger}
use meva_beta_alpha_codex.StageLedger.Matching.{quantities, LotsOnGrid}

abbrev pub Holdings : Type 0
Holdings = ℕ → ℕ

-- The holdings with another quantity of the symbol.
abbrev pub put : (symbol quantity : ℕ) → Holdings → Holdings
put symbol n h j = if j == symbol then n else h j

-- What a fill of the quantity does to the holdings; `none` if there is less than is sold.
abbrev pub filled : EventSide → (symbol qty : ℕ) → Holdings → Option Holdings
filled buy_side symbol qty h = some (put symbol (h symbol + qty) h)
filled sell_side symbol qty h =
    if leb qty (h symbol) then some (put symbol (h symbol - qty) h) else none
filled other_side symbol qty h = some h

abbrev pub filled_if : Option ℕ → Option EventSide → (symbol qty : ℕ) → Holdings → Option Holdings
filled_if (some _) (some side) symbol qty h = filled side symbol qty h
filled_if (some _) none symbol qty h = some h
filled_if none side symbol qty h = some h

-- A fee event that looks like a fill is refused.
abbrev pub checked : LedgerEvent → Option ℤ → Option ℕ → Holdings → Option Holdings
checked e (some fee) (some (suc c)) h =
    if is_some e.side || not (nat_beq e.qty 0) || is_some e.price then none else some h
checked e (some fee) (some zero) h = some h
checked e (some fee) none h = some h
checked e none currency h = some h

-- The event on the holdings.
abbrev pub spec_event : LedgerEventType → MoneyMathPolicy → LedgerEvent → Holdings → Option Holdings
spec_event fill p e h = filled_if e.price e.side e.symbol (round_qty p e.qty) h
spec_event fee_paid p e h = checked e e.fee e.fee_currency h
spec_event adjustment p e h = some h
spec_event order_placed p e h = some h
spec_event order_canceled p e h = some h

abbrev pub then_spec : Option Holdings → (Holdings → Option Holdings) → Option Holdings
then_spec none f = none
then_spec (some h) f = f h

-- The events, one after the other.
abbrev pub spec_each :
    (policies : ℕ → MoneyMathPolicy) → List LedgerEvent → Holdings → Option Holdings
spec_each policies [] h = some h
spec_each policies (e ∷ rest) h =
    then_spec (spec_event e.type (policies e.symbol) e h) (spec_each policies rest)

module _ (policies : ℕ → MoneyMathPolicy) where
  -- The lots of every symbol make up its holding, and their quantities need no rounding.
  pub record IsHeld (s : LedgerState) (h : Holdings) : Type 0 where
    pub held : (symbol : ℕ) → quantities (ledger_of symbol s).lots ≡ h symbol
    pub lots_on : (symbol : ℕ) → LotsOnGrid (policies symbol) (ledger_of symbol s).lots

  with_ledger-lots :
      (symbol j : ℕ) (lots : List PositionLot) (realized : ℤ) (s : LedgerState)
      → (ledger_of j (with_ledger symbol lots realized s)).lots
        ≡ (if j == symbol then lots else (ledger_of j s).lots)
  with_ledger-lots symbol j lots realized s = elim (Bool-cases (j == symbol)) [
    | inl e ↦
        rw
          (
            lookup-insert j symbol
                (record { symbol = symbol; lots = lots; realized_pnl = realized }) s.symbols,
            e,
          )
          refl
    | inr e ↦
        rw
          (
            lookup-insert j symbol
                (record { symbol = symbol; lots = lots; realized_pnl = realized }) s.symbols,
            e,
          )
          refl
  ]

  pub with_ledger-IsHeld :
      (symbol n : ℕ) (lots : List PositionLot) (realized : ℤ) (s : LedgerState) (h : Holdings)
      → IsHeld s h
      → quantities lots ≡ n
      → LotsOnGrid (policies symbol) lots
      → IsHeld (with_ledger symbol lots realized s) (put symbol n h)
  with_ledger-IsHeld symbol n lots realized s h x e on = record {
    held = λ j.
        ap quantities (with_ledger-lots symbol j lots realized s)
        ∙ elim (Bool-cases (j == symbol)) [
          | inl same ↦ rw same e
          | inr other ↦ rw other (x.held j)
        ];
    lots_on = λ j.
        subst (LotsOnGrid (policies j)) (sym (with_ledger-lots symbol j lots realized s)) (
          if_intro (LotsOnGrid (policies j)) (j == symbol)
            (λ same.
              subst (λ k. LotsOnGrid (policies k) lots)
                (sym ((number_key.same_iff j symbol).0 same)) on)
            (λ _. x.lots_on j));
  }

  pub kept-IsHeld :
      (symbol : ℕ) (realized : ℤ) (s : LedgerState) (h : Holdings)
      → IsHeld s h
      → IsHeld (with_ledger symbol (ledger_of symbol s).lots realized s) h
  kept-IsHeld symbol realized s h x =
      let lots = (ledger_of symbol s).lots in
      let put_IsHeld =
        with_ledger-IsHeld symbol (h symbol) lots realized s h x (x.held symbol)
          (x.lots_on symbol) in
      record {
        held = λ j. put_IsHeld.held j ∙ elim (Bool-cases (j == symbol)) [
          | inl same ↦ rw same (ap h (sym ((number_key.same_iff j symbol).0 same)))
          | inr other ↦ rw other refl
        ];
        lots_on = put_IsHeld.lots_on;
      }
