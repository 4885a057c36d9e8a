-- ===== src/StageLedger/Refines.antt =====
-- The ledger refines the book of holdings.
use meva_beta_alpha_codex.Base.{
  ℕ, zero, suc, ◌+◌, ◌-◌, ◌≡◌, refl, ap, ◌∙◌, subst, true, false, not, ◌||◌, Option, none, some,
  List, [], ◌∷◌, ◌++◌, length, All-append, leb, nat_beq, is_some, Bool-cases, inl, inr, arith,
  number_key, get_or,
}
use meva_beta_alpha_codex.Base.Int.{ℤ, pos, ◌+ℤ◌}
use meva_beta_alpha_codex.StageLedger.Records.{
  LedgerEventType, order_placed, order_canceled, fill, fee_paid, adjustment, EventSide, buy_side,
  sell_side, other_side, LedgerEvent, PositionLot, LedgerState, new_state, MoneyMathPolicy,
  round_qty, round_price,
}
use meva_beta_alpha_codex.StageLedger.{
  Sale, sale_loop, oversell, bad_fee, endless, Outcome, done, raised, ledger_of, sold, apply_fill,
  filed, add_fee, apply_fee, apply_priced, apply_typed, and_then, apply_each, sort_events,
  apply_events,
}
use meva_beta_alpha_codex.StageLedger.Matching.{
  quantities, round_qty-OnGrid, IsOver, Ends, sale_loop-Ends,
}
use meva_beta_alpha_codex.StageLedger.Holdings.{
  Holdings, filled, filled_if, checked, spec_event, then_spec, spec_each, IsHeld,
  with_ledger-IsHeld, kept-IsHeld,
}

module _ (policies : ℕ → MoneyMathPolicy) where
  -- The ledger has a state that makes up the holdings, or both refuse.
  abbrev pub Refines : Outcome LedgerState → Option Holdings → Type 0
  Refines (done s) (some h) = IsHeld policies s h
  Refines (done s) none = ⊥
  Refines (raised (oversell _ _)) none = Unit
  Refines (raised (bad_fee _)) none = Unit
  Refines (raised endless) none = ⊥
  Refines (raised _) (some h) = ⊥

  filed-Refines :
      (e : LedgerEvent) (gain : ℤ) (s : LedgerState) (h : Holdings)
      → IsHeld policies s h
      → Refines (done (filed e gain s)) (some h)
  filed-Refines e gain s h x =
      kept-IsHeld policies e.symbol ((ledger_of e.symbol s).realized_pnl +ℤ gain) s h x

  quantities-append :
      (lots : List PositionLot) (lot : PositionLot)
      → quantities (lots ++ lot ∷ []) ≡ quantities lots + lot.qty
  quantities-append [] lot = omega arith
  quantities-append (x ∷ rest) lot = omega (arith, quantities-append rest lot)

  -- The end of a sale, by what was left to sell.
  sold-Refines :
      (e : LedgerEvent) (o : Option Sale) (qty : ℕ) (s : LedgerState) (h : Holdings)
      → IsHeld policies s h
      → Ends (IsOver (policies e.symbol) qty (h e.symbol)) o
      → Refines (sold e o s) (filled sell_side e.symbol qty h)
  sold-Refines e none qty s h x over = elim over [ ]
  sold-Refines e (some end) qty s h x over = elim (Bool-cases (leb end.remaining 0)) [
    | inl gone ↦
        let enough : leb qty (h e.symbol) ≡ true = ground (arith, gone, over.balance) in
        rw (gone, enough)
          (with_ledger-IsHeld policies e.symbol (h e.symbol - qty) end.lots end.realized s h x
            (ground (arith, gone, over.balance)) over.lots_on)
    | inr more ↦
        let short : leb qty (h e.symbol) ≡ false =
          ground (arith, more, over.balance, over.all_or_nothing_left) in
        rw (more, short) tt
  ]

  apply_fill-Refines :
      (e : LedgerEvent) (price : ℕ) (side : EventSide) (s : LedgerState) (h : Holdings)
      → IsHeld policies s h
      → let p = policies e.symbol in
        Refines (apply_fill p e price side s) (filled side e.symbol (round_qty p e.qty) h)
  unfolding apply_fill
  apply_fill-Refines e price buy_side s h x =
      let p = policies e.symbol in
      let current = ledger_of e.symbol s in
      with_ledger-IsHeld policies e.symbol (h e.symbol + round_qty p e.qty) _ current.realized_pnl s
        h x (quantities-append current.lots _ ∙ ap (λ n. n + round_qty p e.qty) (x.held e.symbol))
        (All-append (λ lot. round_qty p lot.qty ≡ lot.qty) current.lots _ (x.lots_on e.symbol)
          (round_qty-OnGrid p e.qty))
  apply_fill-Refines e price other_side s h x =
      kept-IsHeld policies e.symbol (ledger_of e.symbol s).realized_pnl s h x
  apply_fill-Refines e price sell_side s h x =
      let p = policies e.symbol in
      let current = ledger_of e.symbol s in
      let qty = round_qty p e.qty in
      let begin : Sale = record {
        remaining = qty;
        lots = current.lots;
        realized = current.realized_pnl;
      } in
      let loop = sale_loop (length current.lots) p (round_price p price) begin current.lots in
      sold-Refines e loop qty s h x (
        subst (λ n. Ends (IsOver p qty n) loop) (x.held e.symbol)
          (sale_loop-Ends p (round_price p price) (length current.lots) current.lots begin
            (omega arith) refl (round_qty-OnGrid p e.qty) (x.lots_on e.symbol)))

  apply_priced-Refines :
      (e : LedgerEvent) (price : Option ℕ) (side : Option EventSide) (s : LedgerState)
      (h : Holdings)
      → IsHeld policies s h
      → let p = policies e.symbol in
        Refines
          (apply_priced p e price side s)
          (filled_if price side e.symbol (round_qty p e.qty) h)
  unfolding apply_priced
  apply_priced-Refines e (some price) (some side) s h x = apply_fill-Refines e price side s h x
  apply_priced-Refines e (some price) none s h x = filed-Refines e (pos 0) s h x
  apply_priced-Refines e none side s h x = filed-Refines e (pos 0) s h x

  add_fee-IsHeld :
      (p : MoneyMathPolicy) (currency : ℕ) (fee : ℤ) (s : LedgerState) (h : Holdings)
      → IsHeld policies s h
      → IsHeld policies (add_fee p currency fee s) h
  add_fee-IsHeld p currency fee s h x = record { held = x.held; lots_on = x.lots_on }

  apply_fee-Refines :
      (p : MoneyMathPolicy) (e : LedgerEvent) (fee : Option ℤ) (currency : Option ℕ)
      (s : LedgerState) (h : Holdings)
      → IsHeld policies s h
      → Refines (apply_fee p e fee currency s) (checked e fee currency h)
  unfolding apply_fee
  apply_fee-Refines p e none currency s h x = filed-Refines e (pos 0) s h x
  apply_fee-Refines p e (some fee) none s h x = filed-Refines e (pos 0) s h x
  apply_fee-Refines p e (some fee) (some zero) s h x = filed-Refines e (pos 0) s h x
  apply_fee-Refines p e (some fee) (some (suc c)) s h x =
      let is_bad = is_some e.side || not (nat_beq e.qty 0) || is_some e.price in
      elim (Bool-cases is_bad) [
        | inl bad ↦ rw bad tt
        | inr good ↦ rw good (
            filed-Refines e (pos 0) (add_fee p (suc c) fee s) h
              (add_fee-IsHeld p (suc c) fee s h x))
      ]

  apply_typed-Refines :
      (type : LedgerEventType) (e : LedgerEvent) (s : LedgerState) (h : Holdings)
      → IsHeld policies s h
      → let p = policies e.symbol in Refines (apply_typed type p e s) (spec_event type p e h)
  unfolding apply_typed
  apply_typed-Refines fill e s h x = apply_priced-Refines e e.price e.side s h x
  apply_typed-Refines fee_paid e s h x =
      apply_fee-Refines (policies e.symbol) e e.fee e.fee_currency s h x
  apply_typed-Refines adjustment e s h x = filed-Refines e (get_or (pos 0) e.fee) s h x
  apply_typed-Refines order_placed e s h x = filed-Refines e (pos 0) s h x
  apply_typed-Refines order_canceled e s h x = filed-Refines e (pos 0) s h x

  and_then-Refines :
      (a : Outcome LedgerState) (b : Option Holdings) (rest : List LedgerEvent)
      → Refines a b
      → ((s : LedgerState) (h : Holdings)
          → IsHeld policies s h
          → Refines (apply_each policies rest s) (spec_each policies rest h))
      → Refines (and_then a (apply_each policies rest)) (then_spec b (spec_each policies rest))
  and_then-Refines (done s) (some h) rest x f = f s h x
  and_then-Refines (done s) none rest x f = elim x [ ]
  and_then-Refines (raised (oversell _ _)) (some h) rest x f = elim x [ ]
  and_then-Refines (raised (bad_fee _)) (some h) rest x f = elim x [ ]
  and_then-Refines (raised endless) none rest x f = elim x [ ]
  and_then-Refines (raised endless) (some h) rest x f = elim x [ ]
  and_then-Refines (raised (oversell _ _)) none rest x f = tt
  and_then-Refines (raised (bad_fee _)) none rest x f = tt

  apply_each-Refines :
      (events : List LedgerEvent) (s : LedgerState) (h : Holdings)
      → IsHeld policies s h
      → Refines (apply_each policies events s) (spec_each policies events h)
  unfolding apply_each
  apply_each-Refines [] s h x = x
  apply_each-Refines (e ∷ rest) s h x =
      and_then-Refines (apply_typed e.type (policies e.symbol) e s)
        (spec_event e.type (policies e.symbol) e h) rest (apply_typed-Refines e.type e s h x)
        (apply_each-Refines rest)

-- For any policies and events: the ledger of the events refines the book of holdings, which a buy
-- raises and a sale lowers by the rounded quantity. Either both give a result, and the lots of every
-- symbol make up its holding, or both refuse, because more is sold than is held or because a fee
-- looks like a fill. In no case does the loop of a sale fail to end.
pub apply_events-Refines :
    (policies : ℕ → MoneyMathPolicy) (events : List LedgerEvent)
    → Refines policies
        (apply_events policies events new_state)
        (spec_each policies (sort_events events) (λ symbol. 0))
unfolding apply_events
apply_events-Refines policies events =
    apply_each-Refines policies (sort_events events) new_state (λ symbol. 0)
      (record { held = λ symbol. refl; lots_on = λ symbol. tt })
