-- ===== src/Merge/Counted.antt =====
-- Every fill counts once, however often it is delivered.
use meva_beta_alpha_codex.Base.{
  ℕ, ◌≡◌, refl, ap, sym, ◌∙◌, false, none, List, [], ◌∷◌, if◌then◌else◌, if_intro, arith, ◌==◌,
  Bool-cases, inl, inr, number_key,
}
use meva_beta_alpha_codex.Base.Int.{ℤ, pos, ◌+ℤ◌, int_laws}
use meva_beta_alpha_codex.Base.Dict.{Dict, lookup, insert, values, contains, lookup-insert}
use meva_beta_alpha_codex.Merge.Events.{
  FillEvent, OrderTerminalUpdate, Aggregate, OrderKey, order_key_key, Heap, ReconcileState,
  new_state, member,
}
use meva_beta_alpha_codex.Merge.{
  key_of_fill, add_fill, Merging, book_fill, fill_step, fill_loop, terminal_step, terminal_loop,
  Batch, merge_events, key_of_terminal, set_last_event,
}
use meva_beta_alpha_codex.Merge.Linked.{
  aggregate_of, IsLinked, empty-IsLinked, change-of, change-IsLinked,
}

-- What the event adds to the order.
abbrev pub share : OrderKey → FillEvent → ℤ
share k e = if k == key_of_fill e then e.quantity else pos 0

-- The quantities of the fills of the order.
abbrev pub total : OrderKey → List FillEvent → ℤ
total k [] = pos 0
total k (e ∷ rest) = share k e +ℤ total k rest

-- The state and its objects agree: every order has an aggregate of its own, the ids that were seen
-- are those of the fills on file, and a filled quantity is the sum over the fills of the order.
pub record IsCounted (h : Heap) (s : ReconcileState) : Type 0 where
  pub linked : IsLinked h s.aggregates_by_order_key
  pub seen : (id : ℕ) → member id s.seen_fill_ids ≡ contains id s.fills
  pub counted :
      (k : OrderKey)
      → (aggregate_of h s.aggregates_by_order_key k).filled_qty ≡ total k (values s.fills)

pub new_state-IsCounted : (h : Heap) → IsCounted h new_state
new_state-IsCounted h = record { linked = empty-IsLinked h; seen = λ id. refl; counted = λ k. refl }

pub total-insert :
    (k : OrderKey) (e : FillEvent) (d : Dict ℕ FillEvent)
    → lookup e.fill_id d ≡ none
    → total k (values (insert e.fill_id e d)) ≡ total k (values d) +ℤ share k e
total-insert k e [] h = omega int_laws
total-insert k e ((id, x) ∷ d) h = elim (Bool-cases (e.fill_id == id)) [
  | inl same ↦ ground (arith, same, h)
  | inr other ↦
      rw other
        (ap (λ t. share k x +ℤ t) (total-insert k e d (ground (arith, other, h))) ∙ omega int_laws)
]

filled-add :
    (k : OrderKey) (e : FillEvent) (a : Aggregate)
    → (if k == key_of_fill e then add_fill e a else a).filled_qty ≡ a.filled_qty +ℤ share k e
filled-add k e a = elim (Bool-cases (k == key_of_fill e)) [
  | inl same ↦ rw same refl
  | inr other ↦ rw other (omega int_laws)
]

pub book_fill-IsCounted :
    (e : FillEvent) (m : Merging)
    → member e.fill_id m.state.seen_fill_ids ≡ false
    → IsCounted m.heap m.state
    → IsCounted (book_fill e m).heap (book_fill e m).state
unfolding book_fill
book_fill-IsCounted e m unseen c =
    let d = m.state.aggregates_by_order_key in
    let absent : lookup e.fill_id m.state.fills ≡ none = ground (arith, unseen, c.seen e.fill_id) in
    record {
      linked = change-IsLinked (key_of_fill e) (add_fill e) m.heap d c.linked;
      seen = λ id. rw (lookup-insert id e.fill_id e m.state.fills) (ground (arith, c.seen id));
      counted = λ k.
          ap (λ a. a.filled_qty) (change-of (key_of_fill e) (add_fill e) m.heap d k c.linked)
          ∙ filled-add k e (aggregate_of m.heap d k)
          ∙ ap (λ x. x +ℤ share k e) (c.counted k)
          ∙ sym (total-insert k e m.state.fills absent);
    }

pub fill_step-IsCounted :
    (e : FillEvent) (m : Merging)
    → IsCounted m.heap m.state
    → IsCounted (fill_step e m).heap (fill_step e m).state
unfolding fill_step
fill_step-IsCounted e m c =
    if_intro {A = Merging} (λ n. IsCounted n.heap n.state) (member e.fill_id m.state.seen_fill_ids)
      (λ _. c) (λ unseen. book_fill-IsCounted e m unseen c)

fill_loop-IsCounted :
    (fills : List FillEvent) (m : Merging)
    → IsCounted m.heap m.state
    → IsCounted (fill_loop fills m).heap (fill_loop fills m).state
unfolding fill_loop
fill_loop-IsCounted [] m c = c
fill_loop-IsCounted (e ∷ rest) m c =
    fill_loop-IsCounted rest (fill_step e m) (fill_step-IsCounted e m c)

terminal_step-IsCounted :
    (t : OrderTerminalUpdate) (m : Merging)
    → IsCounted m.heap m.state
    → IsCounted (terminal_step t m).heap (terminal_step t m).state
unfolding terminal_step
terminal_step-IsCounted t m c =
    let d = m.state.aggregates_by_order_key in
    record {
      linked = change-IsLinked (key_of_terminal t) (set_last_event t.ts) m.heap d c.linked;
      seen = c.seen;
      counted = λ k.
          ap (λ a. a.filled_qty)
            (change-of (key_of_terminal t) (set_last_event t.ts) m.heap d k c.linked)
          ∙ if_intro {A = Aggregate} (λ a. a.filled_qty ≡ total k (values m.state.fills))
              (k == key_of_terminal t) (λ _. c.counted k) (λ _. c.counted k);
    }

terminal_loop-IsCounted :
    (updates : List OrderTerminalUpdate) (m : Merging)
    → IsCounted m.heap m.state
    → IsCounted (terminal_loop updates m).heap (terminal_loop updates m).state
unfolding terminal_loop
terminal_loop-IsCounted [] m c = c
terminal_loop-IsCounted (t ∷ rest) m c =
    terminal_loop-IsCounted rest (terminal_step t m) (terminal_step-IsCounted t m c)

pub merge_events-IsCounted :
    (h : Heap) (s : ReconcileState) (b : Batch)
    → IsCounted h s
    → let (_, m) = merge_events h s b in IsCounted m.heap m.state
unfolding merge_events
merge_events-IsCounted h s b c =
    let start : Merging = record { heap = h; state = s; new_events = 0 } in
    let filled = fill_loop b.ws_fills start in
    terminal_loop-IsCounted b.ws_terminal_updates (record filled { new_events = 0 })
      (fill_loop-IsCounted b.ws_fills start c)
