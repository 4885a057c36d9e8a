-- ===== src/Merge/Delivered.antt =====
-- The filled quantities after a sequence of merges, from the events that were delivered.
use meva_beta_alpha_codex.Base.{
  ℕ, ◌≡◌, refl, ap₂, sym, ◌∙◌, none, List, [], ◌∷◌, ◌++◌, if◌then◌else◌, arith, Bool-cases, inl,
  inr, number_key,
}
use meva_beta_alpha_codex.Base.Int.{◌+ℤ◌, int_laws}
use meva_beta_alpha_codex.Base.Dict.{lookup, values}
use meva_beta_alpha_codex.Merge.Events.{
  FillEvent, OrderTerminalUpdate, OrderKey, order_key_key, Heap, ReconcileState, new_state, member,
}
use meva_beta_alpha_codex.Merge.{
  Merging, book_fill, fill_step, fill_loop, terminal_step, terminal_loop, Batch, merge_events,
  merge,
}
use meva_beta_alpha_codex.Merge.Linked.{aggregate_of}
use meva_beta_alpha_codex.Merge.Counted.{
  share, total, IsCounted, new_state-IsCounted, total-insert, fill_step-IsCounted,
  merge_events-IsCounted,
}

-- The events whose id is not among `ids`, nor that of an earlier one.
abbrev pub fresh : (ids : List ℕ) → List FillEvent → List FillEvent
fresh ids [] = []
fresh ids (e ∷ rest) =
    let old = fresh ids rest in
    let new = fresh (e.fill_id ∷ ids) rest in if member e.fill_id ids then old else e ∷ new

-- All fill events of the batches, in order.
abbrev pub delivered : List Batch → List FillEvent
delivered [] = []
delivered (b ∷ rest) = b.ws_fills ++ delivered rest

book_fill-total :
    (k : OrderKey) (e : FillEvent) (m : Merging) (later : List FillEvent)
    → lookup e.fill_id m.state.fills ≡ none
    → total k (values m.state.fills)
        +ℤ (share k e +ℤ total k (fresh (e.fill_id ∷ m.state.seen_fill_ids) later))
      ≡ total k (values (book_fill e m).state.fills)
        +ℤ total k (fresh (book_fill e m).state.seen_fill_ids later)
unfolding book_fill
book_fill-total k e m later absent = rw (total-insert k e m.state.fills absent) (omega int_laws)

fill_step-total :
    (k : OrderKey) (e : FillEvent) (m : Merging) (later : List FillEvent)
    → IsCounted m.heap m.state
    → total k (values m.state.fills) +ℤ total k (fresh m.state.seen_fill_ids (e ∷ later))
      ≡ total k (values (fill_step e m).state.fills)
        +ℤ total k (fresh (fill_step e m).state.seen_fill_ids later)
unfolding fill_step
fill_step-total k e m later c = elim (Bool-cases (member e.fill_id m.state.seen_fill_ids)) [
  | inl old ↦ rw old refl
  | inr new ↦ rw new (book_fill-total k e m later (ground (arith, new, c.seen e.fill_id)))
]

-- A fill moves from the events to come to the fills on file.
fill_loop-total :
    (k : OrderKey) (fills : List FillEvent) (m : Merging) (later : List FillEvent)
    → IsCounted m.heap m.state
    → total k (values m.state.fills) +ℤ total k (fresh m.state.seen_fill_ids (fills ++ later))
      ≡ total k (values (fill_loop fills m).state.fills)
        +ℤ total k (fresh (fill_loop fills m).state.seen_fill_ids later)
unfolding fill_loop
fill_loop-total k [] m later c = refl
fill_loop-total k (e ∷ rest) m later c =
    fill_step-total k e m (rest ++ later) c
    ∙ fill_loop-total k rest (fill_step e m) later (fill_step-IsCounted e m c)

terminal_loop-fills :
    (updates : List OrderTerminalUpdate) (m : Merging)
    → (terminal_loop updates m).state.fills ≡ m.state.fills
unfolding terminal_loop terminal_step
terminal_loop-fills [] m = refl
terminal_loop-fills (t ∷ rest) m = terminal_loop-fills rest (terminal_step t m)

terminal_loop-seen :
    (updates : List OrderTerminalUpdate) (m : Merging)
    → (terminal_loop updates m).state.seen_fill_ids ≡ m.state.seen_fill_ids
unfolding terminal_loop terminal_step
terminal_loop-seen [] m = refl
terminal_loop-seen (t ∷ rest) m = terminal_loop-seen rest (terminal_step t m)

module _ (upper : ℕ → ℕ) (canceled_text filled_text : ℕ) where
  -- Merges one after the other, each from the state that the one before gave.
  unfoldable pub run_merges : List Batch → Heap × ReconcileState → Heap × ReconcileState
  run_merges [] w = w
  run_merges (b ∷ rest) w =
      let (h, s, _) = merge upper canceled_text filled_text w.0 w.1 b in run_merges rest (h, s)

  pub run_merges-IsCounted :
      (batches : List Batch) (w : Heap × ReconcileState)
      → IsCounted w.0 w.1
      → let (h, s) = run_merges batches w in IsCounted h s
  unfolding run_merges merge
  run_merges-IsCounted [] w c = c
  run_merges-IsCounted (b ∷ rest) w c =
      let (_, m) = merge_events w.0 w.1 b in
      run_merges-IsCounted rest (m.heap, m.state) (merge_events-IsCounted w.0 w.1 b c)

  run_merges-total :
      (k : OrderKey) (batches : List Batch) (w : Heap × ReconcileState)
      → IsCounted w.0 w.1
      → total k (values w.1.fills) +ℤ total k (fresh w.1.seen_fill_ids (delivered batches))
        ≡ total k (values (run_merges batches w).1.fills)
  unfolding run_merges merge merge_events
  run_merges-total k [] w c = omega int_laws
  run_merges-total k (b ∷ rest) w c =
      let start : Merging = record { heap = w.0; state = w.1; new_events = 0 } in
      let filled : Merging = record (fill_loop b.ws_fills start) { new_events = 0 } in
      let m = terminal_loop b.ws_terminal_updates filled in
      fill_loop-total k b.ws_fills start (delivered rest) c
      ∙ ap₂ (λ d ids. total k (values d) +ℤ total k (fresh ids (delivered rest)))
          (sym (terminal_loop-fills b.ws_terminal_updates filled))
          (sym (terminal_loop-seen b.ws_terminal_updates filled))
      ∙ run_merges-total k rest (m.heap, m.state) (merge_events-IsCounted w.0 w.1 b c)

  -- After any sequence of merges from a new state, each from the state that the one before gave, the
  -- filled quantity of every order is the sum of the quantities of the fill events of the order that
  -- were delivered, of each fill id only the first.
  pub run_merges-filled :
      (batches : List Batch) (k : OrderKey)
      → let (h, s) = run_merges batches ([], new_state) in
        (aggregate_of h s.aggregates_by_order_key k).filled_qty
        ≡ total k (fresh [] (delivered batches))
  run_merges-filled batches k =
      let c = new_state-IsCounted [] in
      (run_merges-IsCounted batches ([], new_state) c).counted k
      ∙ sym (run_merges-total k batches ([], new_state) c)
      ∙ omega int_laws
