-- ===== src/Merge/Open.antt =====
-- Which open orders a merge leaves, by the terminal updates it has on file.
use meva_beta_alpha_codex.Base.{
  ℕ, ◌+◌, ◌≡◌, refl, ap, sym, ◌∙◌, subst, Bool, true, false, not, ◌&&◌, ◌||◌, nat_beq, Option, none,
  some, List, [], ◌∷◌, if◌then◌else◌, if_intro, arith, ◌==◌, Bool-cases, inl, inr, All,
}
use meva_beta_alpha_codex.Base.Dict.{
  Dict, lookup, insert, erase, values, IsKeyed, insert-IsKeyed, erase-IsKeyed,
}
use meva_beta_alpha_codex.Lifecycle.Counts.{count, count-sorted, count-map}
use meva_beta_alpha_codex.Merge.Events.{
  OpenOrderView, FillEvent, OrderTerminalUpdate, OrderKey, order_key_key, Heap, ReconcileState,
}
use meva_beta_alpha_codex.Merge.{
  supersedes, key_of_terminal, key_of_open, Merging, fill_step, fill_loop, book_fill, terminal_step,
  terminal_loop, by_key, Batch, merge_events, drop_ended, merge,
}

abbrev pub Terminals : Type 0
Terminals = Dict OrderKey OrderTerminalUpdate

abbrev pub Opens : Type 0
Opens = Dict OrderKey OpenOrderView

pub fill_loop-terminals :
    (fills : List FillEvent) (m : Merging)
    → (fill_loop fills m).state.terminal_updates ≡ m.state.terminal_updates
unfolding fill_loop fill_step book_fill
fill_loop-terminals [] m = refl
fill_loop-terminals (e ∷ rest) m =
    fill_loop-terminals rest (fill_step e m)
    ∙ if_intro {A = Merging} (λ n. n.state.terminal_updates ≡ m.state.terminal_updates) _
        (λ _. refl) (λ _. refl)

terminal_loop-IsKeyed :
    (updates : List OrderTerminalUpdate) (m : Merging)
    → IsKeyed m.state.terminal_updates
    → IsKeyed (terminal_loop updates m).state.terminal_updates
unfolding terminal_loop terminal_step
terminal_loop-IsKeyed [] m h = h
terminal_loop-IsKeyed (t ∷ rest) m h =
    let d = m.state.terminal_updates in
    let k = key_of_terminal t in
    terminal_loop-IsKeyed rest (terminal_step t m) (
      if_intro {A = Terminals} IsKeyed (supersedes t (lookup k d)) (λ _. insert-IsKeyed k t d h)
        (λ _. h))

-- The key of an entry is that of its order.
abbrev AreNamed : Opens → Type 0
AreNamed d = All (λ e. key_of_open e.1 ≡ e.0) d

insert-AreNamed :
    (o : OpenOrderView) (d : Opens) → AreNamed d → AreNamed (insert (key_of_open o) o d)
insert-AreNamed o [] h = (refl, tt)
insert-AreNamed o (e ∷ d) h =
    if_intro {A = Opens} AreNamed (key_of_open o == e.0)
      (λ same. ((order_key_key.same_iff (key_of_open o) e.0).0 same, h.1))
      (λ _. (h.0, insert-AreNamed o d h.1))

by_key-AreNamed :
    (orders : List OpenOrderView) (d : Opens) → AreNamed d → AreNamed (by_key orders d)
unfolding by_key
by_key-AreNamed [] d h = h
by_key-AreNamed (o ∷ rest) d h = by_key-AreNamed rest _ (insert-AreNamed o d h)

by_key-IsKeyed : (orders : List OpenOrderView) (d : Opens) → IsKeyed d → IsKeyed (by_key orders d)
unfolding by_key
by_key-IsKeyed [] d h = h
by_key-IsKeyed (o ∷ rest) d h = by_key-IsKeyed rest _ (insert-IsKeyed (key_of_open o) o d h)

pub count-All {ℓ} :
    {A : Type ℓ} (p r : A → Bool) (xs : List A) → All (λ x. p x ≡ r x) xs → count p xs ≡ count r xs
count-All p r [] h = refl
count-All p r (x ∷ xs) h = rw h.0 (ap (λ n. (if r x then 1 else 0) + n) (count-All p r xs h.1))

pub All-absent :
    (p : OrderKey × OpenOrderView → Bool) (k : OrderKey) (d : Opens)
    → lookup k d ≡ none
    → All (λ e. (p e && not (k == e.0)) ≡ p e) d
All-absent p k [] h = tt
All-absent p k (e ∷ d) h = (ground (arith, h), All-absent p k d (ground (arith, h)))

count-erase :
    (p : OrderKey × OpenOrderView → Bool) (k : OrderKey) (d : Opens)
    → IsKeyed d
    → count p (erase k d) ≡ count (λ e. p e && not (k == e.0)) d
count-erase p k [] h = refl
count-erase p k (e ∷ d) h = elim (Bool-cases (k == e.0)) [
  | inl same ↦
      let absent : lookup k d ≡ none =
        ap (λ j. lookup j d) ((order_key_key.same_iff k e.0).0 same) ∙ h.0 in
      rw same (ground (arith, count-All _ p d (All-absent p k d absent)))
  | inr other ↦ rw other (ground (arith, count-erase p k d h.1))
]

pub count-cong {ℓ} :
    {A : Type ℓ} (p r : A → Bool) (xs : List A) → ((x : A) → p x ≡ r x) → count p xs ≡ count r xs
count-cong p r [] h = refl
count-cong p r (x ∷ xs) h = rw (h x) (ap (λ n. (if r x then 1 else 0) + n) (count-cong p r xs h))

-- The terminal updates that a merge has on file.
abbrev pub filed : Heap → ReconcileState → Batch → Terminals
filed h s b = (merge_events h s b).1.state.terminal_updates

module _ (upper : ℕ → ℕ) (canceled_text filled_text : ℕ) where
  -- The update says that the order is over: its status, in upper case, is one of the two texts.
  abbrev pub ends : Option OrderTerminalUpdate → Bool
  ends none = false
  ends (some t) = nat_beq (upper t.status) canceled_text || nat_beq (upper t.status) filled_text

  -- The terminal update of the order, if there is one, ends it.
  abbrev pub has_ended : Terminals → OrderKey → Bool
  has_ended terminals k = ends (lookup k terminals)

  flip : (j k : OrderKey) → (k == j) ≡ (j == k)
  flip j k = ground (arith, order_key_key.same_iff j k, order_key_key.same_iff k j)

  ended-cons :
      (k : OrderKey) (t : OrderTerminalUpdate) (rest : Terminals) (j : OrderKey)
      → ends (some t) ≡ true
      → (not (has_ended rest j) && not (k == j)) ≡ not (has_ended ((k, t) ∷ rest) j)
  ended-cons k t rest j h = elim (Bool-cases (j == k)) [
    | inl same ↦ rw (flip j k, same, h) (ground arith)
    | inr other ↦ rw (flip j k, other) (ground arith)
  ]

  not_ended-cons :
      (k : OrderKey) (t : OrderTerminalUpdate) (rest : Terminals) (j : OrderKey)
      → ends (some t) ≡ false
      → lookup k rest ≡ none
      → has_ended rest j ≡ has_ended ((k, t) ∷ rest) j
  not_ended-cons k t rest j h absent = elim (Bool-cases (j == k)) [
    | inl same ↦
        let gone : lookup j rest ≡ none =
          ap (λ i. lookup i rest) ((order_key_key.same_iff j k).0 same) ∙ absent in
        rw (same, gone, h) refl
    | inr other ↦ rw other refl
  ]

  and_assoc : (a b c : Bool) → ((a && b) && c) ≡ (a && (b && c))
  and_assoc a b c = ground arith

  by_name :
      (q : OpenOrderView → Bool) (terminals : Terminals) (d : Opens)
      → AreNamed d
      → All
          (λ e.
            (q e.1 && not (has_ended terminals e.0))
            ≡ (q e.1 && not (has_ended terminals (key_of_open e.1))))
          d
  by_name q terminals [] h = tt
  by_name q terminals (e ∷ d) h =
      (ap (λ k. q e.1 && not (has_ended terminals k)) (sym h.0), by_name q terminals d h.1)

  drop_ended-count :
      (p : OrderKey × OpenOrderView → Bool) (terminals : Terminals) (d : Opens)
      → IsKeyed terminals
      → IsKeyed d
      → count p (drop_ended upper canceled_text filled_text terminals d)
        ≡ count (λ e. p e && not (has_ended terminals e.0)) d
  unfolding drop_ended
  drop_ended-count p [] d ht hd = count-cong p _ d (λ e. ground arith)
  drop_ended-count p ((k, t) ∷ rest) d ht hd =
      let later : OrderKey × OpenOrderView → Bool = λ e. p e && not (has_ended rest e.0) in
      elim (Bool-cases (ends (some t))) [
        | inl over ↦ rw over (
            drop_ended-count p rest (erase k d) ht.1 (erase-IsKeyed k d hd)
            ∙ count-erase later k d hd
            ∙ count-cong _ _ d (λ e.
              and_assoc (p e) (not (has_ended rest e.0)) (not (k == e.0))
              ∙ ap (λ b. p e && b) (ended-cons k t rest e.0 over)))
        | inr stays ↦ rw stays (
            drop_ended-count p rest d ht.1 hd
            ∙ count-cong later _ d
                (λ e. ap (λ b. p e && not b) (not_ended-cons k t rest e.0 stays ht.0)))
      ]

  -- The open orders of a merge by the dictionaries that it makes of its input.
  pub merge-filed :
      (q : OpenOrderView → Bool) (h : Heap) (s : ReconcileState) (b : Batch)
      → IsKeyed s.terminal_updates
      → let (_, _, result) = merge upper canceled_text filled_text h s b in
        count q result.open_orders
        ≡ count
            (λ o. q o && not (has_ended (filed h s b) (key_of_open o)))
            (values (by_key b.rest_open_orders []))
  unfolding merge merge_events
  merge-filed q h s b keyed =
      let start : Merging = record { heap = h; state = s; new_events = 0 } in
      let filled : Merging = record (fill_loop b.ws_fills start) { new_events = 0 } in
      let terminals = (terminal_loop b.ws_terminal_updates filled).state.terminal_updates in
      let d = by_key b.rest_open_orders [] in
      let kept = drop_ended upper canceled_text filled_text terminals d in
      let terminals_keyed : IsKeyed terminals =
        terminal_loop-IsKeyed b.ws_terminal_updates filled
          (subst {A = Terminals} IsKeyed (sym (fill_loop-terminals b.ws_fills start)) keyed) in
      count-sorted q _ (values kept)
      ∙ count-map q (λ e. q e.1) (λ e. e.1) kept (λ e. refl)
      ∙ drop_ended-count (λ e. q e.1) terminals d terminals_keyed
          (by_key-IsKeyed b.rest_open_orders [] tt)
      ∙ count-All _ _ d (by_name q terminals d (by_key-AreNamed b.rest_open_orders [] tt))
      ∙ sym (
          count-map (λ o. q o && not (has_ended terminals (key_of_open o))) _ (λ e. e.1) d
            (λ e. refl))
