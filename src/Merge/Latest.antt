-- ===== src/Merge/Latest.antt =====
-- Which open orders a merge leaves, told from its input alone.
use native.Mathlib.Nat.{zero-add}
use meva_beta_alpha_codex.Base.{
  ℕ, ◌+◌, ◌≡◌, refl, ap, sym, ◌∙◌, Bool, true, false, not, ◌&&◌, ◌||◌, Option, none, some, List, [],
  ◌∷◌, if◌then◌else◌, arith, ◌==◌, leb, any, Bool-cases, inl, inr,
}
use meva_beta_alpha_codex.Base.Dict.{lookup, insert, IsKeyed, insert-IsKeyed, lookup-insert}
use meva_beta_alpha_codex.Lifecycle.Counts.{count, count-map}
use meva_beta_alpha_codex.Merge.Events.{
  OpenOrderView, OrderTerminalUpdate, OrderKey, order_key_key, Heap, ReconcileState,
}
use meva_beta_alpha_codex.Merge.Open.{
  Terminals, Opens, All-absent, count-All, count-cong, fill_loop-terminals, ends, has_ended,
  merge-filed, filed,
}
use meva_beta_alpha_codex.Merge.{
  supersedes, key_of_terminal, key_of_open, Merging, terminal_step, terminal_loop, by_key, Batch,
  fill_loop, merge_events, merge,
}

-- Some order of the list has this key.
abbrev pub has_key : OrderKey → List OpenOrderView → Bool
has_key k orders = any (λ o. k == key_of_open o) orders

-- The orders without a later one of the same key.
abbrev pub last_ones : List OpenOrderView → List OpenOrderView
last_ones [] = []
last_ones (o ∷ rest) = if has_key (key_of_open o) rest then last_ones rest else o ∷ last_ones rest

-- The update is of this order, and not older than the one before.
abbrev pub replaces : OrderKey → Option OrderTerminalUpdate → OrderTerminalUpdate → Bool
replaces k none t = k == key_of_terminal t
replaces k (some before) t = k == key_of_terminal t && leb before.ts t.ts

-- The newest update of an order, of two with the same time the later one.
abbrev pub newest :
    OrderKey → Option OrderTerminalUpdate → List OrderTerminalUpdate → Option OrderTerminalUpdate
newest k before [] = before
newest k before (t ∷ rest) = newest k (if replaces k before t then some t else before) rest

same_or_not : (j k : OrderKey) → (j == k) ≡ (k == j)
same_or_not j k = ground (arith, order_key_key.same_iff j k, order_key_key.same_iff k j)

count-insert :
    (p : OrderKey × OpenOrderView → Bool) (k : OrderKey) (o : OpenOrderView) (d : Opens)
    → IsKeyed d
    → count p (insert k o d) ≡ (if p (k, o) then 1 else 0) + count (λ e. p e && not (k == e.0)) d
count-insert p k o [] h = refl
count-insert p k o (e ∷ d) h = elim (Bool-cases (k == e.0)) [
  | inl same ↦
      let equal = (order_key_key.same_iff k e.0).0 same in
      let absent : lookup k d ≡ none = ap (λ j. lookup j d) equal ∙ h.0 in
      let first : p (e.0, o) ≡ p (k, o) = ap (λ j. p (j, o)) (sym equal) in
      rw same (ground (arith, first, count-All _ p d (All-absent p k d absent)))
  | inr other ↦ rw other (ground (arith, count-insert p k o d h.1))
]

count-last_ones :
    (r : OpenOrderView → Bool) (o : OpenOrderView) (rest : List OpenOrderView)
    → count r (last_ones (o ∷ rest))
      ≡ (if r o && not (has_key (key_of_open o) rest) then 1 else 0) + count r (last_ones rest)
count-last_ones r o rest = elim (Bool-cases (has_key (key_of_open o) rest)) [
  | inl e ↦ rw e (ground arith)
  | inr e ↦ rw e (ground arith)
]

not_later : (b x y : Bool) → ((b && not y) && not x) ≡ (b && not (x || y))
not_later b x y = ground arith

swap_sum : (a b c : ℕ) → a + b + c ≡ b + (a + c)
swap_sum a b c = omega arith

-- A dictionary that the orders are put into keeps what none of them has the key of.
by_key-count :
    (r : OpenOrderView → Bool) (orders : List OpenOrderView) (d : Opens)
    → IsKeyed d
    → count (λ e. r e.1) (by_key orders d)
      ≡ count (λ e. r e.1 && not (has_key e.0 orders)) d + count r (last_ones orders)
unfolding by_key
by_key-count r [] d h =
    let same : count (λ e. r e.1) d ≡ count (λ e. r e.1 && not false) d =
      count-cong (λ e. r e.1) (λ e. r e.1 && not false) d (λ e. ground arith) in
    omega (arith, same)
by_key-count r (o ∷ rest) d h =
    let k = key_of_open o in
    let kept : OrderKey × OpenOrderView → Bool = λ e. r e.1 && not (has_key e.0 rest) in
    by_key-count r rest (insert k o d) (insert-IsKeyed k o d h)
    ∙ ap (λ n. n + count r (last_ones rest))
        (count-insert kept k o d h
          ∙ ap (λ n. (if kept (k, o) then 1 else 0) + n)
              (count-cong _ _ d (λ e.
                ap (λ b. (r e.1 && not (has_key e.0 rest)) && not b) (same_or_not k e.0)
                ∙ not_later (r e.1) (e.0 == k) (has_key e.0 rest))))
    ∙ swap_sum (if kept (k, o) then 1 else 0) _ (count r (last_ones rest))
    ∙ ap (λ n. count (λ e. r e.1 && not (has_key e.0 (o ∷ rest))) d + n)
        (sym (count-last_ones r o rest))

if-lookup :
    (b : Bool) (k own : OrderKey) (t : OrderTerminalUpdate) (d : Terminals)
    → lookup k (if b then insert own t d else d) ≡ (if b && k == own then some t else lookup k d)
if-lookup true k own t d = lookup-insert k own t d
if-lookup false k own t d = refl

replaces-same :
    (k : OrderKey) (before : Option OrderTerminalUpdate) (t : OrderTerminalUpdate)
    → (k == key_of_terminal t) ≡ true
    → (supersedes t before && k == key_of_terminal t) ≡ replaces k before t
replaces-same k none t h = refl
replaces-same k (some before) t h = rw h (ground arith)

replaces-other :
    (k : OrderKey) (found before : Option OrderTerminalUpdate) (t : OrderTerminalUpdate)
    → (k == key_of_terminal t) ≡ false
    → (supersedes t found && k == key_of_terminal t) ≡ replaces k before t
replaces-other k found none t h = rw h (ground arith)
replaces-other k found (some before) t h = rw h (ground arith)

-- `supersedes` reads what is on file under the key of the update.
step_replaces :
    (k : OrderKey) (t : OrderTerminalUpdate) (d : Terminals)
    → (supersedes t (lookup (key_of_terminal t) d) && k == key_of_terminal t)
      ≡ replaces k (lookup k d) t
step_replaces k t d = elim (Bool-cases (k == key_of_terminal t)) [
  | inl same ↦
      let equal = (order_key_key.same_iff k (key_of_terminal t)).0 same in
      ap (λ j. supersedes t (lookup j d) && k == key_of_terminal t) (sym equal)
      ∙ replaces-same k (lookup k d) t same
  | inr other ↦ replaces-other k (lookup (key_of_terminal t) d) (lookup k d) t other
]

step-lookup :
    (k : OrderKey) (t : OrderTerminalUpdate) (d : Terminals)
    → lookup k
        (if supersedes t (lookup (key_of_terminal t) d) then insert (key_of_terminal t) t d else d)
      ≡ (if replaces k (lookup k d) t then some t else lookup k d)
step-lookup k t d =
    if-lookup (supersedes t (lookup (key_of_terminal t) d)) k (key_of_terminal t) t d
    ∙ ap (λ b. if b then some t else lookup k d) (step_replaces k t d)

terminal_loop-newest :
    (k : OrderKey) (updates : List OrderTerminalUpdate) (m : Merging)
    → lookup k (terminal_loop updates m).state.terminal_updates
      ≡ newest k (lookup k m.state.terminal_updates) updates
unfolding terminal_loop terminal_step
terminal_loop-newest k [] m = refl
terminal_loop-newest k (t ∷ rest) m =
    terminal_loop-newest k rest (terminal_step t m)
    ∙ ap (λ before. newest k before rest) (step-lookup k t m.state.terminal_updates)

filed-newest :
    (k : OrderKey) (h : Heap) (s : ReconcileState) (b : Batch)
    → lookup k (filed h s b) ≡ newest k (lookup k s.terminal_updates) b.ws_terminal_updates
unfolding merge_events
filed-newest k h s b =
    let start : Merging = record { heap = h; state = s; new_events = 0 } in
    terminal_loop-newest k b.ws_terminal_updates
      (record (fill_loop b.ws_fills start) { new_events = 0 })
    ∙ ap (λ d. newest k (lookup k d) b.ws_terminal_updates) (fill_loop-terminals b.ws_fills start)

module _ (upper : ℕ → ℕ) (canceled_text filled_text : ℕ) where
  -- The newest terminal update of the order, if there is one, does not end it.
  abbrev pub stays_open : ReconcileState → Batch → OpenOrderView → Bool
  stays_open s b o =
      let k = key_of_open o in
      not (
        ends upper canceled_text filled_text
          (newest k (lookup k s.terminal_updates) b.ws_terminal_updates))

  -- For every test of open orders, after a merge from a state without a key twice in its terminal
  -- updates: the result has as many open orders that pass it as there are orders in the REST list, of
  -- several with one key only the last, that pass it and whose newest terminal update, among the one
  -- that the state has for the key and those of the batch, if there is any, does not say that the
  -- order is canceled or filled.
  pub merge-open :
      (q : OpenOrderView → Bool) (h : Heap) (s : ReconcileState) (b : Batch)
      → IsKeyed s.terminal_updates
      → let (_, _, result) = merge upper canceled_text filled_text h s b in
        count q result.open_orders
        ≡ count (λ o. q o && stays_open s b o) (last_ones b.rest_open_orders)
  merge-open q h s b keyed =
      let still : OpenOrderView → Bool =
        λ o. q o && not (has_ended upper canceled_text filled_text (filed h s b) (key_of_open o)) in
      let d = by_key b.rest_open_orders [] in
      merge-filed upper canceled_text filled_text q h s b keyed
      ∙ count-map still (λ e. still e.1) (λ e. e.1) d (λ e. refl)
      ∙ by_key-count still b.rest_open_orders [] tt
      ∙ zero-add (count still (last_ones b.rest_open_orders))
      ∙ count-cong still _ (last_ones b.rest_open_orders) (λ o.
        ap (λ t. q o && not (ends upper canceled_text filled_text t))
          (filed-newest (key_of_open o) h s b))
