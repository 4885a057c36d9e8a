-- ===== src/Merge/Linked.antt =====
-- The aggregate of an order, through its address, after a change of another or of the same order.
use meva_beta_alpha_codex.Base.{
  ℕ, ◌≡◌, ◌≢◌, refl, ap, sym, ◌∙◌, ◌<◌, Option, none, some, [], ◌∷◌, ◌++◌, length, length-append,
  if◌then◌else◌, get_or, arith, ◌==◌, Bool-cases, inl, inr,
}
use meva_beta_alpha_codex.Base.Dict.{lookup, insert, lookup-insert}
use meva_beta_alpha_codex.Merge.Events.{
  Aggregate, new_aggregate, OrderKey, order_key_key, Heap, Links,
}
use meva_beta_alpha_codex.Merge.{change_found, change}
use meva_beta_alpha_codex.Merge.Cells.{
  read_at, update_at, length-update_at, read_at-update_self, read_at-update_ne, read_at-append,
  read_at-last, read_at_lt,
}

abbrev pub aggregate_at : Heap → Option ℕ → Aggregate
aggregate_at h none = new_aggregate
aggregate_at h (some address) = get_or new_aggregate (read_at address h)

-- The aggregate of the order, a fresh one if there is none.
abbrev pub aggregate_of : Heap → Links → OrderKey → Aggregate
aggregate_of h d k = aggregate_at h (lookup k d)

-- Every address is that of an object, and no two orders share one.
pub record IsLinked (h : Heap) (d : Links) : Type 0 where
  pub in_heap : (k : OrderKey) (address : ℕ) → lookup k d ≡ some address → address < length h
  pub own :
      (j k : OrderKey) (address : ℕ) → lookup j d ≡ some address → lookup k d ≡ some address → j ≡ k

pub empty-IsLinked : (h : Heap) → IsLinked h []
empty-IsLinked h = record {
  in_heap = λ k address e. ground (arith, e);
  own = λ j k address e _. ground (arith, e);
}

pub at-update_self :
    (f : Aggregate → Aggregate) (address : ℕ) (h : Heap)
    → address < length h
    → aggregate_at (update_at address f h) (some address) ≡ f (aggregate_at h (some address))
at-update_self f address h lt =
    let (x, e) = read_at_lt address h lt in
    ap (get_or new_aggregate) (read_at-update_self address f h x e)
    ∙ sym (ap (λ o. f (get_or new_aggregate o)) e)

at-update_ne :
    (f : Aggregate → Aggregate) (address : ℕ) (h : Heap) (o : Option ℕ)
    → o ≢ some address
    → aggregate_at (update_at address f h) o ≡ aggregate_at h o
at-update_ne f address h none ne = refl
at-update_ne f address h (some a) ne =
    ap (get_or new_aggregate) (read_at-update_ne a address f h (λ e. ne (ap some e)))

at-append :
    (h ys : Heap) (o : Option ℕ)
    → ((a : ℕ) → o ≡ some a → a < length h)
    → aggregate_at (h ++ ys) o ≡ aggregate_at h o
at-append h ys none lt = refl
at-append h ys (some a) lt = ap (get_or new_aggregate) (read_at-append a h ys (lt a refl))

module _ (k : OrderKey) (f : Aggregate → Aggregate) (h : Heap) (d : Links) where
  -- The change of the one order, and nothing else.
  abbrev changed : OrderKey → Aggregate
  changed j = if j == k then f (aggregate_of h d j) else aggregate_of h d j

  -- A change in place.
  found-of :
      (address : ℕ) (j : OrderKey)
      → lookup k d ≡ some address
      → IsLinked h d
      → aggregate_of (update_at address f h) d j ≡ changed j
  found-of address j e l = elim (Bool-cases (j == k)) [
    | inl same ↦
        let ej : lookup j d ≡ some address =
          ap (λ x. lookup x d) ((order_key_key.same_iff j k).0 same) ∙ e in
        rw (same, ej) (at-update_self f address h (l.in_heap k address e))
    | inr other ↦ rw other (
        at-update_ne f address h (lookup j d)
          (λ ej. ground (arith, other, order_key_key.same_iff j k, l.own j k address ej e)))
  ]

  -- A new object.
  new-of :
      (j : OrderKey)
      → lookup k d ≡ none
      → IsLinked h d
      → aggregate_of (h ++ f new_aggregate ∷ []) (insert k (length h) d) j ≡ changed j
  new-of j e l = elim (Bool-cases (j == k)) [
    | inl same ↦
        let ej : lookup j d ≡ none =
          ap (λ x. lookup x d) ((order_key_key.same_iff j k).0 same) ∙ e in
        rw (lookup-insert j k (length h) d, same, ej)
          (ap (get_or new_aggregate) (read_at-last h (f new_aggregate)))
    | inr other ↦
        rw (lookup-insert j k (length h) d, other)
          (at-append h (f new_aggregate ∷ []) (lookup j d) (l.in_heap j))
  ]

  new-IsLinked :
      (x : Aggregate)
      → lookup k d ≡ none
      → IsLinked h d
      → IsLinked (h ++ x ∷ []) (insert k (length h) d)
  new-IsLinked x e l = record {
    in_heap = λ i b eb.
        let longer = length-append h (x ∷ []) in
        let at = lookup-insert i k (length h) d in ground (arith, longer, at, eb, l.in_heap i b);
    own = λ i j b ei ej.
        let at_i = lookup-insert i k (length h) d in
        let at_j = lookup-insert j k (length h) d in
        ground (
          arith,
          at_i,
          at_j,
          ei,
          ej,
          l.own i j b,
          l.in_heap i b,
          l.in_heap j b,
          order_key_key.same_iff i k,
          order_key_key.same_iff j k,
        );
  }

  change_found-of :
      (o : Option ℕ) (j : OrderKey)
      → lookup k d ≡ o
      → IsLinked h d
      → let (h', d') = change_found k f o h d in (aggregate_of h' d' j ≡ changed j) × IsLinked h' d'
  unfolding change_found
  change_found-of none j e l = (new-of j e l, new-IsLinked (f new_aggregate) e l)
  change_found-of (some a) j e l = (
    found-of a j e l,
    record {
      in_heap = λ i b eb. omega (arith, length-update_at a f h, l.in_heap i b eb);
      own = l.own;
    },
  )

pub change-of :
    (k : OrderKey) (f : Aggregate → Aggregate) (h : Heap) (d : Links) (j : OrderKey)
    → IsLinked h d
    → let (h', d') = change k f h d in
      aggregate_of h' d' j ≡ (if j == k then f (aggregate_of h d j) else aggregate_of h d j)
change-of k f h d j l = (change_found-of k f h d (lookup k d) j refl l).0

pub change-IsLinked :
    (k : OrderKey) (f : Aggregate → Aggregate) (h : Heap) (d : Links)
    → IsLinked h d
    → let (h', d') = change k f h d in IsLinked h' d'
change-IsLinked k f h d l = (change_found-of k f h d (lookup k d) k refl l).1
