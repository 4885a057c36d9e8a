-- ===== src/Merge/Retried.antt =====
-- A merge that is tried again from the same previous state changes its objects a second time.
use meva_beta_alpha_codex.Base.{ℕ, ◌≡◌, ap, sym, ◌∙◌, false, some, [], ◌∷◌, arith}
use meva_beta_alpha_codex.Base.Int.{◌+ℤ◌}
use meva_beta_alpha_codex.Base.Dict.{lookup, values}
use meva_beta_alpha_codex.Merge.Events.{
  FillEvent, OrderKey, Heap, ReconcileState, Links, Aggregate, member, order_key_key,
}
use meva_beta_alpha_codex.Merge.{
  key_of_fill, add_fill, change_found, change, book_fill, fill_step, fill_loop, terminal_loop,
  Batch, merge_events, merge,
}
use meva_beta_alpha_codex.Merge.Cells.{update_at, length-update_at}
use meva_beta_alpha_codex.Merge.Linked.{aggregate_at, aggregate_of, at-update_self}
use meva_beta_alpha_codex.Merge.Counted.{total, IsCounted}

change-found :
    (k : OrderKey) (f : Aggregate → Aggregate) (h : Heap) (d : Links) (address : ℕ)
    → lookup k d ≡ some address
    → change k f h d ≡ (update_at address f h, d)
unfolding change_found
change-found k f h d address e = ap (λ o. change_found k f o h d) e

-- The one fill, and no open or terminal orders.
abbrev pub single : FillEvent → Batch
single e = record { rest_open_orders = []; ws_fills = e ∷ []; ws_terminal_updates = [] }

module _ (upper : ℕ → ℕ) (canceled_text filled_text : ℕ) where
  -- Where a state agrees with its objects, a fill that was not seen belongs to an order with an
  -- aggregate, and the merge of it is done twice from that state, the second time on the objects as the
  -- first left them: the filled quantity of the order counts the fill twice.
  pub merge-retried :
      (h : Heap) (s : ReconcileState) (e : FillEvent) (address : ℕ)
      → IsCounted h s
      → member e.fill_id s.seen_fill_ids ≡ false
      → lookup (key_of_fill e) s.aggregates_by_order_key ≡ some address
      → let (h1, _, _) = merge upper canceled_text filled_text h s (single e) in
        let (h2, s2, _) = merge upper canceled_text filled_text h1 s (single e) in
        (aggregate_of h2 s2.aggregates_by_order_key (key_of_fill e)).filled_qty
        ≡ total (key_of_fill e) (values s.fills) +ℤ e.quantity +ℤ e.quantity
  unfolding merge merge_events fill_loop fill_step book_fill terminal_loop
  merge-retried h s e address c unseen found =
      let d = s.aggregates_by_order_key in
      let k = key_of_fill e in
      let f = add_fill e in
      let lt = c.linked.in_heap k address found in
      rw (unseen, change-found k f h d address found)
        (rw (change-found k f (update_at address f h) d address found, found)
          (ap (λ a. a.filled_qty)
              (at-update_self f address (update_at address f h)
                (omega (arith, lt, length-update_at address f h)))
            ∙ ap (λ a. (f a).filled_qty) (at-update_self f address h lt)
            ∙ ap (λ x. x +ℤ e.quantity +ℤ e.quantity)
                (ap (λ o. (aggregate_at h o).filled_qty) (sym found) ∙ c.counted k)))
