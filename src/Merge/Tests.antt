-- ===== src/Merge/Tests.antt =====
-- Fills of two orders, one of them delivered twice, and a cancel.
use meva_beta_alpha_codex.Base.{ℕ, ◌≡◌, refl, none, some, List, [], ◌∷◌}
use meva_beta_alpha_codex.Base.Int.{pos, ◌+ℤ◌}
use meva_beta_alpha_codex.Base.Dict.{values}
use meva_beta_alpha_codex.Merge.Events.{
  FillEvent, OrderTerminalUpdate, OpenOrderView, oid, Heap, ReconcileState, new_state,
}
use meva_beta_alpha_codex.Base.{Bool, true, ◌&&◌}
use meva_beta_alpha_codex.Lifecycle.Counts.{count}
use meva_beta_alpha_codex.Merge.Latest.{last_ones, stays_open, merge-open}
use meva_beta_alpha_codex.Merge.{
  Batch, merge, merge_events, fill_loop, fill_step, book_fill, terminal_loop, terminal_step,
  change_found, by_key, drop_ended,
}
use meva_beta_alpha_codex.Merge.Linked.{aggregate_of}
use meva_beta_alpha_codex.Merge.Counted.{total, new_state-IsCounted}
use meva_beta_alpha_codex.Merge.Delivered.{
  fresh, delivered, run_merges, run_merges-filled, run_merges-IsCounted,
}
use meva_beta_alpha_codex.Merge.Retried.{single, merge-retried}

-- A text is in upper case if it is below 100.
abbrev upper : ℕ → ℕ
upper text = text

abbrev fill : ℕ → ℕ → ℕ → FillEvent
fill fill_id order_id quantity = record {
  fill_id = fill_id;
  order_id = some order_id;
  client_order_id = none;
  symbol = 5;
  price = pos 100;
  quantity = pos quantity;
  channel = 423;
  ts = fill_id;
}

abbrev canceled : OrderTerminalUpdate
canceled = record {
  order_id = some 7;
  client_order_id = none;
  symbol = some 5;
  status = 1;
  reason = 0;
  channel = 452;
  ts = 9;
}

abbrev open_order : ℕ → OpenOrderView
open_order id = record {
  order_id = id;
  client_order_id = none;
  symbol = 5;
  status = 3;
  quantity = pos 9;
  remaining_quantity = pos 4;
  updated_at = none;
}

abbrev first_batch : Batch
first_batch = record {
  rest_open_orders = open_order 7 ∷ open_order 8 ∷ [];
  ws_fills = fill 1 7 3 ∷ fill 2 8 4 ∷ [];
  ws_terminal_updates = [];
}

-- Fill 1 comes again, and order 7 is cancelled.
abbrev second_batch : Batch
second_batch = record {
  rest_open_orders = open_order 7 ∷ open_order 8 ∷ [];
  ws_fills = fill 1 7 3 ∷ fill 3 7 2 ∷ [];
  ws_terminal_updates = canceled ∷ [];
}

abbrev batches : List Batch
batches = first_batch ∷ second_batch ∷ []

run_merges-filled_example :
    let (h, s) = run_merges upper 1 2 batches ([], new_state) in
    (aggregate_of h s.aggregates_by_order_key (oid 7)).filled_qty
    ≡ total (oid 7) (fresh [] (delivered batches))
run_merges-filled_example = run_merges-filled upper 1 2 batches (oid 7)

five_filled : total (oid 7) (fresh [] (delivered batches)) ≡ pos 5
unfolding ◌+ℤ◌
five_filled = refl

-- The cancelled order is no longer open.
one_open :
    let (h, s, _) = merge upper 1 2 [] new_state first_batch in
    (merge upper 1 2 h s second_batch).2.open_orders ≡ open_order 8 ∷ []
unfolding merge merge_events fill_loop fill_step book_fill terminal_loop terminal_step change_found
    by_key drop_ended ◌+ℤ◌
one_open = refl

abbrev every : OpenOrderView → Bool
every o = true

merge-open_example :
    let (_, _, result) = merge upper 1 2 [] new_state second_batch in
    count every result.open_orders
    ≡ count
        (λ o. every o && stays_open upper 1 2 new_state second_batch o)
        (last_ones second_batch.rest_open_orders)
merge-open_example = merge-open upper 1 2 every [] new_state second_batch tt

abbrev merged : Heap × ReconcileState
merged = run_merges upper 1 2 (first_batch ∷ []) ([], new_state)

merge-retried_example :
    let (h, s) = merged in
    let e = fill 3 7 2 in
    let (h1, _, _) = merge upper 1 2 h s (single e) in
    let (h2, s2, _) = merge upper 1 2 h1 s (single e) in
    (aggregate_of h2 s2.aggregates_by_order_key (oid 7)).filled_qty
    ≡ total (oid 7) (values s.fills) +ℤ pos 2 +ℤ pos 2
unfolding run_merges merge merge_events fill_loop fill_step book_fill terminal_loop change_found
merge-retried_example =
    merge-retried upper 1 2 merged.0 merged.1 (fill 3 7 2) 0
      (run_merges-IsCounted upper 1 2 (first_batch ∷ []) ([], new_state) (new_state-IsCounted []))
      refl refl
