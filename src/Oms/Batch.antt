-- ===== src/Oms/Batch.antt =====
-- `OMSService.process_intents` and `reconcile_open_orders` of services/oms_service.py: the loop over
-- the intents and what it writes.
use meva_beta_alpha_codex.Base.{
  ℕ, Bool, false, Option, none, some, List, [], ◌∷◌, ◌++◌, map, leb, sorted, number_key,
}
use meva_beta_alpha_codex.Base.Int.{◌*ℤ◌}
use meva_beta_alpha_codex.Oms.{Stage7Order, OrderEvent}
use meva_beta_alpha_codex.Oms.Store.{
  upsert_stage7_orders, append_stage7_order_events, load_non_terminal_orders,
}
use meva_beta_alpha_codex.Oms.Simulator.{OrderIntent}
use meva_beta_alpha_codex.Oms.Submit.{
  OmsExternals, OmsSettings, OmsWorld, Handled, skipped_intent, applied, aborted,
}
use meva_beta_alpha_codex.Oms.Process.{process_intent}

module _ {L : Type 0} (x : OmsExternals L) (c : OmsSettings) where
  -- The end of one iteration, with what the iterations behind it give: an exception leaves the
  -- loop there.
  unfoldable pub collect :
      Handled
      → OmsWorld L
      → Option (List Stage7Order × List OrderEvent) × OmsWorld L
      → Option (List Stage7Order × List OrderEvent) × OmsWorld L
  collect aborted w later = (none, w)
  collect skipped_intent w later = later
  collect (applied order events) w (none, end) = (none, end)
  collect (applied order events) w (some (orders, all_events), end) =
      (some (order ∷ orders, events ++ all_events), end)

  -- The loop: the orders and events of the intents, `none` after an exception.
  unfoldable pub process_loop :
      (cycle_id now : ℕ) (cancel_requests : List ℕ)
      → List OrderIntent
      → OmsWorld L
      → Option (List Stage7Order × List OrderEvent) × OmsWorld L
  process_loop cycle_id now cancels [] w = (some ([], []), w)
  process_loop cycle_id now cancels (i ∷ rest) w =
      let (handled, w') = process_intent x c cycle_id now cancels i w in
      collect handled w' (process_loop cycle_id now cancels rest w')

  abbrev by_client_id : OrderIntent → OrderIntent → Bool
  by_client_id a b = leb a.client_order_id b.client_order_id

  -- Both tables in one transaction, unless an exception came.
  unfoldable pub commit :
      Option (List Stage7Order × List OrderEvent) × OmsWorld L
      → Option (List Stage7Order × List OrderEvent) × OmsWorld L
  commit (none, w) = (none, w)
  commit (some (orders, events), w) = (
    some (orders, events),
    record w { store = append_stage7_order_events events (upsert_stage7_orders orders w.store) },
  )

  -- `process_intents`: the intents in the order of their ids, then the tables.
  unfoldable pub process_intents :
      (cycle_id now : ℕ) (cancel_requests : List ℕ)
      → List OrderIntent
      → OmsWorld L
      → Option (List Stage7Order × List OrderEvent) × OmsWorld L
  process_intents cycle_id now cancels intents w =
      commit (process_loop cycle_id now cancels (sorted by_client_id intents) w)

  abbrev intent_of : ℕ → Stage7Order → OrderIntent
  intent_of cycle_id o = record {
    cycle_id = cycle_id;
    symbol = o.symbol;
    side = o.side;
    price_try = o.price_try;
    qty = o.qty;
    notional_try = o.price_try *ℤ o.qty;
    client_order_id = o.client_order_id;
    reason = 1;
    constraints_applied = 0;
    skipped = false;
  }

  unfoldable pub reconcile_open_orders :
      (cycle_id now : ℕ) → OmsWorld L → Option (List Stage7Order × List OrderEvent) × OmsWorld L
  reconcile_open_orders cycle_id now w =
      process_intents cycle_id now [] (map (intent_of cycle_id) (load_non_terminal_orders w.store))
        w
