-- ===== src/Oms/Process.antt =====
-- The body of the loop of `OMSService.process_intents`, services/oms_service.py: one intent.
use meva_beta_alpha_codex.Base.{
  ℕ, ◌+◌, Bool, false, ◌||◌, none, List, [], any, map, nat_beq, if◌then◌else◌, get_or, length,
  number_key,
}
use meva_beta_alpha_codex.Base.Int.{pos, leb_ℤ}
use meva_beta_alpha_codex.Oms.{
  planned, is_terminal, rejected_event, canceled_event, duplicate_ignored, throttled,
  idempotency_conflict, invalid_price_or_qty, cancel_requested, terminal_order, duplicate_key,
  conflict_key, conflict_reason, next_eligible, Stage7Order, plain, Progress, append_event,
  transition,
}
use meva_beta_alpha_codex.Oms.Store.{
  OmsStore, order_by_client_id, events_by_client_id, Registration, registered, duplicate, conflict,
  try_register_idempotency_key,
}
use meva_beta_alpha_codex.Oms.Simulator.{OrderIntent, has_bad_amount}
use meva_beta_alpha_codex.Oms.Submit.{
  OmsExternals, OmsSettings, OmsWorld, Handled, finish, submit, skipped_intent,
}

module _ {L : Type 0} (x : OmsExternals L) (c : OmsSettings) where
  -- What follows the registration of the idempotency key.
  unfoldable pub after_register :
      ℕ → OrderIntent → Progress → Registration → OmsWorld L → Handled × OmsWorld L
  after_register now i p conflict w = (
    finish (
        transition false now (plain rejected_event (conflict_reason i.client_order_id))
          (append_event now idempotency_conflict (conflict_key i.client_order_id) p)),
    w,
  )
  after_register now i p duplicate w =
      (finish (append_event now duplicate_ignored (duplicate_key i.client_order_id) p), w)
  after_register now i p registered w = submit x c now i p w

  unfoldable pub register : ℕ → OrderIntent → Progress → OmsWorld L → Handled × OmsWorld L
  register now i p w =
      let (r, store) =
        try_register_idempotency_key i.client_order_id (x.make_intent_hash i) w.store in
      after_register now i p r (record w { store = store })

  unfoldable pub throttle : ℕ → OrderIntent → Progress → OmsWorld L → Handled × OmsWorld L
  throttle now i p w =
      let (wait, limiter) = x.seconds_until_available w.limiter in
      (
        finish (append_event now throttled (next_eligible (now + wait)) p),
        record w { limiter = limiter },
      )

  -- The order to begin with: the stored one, or a planned one.
  abbrev pub initial_order : ℕ → ℕ → OrderIntent → OmsStore → Stage7Order
  initial_order cycle_id now i store =
      get_or
        (record {
          client_order_id = i.client_order_id;
          cycle_id = cycle_id;
          symbol = i.symbol;
          side = i.side;
          price_try = i.price_try;
          qty = i.qty;
          filled_qty = pos 0;
          avg_fill_price_try = none;
          status = planned;
          last_update = now;
          intent_hash = x.make_intent_hash i;
        })
        (order_by_client_id i.client_order_id store)

  abbrev pub initial_progress : ℕ → ℕ → OrderIntent → OmsStore → Progress
  initial_progress cycle_id now i store =
      let existing = events_by_client_id i.client_order_id store in
      record {
        order = initial_order cycle_id now i store;
        events = [];
        types = map (λ e. e.event_type) existing;
        seq = length existing;
      }

  abbrev pub is_invalid : OrderIntent → Bool
  is_invalid i = has_bad_amount i || leb_ℤ i.notional_try (pos 0)

  -- An intent that is valid, not cancelled and whose order may go on.
  unfoldable pub consume_and_register :
      ℕ → OrderIntent → Progress → OmsWorld L → Handled × OmsWorld L
  consume_and_register now i p w =
      let (free, limiter) = x.consume w.limiter in
      let w' = record w { limiter = limiter } in
      if free then register now i p w' else throttle now i p w'

  -- The body of the loop over the intents.
  unfoldable pub process_intent :
      (cycle_id now : ℕ) (cancel_requests : List ℕ)
      → OrderIntent
      → OmsWorld L
      → Handled × OmsWorld L
  process_intent cycle_id now cancels i w =
      let p = initial_progress cycle_id now i w.store in
      if i.skipped
      then (skipped_intent, w)
      else if is_invalid i
      then (finish (transition false now (plain rejected_event invalid_price_or_qty) p), w)
      else if any (nat_beq i.client_order_id) cancels
      then (finish (transition false now (plain canceled_event cancel_requested) p), w)
      else if is_terminal p.order.status
      then (finish (append_event now duplicate_ignored (terminal_order i.client_order_id) p), w)
      else consume_and_register now i p w
