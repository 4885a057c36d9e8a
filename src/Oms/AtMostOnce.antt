-- ===== src/Oms/AtMostOnce.antt =====
-- At most one intent of an order reaches the simulator, whatever is handled in between.
use meva_beta_alpha_codex.Base.{
  ℕ, ◌≡◌, refl, sym, subst, ◌∙◌, ◌⊎◌, inl, inr, Option, none, some, List, [], ◌∷◌, any, nat_beq,
  nat_beq_iff, if_intro, Option-cases, number_key, arith,
}
use meva_beta_alpha_codex.Base.Dict.{lookup, lookup-insert}
use meva_beta_alpha_codex.Oms.{is_terminal, Stage7Order, OrderEvent, Progress, append_event}
use meva_beta_alpha_codex.Oms.Store.{
  OmsStore, Registration, registered, duplicate, conflict, register_key,
  try_register_idempotency_key, upsert_stage7_orders, append_stage7_order_events, same_event_id,
}
use meva_beta_alpha_codex.Oms.Simulator.{OrderIntent}
use meva_beta_alpha_codex.Oms.Submit.{
  OmsExternals, OmsSettings, OmsWorld, Handled, skipped_intent, applied, aborted, submit,
}
use meva_beta_alpha_codex.Oms.Process.{
  after_register, register, throttle, initial_order, initial_progress, is_invalid,
  consume_and_register, process_intent,
}
use meva_beta_alpha_codex.Oms.Batch.{process_loop, process_intents, collect, commit}
use meva_beta_alpha_codex.Oms.Idempotency.{IsQuiet, process_intent_registered, rejecting, canceling}

-- `id` has the payload hash `hash` in the table of keys.
abbrev pub HasKey : ℕ → ℕ → OmsStore → Type 0
HasKey id hash s = lookup id s.idempotency ≡ some hash

register_key-HasKey :
    (key payload_hash id hash : ℕ) (s : OmsStore) (found : Option ℕ)
    → lookup key s.idempotency ≡ found
    → HasKey id hash s
    → HasKey id hash (register_key key payload_hash s found).1
unfolding register_key
register_key-HasKey key payload_hash id hash s (some existing) e h = h
register_key-HasKey key payload_hash id hash s none e h =
    ground (arith, nat_beq_iff id key, lookup-insert id key payload_hash s.idempotency)

register_key-own :
    (key payload_hash : ℕ) (s : OmsStore) (found : Option ℕ)
    → found ≡ none
    → HasKey key payload_hash (register_key key payload_hash s found).1
unfolding register_key
register_key-own key payload_hash s (some existing) e = ground arith
register_key-own key payload_hash s none e =
    ground (arith, nat_beq_iff key key, lookup-insert key key payload_hash s.idempotency)

upsert_stage7_orders-keys :
    (orders : List Stage7Order) (s : OmsStore)
    → (upsert_stage7_orders orders s).idempotency ≡ s.idempotency
unfolding upsert_stage7_orders
upsert_stage7_orders-keys [] s = refl
upsert_stage7_orders-keys (o ∷ rest) s = upsert_stage7_orders-keys rest _

append_stage7_order_events-keys :
    (events : List OrderEvent) (s : OmsStore)
    → (append_stage7_order_events events s).idempotency ≡ s.idempotency
unfolding append_stage7_order_events
append_stage7_order_events-keys [] s = refl
append_stage7_order_events-keys (e ∷ rest) s =
    append_stage7_order_events-keys rest _
    ∙ if_intro (λ (t : OmsStore). t.idempotency ≡ s.idempotency) (any (same_event_id e) s.events)
        (λ _. refl) (λ _. refl)

module _ {L : Type 0} (x : OmsExternals L) (c : OmsSettings) where
  after_register-store :
      (now : ℕ) (i : OrderIntent) (p : Progress) (r : Registration) (w : OmsWorld L)
      → (after_register x c now i p r w).1.store ≡ w.store
  unfolding after_register submit
  after_register-store now i p registered w = refl
  after_register-store now i p duplicate w = refl
  after_register-store now i p conflict w = refl

  -- The tables after one intent are those before, or those after the registration of its key.
  process_intent-store :
      (cycle_id now : ℕ) (cancels : List ℕ) (i : OrderIntent) (w : OmsWorld L)
      → let s = (process_intent x c cycle_id now cancels i w).1.store in
        (s ≡ w.store)
        ⊎ (s ≡ (try_register_idempotency_key i.client_order_id (x.make_intent_hash i) w.store).1)
  unfolding process_intent consume_and_register throttle register
  process_intent-store cycle_id now cancels i w =
      let p = initial_progress x c cycle_id now i w.store in
      let P : Handled × OmsWorld L → Type 0 = λ r.
        (r.1.store ≡ w.store)
        ⊎ (r.1.store
            ≡ (try_register_idempotency_key i.client_order_id (x.make_intent_hash i) w.store).1) in
      if_intro P i.skipped (λ _. inl refl)
        λ _.
          if_intro P (is_invalid x c i) (λ _. inl refl)
            λ _.
              if_intro P (any (nat_beq i.client_order_id) cancels) (λ _. inl refl)
                λ _.
                  if_intro P (is_terminal p.order.status) (λ _. inl refl)
                    λ _.
                      if_intro P (x.consume w.limiter).0
                        (λ _. inr (after_register-store now i p _ _)) λ _. inl refl

  -- A registered key keeps its hash.
  process_intent-HasKey :
      (cycle_id now : ℕ) (cancels : List ℕ) (i : OrderIntent) (w : OmsWorld L) (id hash : ℕ)
      → HasKey id hash w.store
      → HasKey id hash (process_intent x c cycle_id now cancels i w).1.store
  unfolding try_register_idempotency_key
  process_intent-HasKey cycle_id now cancels i w id hash h =
      elim (process_intent-store cycle_id now cancels i w) [
        | inl e ↦ subst (HasKey id hash) (sym e) h
        | inr e ↦
            subst (HasKey id hash) (sym e) (
              register_key-HasKey i.client_order_id (x.make_intent_hash i) id hash w.store _ refl h)
      ]

  collect-store :
      (P : OmsStore → Type 0) (handled : Handled) (w : OmsWorld L)
      (later : Option (List Stage7Order × List OrderEvent) × OmsWorld L)
      → P w.store
      → P later.1.store
      → P (collect x c handled w later).1.store
  unfolding collect
  collect-store P aborted w later a b = a
  collect-store P skipped_intent w later a b = b
  collect-store P (applied order events) w (none, end) a b = b
  collect-store P (applied order events) w (some (orders, all_events), end) a b = b

  process_loop-HasKey :
      (cycle_id now : ℕ) (cancels : List ℕ) (intents : List OrderIntent) (w : OmsWorld L)
      (id hash : ℕ)
      → HasKey id hash w.store
      → HasKey id hash (process_loop x c cycle_id now cancels intents w).1.store
  unfolding process_loop
  process_loop-HasKey cycle_id now cancels [] w id hash h = h
  process_loop-HasKey cycle_id now cancels (i ∷ rest) w id hash h =
      let next = process_intent-HasKey cycle_id now cancels i w id hash h in
      collect-store (HasKey id hash) (process_intent x c cycle_id now cancels i w).0 _
        (process_loop x c cycle_id now cancels rest _) next
        (process_loop-HasKey cycle_id now cancels rest _ id hash next)

  commit-HasKey :
      (id hash : ℕ) (r : Option (List Stage7Order × List OrderEvent) × OmsWorld L)
      → HasKey id hash r.1.store
      → HasKey id hash (commit x c r).1.store
  unfolding commit
  commit-HasKey id hash (none, w) h = h
  commit-HasKey id hash (some (orders, events), w) h =
      rw
        (
          append_stage7_order_events-keys events (upsert_stage7_orders orders w.store),
          upsert_stage7_orders-keys orders w.store,
        )
        h

  process_intents-HasKey :
      (cycle_id now : ℕ) (cancels : List ℕ) (intents : List OrderIntent) (w : OmsWorld L)
      (id hash : ℕ)
      → HasKey id hash w.store
      → HasKey id hash (process_intents x c cycle_id now cancels intents w).1.store
  unfolding process_intents
  process_intents-HasKey cycle_id now cancels intents w id hash h =
      commit-HasKey id hash _ (process_loop-HasKey cycle_id now cancels _ w id hash h)

  -- An intent leaves its order unsubmitted and the tables alone, or its key is registered.
  process_intent-own :
      (cycle_id now : ℕ) (cancels : List ℕ) (i : OrderIntent) (w : OmsWorld L)
      → IsQuiet w
          (initial_order x c cycle_id now i w.store).status
          (process_intent x c cycle_id now cancels i w)
        ⊎ HasKey i.client_order_id
            (x.make_intent_hash i)
            (process_intent x c cycle_id now cancels i w).1.store
  unfolding process_intent consume_and_register throttle register try_register_idempotency_key
      append_event
  process_intent-own cycle_id now cancels i w =
      let p = initial_progress x c cycle_id now i w.store in
      let P : Handled × OmsWorld L → Type 0 = λ r.
        IsQuiet w p.order.status r ⊎ HasKey i.client_order_id (x.make_intent_hash i) r.1.store in
      elim (Option-cases (lookup i.client_order_id w.store.idempotency)) [
        | inr (hash, e) ↦ inl (process_intent_registered x c cycle_id now cancels i w hash e)
        | inl e ↦
            if_intro P i.skipped (λ _. inl (refl, refl, tt))
              λ _.
                if_intro P (is_invalid x c i) (λ _. inl (refl, refl, rejecting now _ p))
                  λ _.
                    if_intro P (any (nat_beq i.client_order_id) cancels)
                      (λ _. inl (refl, refl, canceling now _ p))
                      λ _.
                        if_intro P (is_terminal p.order.status) (λ _. inl (refl, refl, inl refl))
                          λ _.
                            if_intro P (x.consume w.limiter).0
                              (λ _. inr (
                                subst (HasKey i.client_order_id (x.make_intent_hash i))
                                  (sym (after_register-store now i p _ _))
                                  (register_key-own i.client_order_id (x.make_intent_hash i) w.store
                                    _ e)))
                              λ _. inl (refl, refl, inl refl)
      ]

  -- Of two intents with one client order id, with any run of `process_intents` in between, one at
  -- least leaves its order unsubmitted, that is in its status, rejected or cancelled, and touches
  -- neither the tables nor the simulator.
  pub at_most_once :
      (cycle_id now : ℕ) (cancels : List ℕ) (i : OrderIntent) (w : OmsWorld L)
      (between_cycle between_now : ℕ) (between_cancels : List ℕ) (between : List OrderIntent)
      (later_cycle later_now : ℕ) (later_cancels : List ℕ) (j : OrderIntent)
      → j.client_order_id ≡ i.client_order_id
      → let first = process_intent x c cycle_id now cancels i w in
        let w' =
          (process_intents x c between_cycle between_now between_cancels between first.1).1 in
        IsQuiet w (initial_order x c cycle_id now i w.store).status first
        ⊎ IsQuiet w'
            (initial_order x c later_cycle later_now j w'.store).status
            (process_intent x c later_cycle later_now later_cancels j w')
  at_most_once cycle_id now cancels i w cycle' now' cancels' between cycle'' now'' cancels'' j e =
      elim (process_intent-own cycle_id now cancels i w) [
        | inl quiet ↦ inl quiet
        | inr key ↦
            let hash = x.make_intent_hash i in
            let w₁ = (process_intent x c cycle_id now cancels i w).1 in
            let w₂ = (process_intents x c cycle' now' cancels' between w₁).1 in
            let kept =
              process_intents-HasKey cycle' now' cancels' between w₁ i.client_order_id hash key in
            inr (
              process_intent_registered x c cycle'' now'' cancels'' j w₂ hash
                (subst (λ id. HasKey id hash w₂.store) (sym e) kept))
      ]
