-- ===== src/Oms/Idempotency.antt =====
-- An order is submitted at most once: its idempotency key is registered before the first submit, and
-- a registered key keeps the simulator from being called again.
use meva_beta_alpha_codex.Base.{
  ℕ, subst, ap, ◌≡◌, ◌≢◌, refl, sym, false, ◌⊎◌, some, List, any, nat_beq, if◌then◌else◌, if_intro,
  inl, arith, number_key,
}
use meva_beta_alpha_codex.Base.Dict.{lookup}
use meva_beta_alpha_codex.Oms.{
  OrderStatus, rejected, canceled, is_terminal, Progress, Payload, rejected_event, canceled_event,
  plain, append_event, transition, take_result, transition_once, moved,
}
use meva_beta_alpha_codex.Oms.Store.{
  OmsStore, Registration, registered, duplicate, conflict, register_key,
  try_register_idempotency_key,
}
use meva_beta_alpha_codex.Oms.Simulator.{OrderIntent}
use meva_beta_alpha_codex.Oms.Submit.{
  OmsExternals, OmsSettings, OmsWorld, Handled, skipped_intent, applied, aborted, finish,
}
use meva_beta_alpha_codex.Oms.Process.{
  after_register, register, throttle, initial_order, initial_progress, is_invalid,
  consume_and_register, process_intent,
}

-- The order did not go on: it kept its status, or was rejected or cancelled.
abbrev pub IsUnsubmitted : OrderStatus → Handled → Type 0
IsUnsubmitted s skipped_intent = Unit {0}
IsUnsubmitted s aborted = ⊥
IsUnsubmitted s (applied order events) =
    (order.status ≡ s) ⊎ ((order.status ≡ rejected) ⊎ (order.status ≡ canceled))

module _ {L : Type 0} where
  -- Neither the simulator nor the tables were touched, and the order did not go on.
  abbrev pub IsQuiet : OmsWorld L → OrderStatus → Handled × OmsWorld L → Type 0
  IsQuiet w s (handled, w') =
      (w'.failures ≡ w.failures) × (w'.store ≡ w.store) × IsUnsubmitted s handled

  -- The key of `id` is registered at the end.
  abbrev pub IsRegistered : ℕ → ℕ → Handled × OmsWorld L → Type 0
  IsRegistered id hash (handled, w') = lookup id w'.store.idempotency ≡ some hash

pub rejecting :
    (now : ℕ) (payload : Payload) (p : Progress)
    → IsUnsubmitted p.order.status (finish (transition false now (plain rejected_event payload) p))
unfolding transition transition_once take_result moved
rejecting now payload p = ground arith

pub canceling :
    (now : ℕ) (payload : Payload) (p : Progress)
    → IsUnsubmitted p.order.status (finish (transition false now (plain canceled_event payload) p))
unfolding transition transition_once take_result moved
canceling now payload p = ground arith

module _ {L : Type 0} (x : OmsExternals L) (c : OmsSettings) where
  after_conflict :
      (now : ℕ) (i : OrderIntent) (p : Progress) (r : Registration) (w : OmsWorld L)
      → r ≢ registered
      → IsQuiet w p.order.status (after_register x c now i p r w)
  unfolding after_register append_event
  after_conflict now i p conflict w other = (refl, refl, rejecting now _ _)
  after_conflict now i p duplicate w other = (refl, refl, inl refl)
  after_conflict now i p registered w other = absurd (other refl)

  again :
      (key payload_hash : ℕ) (s : OmsStore) (hash : ℕ)
      → lookup key s.idempotency ≡ some hash
      → try_register_idempotency_key key payload_hash s
        ≡ (if nat_beq hash payload_hash then duplicate else conflict, s)
  unfolding try_register_idempotency_key
  again key payload_hash s hash e = ap (register_key key payload_hash s) e

  register_again :
      (now : ℕ) (i : OrderIntent) (p : Progress) (w : OmsWorld L) (hash : ℕ)
      → lookup i.client_order_id w.store.idempotency ≡ some hash
      → IsQuiet w p.order.status (register x c now i p w)
  unfolding register
  register_again now i p w hash e =
      let P : Registration × OmsStore → Type 0 =
        λ r. IsQuiet w p.order.status (after_register x c now i p r.0 (record w { store = r.1 })) in
      subst P (sym (again i.client_order_id (x.make_intent_hash i) w.store hash e)) (
        if_intro (λ r. P (r, w.store)) (nat_beq hash (x.make_intent_hash i))
          (λ _. after_conflict now i p duplicate w (λ h. ground arith))
          λ _. after_conflict now i p conflict w (λ h. ground arith))

  -- While the key of its order is registered, the handling of an intent calls no simulator, changes
  -- no table, and leaves the order in its status, rejected or cancelled.
  pub process_intent_registered :
      (cycle_id now : ℕ) (cancels : List ℕ) (i : OrderIntent) (w : OmsWorld L) (hash : ℕ)
      → lookup i.client_order_id w.store.idempotency ≡ some hash
      → IsQuiet w
          (initial_order x c cycle_id now i w.store).status
          (process_intent x c cycle_id now cancels i w)
  unfolding process_intent consume_and_register throttle append_event
  process_intent_registered cycle_id now cancels i w hash e =
      let p = initial_progress x c cycle_id now i w.store in
      let P = IsQuiet w p.order.status in
      if_intro P i.skipped (λ _. (refl, refl, tt))
        λ _.
          if_intro P (is_invalid x c i) (λ _. (refl, refl, rejecting now _ p))
            λ _.
              if_intro P (any (nat_beq i.client_order_id) cancels)
                (λ _. (refl, refl, canceling now _ p))
                λ _.
                  if_intro P (is_terminal p.order.status) (λ _. (refl, refl, inl refl))
                    λ _.
                      if_intro P (x.consume w.limiter).0
                        (λ _.
                          register_again now i p (record w { limiter = (x.consume w.limiter).1 })
                            hash e)
                        λ _. (refl, refl, inl refl)
