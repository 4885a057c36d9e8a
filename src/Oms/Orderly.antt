-- ===== src/Oms/Orderly.antt =====
-- Every operation of the OMS keeps to the state machine and numbers its events without a gap.
use meva_beta_alpha_codex.Base.{
  ℕ, ◌≡◌, true, false, some, List, [], ◌∷◌, length, any, nat_beq, if_intro, Option-cases, inl, inr,
  arith, number_key,
}
use meva_beta_alpha_codex.Base.Int.{ℤ}
use meva_beta_alpha_codex.Base.Dict.{lookup}
use meva_beta_alpha_codex.Retry.{
  RetryAttempt, Retried, returned, raised, bad_arguments, exhausted_unexpectedly,
}
use meva_beta_alpha_codex.Oms.{OrderStatus, is_terminal, SubmitError, Stage7Order, Progress}
use meva_beta_alpha_codex.Oms.Store.{
  OmsStore, events_by_client_id, Registration, registered, duplicate, conflict,
}
use meva_beta_alpha_codex.Oms.Simulator.{OrderIntent, should_reject, fill_slices}
use meva_beta_alpha_codex.Oms.Submit.{
  OmsExternals, OmsSettings, OmsWorld, Handled, skipped_intent, applied, aborted, finish,
  is_transient, log_retries, first_fill, final_fill, acknowledge, after_submit, after_retries,
  submit,
}
use meva_beta_alpha_codex.Oms.Process.{
  after_register, register, throttle, initial_order, initial_progress, is_invalid,
  consume_and_register, process_intent,
}
use meva_beta_alpha_codex.Oms.States.{
  StatusPath, stay, Numbered, IsOrderly, append_event-IsOrderly, transition-IsOrderly,
}

-- An order that comes out of the handling, with its events; the other ends leave none.
abbrev pub IsOrderlyEnd : ℕ → ℕ → OrderStatus → Handled → Type 0
IsOrderlyEnd id n s skipped_intent = Unit {0}
IsOrderlyEnd id n s aborted = Unit {0}
IsOrderlyEnd id n s (applied order events) =
    StatusPath s order.status × (order.client_order_id ≡ id) × Numbered id n events

module _ (id n : ℕ) (s : OrderStatus) where
  finish-IsOrderly : (p : Progress) → IsOrderly id n s p → IsOrderlyEnd id n s (finish p)
  finish-IsOrderly p h = (h.path, h.own, h.numbered)

  log_retries-IsOrderly :
      (now : ℕ) (retries : List (RetryAttempt SubmitError)) (p : Progress)
      → IsOrderly id n s p
      → IsOrderly id n s (log_retries now retries p)
  unfolding log_retries
  log_retries-IsOrderly now [] p h = h
  log_retries-IsOrderly now (a ∷ rest) p h =
      log_retries-IsOrderly now rest _ (append_event-IsOrderly id n s now _ _ p h)

  first_fill-IsOrderly :
      (now : ℕ) (slices : List (ℤ × ℤ)) (p : Progress)
      → IsOrderly id n s p
      → IsOrderly id n s (first_fill now slices p)
  unfolding first_fill
  first_fill-IsOrderly now [] p h = h
  first_fill-IsOrderly now (_ ∷ []) p h = h
  first_fill-IsOrderly now (_ ∷ _ ∷ _) p h = transition-IsOrderly id n s true now _ p h

  final_fill-IsOrderly :
      (now : ℕ) (slices : List (ℤ × ℤ)) (p : Progress)
      → IsOrderly id n s p
      → IsOrderly id n s (final_fill now slices p)
  unfolding final_fill
  final_fill-IsOrderly now slices p h = transition-IsOrderly id n s false now _ p h

  acknowledge-IsOrderly :
      (now : ℕ) (p : Progress) → IsOrderly id n s p → IsOrderly id n s (acknowledge now p)
  unfolding acknowledge
  acknowledge-IsOrderly now p h =
      transition-IsOrderly id n s true now _ _ (transition-IsOrderly id n s true now _ p h)

  module _ {L : Type 0} (x : OmsExternals L) (c : OmsSettings) where
    after_submit-IsOrderly :
        (now : ℕ) (i : OrderIntent) (p : Progress)
        → IsOrderly id n s p
        → IsOrderly id n s (after_submit x c now i p)
    unfolding after_submit
    after_submit-IsOrderly now i p h =
        let slices = fill_slices x.hex_suffix c.simulator c.mark_prices_try i in
        let ready = acknowledge-IsOrderly now p h in
        if_intro (IsOrderly id n s) (should_reject x.hex_suffix c.simulator i)
          (λ _. transition-IsOrderly id n s false now _ _ ready)
          λ _. final_fill-IsOrderly now slices _ (first_fill-IsOrderly now slices _ ready)

    after_retries-IsOrderly :
        (now : ℕ) (i : OrderIntent) (p : Progress) (retries : List (RetryAttempt SubmitError))
        (r : Retried (Unit {0}) SubmitError)
        → IsOrderly id n s p
        → IsOrderlyEnd id n s (after_retries x c now i p retries r)
    unfolding after_retries
    after_retries-IsOrderly now i p retries (returned _) h =
        finish-IsOrderly _ (after_submit-IsOrderly now i _ (log_retries-IsOrderly now retries p h))
    after_retries-IsOrderly now i p retries (raised e) h =
        if_intro (IsOrderlyEnd id n s) (is_transient e)
          (λ _.
            finish-IsOrderly _
              (append_event-IsOrderly id n s now _ _ _ (log_retries-IsOrderly now retries p h)))
          λ _. tt
    after_retries-IsOrderly now i p retries bad_arguments h = tt
    after_retries-IsOrderly now i p retries exhausted_unexpectedly h = tt

    after_register-IsOrderly :
        (now : ℕ) (i : OrderIntent) (p : Progress) (r : Registration) (w : OmsWorld L)
        → IsOrderly id n s p
        → IsOrderlyEnd id n s (after_register x c now i p r w).0
    unfolding after_register submit
    after_register-IsOrderly now i p conflict w h =
        finish-IsOrderly _
          (transition-IsOrderly id n s false now _ _ (append_event-IsOrderly id n s now _ _ p h))
    after_register-IsOrderly now i p duplicate w h =
        finish-IsOrderly _ (append_event-IsOrderly id n s now _ _ p h)
    after_register-IsOrderly now i p registered w h = after_retries-IsOrderly now i p _ _ h

    consume_and_register-IsOrderly :
        (now : ℕ) (i : OrderIntent) (p : Progress) (w : OmsWorld L)
        → IsOrderly id n s p
        → IsOrderlyEnd id n s (consume_and_register x c now i p w).0
    unfolding consume_and_register register throttle
    consume_and_register-IsOrderly now i p w h =
        if_intro (λ (r : Handled × OmsWorld L). IsOrderlyEnd id n s r.0) (x.consume w.limiter).0
          (λ _. after_register-IsOrderly now i p _ _ h)
          λ _. finish-IsOrderly _ (append_event-IsOrderly id n s now _ _ p h)

-- The orders of a store are filed under their own ids.
abbrev pub IsFiled : OmsStore → Type 0
IsFiled s = (id : ℕ) (o : Stage7Order) → lookup id s.orders ≡ some o → o.client_order_id ≡ id

module _ {L : Type 0} (x : OmsExternals L) (c : OmsSettings) where
  initial_order-own :
      (cycle_id now : ℕ) (i : OrderIntent) (store : OmsStore)
      → IsFiled store
      → (initial_order x c cycle_id now i store).client_order_id ≡ i.client_order_id
  initial_order-own cycle_id now i store filed =
      elim (Option-cases (lookup i.client_order_id store.orders)) [
        | inl e ↦ rw e
        | inr (o, e) ↦ rw e (filed i.client_order_id o e)
      ]

  -- On a store that files its orders under their own ids, the handling of an intent takes the order
  -- along a chain of allowed transitions only, and numbers the events that it appends without a gap
  -- from the number of events stored for the order, each under the order's id.
  pub process_intent-IsOrderly :
      (cycle_id now : ℕ) (cancels : List ℕ) (i : OrderIntent) (w : OmsWorld L)
      → IsFiled w.store
      → IsOrderlyEnd i.client_order_id
          (length (events_by_client_id i.client_order_id w.store))
          (initial_order x c cycle_id now i w.store).status
          (process_intent x c cycle_id now cancels i w).0
  unfolding process_intent
  process_intent-IsOrderly cycle_id now cancels i w filed =
      let id = i.client_order_id in
      let p = initial_progress x c cycle_id now i w.store in
      let n = length (events_by_client_id id w.store) in
      let s = (initial_order x c cycle_id now i w.store).status in
      let P : Handled × OmsWorld L → Type 0 = λ r. IsOrderlyEnd id n s r.0 in
      let h : IsOrderly id n s p = record {
        path = stay;
        own = initial_order-own cycle_id now i w.store filed;
        numbered = tt;
        counted = omega arith;
      } in
      if_intro P i.skipped (λ _. tt)
        λ _.
          if_intro P (is_invalid x c i)
            (λ _. finish-IsOrderly id n s _ (transition-IsOrderly id n s false now _ p h))
            λ _.
              if_intro P (any (nat_beq id) cancels)
                (λ _. finish-IsOrderly id n s _ (transition-IsOrderly id n s false now _ p h))
                λ _.
                  if_intro P (is_terminal p.order.status)
                    (λ _. finish-IsOrderly id n s _ (append_event-IsOrderly id n s now _ _ p h))
                    λ _. consume_and_register-IsOrderly id n s x c now i p w h
