-- ===== src/Oms/Submit.antt =====
-- One submit of `OMSService.process_intents`, services/oms_service.py: the retries, the
-- acknowledgement and the fills.
use meva_beta_alpha_codex.Base.{
  ℕ, Bool, true, false, none, some, List, [], ◌∷◌, if◌then◌else◌, number_key,
}
use meva_beta_alpha_codex.Base.Int.{ℤ, pos, ◌+ℤ◌, ◌-ℤ◌}
use meva_beta_alpha_codex.Base.Dict.{Dict}
use meva_beta_alpha_codex.Retry.{
  RetryAttempt, Retried, returned, raised, bad_arguments, exhausted_unexpectedly, RetrySettings,
  retry_with_backoff,
}
use meva_beta_alpha_codex.Oms.{
  partially_filled, filled, submit_requested, acked_event, rejected_event, partial_fill,
  filled_event, retry_scheduled, retry_giveup, SubmitError, rate_limit_error, network_timeout,
  temporary_unavailable, non_retryable_error, sim_reject, transient_failure_exhausted,
  scheduled_retry, submission, fill, Stage7Order, OrderEvent, plain, Transition, Progress,
  append_event, transition,
}
use meva_beta_alpha_codex.Oms.Store.{OmsStore}
use meva_beta_alpha_codex.Oms.Simulator.{
  OrderIntent, Failures, SimulatorSettings, should_reject, maybe_raise_submit_error, fill_slices,
}

-- What the service is given: the rate limiter's two calls on its state, the hash of an intent, the
-- number at the end of an id, and the draws of the retry jitter.
pub record OmsExternals (L : Type 0) : Type 0 where
  pub consume : L → Bool × L
  pub seconds_until_available : L → ℕ × L
  pub make_intent_hash : OrderIntent → ℕ
  pub hex_suffix : ℕ → ℕ
  pub jitter : ℕ → ℕ → ℕ

pub record OmsSettings : Type 0 where
  pub simulator : SimulatorSettings
  pub retry : RetrySettings
  pub mark_prices_try : Dict ℕ ℤ

-- What one call of `process_intents` changes: the tables, the simulator's queues, the limiter.
pub record OmsWorld (L : Type 0) : Type 0 where
  pub store : OmsStore
  pub failures : Failures
  pub limiter : L

-- How the handling of an intent ends: it is skipped, it appends an order and events, or an exception
-- leaves `process_intents`.
pub data Handled : Type 0 where
  skipped_intent : Handled
  applied : Stage7Order → List OrderEvent → Handled
  aborted : Handled

abbrev pub finish : Progress → Handled
finish p = applied p.order p.events

abbrev pub is_transient : SubmitError → Bool
is_transient rate_limit_error = true
is_transient network_timeout = true
is_transient temporary_unavailable = true
is_transient non_retryable_error = false

-- The events of the retries, in order.
unfoldable pub log_retries : ℕ → List (RetryAttempt SubmitError) → Progress → Progress
log_retries now [] p = p
log_retries now (a ∷ rest) p =
    log_retries now rest (append_event now retry_scheduled (scheduled_retry a) p)

-- The last fill price of the slices, 0 if there were none.
abbrev pub last_price : List (ℤ × ℤ) → ℤ
last_price [] = pos 0
last_price ((_, price) ∷ []) = price
last_price (_ ∷ next ∷ rest) = last_price (next ∷ rest)

abbrev pub total_qty : List (ℤ × ℤ) → ℤ
total_qty [] = pos 0
total_qty ((qty, _) ∷ rest) = qty +ℤ total_qty rest

abbrev pub partial_transition : ℤ × ℤ → Transition
partial_transition (qty, price) = record {
  event_type = partial_fill;
  payload = fill qty price;
  fill_qty = qty;
  fill_price = some price;
  target_status = some partially_filled;
}

-- The partial fill, where there is more than one slice.
unfoldable pub first_fill : ℕ → List (ℤ × ℤ) → Progress → Progress
first_fill now [] p = p
first_fill now (_ ∷ []) p = p
first_fill now (first ∷ _ ∷ _) p = transition true now (partial_transition first) p

-- The final fill brings the filled quantity to the sum of the slices.
abbrev pub final_transition : List (ℤ × ℤ) → Progress → Transition
final_transition slices p = record {
  event_type = filled_event;
  payload = fill (total_qty slices) (last_price slices);
  fill_qty = total_qty slices -ℤ p.order.filled_qty;
  fill_price = some (last_price slices);
  target_status = some filled;
}

unfoldable pub final_fill : ℕ → List (ℤ × ℤ) → Progress → Progress
final_fill now slices p = transition false now (final_transition slices p) p

-- A successful submit: SUBMIT_REQUESTED and ACKED.
unfoldable pub acknowledge : ℕ → Progress → Progress
acknowledge now p =
    let info = submission p.order.symbol p.order.side in
    transition true now (plain acked_event info)
      (transition true now (plain submit_requested info) p)

module _ {L : Type 0} (x : OmsExternals L) (c : OmsSettings) where
  -- Everything behind a submit that went through.
  unfoldable pub after_submit : ℕ → OrderIntent → Progress → Progress
  after_submit now i p =
      if should_reject x.hex_suffix c.simulator i
      then transition false now (plain rejected_event sim_reject) (acknowledge now p)
      else (let slices = fill_slices x.hex_suffix c.simulator c.mark_prices_try i in
          final_fill now slices (first_fill now slices (acknowledge now p)))

  -- The end of the retries: exceptions that are not transient leave the function.
  unfoldable pub after_retries :
      ℕ
      → OrderIntent
      → Progress
      → List (RetryAttempt SubmitError)
      → Retried (Unit {0}) SubmitError
      → Handled
  after_retries now i p retries (returned _) =
      finish (after_submit now i (log_retries now retries p))
  after_retries now i p retries (raised e) =
      if is_transient e
      then finish
          (append_event now retry_giveup transient_failure_exhausted (log_retries now retries p))
      else aborted
  after_retries now i p retries bad_arguments = aborted
  after_retries now i p retries exhausted_unexpectedly = aborted

  unfoldable pub submit : ℕ → OrderIntent → Progress → OmsWorld L → Handled × OmsWorld L
  submit now i p w =
      let run =
        retry_with_backoff (maybe_raise_submit_error i.client_order_id) is_transient (λ _. none)
          x.jitter (record c.retry { max_total_sleep_ms = none }) w.failures in
      (after_retries now i p run.retries run.outcome, record w { failures = run.state.inner })
