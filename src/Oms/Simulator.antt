-- ===== src/Oms/Simulator.antt =====
-- `Stage7MarketSimulator` of services/oms_service.py and the intents of domain/order_intent.py.
-- A fill price is a whole number of 10^-16, so that the slippage of a price is exact; the basis
-- points of slippage are whole numbers of 10^-4, those of the reject rate whole.
-- The parameter `hex_suffix` is `int(client_order_id[-4:], 16)` of a non-empty id that ends in
-- hexadecimal digits. For another id the code raises a `ValueError` there, which is not modelled.
use meva_beta_alpha_codex.Base.{
  ℕ, zero, suc, ◌%◌, Bool, true, false, ◌&&◌, ◌||◌, none, some, List, [], ◌∷◌, nat_beq,
  if◌then◌else◌, get_or, number_key,
}
use meva_beta_alpha_codex.Base.Int.{ℤ, pos, ◌+ℤ◌, ◌-ℤ◌, ◌*ℤ◌, ltb_ℤ, leb_ℤ, min_ℤ, max_ℤ, trunc_div}
use meva_beta_alpha_codex.Base.Dict.{Dict, lookup, insert}
use meva_beta_alpha_codex.Stage4.{Side, buy, sell}
use meva_beta_alpha_codex.Retry.{CallResult, done, fails}
use meva_beta_alpha_codex.Oms.{
  SubmitError, rate_limit_error, network_timeout, temporary_unavailable, non_retryable_error,
}

-- The number 1 stands for the reason "reconcile", and 0 for empty constraints.
pub record OrderIntent : Type 0 where
  pub cycle_id : ℕ
  pub symbol : ℕ
  pub side : Side
  pub price_try : ℤ
  pub qty : ℤ
  pub notional_try : ℤ
  pub client_order_id : ℕ
  pub reason : ℕ
  pub constraints_applied : ℕ
  pub skipped : Bool

-- The tokens that a simulated failure is written as; any other string raises nothing.
pub data FailureToken : Type 0 where
  rate_limit timeout unavailable non_retryable other_token : FailureToken

abbrev pub Failures : Type 0
Failures = Dict ℕ (List FailureToken)

pub record SimulatorSettings : Type 0 where
  pub stage7_sim_reject_prob_bps : ℤ
  pub stage7_slippage_bps : ℤ

-- A price or a quantity that is not positive.
abbrev pub has_bad_amount : OrderIntent → Bool
has_bad_amount i = leb_ℤ i.qty (pos 0) || leb_ℤ i.price_try (pos 0)

-- The last four hexadecimal digits of the id, 0 for an empty id.
abbrev bucket : (ℕ → ℕ) → ℕ → ℕ
bucket hex_suffix zero = 0
bucket hex_suffix (suc id) = hex_suffix (suc id) % 10000

unfoldable pub should_reject : (ℕ → ℕ) → SimulatorSettings → OrderIntent → Bool
should_reject hex_suffix c i =
    if has_bad_amount i
    then true
    else if leb_ℤ c.stage7_sim_reject_prob_bps (pos 0)
    then false
    else ltb_ℤ (pos (bucket hex_suffix i.client_order_id)) c.stage7_sim_reject_prob_bps

abbrev token_result : FailureToken → CallResult (Unit {0}) SubmitError
token_result rate_limit = fails rate_limit_error
token_result timeout = fails network_timeout
token_result unavailable = fails temporary_unavailable
token_result non_retryable = fails non_retryable_error
token_result other_token = done tt

-- One call takes the first token of the id's queue.
unfoldable pub maybe_raise_submit_error :
    ℕ → Failures → CallResult (Unit {0}) SubmitError × Failures
maybe_raise_submit_error id failures = elim (lookup id failures) [
  | none ↦ (done tt, failures)
  | some [] ↦ (done tt, failures)
  | some (token ∷ rest) ↦ (token_result token, insert id rest failures)
]

-- The price with the slippage applied against the order.
abbrev applied_price : SimulatorSettings → Side → ℤ → ℤ
applied_price c buy baseline = baseline *ℤ (pos 100000000 +ℤ c.stage7_slippage_bps)
applied_price c sell baseline = baseline *ℤ (pos 100000000 -ℤ c.stage7_slippage_bps)

-- Whether the last digit of the id is even; an empty id is no candidate.
abbrev partial_candidate : (ℕ → ℕ) → ℕ → Bool
partial_candidate hex_suffix zero = false
partial_candidate hex_suffix (suc id) = nat_beq (hex_suffix (suc id) % 2) 0

-- 0.6 of the quantity, rounded to 8 decimals (fifths never tie), within 0 and the quantity.
abbrev first_slice : ℤ → ℤ
first_slice qty = max_ℤ (pos 0) (min_ℤ (trunc_div (qty *ℤ pos 6 +ℤ pos 5) 10) qty)

-- The slices, by whether the fill is split and whether both parts are positive.
abbrev pub slices_of : (splits both : Bool) (qty first second price : ℤ) → List (ℤ × ℤ)
slices_of true true qty first second price = (first, price) ∷ (second, price) ∷ []
slices_of true false qty first second price = (qty, price) ∷ []
slices_of false both qty first second price = (qty, price) ∷ []

-- Quantities and prices of the fills: two slices for an even id and a quantity above 0.0001.
unfoldable pub fill_slices :
    (ℕ → ℕ) → SimulatorSettings → (mark_prices_try : Dict ℕ ℤ) → OrderIntent → List (ℤ × ℤ)
fill_slices hex_suffix c marks i =
    let price = applied_price c i.side (get_or i.price_try (lookup i.symbol marks)) in
    let first = first_slice i.qty in
    let second = i.qty -ℤ first in
    slices_of (partial_candidate hex_suffix i.client_order_id && ltb_ℤ (pos 10000) i.qty)
      (ltb_ℤ (pos 0) first && ltb_ℤ (pos 0) second) i.qty first second price
