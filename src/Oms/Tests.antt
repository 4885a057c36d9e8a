-- ===== src/Oms/Tests.antt =====
-- A market with one order, its tables, and runs of the service on them.
use meva_beta_alpha_codex.Base.{ℕ, zero, suc, refl, ◌⊎◌, Bool, true, false, none, [], ◌∷◌, arith}
use meva_beta_alpha_codex.Base.Int.{pos}
use meva_beta_alpha_codex.Stage4.{buy}
use meva_beta_alpha_codex.Oms.{planned}
use meva_beta_alpha_codex.Oms.Store.{OmsStore}
use meva_beta_alpha_codex.Oms.Simulator.{OrderIntent, timeout}
use meva_beta_alpha_codex.Oms.Submit.{OmsExternals, OmsSettings, OmsWorld}
use meva_beta_alpha_codex.Oms.Process.{initial_order, process_intent}
use meva_beta_alpha_codex.Oms.Batch.{process_intents}
use meva_beta_alpha_codex.Oms.Orderly.{IsOrderlyEnd, process_intent-IsOrderly}
use meva_beta_alpha_codex.Oms.Idempotency.{IsQuiet}
use meva_beta_alpha_codex.Retry.{returned}
use meva_beta_alpha_codex.Oms.Simulator.{should_reject}
use meva_beta_alpha_codex.Oms.Submit.{after_retries}
use meva_beta_alpha_codex.Oms.Process.{initial_progress}
use meva_beta_alpha_codex.Oms.Fills.{IsUnsent, IsSettled, after_retries-IsSettled}
use meva_beta_alpha_codex.Oms.AtMostOnce.{at_most_once}

-- A limiter that is a number of tokens.
abbrev take_token : ℕ → Bool × ℕ
take_token zero = (false, zero)
take_token (suc n) = (true, n)

abbrev externals : OmsExternals ℕ
externals = record {
  consume = take_token;
  seconds_until_available = λ n. (1, n);
  make_intent_hash = λ i. i.reason;
  hex_suffix = λ id. id;
  jitter = λ _ raw. raw;
}

abbrev settings : OmsSettings
settings = record {
  simulator = record { stage7_sim_reject_prob_bps = pos 0; stage7_slippage_bps = pos 50000 };
  retry = record {
    max_attempts = 3;
    base_delay_ms = 100;
    max_delay_ms = 400;
    max_total_sleep_ms = none;
  };
  mark_prices_try = [];
}

abbrev intent : OrderIntent
intent = record {
  cycle_id = 1;
  symbol = 5;
  side = buy;
  price_try = pos 10000000000;
  qty = pos 200000000;
  notional_try = pos 2000000;
  client_order_id = 44;
  reason = 7;
  constraints_applied = 0;
  skipped = false;
}

abbrev empty_store : OmsStore
empty_store = record { orders = []; events = []; idempotency = [] }

-- The first submit of order 44 times out once.
abbrev world : OmsWorld ℕ
world = record { store = empty_store; failures = (44, timeout ∷ []) ∷ []; limiter = 3 }

-- A submit with one retry and two slices gives six events.
process_intent-IsOrderly_example :
    IsOrderlyEnd 44 0 planned (process_intent externals settings 1 100 [] intent world).0
process_intent-IsOrderly_example =
    process_intent-IsOrderly externals settings 1 100 [] intent world (λ id o h. ground arith)

at_most_once_example :
    let first = process_intent externals settings 1 100 [] intent world in
    let w' = (process_intents externals settings 2 200 [] (intent ∷ []) first.1).1 in
    IsQuiet world planned first
    ⊎ IsQuiet w'
        (initial_order externals settings 3 300 intent w'.store).status
        (process_intent externals settings 3 300 [] intent w')
at_most_once_example =
    at_most_once externals settings 1 100 [] intent world 2 200 [] (intent ∷ []) 3 300 [] intent
      refl

unsent : IsUnsent (initial_progress externals settings 1 100 intent empty_store)
unsent = record { status = refl; lacks = (refl, (refl, (refl, (refl, (refl, tt))))) }

-- Order 44 of two units is filled in two slices.
after_retries-IsSettled_example :
    let p = initial_progress externals settings 1 100 intent empty_store in
    IsSettled false (pos 200000000) (after_retries externals settings 100 intent p [] (returned tt))
unfolding should_reject
after_retries-IsSettled_example =
    after_retries-IsSettled externals settings 100 intent
      (initial_progress externals settings 1 100 intent empty_store) [] unsent
