-- ===== src/CycleRisk/Tests.antt =====
-- Concrete inputs for the theorems on the cycle's risk output.
use meva_beta_alpha_codex.Base.{
  arith, ◌↔◌, ℕ, ◌≤◌, ◌≡◌, refl, none, some, List, [], ◌∷◌, true, false, All,
}
use meva_beta_alpha_codex.Base.Int.{ℤ, pos, negsuc, ◌+ℤ◌, ◌-ℤ◌, ◌*ℤ◌}
use meva_beta_alpha_codex.Base.Dict.{Dict}
use meva_beta_alpha_codex.Degrade.{reduce_risk_only}
use meva_beta_alpha_codex.Stage4.{LifecycleAction, submit, cancel, buy, sell, new_intent}
use meva_beta_alpha_codex.CycleRisk.{
  CycleRiskOutput, projected, submit_reason, policy_step, accepts, filter_from, filter_actions,
}
use meva_beta_alpha_codex.CycleRisk.Admission.{
  Admissible, count_submits, filter_actions-Admissible, filter_actions-count, policy_step_iff,
}

abbrev reduce_only : CycleRiskOutput
reduce_only = record {
  mode = reduce_risk_only;
  max_order_notional_try = pos 1000;
  max_orders_per_cycle = 2;
  max_symbol_exposure_try = pos 2000;
  allow_submit = true;
  allow_cancel = false;
}

abbrev positions : Dict ℕ ℤ
positions = (1, pos 30) ∷ (2, negsuc 9) ∷ []

abbrev sell_one : LifecycleAction
sell_one = record {
  action_type = submit;
  symbol = 1;
  side = sell;
  price = pos 20;
  qty = pos 10;
  reason = new_intent;
  client_order_id = some 4;
  exchange_order_id = none;
  replace_for_client_order_id = none;
}

abbrev buy_one : LifecycleAction
buy_one = record sell_one { side = buy }

abbrev cancel_one : LifecycleAction
cancel_one = record sell_one { action_type = cancel }

abbrev actions : List LifecycleAction
actions = buy_one ∷ sell_one ∷ cancel_one ∷ sell_one ∷ sell_one ∷ []

actions_run : (filter_actions reduce_only positions actions).0 ≡ sell_one ∷ sell_one ∷ []
unfolding filter_actions filter_from policy_step submit_reason projected ◌+ℤ◌ ◌-ℤ◌ ◌*ℤ◌
actions_run = refl

-- A sell of 50 with 30 held passes, too: it leaves a short position of 20.
flip_run :
    (filter_actions reduce_only positions (record sell_one { qty = pos 50 } ∷ [])).0
    ≡ record sell_one { qty = pos 50 } ∷ []
unfolding filter_actions filter_from policy_step submit_reason projected ◌+ℤ◌ ◌-ℤ◌ ◌*ℤ◌
flip_run = refl

filter_actions-Admissible_example :
    All
      (λ a. Admissible a.action_type reduce_only positions a)
      (filter_actions reduce_only positions actions).0
filter_actions-Admissible_example = filter_actions-Admissible reduce_only positions actions

filter_actions-count_example : count_submits (filter_actions reduce_only positions actions).0 ≤ 2
filter_actions-count_example = filter_actions-count reduce_only positions actions

policy_step_iff_example :
    (accepts (policy_step submit reduce_only positions 1 sell_one).1 ≡ true)
    ↔ Admissible submit reduce_only positions sell_one
policy_step_iff_example = policy_step_iff submit reduce_only positions 1 sell_one (omega arith)
