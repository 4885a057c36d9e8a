-- ===== src/Degrade/Tests.antt =====
-- Concrete inputs for the theorems on degrading.
use meva_beta_alpha_codex.Base.{
  ℕ, ◌+◌, ◌≡◌, refl, ◌≤◌, ◌<◌, true, false, some, List, [], ◌∷◌, arith,
}
use meva_beta_alpha_codex.Degrade.{
  Mode, observe_only, reduce_risk_only, AnomalyEvent, AnomalyCode, stale_market_data, clock_skew,
  warn, error, of_code, DegradeDecision, DegradeInput, build, decide_degrade, decide_warnings,
  step_down, level_policy, DegradeState, Observation, DegradeSettings, degrade_cycle,
  degrade_cycles, in_cooldown, required_streak,
}
use meva_beta_alpha_codex.Degrade.Recovery.{calm_steps_down, degrade_cycles-held}

-- Level 2 after three stable cycles, with nothing new.
abbrev calm_input : DegradeInput
calm_input = record {
  anomalies = [];
  now = 5000;
  current_override = some reduce_risk_only;
  cooldown_until = some 4900;
  last_reasons = some (of_code stale_market_data ∷ []);
  recent_warn_count = 0;
  warn_threshold = 3;
  warn_codes = [];
  recent_warn_codes = [];
  previous_level = 2;
  breaker_is_open = false;
  freeze_active = false;
  stability_streak = 3;
}

abbrev broken_input : DegradeInput
broken_input = record calm_input {
  anomalies = record { code = clock_skew; severity = error } ∷ [];
  breaker_is_open = true;
}

calm_run : (decide_degrade calm_input).level ≡ 1
unfolding decide_degrade decide_warnings step_down build
calm_run = refl

broken_run :
    (decide_degrade broken_input).reasons
    ≡ meva_beta_alpha_codex.Degrade.breaker_open ∷ of_code clock_skew ∷ []
unfolding decide_degrade build
broken_run = refl

-- Level 3 with its cooldown over, and four warnings with a threshold of three.
abbrev warned_input : DegradeInput
warned_input = record calm_input {
  recent_warn_count = 4;
  recent_warn_codes = stale_market_data ∷ [];
  previous_level = 3;
  stability_streak = 0;
}

calm_steps_down_example :
    let d = decide_degrade calm_input in
    (d.level ≤ 2) × (2 ≤ d.level + 1) × (d.level < 2 → required_streak 2 ≤ 4)
calm_steps_down_example = calm_steps_down calm_input refl refl refl

abbrev level_one : DegradeState
level_one = record {
  override = some reduce_risk_only;
  until = some 1900;
  reasons = of_code stale_market_data ∷ [];
  level = 1;
  streak = 0;
}

abbrev quiet_at : ℕ → Observation
quiet_at now = record {
  now = now;
  anomalies = [];
  recent_warn_count = 0;
  recent_warn_codes = [];
  breaker_is_open = false;
}

abbrev failing_at : ℕ → Observation
failing_at now = record (quiet_at now) { breaker_is_open = true }

abbrev stage4_settings : DegradeSettings
stage4_settings = record { warn_threshold = 3; warn_codes = [] }

abbrev frequent_cycles : List Observation
frequent_cycles = quiet_at 1060 ∷ failing_at 1800 ∷ quiet_at 2600 ∷ []

degrade_cycles-held_example : (degrade_cycles stage4_settings level_one frequent_cycles).level ≡ 1
degrade_cycles-held_example =
    degrade_cycles-held stage4_settings level_one frequent_cycles 1000 (omega arith) (omega arith)
      (omega arith)
