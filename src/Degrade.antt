-- ===== src/Degrade.antt =====
-- domain/anomalies.py: the degrade decision that a Stage 4 cycle takes from the anomalies it saw,
-- and domain/risk_budget.py's risk modes.
-- Times are whole seconds; a notional factor is in percent (0.25 is 25).
pub mod Recovery
mod Warnings
mod Tests
use meva_beta_alpha_codex.Base.{
  ℕ, zero, suc, ◌+◌, ◌-◌, ◌*◌, Bool, true, false, ◌&&◌, ◌||◌, not, Option, none, some, List, [],
  ◌∷◌, ◌++◌, map, ltb, leb, nat_beq, if◌then◌else◌, filter, any, is_empty, get_or, sorted,
}

pub data Mode : Type 0 where
  normal reduce_risk_only observe_only : Mode

pub data AnomalyCode : Type 0 where
  stale_market_data exchange_latency_spike order_reject_spike clock_skew cursor_stall : AnomalyCode
  pnl_divergence manual_override : AnomalyCode

pub data Severity : Type 0 where
  warn error : Severity

pub record AnomalyEvent : Type 0 where
  pub code : AnomalyCode
  pub severity : Severity

-- The strings that stand in a decision's `reasons`.
pub data Reason : Type 0 where
  of_code : AnomalyCode → Reason
  breaker_open : Reason
  stage4_freeze_active : Reason

pub record DegradeDecision : Type 0 where
  pub mode_override : Option Mode
  pub reasons : List Reason
  pub cooldown_until : Option ℕ
  pub level : ℕ
  pub shrink_notional_factor : ℕ
  pub universe_cap : Option ℕ
  pub recovery_streak : ℕ

-- The keyword arguments of `decide_degrade`.
pub record DegradeInput : Type 0 where
  pub anomalies : List AnomalyEvent
  pub now : ℕ
  pub current_override : Option Mode
  pub cooldown_until : Option ℕ
  pub last_reasons : Option (List Reason)
  pub recent_warn_count : ℕ
  pub warn_threshold : ℕ
  pub warn_codes : List AnomalyCode
  pub recent_warn_codes : List AnomalyCode
  pub previous_level : ℕ
  pub breaker_is_open : Bool
  pub freeze_active : Bool
  pub stability_streak : ℕ

-- The place of a code's value, and of a reason, in the order of strings.
abbrev code_rank : AnomalyCode → ℕ
code_rank clock_skew = 1
code_rank cursor_stall = 2
code_rank exchange_latency_spike = 3
code_rank manual_override = 4
code_rank order_reject_spike = 5
code_rank pnl_divergence = 6
code_rank stale_market_data = 8

abbrev reason_rank : Reason → ℕ
reason_rank breaker_open = 0
reason_rank stage4_freeze_active = 7
reason_rank (of_code c) = code_rank c

abbrev has_code : AnomalyCode → List AnomalyCode → Bool
has_code c = any (λ d. nat_beq (code_rank c) (code_rank d))

abbrev has_reason : Reason → List Reason → Bool
has_reason r = any (λ s. nat_beq (reason_rank r) (reason_rank s))

-- `set(items)`: one copy of each.
abbrev distinct : List Reason → List Reason
distinct [] = []
distinct (r ∷ rs) = if has_reason r rs then distinct rs else r ∷ distinct rs

-- `sorted(set(items))`
abbrev sorted_set : List Reason → List Reason
sorted_set rs = sorted (λ a b. leb (reason_rank a) (reason_rank b)) (distinct rs)

abbrev reasons_of : List AnomalyCode → List Reason
reasons_of = map of_code

unfoldable pub combine_modes : Mode → Option Mode → Mode
combine_modes base none = base
combine_modes base (some observe_only) = observe_only
combine_modes normal (some reduce_risk_only) = reduce_risk_only
combine_modes reduce_risk_only (some reduce_risk_only) = reduce_risk_only
combine_modes observe_only (some reduce_risk_only) = observe_only
combine_modes base (some normal) = base

-- Mode, factor in percent, universe cap and cooldown of a level.
unfoldable pub level_policy : ℕ → Option Mode × ℕ × Option ℕ × ℕ
level_policy level =
    if leb 3 level
    then (some observe_only, 0, some 2, 1800)
    else if nat_beq level 2
    then (some reduce_risk_only, 25, some 4, 900)
    else if nat_beq level 1
    then (some reduce_risk_only, 50, some 8, 900)
    else (none, 100, none, 0)

unfoldable pub build : ℕ → ℕ → List Reason → ℕ → DegradeDecision
unfolding level_policy
build now level reasons recovery =
    let (mode, factor, universe_cap, cooldown_seconds) = level_policy level in
    record {
      mode_override = mode;
      reasons = reasons;
      cooldown_until = if leb 1 level then some (now + cooldown_seconds) else none;
      level = level;
      shrink_notional_factor = factor;
      universe_cap = universe_cap;
      recovery_streak = recovery;
    }

unfoldable pub level_from_override : Option Mode → ℕ
level_from_override (some observe_only) = 3
level_from_override (some reduce_risk_only) = 1
level_from_override (some normal) = 0
level_from_override none = 0

-- `cooldown_until is not None and now < cooldown_until`
abbrev pub in_cooldown : ℕ → Option ℕ → Bool
in_cooldown now none = false
in_cooldown now (some until) = ltb now until

abbrev pub is_error : AnomalyEvent → Bool
is_error e = elim e.severity [ error ↦ true | warn ↦ false ]

abbrev allowed_code : List AnomalyCode → AnomalyCode → Bool
allowed_code warn_codes c = is_empty warn_codes || has_code c warn_codes

abbrev current_warn_codes : DegradeInput → List AnomalyCode
current_warn_codes i =
    map (λ e. e.code)
      (filter (λ e. not (is_error e) && allowed_code i.warn_codes e.code) i.anomalies)

abbrev filtered_recent_warn_codes : DegradeInput → List AnomalyCode
filtered_recent_warn_codes i = filter (allowed_code i.warn_codes) i.recent_warn_codes

abbrev pub is_critical : DegradeInput → Bool
is_critical i = i.breaker_is_open || (i.freeze_active || any is_error i.anomalies)

abbrev critical_reasons : DegradeInput → List Reason
critical_reasons i = sorted_set (
    sorted_set (reasons_of (map (λ e. e.code) i.anomalies))
    ++ ((if i.breaker_is_open then breaker_open ∷ [] else [])
        ++ (if i.freeze_active then stage4_freeze_active ∷ [] else [])))

-- The warnings that count toward the thresholds.
abbrev pub warn_count_for_threshold : DegradeInput → ℕ
warn_count_for_threshold i =
    if is_empty (current_warn_codes i) && is_empty (filtered_recent_warn_codes i)
    then 0
    else i.recent_warn_count

abbrev or_last : List Reason → Option (List Reason) → List Reason
or_last [] last = get_or [] last
or_last (r ∷ rs) last = r ∷ rs

-- The stable cycles that must pass before a step down from a level.
abbrev pub required_streak : ℕ → ℕ
required_streak previous = if nat_beq previous 1 then 8 else 4

-- What is decided with no anomaly: hold the level until enough cycles were stable, then go down one.
unfoldable pub step_down : DegradeInput → DegradeDecision
step_down i =
    if leb 1 i.previous_level
    then (if ltb (i.stability_streak + 1) (required_streak i.previous_level)
        then build i.now i.previous_level (get_or [] i.last_reasons) (i.stability_streak + 1)
        else build i.now (i.previous_level - 1) [] 0)
    else build i.now 0 [] 0

-- The ladder below the cooldown and the critical tests.
unfoldable pub decide_warnings : DegradeInput → DegradeDecision
decide_warnings i =
    let recent = sorted_set (reasons_of (filtered_recent_warn_codes i)) in
    if leb (i.warn_threshold * 2) (warn_count_for_threshold i)
    then build i.now 2 recent 0
    else if leb i.warn_threshold (warn_count_for_threshold i)
    then build i.now 1 (or_last recent i.last_reasons) 0
    else step_down i

unfoldable pub decide_degrade : DegradeInput → DegradeDecision
decide_degrade i =
    if in_cooldown i.now i.cooldown_until && leb 1 i.previous_level
    then build i.now i.previous_level (get_or [] i.last_reasons) i.stability_streak
    else if in_cooldown i.now i.cooldown_until
    then build i.now (level_from_override i.current_override) (get_or [] i.last_reasons)
        i.stability_streak
    else if is_critical i
    then build i.now 3 (critical_reasons i) 0
    else decide_warnings i

-- What `stage4_cycle_runner.py` keeps of a decision from one cycle to the next.
pub record DegradeState : Type 0 where
  pub override : Option Mode
  pub until : Option ℕ
  pub reasons : List Reason
  pub level : ℕ
  pub streak : ℕ

-- What one cycle sees.
pub record Observation : Type 0 where
  pub now : ℕ
  pub anomalies : List AnomalyEvent
  pub recent_warn_count : ℕ
  pub recent_warn_codes : List AnomalyCode
  pub breaker_is_open : Bool

-- The settings that a cycle reads.
pub record DegradeSettings : Type 0 where
  pub warn_threshold : ℕ
  pub warn_codes : List AnomalyCode

abbrev pub cycle_input : DegradeSettings → DegradeState → Observation → DegradeInput
cycle_input c s o = record {
  anomalies = o.anomalies;
  now = o.now;
  current_override = s.override;
  cooldown_until = s.until;
  last_reasons = some s.reasons;
  recent_warn_count = o.recent_warn_count;
  warn_threshold = c.warn_threshold;
  warn_codes = c.warn_codes;
  recent_warn_codes = o.recent_warn_codes;
  previous_level = s.level;
  breaker_is_open = o.breaker_is_open;
  freeze_active = false;
  stability_streak = s.streak;
}

abbrev pub persisted : DegradeDecision → DegradeState
persisted d = record {
  override = d.mode_override;
  until = d.cooldown_until;
  reasons = d.reasons;
  level = d.level;
  streak = d.recovery_streak;
}

unfoldable pub degrade_cycle : DegradeSettings → DegradeState → Observation → DegradeState
degrade_cycle c s o = persisted (decide_degrade (cycle_input c s o))

unfoldable pub degrade_cycles : DegradeSettings → DegradeState → List Observation → DegradeState
degrade_cycles c s [] = s
degrade_cycles c s (o ∷ os) = degrade_cycles c (degrade_cycle c s o) os
