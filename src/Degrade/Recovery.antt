-- ===== src/Degrade/Recovery.antt =====
-- How the degrade level of domain/anomalies.py rises, holds and falls.
use meva_beta_alpha_codex.Base.{
  ℕ, ◌+◌, ◌*◌, ◌≤◌, ◌<◌, ◌≡◌, refl, true, false, Option, none, some, List, [], ◌∷◌, ◌∙◌, leb, arith,
  leb_of_le,
}
use meva_beta_alpha_codex.Degrade.{
  DegradeInput, level_policy, build, in_cooldown, is_critical, warn_count_for_threshold,
  required_streak, step_down, decide_warnings, decide_degrade, DegradeState, Observation,
  DegradeSettings, degrade_cycle, degrade_cycles,
}

more_is_more : (t c : ℕ) → leb t c ≡ false → leb (t * 2) c ≡ false
more_is_more t c h = ground arith

-- Outside a cooldown, with nothing critical and too few warnings, the level never rises, falls by at
-- most one, and falls only when the stable streak has reached what the level requires.
pub calm_steps_down :
    (i : DegradeInput)
    → in_cooldown i.now i.cooldown_until ≡ false
    → is_critical i ≡ false
    → leb i.warn_threshold (warn_count_for_threshold i) ≡ false
    → let d = decide_degrade i in
      (d.level ≤ i.previous_level)
      × (i.previous_level ≤ d.level + 1)
      × (d.level < i.previous_level → required_streak i.previous_level ≤ i.stability_streak + 1)
unfolding decide_degrade decide_warnings step_down build
calm_steps_down i out calm few =
    let two : leb (i.warn_threshold * 2) (warn_count_for_threshold i) ≡ false =
      more_is_more i.warn_threshold (warn_count_for_threshold i) few in
    rw (out, calm, two, few) (ground arith)

-- One cycle after another comes before the cooldown of 900 seconds has run out.
abbrev pub IsFrequent : ℕ → List Observation → Type 0
IsFrequent last [] = Unit {0}
IsFrequent last (o ∷ os) = (o.now < last + 900) × IsFrequent o.now os

-- A cooldown that lasts at least 900 seconds from time `last`.
abbrev pub Cools : ℕ → Option ℕ → Type 0
Cools last none = ⊥
Cools last (some until) = last + 900 ≤ until

Cools-cooling :
    (until : Option ℕ) (last now : ℕ)
    → Cools last until
    → now < last + 900
    → in_cooldown now until ≡ true
Cools-cooling none last now cools soon = absurd cools
Cools-cooling (some until) last now cools soon = ground arith

cooldown_long : (level now : ℕ) → 1 ≤ level → Cools now (some (now + (level_policy level).3))
unfolding level_policy
cooldown_long level now up = ground arith

cycle_holds :
    (c : DegradeSettings) (s : DegradeState) (o : Observation) (last : ℕ)
    → 1 ≤ s.level
    → Cools last s.until
    → o.now < last + 900
    → let t = degrade_cycle c s o in (t.level ≡ s.level) × Cools o.now t.until
unfolding degrade_cycle decide_degrade build
cycle_holds c s o last up cools soon =
    let cooling : in_cooldown o.now s.until ≡ true = Cools-cooling s.until last o.now cools soon in
    rw (cooling, leb_of_le 1 s.level up) (refl, cooldown_long s.level o.now up)

-- A raised level is never left while cycles come less than 900 seconds apart, whatever they see:
-- each decision inside the cooldown starts the cooldown anew, so neither the stable streak nor a
-- critical anomaly has any effect.
pub degrade_cycles-held :
    (c : DegradeSettings) (s : DegradeState) (os : List Observation) (last : ℕ)
    → 1 ≤ s.level
    → Cools last s.until
    → IsFrequent last os
    → (degrade_cycles c s os).level ≡ s.level
unfolding degrade_cycles
degrade_cycles-held c s [] last up cools often = refl
degrade_cycles-held c s (o ∷ os) last up cools often =
    let (same, cools') = cycle_holds c s o last up cools often.0 in
    degrade_cycles-held c (degrade_cycle c s o) os o.now (omega arith) cools' often.1 ∙ same
