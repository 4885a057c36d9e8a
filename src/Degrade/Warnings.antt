-- ===== src/Degrade/Warnings.antt =====
-- What warnings do to a raised level of domain/anomalies.py.
use meva_beta_alpha_codex.Base.{◌<◌}
use meva_beta_alpha_codex.Degrade.{DegradeDecision, DegradeInput}

-- The same cycle, with no warning counted.
abbrev pub unwarned : DegradeInput → DegradeInput
unwarned i = record i { recent_warn_count = 0 }

-- A lower level that leaves more of each buy.
abbrev pub IsLooser : DegradeDecision → DegradeDecision → Type 0
IsLooser d e = (d.level < e.level) × (e.shrink_notional_factor < d.shrink_notional_factor)
