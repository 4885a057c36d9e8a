-- ===== src/IntentRisk/Limits.antt =====
-- A whole evaluation: counts, and sums of amounts.
use meva_beta_alpha_codex.Base.{ℕ, ◌+◌, ◌≡◌, List, [], ◌∷◌, min, length, All, if◌then◌else◌, get_or}
use meva_beta_alpha_codex.Base.Int.{ℤ, pos, ◌+ℤ◌, ◌*ℤ◌, max_ℤ, ◌≤ℤ◌, ◌<ℤ◌}
use meva_beta_alpha_codex.IntentRisk.{Intent, RiskPolicyContext, RiskPolicy, is_buy, Evaluation}

-- `qty * limit_price`
abbrev pub notional : Intent → ℤ
notional i = i.qty *ℤ get_or (pos 0) i.limit_price

abbrev pub total : List Intent → ℤ
total [] = pos 0
total (i ∷ rest) = notional i +ℤ total rest

abbrev pub bought : List Intent → ℤ
bought [] = pos 0
bought (i ∷ rest) = (if is_buy i.side then notional i else pos 0) +ℤ bought rest

-- The amounts of approved intents: all together and the buys, against the cap of the cycle, the cap
-- of one order and what may be invested.
pub record IsLimited (p : RiskPolicy) (c : RiskPolicyContext) (s : Evaluation) : Type 0 where
  pub used_is : s.used_notional ≡ total s.approved_intents
  pub in_cycle : s.used_notional ≤ℤ max_ℤ p.notional_cap_try_per_cycle (pos 0)
  pub buys_used : bought s.approved_intents ≤ℤ s.used_notional
  pub in_reserve : pos 0 <ℤ c.investable_try → bought s.approved_intents ≤ℤ c.investable_try
  pub in_order :
      pos 0 <ℤ p.max_notional_per_order_try
      → All (λ i. notional i ≤ℤ p.max_notional_per_order_try) s.approved_intents

module _ (p : RiskPolicy) (c : RiskPolicyContext) where
  -- How many intents have their verdict.
  abbrev judged : Evaluation → ℕ
  judged s = length s.approved_intents + length s.last_blocked_events

-- The evaluation of intents: each of them, up to the number allowed in a cycle, is approved or blocked
-- with a reason, and the amounts of the approved ones keep to their limits.
pub record IsEvaluated (p : RiskPolicy) (c : RiskPolicyContext) (intents : List Intent)
    (s : Evaluation) : Type 0 where
  pub limited : IsLimited p c s
  pub complete :
      length s.approved_intents + length s.last_blocked_events
      ≡ min p.max_orders_per_cycle (length intents)
