-- ===== src/IntentRisk/Judged.antt =====
-- What an approved intent keeps to.
use meva_beta_alpha_codex.Base.{
  ℕ, ◌≡◌, true, ◌&&◌, ◌||◌, Option, none, some, if_intro, arith, get_or, leb, number_key,
}
use meva_beta_alpha_codex.Base.Int.{
  ℤ, pos, negsuc, pos_part, ◌+ℤ◌, ◌*ℤ◌, ltb_ℤ, leb_ℤ, ◌≤ℤ◌, ◌<ℤ◌, int_laws, pos-mul, nonneg-times,
}
use meva_beta_alpha_codex.Base.Dict.{lookup}
use meva_beta_alpha_codex.Stage4.{Side}
use meva_beta_alpha_codex.Sizing.{cut_down}
use meva_beta_alpha_codex.Sizing.Grid.{cut_down-le}
use meva_beta_alpha_codex.IntentRisk.Rules.{ExchangeRules, RulesCache, get_rules}
use meva_beta_alpha_codex.IntentRisk.{
  Intent, RiskPolicyContext, RiskPolicy, Judgement, blocked, approved, is_cooling, round_to,
  capped_qty, under_cycle_cap, under_order_cap, is_buy, afforded, normalized, priced, judge,
}

-- The amount fits what is left of the cycle's cap, the cap of one order if there is one, and, for a
-- buy, what may be invested if that is positive; and it is not negative.
pub record IsApproved (p : RiskPolicy) (c : RiskPolicyContext) (side : Side) (used notional : ℤ)
    : Type 0 where
  pub in_cycle : used +ℤ notional ≤ℤ p.notional_cap_try_per_cycle
  pub in_order : pos 0 <ℤ p.max_notional_per_order_try → notional ≤ℤ p.max_notional_per_order_try
  pub in_reserve :
      is_buy side ≡ true → pos 0 <ℤ c.investable_try → used +ℤ notional ≤ℤ c.investable_try
  pub not_negative : pos 0 ≤ℤ notional

module _ (p : RiskPolicy) (c : RiskPolicyContext) (side : Side) (used : ℤ) where
  abbrev pub Holds : Judgement → Type 0
  Holds (blocked _) = Unit
  Holds (approved price qty) = IsApproved p c side used (qty *ℤ price)

  -- A buy of the amount may be paid.
  abbrev IsAffordable : ℤ → Type 0
  IsAffordable notional =
      is_buy side ≡ true → pos 0 <ℤ c.investable_try → used +ℤ notional ≤ℤ c.investable_try

  under_cycle_cap-Holds :
      (price qty : ℤ)
      → (pos 0 <ℤ p.max_notional_per_order_try → qty *ℤ price ≤ℤ p.max_notional_per_order_try)
      → IsAffordable (qty *ℤ price)
      → pos 0 ≤ℤ qty *ℤ price
      → Holds (under_cycle_cap p used price qty)
  unfolding under_cycle_cap
  under_cycle_cap-Holds price qty o a n =
      if_intro Holds (ltb_ℤ p.notional_cap_try_per_cycle (used +ℤ qty *ℤ price)) (λ _. tt)
        (λ e. record {
          in_cycle = ground (arith, e);
          in_order = o;
          in_reserve = a;
          not_negative = n;
        })

  capped_qty-le :
      (r : ExchangeRules) (price : ℕ)
      → pos 0 <ℤ p.max_notional_per_order_try
      → capped_qty p r (pos price) *ℤ pos price ≤ℤ p.max_notional_per_order_try
  capped_qty-le r price h =
      let q = cut_down r.qty_step (pos_part p.max_notional_per_order_try) price in
      let le = cut_down-le r.qty_step (pos_part p.max_notional_per_order_try) price in
      rw (pos-mul q price) (ground (arith, h, le))

  IsAffordable-less : (less more : ℤ) → less ≤ℤ more → IsAffordable more → IsAffordable less
  IsAffordable-less less more h a b i = omega (int_laws, h, a b i)

  under_order_cap-Holds :
      (r : ExchangeRules) (price : ℕ) (qty : ℤ)
      → pos 0 ≤ℤ qty
      → IsAffordable (qty *ℤ pos price)
      → Holds (under_order_cap p r used (pos price) qty)
  unfolding under_order_cap
  under_order_cap-Holds r price qty q a =
      let cap = p.max_notional_per_order_try in
      if_intro Holds (ltb_ℤ (pos 0) cap && ltb_ℤ cap (qty *ℤ pos price))
        (λ over.
          if_intro Holds (leb_ℤ (capped_qty p r (pos price)) (pos 0)) (λ _. tt)
            (λ _.
              let small = capped_qty-le r price (ground (arith, over)) in
              under_cycle_cap-Holds (pos price) (capped_qty p r (pos price)) (λ _. small)
                (IsAffordable-less _ (qty *ℤ pos price) (ground (arith, over, small)) a)
                (nonneg-times (capped_qty p r (pos price)) (pos price) (omega arith)
                  (omega arith))))
        (λ under.
          under_cycle_cap-Holds (pos price) qty (λ h. ground (arith, under, h)) a
            (nonneg-times qty (pos price) q (omega arith)))

  afforded-Holds :
      (r : ExchangeRules) (price : ℕ) (qty : ℤ)
      → pos 0 ≤ℤ qty
      → Holds (afforded p c r side used (pos price) qty)
  unfolding afforded
  afforded-Holds r price qty q =
      let cost = used +ℤ qty *ℤ pos price in
      if_intro Holds (is_buy side && ltb_ℤ (pos 0) c.investable_try && ltb_ℤ c.investable_try cost)
        (λ _. tt) (λ e. under_order_cap-Holds r price qty q (λ b i. ground (arith, e, b, i)))

  normalized-Holds :
      (price qty : ℤ) (o : Option ExchangeRules) → Holds (normalized p c side used price qty o)
  unfolding normalized
  normalized-Holds price qty none = tt
  normalized-Holds (negsuc n) qty (some r) =
      let q_price = round_to r.price_tick (negsuc n) in
      if_intro Holds (leb_ℤ q_price (pos 0) || leb_ℤ (round_to r.qty_step qty) (pos 0)) (λ _. tt)
        (λ e. ground (arith, e))
  normalized-Holds (pos n) qty (some r) =
      let q_price = round_to r.price_tick (pos n) in
      let q_qty = round_to r.qty_step qty in
      if_intro Holds (leb_ℤ q_price (pos 0) || leb_ℤ q_qty (pos 0)) (λ _. tt)
        (λ e.
          if_intro Holds (ltb_ℤ (q_price *ℤ q_qty) r.min_notional) (λ _. tt)
            (λ _. afforded-Holds r _ q_qty (ground (arith, e))))

priced-Holds :
    (p : RiskPolicy) (c : RiskPolicyContext) (now : ℕ) (used : ℤ) (i : Intent) (price : Option ℤ)
    (cache : RulesCache)
    → Holds p c i.side used (priced p c now used i price cache).0
unfolding priced
priced-Holds p c now used i none cache = tt
priced-Holds p c now used i (some price) cache =
    normalized-Holds p c i.side used price i.qty (get_rules p.rules_provider i.symbol now cache).0

pub judge-Holds :
    (p : RiskPolicy) (c : RiskPolicyContext) (now : ℕ) (used : ℤ) (i : Intent) (cache : RulesCache)
    → Holds p c i.side used (judge p c now used i cache).0
unfolding judge
judge-Holds p c now used i cache =
    let P : Judgement × RulesCache → Type 0 = λ j. Holds p c i.side used j.0 in
    let open_orders = get_or 0 (lookup i.symbol c.open_orders_by_symbol) in
    if_intro P (leb p.max_open_orders_per_symbol open_orders) (λ _. tt)
      (λ _.
        if_intro P (is_cooling p now (c.last_intent_ts i.symbol i.side)) (λ _. tt)
          (λ _. priced-Holds p c now used i i.limit_price cache))
