-- ===== src/StageRisk/Sells.antt =====
-- What the position limit of `filter_actions` still bounds where there are sells.
use meva_beta_alpha_codex.Base.{
  ◌+◌, ◌≡◌, refl, sym, subst, Bool, true, false, List, [], ◌∷◌, arith, ltb, if◌then◌else◌, if_intro,
  All,
}
use meva_beta_alpha_codex.Base.Int.{
  ℤ, pos, ltb_ℤ, max_ℤ, ◌≤ℤ◌, ◌+ℤ◌, ◌-ℤ◌, int_laws, +ℤ_parts, -ℤ_parts,
}
use meva_beta_alpha_codex.Stage4.{
  LifecycleAction, LifecycleActionType, submit, cancel, replace, Side, buy, sell,
}
use meva_beta_alpha_codex.StageRisk.{
  RiskPolicy, Book, Projection, Verdict, notional, action_step, type_step, submit_step, side_step,
  sell_step, sell_blocked, is_accepted_verdict, filter_loop,
}
use meva_beta_alpha_codex.StageRisk.Exposure.{
  is_submit, is_buy, is_sell, bought, Spends, type_step-Spends, if-add,
}

-- The notional of the sells among some actions.
pub sold : List LifecycleAction → ℤ
sold [] = pos 0
sold (a ∷ rest) = if is_sell a then notional a +ℤ sold rest else sold rest

-- A step from `s` that keeps the projection within the limit, and lowers it, below what it accepts to
-- buy, by no more than `lost`.
record Loses (p : RiskPolicy) (s : Projection) (gain lost : ℤ) (r : Projection × Verdict)
    : Type 0 where
  bounded : r.0.position_notional ≤ℤ p.max_position_notional_try
  covered :
      s.position_notional +ℤ (if is_accepted_verdict r.1 then gain else pos 0)
      ≤ℤ r.0.position_notional +ℤ lost

-- The projection lowered by a sell, at most to 0.
lowered-le :
    (x n limit : ℤ)
    → pos 0 ≤ℤ limit
    → pos 0 ≤ℤ n
    → x ≤ℤ limit
    → let y = max_ℤ (pos 0) (x -ℤ n) in (y ≤ℤ limit) × (x ≤ℤ y +ℤ n)
lowered-le x n limit low amount fits =
    ground (arith, low, amount, fits, -ℤ_parts x n, +ℤ_parts (max_ℤ (pos 0) (x -ℤ n)) n)

abbrev IsLowered : RiskPolicy → Projection → ℤ → Projection × Verdict → Type 0
IsLowered p s n r =
    (r.0.position_notional ≤ℤ p.max_position_notional_try)
    × (s.position_notional ≤ℤ r.0.position_notional +ℤ n)

submit_step-IsLowered :
    (p : RiskPolicy) (b : Book) (s : Projection) (a : LifecycleAction)
    → a.side ≡ sell
    → pos 0 ≤ℤ p.max_position_notional_try
    → pos 0 ≤ℤ notional a
    → s.position_notional ≤ℤ p.max_position_notional_try
    → IsLowered p s (notional a) (submit_step p b s a)
unfolding submit_step side_step sell_step
submit_step-IsLowered p b s a sells limit amount fits =
    let P : Projection × Verdict → Type 0 = IsLowered p s (notional a) in
    let kept : (s.position_notional ≤ℤ p.max_position_notional_try)
        × (s.position_notional ≤ℤ s.position_notional +ℤ notional a) =
      (fits, omega (int_laws, amount)) in
    let lowered =
      lowered-le s.position_notional (notional a) p.max_position_notional_try limit amount fits in
    if_intro P (ltb p.max_open_orders (s.open_orders + 1)) (λ _. kept)
      λ _.
        if_intro P (ltb_ℤ p.max_order_notional_try (notional a)) (λ _. kept)
          λ _. simp sells (if_intro P (sell_blocked p b a) (λ _. lowered) (λ _. lowered))

covered_by : (x y gain : ℤ) → y ≡ x +ℤ gain → x +ℤ gain ≤ℤ y +ℤ pos 0
covered_by x y gain e = subst (λ z. x +ℤ gain ≤ℤ z +ℤ pos 0) (sym e) (omega int_laws)

no_gain : (x y : ℤ) (ok : Bool) → x ≤ℤ y → x +ℤ (if ok then pos 0 else pos 0) ≤ℤ y
no_gain x y true h = omega (int_laws, h)
no_gain x y false h = omega (int_laws, h)

spent_only :
    (p : RiskPolicy) (s : Projection) (gain : ℤ) (r : Projection × Verdict)
    → Spends p s gain r
    → Loses p s gain (pos 0) r
spent_only p s gain r h = record {
  bounded = h.bounded;
  covered =
      covered_by s.position_notional r.0.position_notional
        (if is_accepted_verdict r.1 then gain else pos 0) h.moved;
}

type_step-Loses :
    (t : LifecycleActionType) (d : Side) (p : RiskPolicy) (b : Book) (s : Projection)
    (a : LifecycleAction)
    → a.side ≡ d
    → pos 0 ≤ℤ p.max_position_notional_try
    → pos 0 ≤ℤ notional a
    → s.position_notional ≤ℤ p.max_position_notional_try
    → Loses p s
        (if is_submit buy t d then notional a else pos 0)
        (if is_submit sell t d then notional a else pos 0)
        (type_step t p b s a)
unfolding type_step
type_step-Loses submit sell p b s a e limit amount fits =
    let r = submit_step p b s a in
    let lowered = submit_step-IsLowered p b s a e limit amount fits in
    record {
      bounded = lowered.0;
      covered =
          no_gain s.position_notional (r.0.position_notional +ℤ notional a)
            (is_accepted_verdict r.1) lowered.1;
    }
type_step-Loses submit buy p b s a e limit amount fits =
    spent_only p s (notional a) _ (type_step-Spends submit buy p b s a e refl fits)
type_step-Loses cancel d p b s a e limit amount fits =
    spent_only p s (pos 0) _ (type_step-Spends cancel d p b s a e refl fits)
type_step-Loses replace d p b s a e limit amount fits =
    spent_only p s (pos 0) _ (type_step-Spends replace d p b s a e refl fits)

-- What one step and the rest of the loop make together.
add_up :
    (a : LifecycleAction) (kept rest : List LifecycleAction) (start next limit : ℤ) (ok : Bool)
    → start +ℤ (if ok then (if is_buy a then notional a else pos 0) else pos 0)
      ≤ℤ next +ℤ (if is_sell a then notional a else pos 0)
    → next +ℤ bought kept ≤ℤ limit +ℤ sold rest
    → start +ℤ bought (if ok then a ∷ kept else kept) ≤ℤ limit +ℤ sold (a ∷ rest)
unfolding bought sold
add_up a kept rest start next limit true step later =
    rw (if-add (is_buy a) (notional a) (bought kept), if-add (is_sell a) (notional a) (sold rest))
      (omega (int_laws, step, later))
add_up a kept rest start next limit false step later =
    rw (if-add (is_sell a) (notional a) (sold rest)) (omega (int_laws, step, later))

-- For orders of no negative amount and a position limit of at least 0 that the projection begins
-- within: the projected notional that the loop began with and the buys that it accepts together exceed
-- the limit by at most the sells among the actions, whether they are accepted or not.
pub filter_loop-bought_sold :
    (p : RiskPolicy) (b : Book) (s : Projection) (actions : List LifecycleAction)
    → pos 0 ≤ℤ p.max_position_notional_try
    → All (λ a. pos 0 ≤ℤ notional a) actions
    → s.position_notional ≤ℤ p.max_position_notional_try
    → s.position_notional +ℤ bought (filter_loop p b s actions).0
      ≤ℤ p.max_position_notional_try +ℤ sold actions
unfolding filter_loop bought sold
filter_loop-bought_sold p b s [] limit amounts fits = omega (int_laws, fits)
filter_loop-bought_sold p b s (a ∷ rest) limit amounts fits =
    let (s', v) = action_step p b s a in
    let st = type_step-Loses a.action_type a.side p b s a refl limit amounts.0 fits in
    let (kept, _, _) = filter_loop p b s' rest in
    add_up a kept rest s.position_notional s'.position_notional p.max_position_notional_try
      (is_accepted_verdict v) st.covered
      (filter_loop-bought_sold p b s' rest limit amounts.1 st.bounded)
