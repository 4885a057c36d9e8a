-- ===== src/StageRisk/Exposure.antt =====
-- What the notional limits of `filter_actions` guarantee.
use meva_beta_alpha_codex.Base.{
  ℕ, ◌+◌, ◌≡◌, refl, sym, ◌∙◌, Bool, true, false, List, [], ◌∷◌, ltb, arith, if◌then◌else◌,
  if_intro, All,
}
use meva_beta_alpha_codex.Base.Int.{ℤ, pos, ltb_ℤ, ◌≤ℤ◌, ◌+ℤ◌, int_laws}
use meva_beta_alpha_codex.Stage4.{
  LifecycleAction, LifecycleActionType, submit, cancel, replace, Side, buy, sell,
}
use meva_beta_alpha_codex.StageRisk.{
  RiskPolicy, Book, Projection, Verdict, accepted, notional, action_step, type_step, submit_step,
  side_step, buy_step, replace_blocked, is_accepted_verdict, filter_loop,
}

-- A submit on one side.
abbrev pub is_submit : Side → LifecycleActionType → Side → Bool
is_submit buy submit buy = true
is_submit sell submit sell = true
is_submit _ _ _ = false

abbrev pub is_buy : LifecycleAction → Bool
is_buy a = is_submit buy a.action_type a.side

abbrev pub is_sell : LifecycleAction → Bool
is_sell a = is_submit sell a.action_type a.side

-- The notional of the buys among some actions.
unfoldable pub bought : List LifecycleAction → ℤ
bought [] = pos 0
bought (a ∷ rest) = if is_buy a then notional a +ℤ bought rest else bought rest

ltb_ℤ-false : (a b : ℤ) → ltb_ℤ a b ≡ false → b ≤ℤ a
ltb_ℤ-false a b h = ground arith

-- A step from `s` that adds `gain` to the projected notional if it accepts, and nothing if not, and
-- that keeps the projection within the position limit.
pub record Spends (p : RiskPolicy) (s : Projection) (gain : ℤ) (r : Projection × Verdict)
    : Type 0 where
  pub moved :
      r.0.position_notional
      ≡ s.position_notional +ℤ (if is_accepted_verdict r.1 then gain else pos 0)
  pub bounded : r.0.position_notional ≤ℤ p.max_position_notional_try

keeps :
    (p : RiskPolicy) (s : Projection) (gain : ℤ) (n : ℕ) (v : Verdict)
    → is_accepted_verdict v ≡ false
    → s.position_notional ≤ℤ p.max_position_notional_try
    → Spends p s gain (record s { open_orders = n }, v)
keeps p s gain n v h fits = record { moved = rw h (omega int_laws); bounded = fits }

adds :
    (p : RiskPolicy) (s : Projection) (gain : ℤ)
    → s.position_notional +ℤ gain ≤ℤ p.max_position_notional_try
    → Spends p s gain (record s { position_notional = s.position_notional +ℤ gain }, accepted)
adds p s gain fits = record { moved = refl; bounded = fits }

buy_step-Spends :
    (p : RiskPolicy) (b : Book) (s : Projection) (a : LifecycleAction)
    → s.position_notional ≤ℤ p.max_position_notional_try
    → Spends p s (notional a) (buy_step p b s a)
unfolding buy_step
buy_step-Spends p b s a fits =
    let P : Projection × Verdict → Type 0 = Spends p s (notional a) in
    let after = s.position_notional +ℤ notional a in
    if_intro P (replace_blocked p b s a) (λ _. keeps p s (notional a) _ _ refl fits)
      λ _.
        if_intro P (ltb_ℤ p.max_position_notional_try after)
          (λ _. record { moved = omega int_laws; bounded = omega int_laws })
          λ ok. adds p s (notional a) (ltb_ℤ-false p.max_position_notional_try after ok)

submit_step-Spends :
    (p : RiskPolicy) (b : Book) (s : Projection) (a : LifecycleAction)
    → a.side ≡ buy
    → s.position_notional ≤ℤ p.max_position_notional_try
    → Spends p s (notional a) (submit_step p b s a)
unfolding submit_step side_step
submit_step-Spends p b s a is_bought fits =
    let P : Projection × Verdict → Type 0 = Spends p s (notional a) in
    if_intro P (ltb p.max_open_orders (s.open_orders + 1))
      (λ _. keeps p s (notional a) _ _ refl fits)
      λ _.
        if_intro P (ltb_ℤ p.max_order_notional_try (notional a))
          (λ _. keeps p s (notional a) _ _ refl fits)
          λ _. simp is_bought (counted (buy_step-Spends p b _ a fits))
  where
    counted :
        {r : Projection × Verdict}
        → Spends p (record s { open_orders = s.open_orders + 1 }) (notional a) r
        → Spends p s (notional a) r
    counted h = record { moved = h.moved; bounded = h.bounded }

abbrev gain : LifecycleAction → ℤ
gain a = if is_buy a then notional a else pos 0

-- A step that is no sell adds what it buys.
pub type_step-Spends :
    (t : LifecycleActionType) (d : Side) (p : RiskPolicy) (b : Book) (s : Projection)
    (a : LifecycleAction)
    → a.side ≡ d
    → is_submit sell t d ≡ false
    → s.position_notional ≤ℤ p.max_position_notional_try
    → Spends p s (if is_submit buy t d then notional a else pos 0) (type_step t p b s a)
unfolding type_step
type_step-Spends cancel d p b s a e h fits = record { moved = omega int_laws; bounded = fits }
type_step-Spends replace d p b s a e h fits = record { moved = omega int_laws; bounded = fits }
type_step-Spends submit sell p b s a e h fits = cc
type_step-Spends submit buy p b s a e h fits = submit_step-Spends p b s a e fits

pub if-add : (b : Bool) (x y : ℤ) → (if b then x +ℤ y else y) ≡ (if b then x else pos 0) +ℤ y
if-add true x y = refl
if-add false x y = omega int_laws

add_up :
    (start next end limit : ℤ) (a : LifecycleAction) (kept : List LifecycleAction) (ok : Bool)
    → next ≡ start +ℤ (if ok then gain a else pos 0)
    → end ≡ next +ℤ bought kept
    → next +ℤ bought kept ≤ℤ limit
    → let all_kept = if ok then a ∷ kept else kept in
      (end ≡ start +ℤ bought all_kept) × (start +ℤ bought all_kept ≤ℤ limit)
unfolding bought
add_up start next end limit a kept true moved total bound =
    let step : start +ℤ bought (a ∷ kept) ≡ next +ℤ bought kept =
      rw (if-add (is_buy a) (notional a) (bought kept), moved) (omega int_laws) in
    (total ∙ sym step, rw step bound)
add_up start next end limit a kept false moved total bound =
    let step : start +ℤ bought kept ≡ next +ℤ bought kept = rw moved (omega int_laws) in
    (total ∙ sym step, rw step bound)

-- Where no action is a sell, the filter cannot be made to overspend: the projected notional that it
-- began with and all the buys that it accepts together stay within the position limit, and that sum
-- is the projection at the end.
pub filter_loop-bought :
    (p : RiskPolicy) (b : Book) (s : Projection) (actions : List LifecycleAction)
    → All (λ a. is_sell a ≡ false) actions
    → s.position_notional ≤ℤ p.max_position_notional_try
    → let (kept, _, end) = filter_loop p b s actions in
      (end.position_notional ≡ s.position_notional +ℤ bought kept)
      × (s.position_notional +ℤ bought kept ≤ℤ p.max_position_notional_try)
unfolding filter_loop bought
filter_loop-bought p b s [] no_sell fits = (omega int_laws, omega int_laws)
filter_loop-bought p b s (a ∷ rest) no_sell fits =
    let (s', v) = action_step p b s a in
    let st = type_step-Spends a.action_type a.side p b s a refl no_sell.0 fits in
    let (kept, _, end) = filter_loop p b s' rest in
    let (total, bound) = filter_loop-bought p b s' rest no_sell.1 st.bounded in
    add_up s.position_notional s'.position_notional end.position_notional
      p.max_position_notional_try a kept (is_accepted_verdict v) st.moved total bound
