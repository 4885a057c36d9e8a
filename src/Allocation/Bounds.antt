-- ===== src/Allocation/Bounds.antt =====
-- What is bought leaves the reserve, fees included, and all actions keep to the cap of the cycle.
use meva_beta_alpha_codex.Base.{
  ℕ, ◌+◌, ◌≡◌, refl, ap, subst, get_or, number_key, ◌∙◌, Bool, true, not, Option, List, [], ◌∷◌,
  ◌++◌, All, All-append, if◌then◌else◌, if_intro, Bool-cases, inl, inr, arith,
}
use meva_beta_alpha_codex.Base.Int.{ℤ, pos, ltb_ℤ, ◌≤ℤ◌, ◌<ℤ◌, ◌+ℤ◌, ◌-ℤ◌, int_laws}
use meva_beta_alpha_codex.Base.Dict.{lookup}
use meva_beta_alpha_codex.Stage4.{Side, buy, sell}
use meva_beta_alpha_codex.Allocation.Limits.{
  ReasonCode, not_implemented, min_notional, Sizing, too_small, sized, size,
}
use meva_beta_alpha_codex.Allocation.Budget.{AllocationKnobs}
use meva_beta_alpha_codex.Allocation.Fits.{Fits, FitsLimit, IsSized, size-IsSized}
use meva_beta_alpha_codex.Allocation.Caps.{
  Intent, SizedAction, Progress, Market, refined, Terms, refused, limited, terms_of,
  PositionSummary, cycle_limit, is_positive, holds,
}
use meva_beta_alpha_codex.Allocation.{
  accept, settle, under_terms, intent_step, allocate_loop, sum_where, is_buy, planned_total,
  spent_by, reject, is_place,
}

sum_where-append :
    (p : Side → Bool) (xs : List SizedAction) (a : SizedAction)
    → sum_where p (xs ++ a ∷ []) ≡ sum_where p xs +ℤ (if p a.side then a.notional_try else pos 0)
sum_where-append p [] a = elim (Bool-cases (p a.side)) [
  | inl e ↦ rw e (omega int_laws)
  | inr e ↦ rw e (omega int_laws)
]
sum_where-append p (x ∷ xs) a = elim (Bool-cases (p x.side)) [
  | inl e ↦ rw e (ap (λ t. x.notional_try +ℤ t) (sum_where-append p xs a) ∙ omega int_laws)
  | inr e ↦ rw e (sum_where-append p xs a)
]

abbrev pub any_side : Side → Bool
any_side _ = true

-- Where a run stands: the buys and what is left make up the budget, all actions and what is left the
-- cap if there is one, nothing is below zero, and no action below the minimum.
pub record IsFunded (k : AllocationKnobs) (budget : ℤ) (s : Progress) : Type 0 where
  pub covered : planned_total s.actions +ℤ s.remaining_deploy_budget_try ≡ budget
  pub not_overspent : pos 0 ≤ℤ s.remaining_deploy_budget_try
  pub in_cycle :
      pos 0 <ℤ k.max_total_notional_try_per_cycle
      → (sum_where any_side s.actions +ℤ s.remaining_cycle_notional
          ≡ refined k k.max_total_notional_try_per_cycle)
        × (pos 0 ≤ℤ s.remaining_cycle_notional)
  pub sized_up : All (λ a. refined k k.min_order_notional_try ≤ℤ a.notional_try) s.actions

-- What an accepted amount must keep to.
pub record IsFunding (k : AllocationKnobs) (side : Side) (s : Progress) (x : ℤ) : Type 0 where
  pub in_budget : spent_by side x ≤ℤ s.remaining_deploy_budget_try
  pub in_cap : pos 0 <ℤ k.max_total_notional_try_per_cycle → x ≤ℤ s.remaining_cycle_notional
  pub not_small : refined k k.min_order_notional_try ≤ℤ x

spent-is : (side : Side) (x : ℤ) → (if is_buy side then x else pos 0) ≡ spent_by side x
spent-is buy x = refl
spent-is sell x = refl

moves : (a b x c : ℤ) → a +ℤ b ≡ c → (a +ℤ x) +ℤ (b -ℤ x) ≡ c
moves a b x c h = omega int_laws ∙ h

leaves : (x b : ℤ) → x ≤ℤ b → pos 0 ≤ℤ b -ℤ x
leaves x b h = omega (int_laws, h)

module _ (k : AllocationKnobs) (budget : ℤ) where
  accept-IsFunded :
      (i : Intent) (index : ℕ) (price x : ℤ) (reason : ReasonCode) (s : Progress)
      → IsFunding k i.side s x
      → IsFunded k budget s
      → IsFunded k budget (accept i index k price x reason s)
  unfolding accept
  accept-IsFunded i index price x reason s f h = record {
    covered =
        let sp = spent_by i.side x in
        let left = s.remaining_deploy_budget_try -ℤ sp in
        ap (λ t. t +ℤ left)
          (sum_where-append is_buy s.actions _
            ∙ ap (λ t. planned_total s.actions +ℤ t) (spent-is i.side x))
        ∙ moves (planned_total s.actions) s.remaining_deploy_budget_try sp budget h.covered;
    not_overspent = leaves (spent_by i.side x) s.remaining_deploy_budget_try f.in_budget;
    in_cycle = λ configured.
        let test : ltb_ℤ (pos 0) k.max_total_notional_try_per_cycle ≡ true =
          ground (arith, configured) in
        let (sum, left) = h.in_cycle configured in
        rw test (
          ap (λ t. t +ℤ (s.remaining_cycle_notional -ℤ x)) (sum_where-append any_side s.actions _)
              ∙ moves (sum_where any_side s.actions) s.remaining_cycle_notional x
                  (refined k k.max_total_notional_try_per_cycle) sum,
          leaves x s.remaining_cycle_notional (f.in_cap configured),
        );
    sized_up =
        All-append (λ a. refined k k.min_order_notional_try ≤ℤ a.notional_try) s.actions _
          h.sized_up f.not_small;
  }

  reject-IsFunded :
      (i : Intent) (index : ℕ) (reason : ReasonCode) (s : Progress)
      → IsFunded k budget s
      → IsFunded k budget (reject i index reason s)
  reject-IsFunded i index reason s h = record {
    covered = h.covered;
    not_overspent = h.not_overspent;
    in_cycle = h.in_cycle;
    sized_up = h.sized_up;
  }

  settle-IsFunded :
      (i : Intent) (index : ℕ) (price : ℤ) (z : Sizing) (s : Progress)
      → ((x : ℤ) (reason : ReasonCode) → z ≡ sized x reason → IsFunding k i.side s x)
      → IsFunded k budget s
      → IsFunded k budget (settle i index k price z s)
  unfolding settle
  settle-IsFunded i index price (too_small reason) s f h = reject-IsFunded i index reason s h
  settle-IsFunded i index price (sized x reason) s f h =
      accept-IsFunded i index price x reason s (f x reason refl) h

  -- Under the terms, what fits the limits may be spent.
  abbrev AreSafe : Side → Progress → Terms → Type 0
  AreSafe side s (refused reason) = Unit
  AreSafe side s (limited limits price) =
      (x : ℤ)
      → refined k k.min_order_notional_try ≤ℤ x
      → All (FitsLimit x) limits
      → IsFunding k side s x

  cycle_limit-safe :
      (s : Progress) (requested x : ℤ)
      → IsFunded k budget s
      → Fits x (cycle_limit k s requested).1
      → pos 0 <ℤ k.max_total_notional_try_per_cycle
      → x ≤ℤ s.remaining_cycle_notional
  cycle_limit-safe s requested x h f configured =
      ground (arith, (h.in_cycle configured).1, f, configured)

  terms_of-AreSafe :
      (side : Side) (s : Progress) (p : Option PositionSummary) (mark : Option ℤ) (requested : ℤ)
      → IsFunded k budget s
      → AreSafe side s (terms_of side k s p mark requested)
  unfolding terms_of
  terms_of-AreSafe buy s p mark requested h =
      if_intro (AreSafe buy s) (is_positive mark)
        (λ _ x large (cash, (_, (cycle, _))). record {
          in_budget = cash refl;
          in_cap = cycle_limit-safe s requested x h (cycle refl);
          not_small = large;
        })
        (λ _. tt)
  terms_of-AreSafe sell s p mark requested h =
      if_intro (AreSafe sell s) (not (holds p)) (λ _. tt)
        (λ _.
          if_intro (AreSafe sell s) (is_positive mark)
            (λ _ x large (_, (cycle, _)). record {
              in_budget = h.not_overspent;
              in_cap = cycle_limit-safe s requested x h (cycle refl);
              not_small = large;
            })
            (λ _. tt))

  under_terms-IsFunded :
      (i : Intent) (index : ℕ) (requested : ℤ) (t : Terms) (s : Progress)
      → AreSafe i.side s t
      → IsFunded k budget s
      → IsFunded k budget (under_terms i index k requested t s)
  unfolding under_terms
  under_terms-IsFunded i index requested (refused reason) s safe h =
      reject-IsFunded i index reason s h
  under_terms-IsFunded i index requested (limited limits price) s safe h =
      let least_allowed = refined k k.min_order_notional_try in
      settle-IsFunded i index price (size least_allowed requested limits) s
        (λ x reason e.
          let (large, fits) =
            subst (IsSized least_allowed limits) e (size-IsSized least_allowed requested limits) in
          safe x large fits)
        h

intent_step-IsFunded :
    (m : Market) (budget : ℤ) (i : Intent) (index : ℕ) (s : Progress)
    → IsFunded m.knobs budget s
    → IsFunded m.knobs budget (intent_step m i index s)
unfolding intent_step
intent_step-IsFunded m budget i index s h =
    let P : Progress → Type 0 = IsFunded m.knobs budget in
    let refuse : (reason : ReasonCode) → P (reject i index reason s) =
      λ reason. reject-IsFunded m.knobs budget i index reason s h in
    if_intro P (not (is_place i.intent_type)) (λ _. refuse not_implemented)
      (λ _.
        if_intro P (not (is_positive i.target_notional_try)) (λ _. refuse min_notional)
          (λ _.
            let requested = refined m.knobs (get_or (pos 0) i.target_notional_try) in
            let position = lookup i.symbol m.positions in
            let mark = lookup i.symbol m.mark_prices in
            under_terms-IsFunded m.knobs budget i index requested
              (terms_of i.side m.knobs s position mark requested) s
              (terms_of-AreSafe m.knobs budget i.side s position mark requested h) h))

pub allocate_loop-IsFunded :
    (m : Market) (budget : ℤ) (intents : List Intent) (index : ℕ) (s : Progress)
    → IsFunded m.knobs budget s
    → IsFunded m.knobs budget (allocate_loop m intents index s)
unfolding allocate_loop
allocate_loop-IsFunded m budget [] index s h = h
allocate_loop-IsFunded m budget (i ∷ rest) index s h =
    allocate_loop-IsFunded m budget rest (index + 1) (intent_step m i index s)
      (intent_step-IsFunded m budget i index s h)
