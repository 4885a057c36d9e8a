-- ===== src/Allocation/Reserve.antt =====
-- The budget of a cycle, and what `allocate` leaves of the cash.
use native.Mathlib.Nat.{add-mul, mul-add, mul-le-mul_right, mul-le-mul_left}
use meva_beta_alpha_codex.Base.{ℕ, ◌+◌, ◌*◌, ◌≤◌, ◌≡◌, ap, subst, sym, List, All, if_intro, arith}
use meva_beta_alpha_codex.Base.Int.{
  ℤ, pos, negsuc, pos_part, neg_part, ltb_ℤ, min_ℤ, max_ℤ, ◌≤ℤ◌, ◌<ℤ◌, ◌+ℤ◌, ◌-ℤ◌, ◌*ℤ◌, pos-mul,
  nonneg-pos, *ℤ_parts, int_laws,
}
use meva_beta_alpha_codex.Allocation.Budget.{
  AllocationKnobs, resolve_investable_budget, by_mode, UsageMode, UsagePart, fraction, cap, use_all,
  unit, clipped_fraction, fine, fee_multiplier,
}
use meva_beta_alpha_codex.Allocation.Bounds.{any_side, IsFunded, allocate_loop-IsFunded}
use meva_beta_alpha_codex.Allocation.Caps.{Intent, Market, refined}
use meva_beta_alpha_codex.Allocation.{
  allocate_loop, sum_where, is_buy, planned_total, deploy_budget, investable_total,
  AllocationResult, start, allocate,
}

mul-le_right : (a b : ℤ) (n : ℕ) → a ≤ℤ b → a *ℤ pos n ≤ℤ b *ℤ pos n
mul-le_right a b n h =
    let le : (pos_part a + neg_part b) * n ≤ (pos_part b + neg_part a) * n = mul-le-mul_right n h in
    let left = add-mul (pos_part a) (neg_part b) n in
    let right = add-mul (pos_part b) (neg_part a) n in
    omega (arith, le, left, right, *ℤ_parts a (pos n), *ℤ_parts b (pos n))

mul-le_left : (n : ℕ) (a b : ℤ) → a ≤ℤ b → pos n *ℤ a ≤ℤ pos n *ℤ b
mul-le_left n a b h =
    let le : n * (pos_part a + neg_part b) ≤ n * (pos_part b + neg_part a) = mul-le-mul_left n h in
    let left = mul-add n (pos_part a) (neg_part b) in
    let right = mul-add n (pos_part b) (neg_part a) in
    omega (arith, le, left, right, *ℤ_parts (pos n) a, *ℤ_parts (pos n) b)

mul-nonneg : (n : ℕ) (b : ℤ) → pos 0 ≤ℤ b → pos 0 ≤ℤ pos n *ℤ b
unfolding ◌*ℤ◌
mul-nonneg n (pos m) h = ground arith
mul-nonneg n (negsuc m) h = ground (arith, h)

nonneg-mul : (a : ℤ) (n : ℕ) → pos 0 ≤ℤ a → pos 0 ≤ℤ a *ℤ pos n
unfolding ◌*ℤ◌
nonneg-mul (pos m) n h = ground arith
nonneg-mul (negsuc m) n h = ground (arith, h)

-- Between nothing and the whole, in units that are finer by `unit`.
abbrev IsShare : ℤ → ℤ → Type 0
IsShare total x = (pos 0 ≤ℤ x) × (x ≤ℤ total *ℤ unit)

by_mode-IsShare :
    (mode : UsageMode) (total : ℕ) (k : AllocationKnobs)
    → IsShare (pos total) (by_mode mode (pos total) k).0
unfolding by_mode
by_mode-IsShare fraction total k = (
  mul-nonneg total (clipped_fraction k) (ground arith),
  mul-le_left total (clipped_fraction k) unit (ground arith),
)
by_mode-IsShare cap total k =
    let amount = min_ℤ (pos total) (max_ℤ k.max_try_per_cycle (pos 0)) in
    (
      nonneg-mul amount 100000000 (ground arith),
      mul-le_right amount (pos total) 100000000 (ground arith),
    )
by_mode-IsShare use_all total k = (mul-nonneg total unit (omega arith), omega arith)

resolve-IsShare :
    (total : ℕ) (k : AllocationKnobs)
    → IsShare (pos total) (resolve_investable_budget (pos total) k).0
unfolding resolve_investable_budget
resolve-IsShare total k =
    let amount = (by_mode k.investable_usage_mode (pos total) k).0 in
    let room = max_ℤ (k.try_cash_max -ℤ k.target_try_cash) (pos 0) in
    let (low, high) = by_mode-IsShare k.investable_usage_mode total k in
    let room_nonneg : pos 0 ≤ℤ room *ℤ unit = nonneg-mul room 100000000 (ground arith) in
    if_intro {A = ℤ × List UsagePart} (λ r. IsShare (pos total) r.0) (ltb_ℤ (pos 0) k.try_cash_max)
      (λ _. (ground (arith, low, room_nonneg), ground (arith, high))) (λ _. (low, high))

-- The amounts that `allocate` gives out: the buys with their fees stay within what the cash exceeds
-- its target by, all actions within the cap of the cycle, and none is below the minimum.
pub record IsAllocated (cash : ℤ) (m : Market) (r : AllocationResult) : Type 0 where
  pub reserve_kept :
      sum_where is_buy r.actions *ℤ pos (fee_multiplier m.knobs)
      ≤ℤ refined m.knobs (max_ℤ (cash -ℤ m.knobs.target_try_cash) (pos 0)) *ℤ pos 100000000
  pub cap_kept :
      pos 0 <ℤ m.knobs.max_total_notional_try_per_cycle
      → sum_where any_side r.actions ≤ℤ refined m.knobs m.knobs.max_total_notional_try_per_cycle
  pub not_small :
      All (λ a. refined m.knobs m.knobs.min_order_notional_try ≤ℤ a.notional_try) r.actions

-- What is covered by a part of a budget is at most the budget.
part-le : (a b c : ℤ) → a +ℤ b ≡ c → pos 0 ≤ℤ b → a ≤ℤ c
part-le a b c e h = subst (λ t. a ≤ℤ t) e (omega (int_laws, h))

regroup : (t u n : ℕ) → pos t *ℤ pos u *ℤ pos u *ℤ pos n ≡ pos t *ℤ pos (u * n) *ℤ pos u
regroup t u n =
    rw (pos-mul t u, pos-mul t (u * n))
      (rw (pos-mul (t * u) u, pos-mul (t * (u * n)) u)
        (rw (pos-mul (t * u * u) n) (ap pos (omega arith))))

with_fees :
    (t : ℕ) (k : AllocationKnobs) (planned : ℤ)
    → planned ≤ℤ pos t *ℤ unit *ℤ pos 100000000
    → planned *ℤ pos (fee_multiplier k) ≤ℤ refined k (pos t) *ℤ pos 100000000
with_fees t k planned h =
    let multiplied = mul-le_right planned (pos t *ℤ unit *ℤ pos 100000000) (fee_multiplier k) h in
    subst (λ x. planned *ℤ pos (fee_multiplier k) ≤ℤ x) (regroup t 100000000 (fee_multiplier k))
      multiplied

deploy_budget-IsShare :
    (cash : ℤ) (k : AllocationKnobs)
    → (pos 0 ≤ℤ deploy_budget cash k)
      × (deploy_budget cash k ≤ℤ investable_total cash k *ℤ unit *ℤ pos 100000000)
unfolding deploy_budget
deploy_budget-IsShare cash k =
    let total = investable_total cash k in
    let share : IsShare total (resolve_investable_budget total k).0 =
      subst (λ t. IsShare t (resolve_investable_budget t k).0)
        (sym (nonneg-pos total (ground arith))) (resolve-IsShare (pos_part total) k) in
    let amount = (resolve_investable_budget total k).0 in
    (nonneg-mul amount 100000000 share.0, mul-le_right amount (total *ℤ unit) 100000000 share.1)

-- For any intents, cash, knobs, holdings and prices: the amounts of the buys, multiplied with one plus
-- the fee ratio, sum up to at most what the cash exceeds its target by, or 0 if it does not; with a positive cap on the
-- cycle the amounts of all actions sum up to at most that cap; and no action is below the minimum.
pub allocate-IsAllocated :
    (intents : List Intent) (cash : ℤ) (m : Market) → IsAllocated cash m (allocate intents cash m)
unfolding allocate
allocate-IsAllocated intents cash m =
    let k = m.knobs in
    let budget = deploy_budget cash k in
    let (low, high) = deploy_budget-IsShare cash k in
    let total = investable_total cash k in
    let begin : IsFunded k budget (start cash k) = record {
      covered = omega int_laws;
      not_overspent = low;
      in_cycle = λ configured. (
        omega int_laws,
        nonneg-mul k.max_total_notional_try_per_cycle (fine k) (omega (arith, configured)),
      );
      sized_up = tt;
    } in
    let end = allocate_loop m intents 0 (start cash k) in
    let funded : IsFunded k budget end =
      allocate_loop-IsFunded m budget intents 0 (start cash k) begin in
    let planned = planned_total end.actions in
    let spent : planned ≤ℤ budget =
      part-le planned end.remaining_deploy_budget_try budget funded.covered funded.not_overspent in
    record {
      reserve_kept =
          subst (λ t. planned *ℤ pos (fee_multiplier k) ≤ℤ refined k t *ℤ pos 100000000)
            (sym (nonneg-pos total (ground arith)))
            (with_fees (pos_part total) k planned (
              subst (λ t. planned ≤ℤ t *ℤ unit *ℤ pos 100000000) (nonneg-pos total (ground arith))
                (omega (arith, spent, high))));
      cap_kept = λ configured.
          part-le (sum_where any_side end.actions) end.remaining_cycle_notional
            (refined k k.max_total_notional_try_per_cycle) (funded.in_cycle configured).0
            (funded.in_cycle configured).1;
      not_small = funded.sized_up;
    }
