-- ===== src/Lifecycle/Counts.antt =====
-- Counting the elements that pass a test, and the actions on orders that pass one.
use meva_beta_alpha_codex.Base.{
  ℕ, ◌+◌, ◌≡◌, refl, ◌∙◌, Bool, false, Option, List, [], ◌∷◌, ◌++◌, map, if◌then◌else◌, if_intro,
  Bool-cases, inl, inr, filter, insert_sorted, sorted, arith,
}
use meva_beta_alpha_codex.Base.Int.{ℤ}
use meva_beta_alpha_codex.Stage4.{
  Side, LifecycleActionType, submit, cancel, replace, LifecycleAction, Order,
}
use meva_beta_alpha_codex.Lifecycle.{group_key}

-- How many elements pass the test.
abbrev pub count {ℓ} : {A : Type ℓ} → (A → Bool) → List A → ℕ
count p [] = 0
count p (x ∷ xs) = (if p x then 1 else 0) + count p xs

module _ {ℓ} {A : Type ℓ} (p : A → Bool) where
  pub count-append : (xs ys : List A) → count p (xs ++ ys) ≡ count p xs + count p ys
  count-append [] ys = omega arith
  count-append (x ∷ xs) ys = omega (arith, count-append xs ys)

  count-insert_sorted :
      (le : A → A → Bool) (x : A) (ys : List A) → count p (insert_sorted le x ys) ≡ count p (x ∷ ys)
  count-insert_sorted le x [] = refl
  count-insert_sorted le x (y ∷ ys) =
      if_intro (λ l. count p l ≡ count p (x ∷ y ∷ ys)) (le x y) (λ e. refl)
        (λ e. omega (arith, count-insert_sorted le x ys))

  pub count-sorted : (le : A → A → Bool) (xs : List A) → count p (sorted le xs) ≡ count p xs
  count-sorted le [] = refl
  count-sorted le (x ∷ xs) =
      count-insert_sorted le x (sorted le xs) ∙ omega (arith, count-sorted le xs)

  pub count-map {κ} :
      {B : Type κ} (q : B → Bool) (f : B → A) (xs : List B)
      → ((b : B) → p (f b) ≡ q b)
      → count p (map f xs) ≡ count q xs
  count-map q f [] h = refl
  count-map q f (x ∷ xs) h = rw (h x) (omega (arith, count-map q f xs h))

pub filter-count {ℓ} :
    {A : Type ℓ} (q t : A → Bool) (x : A) (xs : List A)
    → count q (filter t (x ∷ xs)) ≡ count q (filter t (x ∷ [])) + count q (filter t xs)
filter-count q t x xs = elim (Bool-cases (t x)) [
  | inl e ↦ rw e (omega arith)
  | inr e ↦ rw e (omega arith)
]

-- A test of orders that reads the fields that an action keeps.
abbrev pub OrderTest : Type 0
OrderTest = ℕ → Side → ℤ → ℤ → Option ℕ → Bool

abbrev pub passes : OrderTest → Order → Bool
passes q o = q o.symbol o.side o.price o.qty o.client_order_id

abbrev cancels_one : OrderTest → LifecycleActionType → LifecycleAction → Bool
cancels_one q cancel a = q a.symbol a.side a.price a.qty a.client_order_id
cancels_one q submit a = false
cancels_one q replace a = false

-- The action cancels an order that passes.
abbrev pub is_cancel_of : OrderTest → LifecycleAction → Bool
is_cancel_of q a = cancels_one q a.action_type a

abbrev submits_one : OrderTest → LifecycleActionType → LifecycleAction → Bool
submits_one q submit a = q a.symbol a.side a.price a.qty a.client_order_id
submits_one q cancel a = false
submits_one q replace a = false

-- The action submits an order that passes.
abbrev pub is_submit_of : OrderTest → LifecycleAction → Bool
is_submit_of q a = submits_one q a.action_type a
