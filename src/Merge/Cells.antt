-- ===== src/Merge/Cells.antt =====
-- Objects at the addresses 0, 1, … of a list: reading, changing in place, and a new one at the end.
use meva_beta_alpha_codex.Base.{
  ℕ, zero, suc, ◌≡◌, ◌≢◌, refl, ap, ◌<◌, Option, none, some, List, [], ◌∷◌, ◌++◌, length, arith,
}

module _ {ℓ} {A : Type ℓ} where
  abbrev pub read_at : ℕ → List A → Option A
  read_at i [] = none
  read_at zero (x ∷ xs) = some x
  read_at (suc i) (x ∷ xs) = read_at i xs

  abbrev pub update_at : ℕ → (A → A) → List A → List A
  update_at i f [] = []
  update_at zero f (x ∷ xs) = f x ∷ xs
  update_at (suc i) f (x ∷ xs) = x ∷ update_at i f xs

  pub length-update_at : (i : ℕ) (f : A → A) (xs : List A) → length (update_at i f xs) ≡ length xs
  length-update_at i f [] = refl
  length-update_at zero f (x ∷ xs) = refl
  length-update_at (suc i) f (x ∷ xs) = ap suc (length-update_at i f xs)

  pub read_at-update_self :
      (i : ℕ) (f : A → A) (xs : List A) (x : A)
      → read_at i xs ≡ some x
      → read_at i (update_at i f xs) ≡ some (f x)
  read_at-update_self i f [] x h = ground (arith, h)
  read_at-update_self zero f (y ∷ xs) x h = ground (arith, h)
  read_at-update_self (suc i) f (y ∷ xs) x h = read_at-update_self i f xs x h

  pub read_at-update_ne :
      (i j : ℕ) (f : A → A) (xs : List A) → i ≢ j → read_at i (update_at j f xs) ≡ read_at i xs
  read_at-update_ne i j f [] h = refl
  read_at-update_ne zero zero f (y ∷ xs) h = ground (arith, h)
  read_at-update_ne zero (suc j) f (y ∷ xs) h = refl
  read_at-update_ne (suc i) zero f (y ∷ xs) h = refl
  read_at-update_ne (suc i) (suc j) f (y ∷ xs) h = read_at-update_ne i j f xs (λ e. h (ap suc e))

  pub read_at-append :
      (i : ℕ) (xs ys : List A) → i < length xs → read_at i (xs ++ ys) ≡ read_at i xs
  read_at-append i [] ys h = ground (arith, h)
  read_at-append zero (x ∷ xs) ys h = refl
  read_at-append (suc i) (x ∷ xs) ys h = read_at-append i xs ys (omega (arith, h))

  pub read_at-last : (xs : List A) (x : A) → read_at (length xs) (xs ++ x ∷ []) ≡ some x
  read_at-last [] x = refl
  read_at-last (y ∷ xs) x = read_at-last xs x

  pub read_at_lt : (i : ℕ) (xs : List A) → i < length xs → (x : A) × (read_at i xs ≡ some x)
  read_at_lt i [] h = ground (arith, h)
  read_at_lt zero (x ∷ xs) h = (x, refl)
  read_at_lt (suc i) (x ∷ xs) h = read_at_lt i xs (omega (arith, h))
