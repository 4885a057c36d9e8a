-- ===== src/Base/Dict.antt =====
-- A Python dict in insertion order. Writing a present key keeps its place.
use mathlib.Core.Path.{◌≡◌, refl}
use mathlib.Core.Logic.{◌≢◌}
use mathlib.Core.Bool.{Bool}
use mathlib.Core.Option.{Option, none, some}
use mathlib.Core.List.{List, [], ◌∷◌, map}
use native.Mathlib.Omega.{arith}
use meva_beta_alpha_codex.Base.Tests.{Key, ◌==◌, if◌then◌else◌, is_some}

abbrev pub Dict {ℓ κ} : Type ℓ → Type κ → Type (ℓ ⊔ κ)
Dict K V = List (K × V)

abbrev pub values {ℓ κ} : {K : Type ℓ} {V : Type κ} → Dict K V → List V
values d = map (λ e. e.1) d

abbrev pub keys {ℓ κ} : {K : Type ℓ} {V : Type κ} → Dict K V → List K
keys d = map (λ e. e.0) d

module _ {ℓ κ} {K : Type ℓ} ⦃key : Key K⦄ {V : Type κ} where
  -- `d.get(k)`
  abbrev pub lookup : K → Dict K V → Option V
  lookup k (entry ∷ d) = if k == entry.0 then some entry.1 else lookup k d
  lookup k [] = none

  -- `k in d`
  abbrev pub contains : K → Dict K V → Bool
  contains k d = is_some (lookup k d)

  -- `d[k] = v`
  abbrev pub insert : K → V → Dict K V → Dict K V
  insert k v [] = (k, v) ∷ []
  insert k v (entry ∷ d) = if k == entry.0 then (entry.0, v) ∷ d else entry ∷ insert k v d

  -- `d.pop(k, None)`
  abbrev pub erase : K → Dict K V → Dict K V
  erase k [] = []
  erase k (entry ∷ d) = if k == entry.0 then d else entry ∷ erase k d

  -- No key twice.
  abbrev pub IsKeyed : Dict K V → Type κ
  IsKeyed [] = Unit
  IsKeyed ((k, _) ∷ d) = (lookup k d ≡ none) × IsKeyed d

  pub lookup-insert :
      (j k : K) (v : V) (d : Dict K V)
      → lookup j (insert k v d) ≡ (if j == k then some v else lookup j d)
  lookup-insert j k v [] = refl
  lookup-insert j k v ((i, w) ∷ d) =
      ground (arith, key.same_iff j k, key.same_iff k i, key.same_iff j i, lookup-insert j k v d)

  pub lookup-erase_ne : (j k : K) (d : Dict K V) → j ≢ k → lookup j (erase k d) ≡ lookup j d
  lookup-erase_ne j k [] h = refl
  lookup-erase_ne j k ((i, w) ∷ d) h =
      ground (arith, key.same_iff j k, key.same_iff k i, key.same_iff j i, lookup-erase_ne j k d h)

  pub insert-IsKeyed : (k : K) (v : V) (d : Dict K V) → IsKeyed d → IsKeyed (insert k v d)
  insert-IsKeyed k v [] h = (refl, tt)
  insert-IsKeyed k v ((i, w) ∷ d) h =
      ground
        (arith, key.same_iff i k, key.same_iff k i, lookup-insert i k v d, insert-IsKeyed k v d h.1)

  pub lookup-erase_self : (k : K) (d : Dict K V) → IsKeyed d → lookup k (erase k d) ≡ none
  lookup-erase_self k [] h = refl
  lookup-erase_self k ((i, w) ∷ d) h = ground (arith, key.same_iff k i, lookup-erase_self k d h.1)

  pub erase-IsKeyed : (k : K) (d : Dict K V) → IsKeyed d → IsKeyed (erase k d)
  erase-IsKeyed k [] h = tt
  erase-IsKeyed k ((i, w) ∷ d) h =
      ground
        (arith, key.same_iff i k, key.same_iff k i, erase-IsKeyed k d h.1, lookup-erase_ne i k d)
