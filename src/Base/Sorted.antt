-- ===== src/Base/Sorted.antt =====
-- A dict whose entries are sorted by their keys, which are numbers.
use mathlib.Core.Path.{◌≡◌, refl, ap, sym, ◌∙◌}
use mathlib.Core.Option.{Option, none, some}
use mathlib.Core.Option
use mathlib.Core.List.{[], ◌∷◌}
use Prim.Native.Nat.{ℕ, ◌<◌}
use mathlib.Core.Bool.{Bool}
use mathlib.Core.Logic.{inl, inr}
use native.Mathlib.Omega.{arith}
use meva_beta_alpha_codex.Base.Tests.{number_key, leb, ◌==◌, if◌then◌else◌, if_intro, Bool-cases}
use meva_beta_alpha_codex.Base.Lists.{All}
use meva_beta_alpha_codex.Base.Sort.{insert_sorted, sorted}
use meva_beta_alpha_codex.Base.Dict.{Dict, lookup, IsKeyed}

module _ {ℓ} {V : Type ℓ} where
  abbrev by_key : ℕ × V → ℕ × V → Bool
  by_key a b = leb a.0 b.0

  -- The entries in the order of their keys.
  abbrev pub sorted_entries : Dict ℕ V → Dict ℕ V
  sorted_entries d = sorted by_key d

  -- Each key is below the later ones.
  abbrev pub IsSorted : Dict ℕ V → Type ℓ
  IsSorted [] = Unit
  IsSorted (e ∷ d) = All (λ x. e.0 < x.0) d × IsSorted d

  insert_sorted-All :
      (k : ℕ) (e : ℕ × V) (d : Dict ℕ V)
      → k < e.0
      → All (λ x. k < x.0) d
      → All (λ x. k < x.0) (insert_sorted by_key e d)
  insert_sorted-All k e [] lt h = (lt, tt)
  insert_sorted-All k e (x ∷ d) lt h =
      if_intro (All (λ y. k < y.0)) (by_key e x) (λ _. (lt, h))
        (λ _. (h.0, insert_sorted-All k e d lt h.1))

  All-below : (j k : ℕ) (d : Dict ℕ V) → j < k → All (λ x. k < x.0) d → All (λ x. j < x.0) d
  All-below j k [] lt h = tt
  All-below j k (x ∷ d) lt h = (omega (arith, lt, h.0), All-below j k d lt h.1)

  insert_sorted-IsSorted :
      (e : ℕ × V) (d : Dict ℕ V)
      → lookup e.0 d ≡ none
      → IsSorted d
      → IsSorted (insert_sorted by_key e d)
  insert_sorted-IsSorted e [] h s = (tt, tt)
  insert_sorted-IsSorted e (x ∷ d) h s =
      if_intro IsSorted (by_key e x)
        (λ le.
          let lt : e.0 < x.0 = ground (arith, le, h, number_key.same_iff e.0 x.0) in
          ((lt, All-below e.0 x.0 d lt s.0), s))
        (λ gt. (
          insert_sorted-All x.0 e d (ground (arith, gt)) s.0,
          insert_sorted-IsSorted e d (ground (arith, h)) s.1,
        ))

  lookup-insert_sorted :
      (k : ℕ) (e : ℕ × V) (d : Dict ℕ V)
      → lookup e.0 d ≡ none
      → lookup k (insert_sorted by_key e d) ≡ (if k == e.0 then some e.1 else lookup k d)
  lookup-insert_sorted k e [] h = refl
  lookup-insert_sorted k e (x ∷ d) h = elim (Bool-cases (by_key e x)) [
    | inl le ↦ rw le refl
    | inr gt ↦ rw gt (
        ground (
          arith,
          h,
          gt,
          number_key.same_iff k x.0,
          number_key.same_iff e.0 x.0,
          number_key.same_iff k e.0,
          lookup-insert_sorted k e d,
        ))
  ]

  pub lookup-sorted_entries :
      (k : ℕ) (d : Dict ℕ V) → IsKeyed d → lookup k (sorted_entries d) ≡ lookup k d
  lookup-sorted_entries k [] h = refl
  lookup-sorted_entries k (e ∷ d) h =
      lookup-insert_sorted k e (sorted_entries d) (lookup-sorted_entries e.0 d h.1 ∙ h.0)
      ∙ ap (λ o. if k == e.0 then some e.1 else o) (lookup-sorted_entries k d h.1)

  pub sorted_entries-IsSorted : (d : Dict ℕ V) → IsKeyed d → IsSorted (sorted_entries d)
  sorted_entries-IsSorted [] h = tt
  sorted_entries-IsSorted (e ∷ d) h =
      insert_sorted-IsSorted e (sorted_entries d) (lookup-sorted_entries e.0 d h.1 ∙ h.0)
        (sorted_entries-IsSorted d h.1)

  insert_sorted-first :
      (e : ℕ × V) (d : Dict ℕ V) → All (λ x. e.0 < x.0) d → insert_sorted by_key e d ≡ e ∷ d
  insert_sorted-first e [] h = refl
  insert_sorted-first e (x ∷ d) h =
      if_intro (λ r. r ≡ e ∷ x ∷ d) (by_key e x) (λ _. refl) (λ gt. ground (arith, gt, h.0))

  pub sorted_entries-same : (d : Dict ℕ V) → IsSorted d → sorted_entries d ≡ d
  sorted_entries-same [] h = refl
  sorted_entries-same (e ∷ d) h =
      ap (insert_sorted by_key e) (sorted_entries-same d h.1) ∙ insert_sorted-first e d h.0

module _ {ℓ κ} {V : Type ℓ} {W : Type κ} (f : ℕ → V → W) where
  -- Each value by its key and the old value.
  abbrev pub map_values : Dict ℕ V → Dict ℕ W
  map_values [] = []
  map_values (e ∷ d) = (e.0, f e.0 e.1) ∷ map_values d

  pub lookup-map_values :
      (k : ℕ) (d : Dict ℕ V) → lookup k (map_values d) ≡ Option.map (f k) (lookup k d)
  lookup-map_values k [] = refl
  lookup-map_values k (e ∷ d) = elim (Bool-cases (k == e.0)) [
    | inl same ↦ rw same (ap (λ j. some (f j e.1)) (sym ((number_key.same_iff k e.0).0 same)))
    | inr other ↦ rw other (lookup-map_values k d)
  ]

  map_values-All : (k : ℕ) (d : Dict ℕ V) → All (λ x. k < x.0) d → All (λ x. k < x.0) (map_values d)
  map_values-All k [] h = tt
  map_values-All k (e ∷ d) h = (h.0, map_values-All k d h.1)

  pub map_values-IsSorted : (d : Dict ℕ V) → IsSorted d → IsSorted (map_values d)
  map_values-IsSorted [] h = tt
  map_values-IsSorted (e ∷ d) h = (map_values-All e.0 d h.0, map_values-IsSorted d h.1)
