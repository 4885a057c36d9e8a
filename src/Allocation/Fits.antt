-- ===== src/Allocation/Fits.antt =====
-- A sized amount is at least the minimum, and fits every limit but that of the intent.
use meva_beta_alpha_codex.Base.{
  ◌≡◌, true, false, ◌||◌, Option, none, some, List, [], ◌∷◌, All, if_intro, arith, and_true,
}
use meva_beta_alpha_codex.Base.Int.{ℤ, ltb_ℤ, ◌≤ℤ◌}
use meva_beta_alpha_codex.Allocation.Limits.{
  Limit, least, least_of, allows, is_intent_cap, can_raise, Sizing, too_small, sized, size,
}

abbrev pub Fits : ℤ → Option ℤ → Type 0
Fits x none = Unit
Fits x (some c) = x ≤ℤ c

-- The amount fits the limit, unless that is of the intent.
abbrev pub FitsLimit : ℤ → Limit → Type 0
FitsLimit x l = is_intent_cap l.0 ≡ false → Fits x l.1

Fits-trans : (x y : ℤ) (o : Option ℤ) → x ≤ℤ y → Fits y o → Fits x o
Fits-trans x y none h f = tt
Fits-trans x y (some c) h f = omega (arith, h, f)

least_of-le : (x : ℤ) (o : Option ℤ) → least_of x o ≤ℤ x
least_of-le x none = omega arith
least_of-le x (some c) = ground arith

least_of-Fits : (x : ℤ) (o : Option ℤ) → Fits (least_of x o) o
least_of-Fits x none = tt
least_of-Fits x (some c) = ground arith

least-le : (x : ℤ) (limits : List Limit) → least x limits ≤ℤ x
least-le x [] = omega arith
least-le x (l ∷ rest) = omega (arith, least-le (least_of x l.1) rest, least_of-le x l.1)

least-FitsAll : (x : ℤ) (limits : List Limit) → All (FitsLimit (least x limits)) limits
least-FitsAll x [] = tt
least-FitsAll x (l ∷ rest) = (
  λ _.
      Fits-trans (least x (l ∷ rest)) (least_of x l.1) l.1 (least-le (least_of x l.1) rest)
        (least_of-Fits x l.1),
  least-FitsAll (least_of x l.1) rest,
)

allows-Fits : (x : ℤ) (o : Option ℤ) → allows x o ≡ true → Fits x o
allows-Fits x none h = tt
allows-Fits x (some c) h = ground (arith, h)

can_raise-FitsAll :
    (x : ℤ) (limits : List Limit) → can_raise x limits ≡ true → All (FitsLimit x) limits
can_raise-FitsAll x [] h = tt
can_raise-FitsAll x (l ∷ rest) h =
    let (now, later) = and_true (is_intent_cap l.0 || allows x l.1) (can_raise x rest) h in
    (λ e. allows-Fits x l.1 (ground (arith, now, e)), can_raise-FitsAll x rest later)

abbrev pub IsSized : (min_required : ℤ) → List Limit → Sizing → Type 0
IsSized min_required limits (too_small _) = Unit
IsSized min_required limits (sized x _) = (min_required ≤ℤ x) × All (FitsLimit x) limits

pub size-IsSized :
    (min_required requested : ℤ) (limits : List Limit)
    → IsSized min_required limits (size min_required requested limits)
unfolding size
size-IsSized min_required requested limits =
    if_intro (IsSized min_required limits) (ltb_ℤ (least requested limits) min_required)
      (λ _.
        if_intro (IsSized min_required limits) (can_raise min_required limits)
          (λ e. (omega arith, can_raise-FitsAll min_required limits e)) (λ _. tt))
      (λ e. (ground (arith, e), least-FitsAll requested limits))
