-- ===== src/Sizing/Accepted.antt =====
-- What a sized order keeps to.
use meva_beta_alpha_codex.Base.{
  ℕ, zero, suc, ◌+◌, ◌*◌, ◌≤◌, ◌<◌, ◌≡◌, refl, ap, sym, subst, Bool, true, false, not, ◌&&◌, Option,
  none, some, if_intro, arith,
}
use meva_beta_alpha_codex.Base.Int.{
  ℤ, pos, negsuc, pos_part, ◌+ℤ◌, ◌*ℤ◌, pos-add, pos-mul, nonneg-pos, ltb_ℤ, leb_ℤ, ◌≤ℤ◌, ◌<ℤ◌,
}
use meva_beta_alpha_codex.Sizing.Grid.{step_of-pos, cut_down-again, cut_down-le, lt-cut_down}
use meva_beta_alpha_codex.Sizing.{
  SymbolRules, step_of, cut_down, quantize_price, quantize_quotient, quantize_quantity, Violation,
  validate_order, OrderSizingStatus, order_ok, violates_rules, below_min_notional, invalid_price,
  invalid_quantity, refused, desired_below_min_notional, OrderSizingResult, min_notional, validated,
  with_quantity, after, with_price, target_notional, size_order_from_notional,
}

-- The values stay the same when they are quantized.
pub record OnGrid (r : SymbolRules) (price qty : ℤ) : Type 0 where
  pub price_on : quantize_price price r ≡ some price
  pub qty_on : quantize_quantity qty r ≡ some qty

-- An order of at most `target` TRY, at most the desired price, and at least `least` TRY if that is
-- positive, which passes the rules; the next larger quantity would be too much.
pub record IsGood (r : SymbolRules) (least target desired_price : ℤ) (x : OrderSizingResult)
    : Type 0 where
  pub valid : validate_order x.quantized_price x.quantized_quantity r ≡ none
  pub notional_is : x.notional_try ≡ x.quantized_price *ℤ x.quantized_quantity
  pub price_down : x.quantized_price ≤ℤ desired_price
  pub within : x.notional_try ≤ℤ target
  pub enough : pos 0 <ℤ least → least ≤ℤ x.notional_try
  pub largest :
      target
      <ℤ x.quantized_price *ℤ (x.quantized_quantity +ℤ pos (step_of r.step_size r.quantity_scale))

-- There is a result, no error; an accepted one is good, and one that breaks the rules of the symbol
-- breaks its bounds, not its grid.
pub record IsSettled (r : SymbolRules) (least target desired_price : ℤ) (x : OrderSizingResult)
    : Type 0 where
  pub good : x.status ≡ order_ok → IsGood r least target desired_price x
  pub grid : x.status ≡ violates_rules → OnGrid r x.quantized_price x.quantized_quantity

abbrev pub Returns : (OrderSizingResult → Type 0) → Option OrderSizingResult → Type 0
Returns P none = ⊥
Returns P (some x) = P x

abbrev is_refusal : OrderSizingStatus → Bool
is_refusal order_ok = false
is_refusal violates_rules = false
is_refusal below_min_notional = true
is_refusal invalid_price = true
is_refusal invalid_quantity = true

refusal-IsSettled :
    {r : SymbolRules} {least target desired_price : ℤ} {x : OrderSizingResult}
    → is_refusal x.status ≡ true
    → IsSettled r least target desired_price x
refusal-IsSettled h = record { good = λ s. ground (arith, h, s); grid = λ s. ground (arith, h, s) }

module _ (r : SymbolRules) (least target desired_price : ℤ) where
  -- What is known of a price and a quantity before they are validated.
  pub record IsCut (price qty : ℤ) : Type 0 where
    pub on_grid : OnGrid r price qty
    pub cut_price : price ≤ℤ desired_price
    pub fits : price *ℤ qty ≤ℤ target
    pub next_too_large : target <ℤ price *ℤ (qty +ℤ pos (step_of r.step_size r.quantity_scale))

  validated-IsSettled :
      (price qty : ℤ) (o : Option Violation)
      → validate_order price qty r ≡ o
      → IsCut price qty
      → (pos 0 <ℤ least → least ≤ℤ price *ℤ qty)
      → IsSettled r least target desired_price (validated price qty o)
  validated-IsSettled price qty none e c large = record {
    good = λ _. record {
      valid = e;
      notional_is = refl;
      price_down = c.cut_price;
      within = c.fits;
      enough = large;
      largest = c.next_too_large;
    };
    grid = λ s. ground (arith, s);
  }
  validated-IsSettled price qty (some _) e c large = record {
    good = λ s. ground (arith, s);
    grid = λ _. c.on_grid;
  }

  with_quantity-IsSettled :
      (price qty : ℤ)
      → IsCut price qty
      → IsSettled r least target desired_price (with_quantity r least price qty)
  unfolding with_quantity
  with_quantity-IsSettled price qty c =
      let P = IsSettled r least target desired_price in
      if_intro P (leb_ℤ qty (pos 0)) (λ _. refusal-IsSettled refl)
        (λ _.
          if_intro P (ltb_ℤ (pos 0) least && ltb_ℤ (price *ℤ qty) least)
            (λ _. refusal-IsSettled refl)
            (λ e.
              validated-IsSettled price qty (validate_order price qty r) refl c
                (λ large. ground (arith, e, large))))

times-le : (p q t : ℕ) → p * q ≤ t → pos p *ℤ pos q ≤ℤ pos t
times-le p q t h = rw (pos-mul p q) (omega (arith, h))

lt-times : (p q s t : ℕ) → t < p * (q + s) → pos t <ℤ pos p *ℤ (pos q +ℤ pos s)
lt-times p q s t h = rw (pos-add q s, pos-mul p (q + s)) (omega (arith, h))

module _ (r : SymbolRules) (least : ℤ) (t : ℕ) (desired_price : ℤ) where
  quotient-IsCut :
      (p : ℕ)
      → quantize_price (pos (suc p)) r ≡ some (pos (suc p))
      → pos (suc p) ≤ℤ desired_price
      → IsCut r least
          (pos t)
          desired_price
          (pos (suc p))
          (pos (cut_down (step_of r.step_size r.quantity_scale) t (suc p)))
  unfolding quantize_quotient
  quotient-IsCut p on le =
      let s = step_of r.step_size r.quantity_scale in
      let s_pos = step_of-pos r.step_size r.quantity_scale in
      record {
        on_grid = record {
          price_on = on;
          qty_on = ap (λ q. some (pos q)) (cut_down-again s t (suc p) s_pos);
        };
        cut_price = le;
        fits = times-le (suc p) (cut_down s t (suc p)) t (cut_down-le s t (suc p));
        next_too_large =
            lt-times (suc p) (cut_down s t (suc p)) s t
              (lt-cut_down s t (suc p) s_pos (omega arith));
      }

  abbrev Settled : OrderSizingResult → Type 0
  Settled = IsSettled r least (pos t) desired_price

  with_price-Returns :
      (p : ℕ)
      → quantize_price (pos p) r ≡ some (pos p)
      → pos p ≤ℤ desired_price
      → Returns Settled (with_price r least (pos t) (pos p))
  unfolding with_price quantize_quotient
  with_price-Returns zero on le = refusal-IsSettled refl
  with_price-Returns (suc p) on le =
      let cut = quotient-IsCut p on le in
      if_intro (Returns Settled) (leb_ℤ (pos (suc p)) (pos 0)) (λ _. refusal-IsSettled refl)
        (λ _. with_quantity-IsSettled r least (pos t) desired_price (pos (suc p)) _ cut)

priced-Returns :
    (r : SymbolRules) (least : ℤ) (t d : ℕ)
    → Returns
        (IsSettled r least (pos t) (pos d))
        (after (quantize_price (pos d) r) (λ p. with_price r least (pos t) p))
unfolding quantize_price
priced-Returns r least t d =
    let s = step_of r.tick_size r.price_scale in
    let p = cut_down s d 1 in
    with_price-Returns r least t (pos d) p
      (ap (λ q. some (pos q)) (cut_down-again s d 1 (step_of-pos r.tick_size r.price_scale)))
      (omega (arith, cut_down-le s d 1))

early-Returns :
    (r : SymbolRules) (least target : ℤ) (d : ℕ)
    → Returns (IsSettled r least target (pos d)) (
        after
          (quantize_price (pos d) r)
          (λ p. some (refused below_min_notional p (pos 0) (pos 0) desired_below_min_notional)))
unfolding quantize_price
early-Returns r least target d = refusal-IsSettled refl

-- For any amount, price, rules and minimum, sizing an order gives a result and no error. An accepted
-- result passes the rules of the symbol, has at most the desired price and at most the target amount
-- (the desired one, or with an upgrade allowed the larger of that and the minimum), reaches the
-- minimum if that is positive, and the next larger quantity would exceed the target. A result that
-- violates the rules is on the grid of price and quantity, so it breaks a bound.
pub size_order-Returns :
    (desired price : ℤ) (r : SymbolRules) (fallback : ℤ) (allow : Bool)
    → Returns
        (IsSettled r (min_notional r fallback) (target_notional r desired fallback allow) price)
        (size_order_from_notional desired price r fallback allow)
unfolding size_order_from_notional
size_order-Returns desired (negsuc d) r fallback allow =
    let least = min_notional r fallback in
    let target = target_notional r desired fallback allow in
    let P = Returns (IsSettled r least target (negsuc d)) in
    if_intro P (leb_ℤ desired (pos 0)) (λ _. refusal-IsSettled refl)
      (λ _.
        if_intro P (leb_ℤ (negsuc d) (pos 0)) (λ _. refusal-IsSettled refl)
          (λ e. ground (arith, e)))
size_order-Returns desired (pos d) r fallback allow =
    let least = min_notional r fallback in
    let target = target_notional r desired fallback allow in
    let P = Returns (IsSettled r least target (pos d)) in
    if_intro P (leb_ℤ desired (pos 0)) (λ _. refusal-IsSettled refl)
      (λ positive.
        if_intro P (leb_ℤ (pos d) (pos 0)) (λ _. refusal-IsSettled refl)
          (λ _.
            if_intro P (ltb_ℤ desired least && not allow) (λ _. early-Returns r least target d)
              (λ _.
                let is_pos : target ≡ pos (pos_part target) =
                  nonneg-pos target (ground (arith, positive)) in
                subst
                  (λ t.
                    Returns (IsSettled r least t (pos d))
                      (after (quantize_price (pos d) r) (λ p. with_price r least t p)))
                  (sym is_pos) (priced-Returns r least (pos_part target) d))))
