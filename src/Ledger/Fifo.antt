-- ===== src/Ledger/Fifo.antt =====
-- Sales take the oldest units first.
use meva_beta_alpha_codex.Base.{
  ℕ, zero, suc, ◌-◌, ◌≡◌, refl, sym, ap₂, ◌∙◌, true, false, List, [], ◌∷◌, ◌++◌, min, leb, if_intro,
  arith,
}
use native.Mathlib.Numerals.{unary_clauses}
use meva_beta_alpha_codex.Base.Int.{ℤ, pos, ◌+ℤ◌, ◌-ℤ◌}
use meva_beta_alpha_codex.Ledger.{PositionLot, Matched, match_lots, product}
use meva_beta_alpha_codex.Ledger.Replay.{lots_qty}

abbrev pub replicate : ℕ → ℤ → List ℤ
replicate zero c = []
replicate (suc n) c = c ∷ replicate n c

abbrev pub drop : ℕ → List ℤ → List ℤ
drop zero xs = xs
drop (suc n) [] = []
drop (suc n) (x ∷ xs) = drop n xs

-- The cost of each unit held, the oldest first.
abbrev pub units : List PositionLot → List ℤ
units [] = []
units (lot ∷ rest) = replicate lot.qty lot.unit_cost_try ++ units rest

drop-replicate :
    (q a : ℕ) (c : ℤ) (u : List ℤ)
    → drop q (replicate a c ++ u) ≡ replicate (a - q) c ++ drop (q - a) u
drop-replicate zero zero c u = refl
drop-replicate zero (suc a) c u =
    let e : 0 - suc a ≡ 0 = omega arith in rw e (simp unary_clauses refl)
drop-replicate (suc q) zero c u =
    let e : 0 - suc q ≡ 0 = omega arith in rw e (simp unary_clauses refl)
drop-replicate (suc q) (suc a) c u = simp unary_clauses (drop-replicate q a c u)

-- What a sale of `q` units out of `lots` must leave.
abbrev pub IsFifo : List PositionLot → ℕ → Matched → Type 0
IsFifo lots q m = (units m.lots ≡ drop q (units lots)) × (m.remaining ≡ q - lots_qty lots)

used_up :
    (lot : PositionLot) (rest : List PositionLot) (q : ℕ) (m : Matched)
    → leb (lot.qty - min q lot.qty) 0 ≡ true
    → IsFifo rest (q - min q lot.qty) m
    → IsFifo (lot ∷ rest) q m
used_up lot rest q m h k =
    let e : lot.qty - q ≡ 0 = ground (arith, h) in
    let f : q - lot.qty ≡ q - min q lot.qty = ground arith in
    let dropped : drop q (replicate lot.qty lot.unit_cost_try ++ units rest)
        ≡ drop (q - min q lot.qty) (units rest) =
      drop-replicate q lot.qty lot.unit_cost_try (units rest)
      ∙ ap₂ (λ n j. replicate n lot.unit_cost_try ++ drop j (units rest)) e f in
    (k.0 ∙ sym dropped, ground (arith, k.1, h))

left_over :
    (lot : PositionLot) (rest : List PositionLot) (q : ℕ) (gain : ℤ)
    → leb (lot.qty - min q lot.qty) 0 ≡ false
    → IsFifo (lot ∷ rest) q (record {
      remaining = q - min q lot.qty;
      realized = gain;
      lots = record lot { qty = lot.qty - min q lot.qty } ∷ rest;
    })
left_over lot rest q gain h =
    let e : lot.qty - q ≡ lot.qty - min q lot.qty = ground arith in
    let f : q - lot.qty ≡ 0 = ground (arith, h) in
    (
      sym (
          drop-replicate q lot.qty lot.unit_cost_try (units rest)
          ∙ ap₂ (λ n j. replicate n lot.unit_cost_try ++ drop j (units rest)) e f),
      ground (arith, h),
    )

-- A sale of `q` units takes the `q` oldest ones; what remains of it is what exceeds the holding.
pub match_lots-IsFifo :
    (price : ℤ) (q : ℕ) (realized : ℤ) (lots : List PositionLot)
    → IsFifo lots q (match_lots price q realized lots)
unfolding match_lots
match_lots-IsFifo price zero realized lots = (refl, omega arith)
match_lots-IsFifo price (suc r) realized [] = (refl, omega arith)
match_lots-IsFifo price (suc r) realized (lot ∷ rest) =
    let q = suc r in
    let matched = min q lot.qty in
    let gain = realized +ℤ product (price -ℤ lot.unit_cost_try) (pos matched) in
    let later = match_lots price (q - matched) gain rest in
    if_intro (IsFifo (lot ∷ rest) q) (leb (lot.qty - matched) 0) {x = later}
      (λ e. used_up lot rest q later e (match_lots-IsFifo price (q - matched) gain rest))
      λ e. left_over lot rest q gain e
