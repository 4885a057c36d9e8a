-- ===== src/StageLedger/Matching.antt =====
-- The loop of a sale: it ends, and takes what there is.
use native.Mathlib.Nat.{mul-div_cancel, mul-sub}
use meva_beta_alpha_codex.Base.{
  ℕ, zero, suc, ◌+◌, ◌-◌, ◌*◌, ◌/◌, ◌≤◌, ◌≡◌, refl, ap, sym, ◌∙◌, subst, min, Option, none, some,
  List, [], ◌∷◌, length, All, if◌then◌else◌, if_intro, leb, Bool-cases, inl, inr, arith, ◌⊎◌,
}
use meva_beta_alpha_codex.Sizing.{cut_down, quantize_to_step}
use meva_beta_alpha_codex.Sizing.Grid.{cut_down-again}
use meva_beta_alpha_codex.StageLedger.Records.{PositionLot, MoneyMathPolicy, round_qty}
use meva_beta_alpha_codex.StageLedger.{Sale, sale_step, sale_loop}

-- The quantity is not changed by the rounding.
abbrev pub OnGrid : MoneyMathPolicy → ℕ → Type 0
OnGrid p n = round_qty p n ≡ n

abbrev pub quantities : List PositionLot → ℕ
quantities [] = 0
quantities (lot ∷ rest) = lot.qty + quantities rest

step-again :
    (step n : ℕ) → quantize_to_step step (quantize_to_step step n) ≡ quantize_to_step step n
step-again zero n = refl
step-again (suc s) n = cut_down-again (suc s) n 1 (omega arith)

pub round_qty-OnGrid : (p : MoneyMathPolicy) (n : ℕ) → OnGrid p (round_qty p n)
round_qty-OnGrid p n = step-again p.qty_step n

multiple : (s k : ℕ) → quantize_to_step (suc s) (k * suc s) ≡ k * suc s
unfolding cut_down
multiple s k =
    ap (λ d. k * suc s / d * suc s) (omega arith)
    ∙ ap (λ m. m * suc s) (mul-div_cancel k (omega arith))

step-sub :
    (step a b : ℕ)
    → quantize_to_step step a ≡ a
    → quantize_to_step step b ≡ b
    → quantize_to_step step (a - b) ≡ a - b
unfolding cut_down
step-sub zero a b ha hb = refl
step-sub (suc s) a b ha hb =
    let i = a / (1 * suc s) in
    let j = b / (1 * suc s) in
    let e : a - b ≡ (i - j) * suc s = omega (arith, ha, hb, mul-sub (suc s) i j) in
    ap (quantize_to_step (suc s)) e ∙ multiple s (i - j) ∙ sym e

pub OnGrid-sub : (p : MoneyMathPolicy) (a b : ℕ) → OnGrid p a → OnGrid p b → OnGrid p (a - b)
OnGrid-sub p a b ha hb = step-sub p.qty_step a b ha hb

-- The lots of a symbol on its grid.
abbrev pub LotsOnGrid : MoneyMathPolicy → List PositionLot → Type 0
LotsOnGrid p lots = All (λ lot. OnGrid p lot.qty) lots

-- A sale that is over: it has taken what it had to, or all there was, and no more.
pub record IsOver (p : MoneyMathPolicy) (to_sell held : ℕ) (end : Sale) : Type 0 where
  pub balance : quantities end.lots + to_sell ≡ held + end.remaining
  pub all_or_nothing_left : (end.remaining ≡ 0) ⊎ (quantities end.lots ≡ 0)
  pub lots_on : LotsOnGrid p end.lots

-- The loop has ended, in a state with the property.
abbrev pub Ends : (Sale → Type 0) → Option Sale → Type 0
Ends P none = ⊥
Ends P (some s) = P s

module _ (p : MoneyMathPolicy) (price : ℕ) where
  rounded_rest : (a b m : ℕ) → OnGrid p a → OnGrid p b → a - m ≡ a - b → round_qty p (a - m) ≡ a - b
  rounded_rest a b m ha hb e = ap (round_qty p) e ∙ OnGrid-sub p a b ha hb

  -- The lots after a round, without the rounding.
  abbrev lots_after : PositionLot → List PositionLot → (remaining : ℕ) → List PositionLot
  lots_after lot rest r =
      if leb (lot.qty - r) 0 then rest else record lot { qty = lot.qty - r } ∷ rest

  step-remaining :
      (lot : PositionLot) (rest : List PositionLot) (s : Sale)
      → OnGrid p s.remaining
      → OnGrid p lot.qty
      → (sale_step p price lot rest s).remaining ≡ s.remaining - lot.qty
  unfolding sale_step
  step-remaining lot rest s hs hl =
      rounded_rest s.remaining lot.qty (min s.remaining lot.qty) hs hl (omega arith)

  step-lots :
      (lot : PositionLot) (rest : List PositionLot) (s : Sale)
      → OnGrid p s.remaining
      → OnGrid p lot.qty
      → (sale_step p price lot rest s).lots ≡ lots_after lot rest s.remaining
  unfolding sale_step
  step-lots lot rest s hs hl =
      ap (λ q. if leb q 0 then rest else record lot { qty = q } ∷ rest)
        (rounded_rest lot.qty s.remaining (min s.remaining lot.qty) hl hs (omega arith))

  sale_loop-sold_out :
      (fuel : ℕ) (s : Sale) (lots : List PositionLot)
      → s.remaining ≡ 0
      → sale_loop fuel p price s lots ≡ some s
  unfolding sale_loop
  sale_loop-sold_out fuel s [] e = refl
  sale_loop-sold_out zero s (lot ∷ rest) e = rw e refl
  sale_loop-sold_out (suc n) s (lot ∷ rest) e = rw e refl

  at_once-IsOver :
      (s : Sale) → s.remaining ≡ 0 → LotsOnGrid p s.lots → IsOver p 0 (quantities s.lots) s
  at_once-IsOver s e on = record {
    balance = omega (arith, e);
    all_or_nothing_left = inl e;
    lots_on = on;
  }

  -- The rest of the sale makes up the whole.
  more-IsOver : (a b c d : ℕ) (end : Sale) → IsOver p a b end → b + c ≡ d + a → IsOver p c d end
  more-IsOver a b c d end h e = record {
    balance = omega (arith, h.balance, e);
    all_or_nothing_left = h.all_or_nothing_left;
    lots_on = h.lots_on;
  }

  more-Ends :
      (a b c d : ℕ) (o : Option Sale)
      → b + c ≡ d + a
      → Ends (IsOver p a b) o
      → Ends (IsOver p c d) o
  more-Ends a b c d none e h = h
  more-Ends a b c d (some end) e h = more-IsOver a b c d end h e

  pub sale_loop-Ends :
      (fuel : ℕ) (lots : List PositionLot) (s : Sale)
      → length lots ≤ fuel
      → s.lots ≡ lots
      → OnGrid p s.remaining
      → LotsOnGrid p lots
      → Ends (IsOver p s.remaining (quantities lots)) (sale_loop fuel p price s lots)
  unfolding sale_loop
  sale_loop-Ends fuel [] s le e hs hl = record {
    balance = omega (arith, ap quantities e);
    all_or_nothing_left = inr (ap quantities e);
    lots_on = subst (LotsOnGrid p) (sym e) tt;
  }
  sale_loop-Ends zero (lot ∷ rest) s le e hs hl = ground (arith, le)
  sale_loop-Ends (suc n) (lot ∷ rest) s le e hs hl =
      let r = s.remaining in
      let all = lot.qty + quantities rest in
      let next = sale_step p price lot rest s in
      let left = step-remaining lot rest s hs hl.0 in
      let lots = step-lots lot rest s hs hl.0 in
      let next_on : OnGrid p next.remaining =
        subst (OnGrid p) (sym left) (OnGrid-sub p r lot.qty hs hl.0) in
      if_intro (Ends (IsOver p r all)) (leb r 0)
        (λ z.
          more-IsOver 0 (quantities s.lots) r all s
            (at_once-IsOver s (ground (arith, z)) (subst (LotsOnGrid p) (sym e) hl))
            (ground (arith, ap quantities e, z)))
        (λ _. elim (Bool-cases (leb (lot.qty - r) 0)) [
          | inl gone ↦
              let lots_are : next.lots ≡ rest = lots ∙ rw gone refl in
              subst (λ l. Ends (IsOver p r all) (sale_loop n p price next l)) (sym lots_are)
                (more-Ends next.remaining (quantities rest) r all (sale_loop n p price next rest)
                  (ground (arith, left, gone))
                  (sale_loop-Ends n rest next (omega (arith, le)) lots_are next_on hl.1))
          | inr more ↦
              let kept = record lot { qty = lot.qty - r } ∷ rest in
              let lots_are : next.lots ≡ kept = lots ∙ rw more refl in
              let none_left : next.remaining ≡ 0 = ground (arith, left, more) in
              let kept_on : LotsOnGrid p next.lots =
                subst (LotsOnGrid p) (sym lots_are) (OnGrid-sub p lot.qty r hl.0 hs, hl.1) in
              subst (Ends (IsOver p r all)) (sym (sale_loop-sold_out n next next.lots none_left)) (
                more-IsOver 0 (quantities next.lots) r all next
                  (at_once-IsOver next none_left kept_on)
                  (ground (arith, more, ap quantities lots_are)))
        ])
