-- ===== src/Sizing/Tests.antt =====
-- Sizing with a tick of 0.05, a step of 0.001 and a minimum of 10 TRY.
use meva_beta_alpha_codex.Base.{ℕ, ◌*◌, ◌≡◌, refl, true, false, none, some}
use meva_beta_alpha_codex.Base.Int.{pos, ◌*ℤ◌}
use meva_beta_alpha_codex.Sizing.{
  SymbolRules, order_ok, below_min_notional, min_notional, target_notional,
  size_order_from_notional, with_price, with_quantity, quantize_price, quantize_quotient, cut_down,
  validate_order, notional_below_min_notional_after_quantize,
}
use meva_beta_alpha_codex.Sizing.Accepted.{Returns, IsSettled, size_order-Returns}

-- One TRY.
abbrev lira : ℕ
lira = 10000000000000000

abbrev rules : SymbolRules
rules = record {
  price_scale = 2;
  quantity_scale = 4;
  min_total = some (pos (10 * lira));
  min_price = none;
  max_price = none;
  min_qty = some (pos 100000);
  max_qty = none;
  tick_size = some (pos 5000000);
  step_size = some (pos 100000);
}

size_order-Returns_example :
    Returns
      (IsSettled rules
        (min_notional rules (pos 0))
        (target_notional rules (pos (50 * lira)) (pos 0) false)
        (pos 712300000))
      (size_order_from_notional (pos (50 * lira)) (pos 712300000) rules (pos 0) false)
size_order-Returns_example =
    size_order-Returns (pos (50 * lira)) (pos 712300000) rules (pos 0) false

-- 50 TRY at 7.123 are 7.042 at 7.10.
fifty :
    size_order_from_notional (pos (50 * lira)) (pos 712300000) rules (pos 0) false
    ≡ some (record {
      status = order_ok;
      quantized_price = pos 710000000;
      quantized_quantity = pos 704200000;
      notional_try = pos (710000000 * 704200000);
      reason = none;
    })
unfolding size_order_from_notional with_price with_quantity quantize_price quantize_quotient
    cut_down validate_order ◌*ℤ◌
fifty = refl

-- An upgrade to the minimum of 10 TRY at 7.10 is cut down to 1.408, which is below the minimum.
upgraded :
    size_order_from_notional (pos (5 * lira)) (pos 710000000) rules (pos 0) true
    ≡ some (record {
      status = below_min_notional;
      quantized_price = pos 710000000;
      quantized_quantity = pos 140800000;
      notional_try = pos (710000000 * 140800000);
      reason = some notional_below_min_notional_after_quantize;
    })
unfolding size_order_from_notional with_price with_quantity quantize_price quantize_quotient
    cut_down validate_order ◌*ℤ◌
upgraded = refl
