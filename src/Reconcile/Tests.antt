-- ===== src/Reconcile/Tests.antt =====
-- Two stored orders, one of them still open on the exchange, beside an unknown one.
use meva_beta_alpha_codex.Base.{
  ℕ, ◌≡◌, refl, Bool, false, Option, none, some, List, [], ◌∷◌, any, nat_beq, number_key,
}
use meva_beta_alpha_codex.Base.Int.{pos}
use meva_beta_alpha_codex.Stage4.{buy, live, Order}
use meva_beta_alpha_codex.Reconcile.{
  resolve, exchange_by_client, db_by_client, missing_client_id, compare_stored, imports,
}
use meva_beta_alpha_codex.Reconcile.Closed.{closes, named, is_own, last_with, resolve-closed}

abbrev order : ℕ → Option ℕ → Order
order id exchange_id = record {
  symbol = 5;
  side = buy;
  price = pos 100;
  qty = pos 10;
  status = 1;
  created_at = 0;
  updated_at = 0;
  exchange_order_id = exchange_id;
  client_order_id = some id;
  exchange_client_id = none;
  mode = live;
}

abbrev stored : List Order
stored = order 1 none ∷ order 2 none ∷ []

abbrev listed : List Order
listed = order 2 (some 77) ∷ order 3 (some 78) ∷ []

abbrev nothing_blocked : ℕ → Bool
nothing_blocked symbol = false

order_one_closed : (resolve listed stored nothing_blocked).mark_unknown_closed ≡ 1 ∷ []
unfolding resolve exchange_by_client db_by_client missing_client_id compare_stored imports
order_one_closed = refl

order_two_enriched : (resolve listed stored nothing_blocked).enrich_exchange_ids ≡ (2, 77) ∷ []
unfolding resolve exchange_by_client db_by_client missing_client_id compare_stored imports
order_two_enriched = refl

resolve-closed_example :
    any (nat_beq 1) (resolve listed stored nothing_blocked).mark_unknown_closed
    ≡ closes nothing_blocked (last_with (is_own 1) stored) (any (named 1) listed)
resolve-closed_example = resolve-closed listed stored nothing_blocked 1
