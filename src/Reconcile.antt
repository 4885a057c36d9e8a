-- ===== src/Reconcile.antt =====
-- services/reconcile_service.py: the comparison of the exchange's open orders with the stored ones.
-- `blocked` tells whether a symbol, in upper case, is among the failed ones; symbols are numbers.
mod Closed
mod Tests
use meva_beta_alpha_codex.Base.{
  ℕ, zero, suc, Bool, true, false, not, ◌&&◌, Option, none, some, List, [], ◌∷◌, ◌++◌,
  if◌then◌else◌, number_key,
}
use meva_beta_alpha_codex.Base.Dict.{Dict, lookup, insert, contains}
use meva_beta_alpha_codex.Stage4.{OrderMode, dry_run, live, external, Order, truthy}

pub record ReconcileResult : Type 0 where
  pub mark_unknown_closed : List ℕ
  pub import_external : List Order
  pub enrich_exchange_ids : List (ℕ × ℕ)
  pub external_missing_client_id : List Order

abbrev pub is_external : OrderMode → Bool
is_external external = true
is_external live = false
is_external dry_run = false

-- A dictionary by client order id gets an order whose id is not empty.
abbrev pub put_by_id : Option ℕ → Order → Dict ℕ Order → Dict ℕ Order
put_by_id none o d = d
put_by_id (some zero) o d = d
put_by_id (some (suc id)) o d = insert (suc id) o d

-- `exchange_by_client`; of two orders with one id the later one stays.
unfoldable pub exchange_by_client : List Order → Dict ℕ Order → Dict ℕ Order
exchange_by_client [] d = d
exchange_by_client (o ∷ rest) d = exchange_by_client rest (put_by_id o.client_order_id o d)

unfoldable pub missing_client_id : List Order → List Order
missing_client_id [] = []
missing_client_id (o ∷ rest) =
    if truthy o.client_order_id then missing_client_id rest else o ∷ missing_client_id rest

-- `db_by_client`: the stored orders that are not external ones.
unfoldable pub db_by_client : List Order → Dict ℕ Order → Dict ℕ Order
db_by_client [] d = d
db_by_client (o ∷ rest) d =
    db_by_client rest (if is_external o.mode then d else put_by_id o.client_order_id o d)

-- What the loop over `db_by_client` collects.
pub record Findings : Type 0 where
  pub closed : List ℕ
  pub enriched : List (ℕ × ℕ)

abbrev pub enrich : ℕ → (stored found : Option ℕ) → Findings → Findings
enrich id (some (suc _)) found f = f
enrich id _ (some (suc e)) f = record f { enriched = (id, suc e) ∷ f.enriched }
enrich id _ _ f = f

-- One stored order whose symbol is not blocked, by its match on the exchange.
abbrev pub found_or_closed : ℕ → Order → Option Order → Findings → Findings
found_or_closed id o none f = record f { closed = id ∷ f.closed }
found_or_closed id o (some found) f = enrich id o.exchange_order_id found.exchange_order_id f

unfoldable pub compare_stored :
    (blocked : ℕ → Bool) (exchange : Dict ℕ Order) → Dict ℕ Order → Findings
compare_stored blocked exchange [] = record { closed = []; enriched = [] }
compare_stored blocked exchange ((id, o) ∷ rest) =
    let later = compare_stored blocked exchange rest in
    if blocked o.symbol then later else found_or_closed id o (lookup id exchange) later

unfoldable pub imports : (db : Dict ℕ Order) → Dict ℕ Order → List Order
imports db [] = []
imports db ((id, o) ∷ rest) =
    if contains id db then imports db rest else record o { mode = external } ∷ imports db rest

unfoldable pub resolve :
    (exchange_open_orders db_open_orders : List Order) (blocked : ℕ → Bool) → ReconcileResult
unfolding exchange_by_client db_by_client missing_client_id compare_stored imports
resolve exchange_open_orders db_open_orders blocked =
    let exchange = exchange_by_client exchange_open_orders [] in
    let db = db_by_client db_open_orders [] in
    let f = compare_stored blocked exchange db in
    record {
      mark_unknown_closed = f.closed;
      import_external = imports db exchange;
      enrich_exchange_ids = f.enriched;
      external_missing_client_id = missing_client_id exchange_open_orders;
    }
