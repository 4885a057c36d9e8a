-- ===== src/Oms/Store.antt =====
-- The Stage 7 tables of services/state_store.py that the OMS reads and writes.
use meva_beta_alpha_codex.Base.{
  ℕ, ◌&&◌, Bool, not, Option, none, some, List, [], ◌∷◌, ◌++◌, filter, any, nat_beq, leb, ltb,
  if◌then◌else◌, number_key, sorted, ◌||◌,
}
use meva_beta_alpha_codex.Base.Dict.{Dict, lookup, insert, values}
use meva_beta_alpha_codex.Oms.{Stage7Order, OrderEvent, type_rank, is_terminal}

-- `idempotency` maps a client order id to the payload hash under the key `submit:<id>`.
pub record OmsStore : Type 0 where
  pub orders : Dict ℕ Stage7Order
  pub events : List OrderEvent
  pub idempotency : Dict ℕ ℕ

-- `get_stage7_order_by_client_id`
abbrev pub order_by_client_id : ℕ → OmsStore → Option Stage7Order
order_by_client_id id s = lookup id s.orders

-- `get_stage7_order_events_by_client_id`; the caller reads only the number and the types of the
-- events, so their order does not matter.
abbrev pub events_by_client_id : ℕ → OmsStore → List OrderEvent
events_by_client_id id s = filter (λ e. nat_beq e.client_order_id id) s.events

pub data Registration : Type 0 where
  registered duplicate conflict : Registration

-- By the row that the key has.
unfoldable pub register_key : ℕ → ℕ → OmsStore → Option ℕ → Registration × OmsStore
register_key key payload_hash s none =
    (registered, record s { idempotency = insert key payload_hash s.idempotency })
register_key key payload_hash s (some existing) =
    (if nat_beq existing payload_hash then duplicate else conflict, s)

-- `try_register_idempotency_key`, its exception a result.
unfoldable pub try_register_idempotency_key : ℕ → ℕ → OmsStore → Registration × OmsStore
unfolding register_key
try_register_idempotency_key key payload_hash s =
    register_key key payload_hash s (lookup key s.idempotency)

-- `upsert_stage7_orders`
unfoldable pub upsert_stage7_orders : List Stage7Order → OmsStore → OmsStore
upsert_stage7_orders [] s = s
upsert_stage7_orders (o ∷ rest) s =
    upsert_stage7_orders rest (record s { orders = insert o.client_order_id o s.orders })

-- The primary key of an event.
abbrev pub same_event_id : OrderEvent → OrderEvent → Bool
same_event_id a b =
    nat_beq a.client_order_id b.client_order_id
    && (nat_beq a.seq b.seq && nat_beq (type_rank a.event_type) (type_rank b.event_type))

-- `append_stage7_order_events`: `INSERT OR IGNORE` on the event's id.
unfoldable pub append_stage7_order_events : List OrderEvent → OmsStore → OmsStore
append_stage7_order_events [] s = s
append_stage7_order_events (e ∷ rest) s =
    append_stage7_order_events rest
      (if any (same_event_id e) s.events then s else record s { events = s.events ++ e ∷ [] })

abbrev earlier_update : Stage7Order → Stage7Order → Bool
earlier_update a b =
    ltb a.last_update b.last_update
    || (nat_beq a.last_update b.last_update && leb a.client_order_id b.client_order_id)

-- `load_non_terminal_orders`
unfoldable pub load_non_terminal_orders : OmsStore → List Stage7Order
load_non_terminal_orders s =
    sorted earlier_update (filter (λ o. not (is_terminal o.status)) (values s.orders))
