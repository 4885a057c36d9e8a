-- ===== src/Merge/Events.antt =====
-- The events and views of adapters/btcturk/reconcile.py, the keys of orders, and the state of a merge.
use meva_beta_alpha_codex.Base.{
  ℕ, ◌≡◌, Bool, true, false, Option, none, List, [], if◌then◌else◌, nat_beq, number_key, get_or,
  any, Key, ◌↔◌,
}
use native.Mathlib.Omega.{arith}
use meva_beta_alpha_codex.Base.Int.{ℤ, pos}
use meva_beta_alpha_codex.Base.Dict.{Dict}
use meva_beta_alpha_codex.Stage4.{truthy}

pub record OpenOrderView : Type 0 where
  pub order_id : ℕ
  pub client_order_id : Option ℕ
  pub symbol : ℕ
  pub status : ℕ
  pub quantity : ℤ
  pub remaining_quantity : ℤ
  pub updated_at : Option ℕ

pub record FillEvent : Type 0 where
  pub fill_id : ℕ
  pub order_id : Option ℕ
  pub client_order_id : Option ℕ
  pub symbol : ℕ
  pub price : ℤ
  pub quantity : ℤ
  pub channel : ℕ
  pub ts : ℕ

pub record OrderTerminalUpdate : Type 0 where
  pub order_id : Option ℕ
  pub client_order_id : Option ℕ
  pub symbol : Option ℕ
  pub status : ℕ
  pub reason : ℕ
  pub channel : ℕ
  pub ts : ℕ

-- `_OrderExecutionAggregate`
pub record Aggregate : Type 0 where
  pub filled_qty : ℤ
  pub last_fill_ts : Option ℕ
  pub last_event_ts : Option ℕ

abbrev pub new_aggregate : Aggregate
new_aggregate = record { filled_qty = pos 0; last_fill_ts = none; last_event_ts = none }

-- The texts `oid:…`, `cid:…` and `unknown` that `_order_key` makes.
pub data OrderKey : Type 0 where
  oid : ℕ → OrderKey
  cid : ℕ → OrderKey
  unknown : OrderKey

abbrev pub key_beq : OrderKey → OrderKey → Bool
key_beq (oid a) (oid b) = nat_beq a b
key_beq (cid a) (cid b) = nat_beq a b
key_beq unknown unknown = true
key_beq (oid _) (cid _) = false
key_beq (oid _) unknown = false
key_beq (cid _) (oid _) = false
key_beq (cid _) unknown = false
key_beq unknown (oid _) = false
key_beq unknown (cid _) = false

pub key_beq_iff : (x y : OrderKey) → (key_beq x y ≡ true) ↔ (x ≡ y)
key_beq_iff x y = ground arith

instance abbrev pub order_key_key : Key OrderKey
order_key_key = record { same_iff = key_beq_iff; same = key_beq }

-- `_order_key`
abbrev pub order_key : Option ℕ → Option ℕ → OrderKey
order_key order_id client_order_id =
    if truthy order_id
    then oid (get_or 0 order_id)
    else if truthy client_order_id
    then cid (get_or 0 client_order_id)
    else unknown

abbrev pub Heap : Type 0
Heap = List Aggregate

-- The dictionary of the addresses.
abbrev pub Links : Type 0
Links = Dict OrderKey ℕ

pub record ReconcileState : Type 0 where
  pub seen_fill_ids : List ℕ
  pub fills : Dict ℕ FillEvent
  pub terminal_updates : Dict OrderKey OrderTerminalUpdate
  pub aggregates_by_order_key : Links

abbrev pub new_state : ReconcileState
new_state = record {
  seen_fill_ids = [];
  fills = [];
  terminal_updates = [];
  aggregates_by_order_key = [];
}

abbrev pub member : ℕ → List ℕ → Bool
member x xs = any (nat_beq x) xs
