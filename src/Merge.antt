-- ===== src/Merge.antt =====
-- adapters/btcturk/reconcile.py: the merge of REST open orders and websocket events.
-- A merge copies the dictionaries of the previous state but not the `_OrderExecutionAggregate`
-- objects in them, which it then changes in place. So the objects live in a heap, a dictionary
-- holds their addresses, and a merge takes the heap and gives it back. Texts are numbers, and 0 is
-- the empty one; quantities are whole numbers of one unit, times of another.
pub mod Cells
pub mod Linked
pub mod Counted
pub mod Open
mod Latest
pub mod Delivered
mod Retried
mod Tests
pub mod Events
use meva_beta_alpha_codex.Base.{
  ℕ, zero, suc, ◌+◌, ◌≡◌, Bool, true, false, ◌&&◌, ◌||◌, Option, none, some, List, [], ◌∷◌, ◌++◌,
  length, if◌then◌else◌, ltb, leb, nat_beq, sorted, number_key, get_or, any, Key, ◌==◌, ◌↔◌, refl,
}
use native.Mathlib.Omega.{arith}
use meva_beta_alpha_codex.Base.Int.{ℤ, pos, ◌+ℤ◌}
use meva_beta_alpha_codex.Base.Dict.{Dict, lookup, insert, erase, values}
use meva_beta_alpha_codex.Stage4.{truthy}
use meva_beta_alpha_codex.Merge.Cells.{update_at}
use meva_beta_alpha_codex.Merge.Events.{
  OpenOrderView, FillEvent, OrderTerminalUpdate, Aggregate, new_aggregate, OrderKey, oid, cid,
  unknown, key_beq, key_beq_iff, order_key_key, order_key, Heap, Links, ReconcileState, new_state,
  member,
}

-- An object that is there is changed in place; otherwise a new one is, and is filed.
unfoldable pub change_found :
    OrderKey → (Aggregate → Aggregate) → Option ℕ → Heap → Links → Heap × Links
change_found k f (some address) h d = (update_at address f h, d)
change_found k f none h d = (h ++ f new_aggregate ∷ [], insert k (length h) d)

-- `setdefault(key, _OrderExecutionAggregate())`, and a change of the object that it gives. A default
-- object that is not used is not in the heap.
abbrev pub change : OrderKey → (Aggregate → Aggregate) → Heap → Links → Heap × Links
change k f h d = change_found k f (lookup k d) h d

abbrev pub key_of_fill : FillEvent → OrderKey
key_of_fill e = order_key e.order_id e.client_order_id

abbrev pub add_fill : FillEvent → Aggregate → Aggregate
add_fill e a = record {
  filled_qty = a.filled_qty +ℤ e.quantity;
  last_fill_ts = some e.ts;
  last_event_ts = some e.ts;
}

-- The heap, the state, and how many events were new.
pub record Merging : Type 0 where
  pub heap : Heap
  pub state : ReconcileState
  pub new_events : ℕ

-- The body of the loop over the fills, for a fill that was not seen.
unfoldable pub book_fill : FillEvent → Merging → Merging
book_fill e m =
    let (h, d) = change (key_of_fill e) (add_fill e) m.heap m.state.aggregates_by_order_key in
    record {
      heap = h;
      state = record m.state {
        seen_fill_ids = e.fill_id ∷ m.state.seen_fill_ids;
        fills = insert e.fill_id e m.state.fills;
        aggregates_by_order_key = d;
      };
      new_events = m.new_events + 1;
    }

unfoldable pub fill_step : FillEvent → Merging → Merging
fill_step e m = if member e.fill_id m.state.seen_fill_ids then m else book_fill e m

unfoldable pub fill_loop : List FillEvent → Merging → Merging
fill_loop [] m = m
fill_loop (e ∷ rest) m = fill_loop rest (fill_step e m)

abbrev pub key_of_terminal : OrderTerminalUpdate → OrderKey
key_of_terminal t = order_key t.order_id t.client_order_id

-- `prior is None or prior.ts <= terminal.ts`
abbrev pub supersedes : OrderTerminalUpdate → Option OrderTerminalUpdate → Bool
supersedes t none = true
supersedes t (some prior) = leb prior.ts t.ts

abbrev pub set_last_event : ℕ → Aggregate → Aggregate
set_last_event ts a = record a { last_event_ts = some ts }

-- The body of the loop over the terminal updates.
unfoldable pub terminal_step : OrderTerminalUpdate → Merging → Merging
terminal_step t m =
    let k = key_of_terminal t in
    let is_new = supersedes t (lookup k m.state.terminal_updates) in
    let (h, d) = change k (set_last_event t.ts) m.heap m.state.aggregates_by_order_key in
    record {
      heap = h;
      state = record m.state {
        terminal_updates =
            if is_new then insert k t m.state.terminal_updates else m.state.terminal_updates;
        aggregates_by_order_key = d;
      };
      new_events = if is_new then m.new_events + 1 else m.new_events;
    }

unfoldable pub terminal_loop : List OrderTerminalUpdate → Merging → Merging
terminal_loop [] m = m
terminal_loop (t ∷ rest) m = terminal_loop rest (terminal_step t m)

abbrev pub key_of_open : OpenOrderView → OrderKey
key_of_open o = order_key (some o.order_id) o.client_order_id

-- The dict comprehension of the open orders.
unfoldable pub by_key :
    List OpenOrderView → Dict OrderKey OpenOrderView → Dict OrderKey OpenOrderView
by_key [] d = d
by_key (o ∷ rest) d = by_key rest (insert (key_of_open o) o d)

pub record Diagnostics : Type 0 where
  pub ws_events_seen : ℕ
  pub ws_fill_new : ℕ
  pub ws_terminal_new : ℕ
  pub rest_open_orders_count : ℕ
  pub open_orders_after_merge : ℕ

pub record ReconcileResult : Type 0 where
  pub open_orders : List OpenOrderView
  pub fills : List FillEvent
  pub terminal_updates : List OrderTerminalUpdate
  pub diagnostics : Diagnostics

-- What came in since the last merge.
pub record Batch : Type 0 where
  pub rest_open_orders : List OpenOrderView
  pub ws_fills : List FillEvent
  pub ws_terminal_updates : List OrderTerminalUpdate

-- The order of a pair of sort keys.
abbrev pair_leb : ℕ → ℕ → ℕ → ℕ → Bool
pair_leb a b x y = ltb a x || (nat_beq a x && leb b y)

-- The merge of the events alone.
unfoldable pub merge_events : Heap → ReconcileState → Batch → Merging × Merging
merge_events h previous b =
    let filled = fill_loop b.ws_fills (record { heap = h; state = previous; new_events = 0 }) in
    (filled, terminal_loop b.ws_terminal_updates (record filled { new_events = 0 }))

-- `str.upper` and the two status texts.
module _ (upper : ℕ → ℕ) (canceled_text filled_text : ℕ) where
  abbrev pub is_ended : OrderTerminalUpdate → Bool
  is_ended t = nat_beq (upper t.status) canceled_text || nat_beq (upper t.status) filled_text

  -- Terminal updates that end an order take it off the open orders.
  unfoldable pub drop_ended :
      Dict OrderKey OrderTerminalUpdate → Dict OrderKey OpenOrderView → Dict OrderKey OpenOrderView
  drop_ended [] d = d
  drop_ended ((k, t) ∷ rest) d = drop_ended rest (if is_ended t then erase k d else d)

  unfoldable pub merge : Heap → ReconcileState → Batch → Heap × ReconcileState × ReconcileResult
  merge h previous b =
      let (filled, ended) = merge_events h previous b in
      let open_by_key = drop_ended ended.state.terminal_updates (by_key b.rest_open_orders []) in
      (
        ended.heap,
        ended.state,
        record {
          open_orders =
              sorted (λ x y. pair_leb x.symbol x.order_id y.symbol y.order_id) (values open_by_key);
          fills = sorted (λ x y. pair_leb x.ts x.fill_id y.ts y.fill_id) (values ended.state.fills);
          terminal_updates =
              sorted
                (λ x y.
                  ltb x.ts y.ts
                  || (nat_beq x.ts y.ts
                      && pair_leb x.status (get_or 0 x.order_id) y.status (get_or 0 y.order_id)))
                (values ended.state.terminal_updates);
          diagnostics = record {
            ws_events_seen = length b.ws_fills + length b.ws_terminal_updates;
            ws_fill_new = filled.new_events;
            ws_terminal_new = ended.new_events;
            rest_open_orders_count = length b.rest_open_orders;
            open_orders_after_merge = length open_by_key;
          };
        },
      )
