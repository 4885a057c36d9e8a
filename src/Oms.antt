-- ===== src/Oms.antt =====
-- domain/order_state.py and services/oms_service.py: Stage 7 orders, their events, and the single
-- transition `_transition_once`.
-- Ids are numbers. An event's id is the triple that `make_event_id` hashes, an order's id is the
-- client order id that `make_order_id` hashes, so distinct inputs of the hash give distinct ids.
-- Prices and quantities are whole numbers of 10^-8, times are seconds. Every order is a LIMIT order.
pub mod Store
pub mod Simulator
pub mod Submit
pub mod Process
pub mod Batch
pub mod States
pub mod Orderly
pub mod Idempotency
pub mod AtMostOnce
pub mod Fills
mod Tests
use meva_beta_alpha_codex.Base.{
  ℕ, zero, suc, ◌+◌, Bool, true, false, ◌&&◌, ◌||◌, not, Option, none, some, List, [], ◌∷◌, ◌++◌,
  any, nat_beq, if◌then◌else◌, get_or,
}
use meva_beta_alpha_codex.Base.Int.{ℤ, pos, ◌+ℤ◌, ◌*ℤ◌, ltb_ℤ}
use meva_beta_alpha_codex.Stage4.{Side}
use meva_beta_alpha_codex.Retry.{RetryAttempt}

pub data OrderStatus : Type 0 where
  planned submitted acked partially_filled filled canceled rejected : OrderStatus

pub data EventType : Type 0 where
  submit_requested acked_event rejected_event canceled_event partial_fill filled_event : EventType
  duplicate_ignored throttled idempotency_conflict retry_scheduled retry_giveup : EventType

-- The exceptions of a submit.
pub data SubmitError : Type 0 where
  rate_limit_error network_timeout temporary_unavailable non_retryable_error : SubmitError

-- An average of fill prices, kept as the quotient that the code forms.
pub record Ratio : Type 0 where
  pub num : ℤ
  pub den : ℤ

-- The payload of an event, by the dict that the code builds.
pub data Payload : Type 0 where
  invalid_price_or_qty cancel_requested sim_reject transient_failure_exhausted : Payload
  terminal_order duplicate_key conflict_key conflict_reason : (client_order_id : ℕ) → Payload
  next_eligible : (ts : ℕ) → Payload
  scheduled_retry : RetryAttempt SubmitError → Payload
  submission : (symbol : ℕ) → Side → Payload
  fill : (qty price : ℤ) → Payload

pub record Stage7Order : Type 0 where
  pub client_order_id : ℕ
  pub cycle_id : ℕ
  pub symbol : ℕ
  pub side : Side
  pub price_try : ℤ
  pub qty : ℤ
  pub filled_qty : ℤ
  pub avg_fill_price_try : Option Ratio
  pub status : OrderStatus
  pub last_update : ℕ
  pub intent_hash : ℕ

pub record OrderEvent : Type 0 where
  pub client_order_id : ℕ
  pub seq : ℕ
  pub event_type : EventType
  pub ts : ℕ
  pub payload : Payload
  pub cycle_id : ℕ

abbrev pub status_rank : OrderStatus → ℕ
status_rank planned = 0
status_rank submitted = 1
status_rank acked = 2
status_rank partially_filled = 3
status_rank filled = 4
status_rank canceled = 5
status_rank rejected = 6

abbrev pub type_rank : EventType → ℕ
type_rank submit_requested = 0
type_rank acked_event = 1
type_rank rejected_event = 2
type_rank canceled_event = 3
type_rank partial_fill = 4
type_rank filled_event = 5
type_rank duplicate_ignored = 6
type_rank throttled = 7
type_rank idempotency_conflict = 8
type_rank retry_scheduled = 9
type_rank retry_giveup = 10

abbrev pub has_type : EventType → List EventType → Bool
has_type t = any (λ u. nat_beq (type_rank t) (type_rank u))

-- `_TERMINAL_STATUSES`
abbrev pub is_terminal : OrderStatus → Bool
is_terminal filled = true
is_terminal canceled = true
is_terminal rejected = true
is_terminal planned = false
is_terminal submitted = false
is_terminal acked = false
is_terminal partially_filled = false

-- `allowed_transitions[from]` holds `to`.
unfoldable pub allowed : OrderStatus → OrderStatus → Bool
allowed planned submitted = true
allowed planned canceled = true
allowed planned rejected = true
allowed submitted acked = true
allowed submitted canceled = true
allowed submitted rejected = true
allowed acked partially_filled = true
allowed acked filled = true
allowed acked canceled = true
allowed acked rejected = true
allowed partially_filled partially_filled = true
allowed partially_filled filled = true
allowed partially_filled canceled = true
allowed _ _ = false

-- The status that an event type stands for, where no target is given.
abbrev pub default_status : EventType → OrderStatus → OrderStatus
default_status submit_requested current = submitted
default_status acked_event current = acked
default_status rejected_event current = rejected
default_status canceled_event current = canceled
default_status _ current = current

-- The average after a fill of `qty` at `price`; it stays where the fill or the sum is not positive.
unfoldable pub avg_fill : Stage7Order → ℤ → Option ℤ → Option Ratio
avg_fill order qty none = order.avg_fill_price_try
avg_fill order qty (some price) =
    let prior : Ratio = get_or (record { num = pos 0; den = pos 1 }) order.avg_fill_price_try in
    let total = order.filled_qty +ℤ qty in
    if ltb_ℤ (pos 0) qty && ltb_ℤ (pos 0) total
    then some (record {
      num = prior.num *ℤ order.filled_qty +ℤ price *ℤ qty *ℤ prior.den;
      den = prior.den *ℤ total;
    })
    else order.avg_fill_price_try

-- The keyword arguments of a transition, beside the order.
pub record Transition : Type 0 where
  pub event_type : EventType
  pub payload : Payload
  pub fill_qty : ℤ
  pub fill_price : Option ℤ
  pub target_status : Option OrderStatus

-- A transition with no fill and no target of its own.
abbrev pub plain : EventType → Payload → Transition
plain event_type payload = record {
  event_type = event_type;
  payload = payload;
  fill_qty = pos 0;
  fill_price = none;
  target_status = none;
}

abbrev pub new_status : Stage7Order → Transition → OrderStatus
new_status order t = get_or (default_status t.event_type order.status) t.target_status

-- `status != order.status and status not in allowed_transitions[order.status]`
abbrev pub is_refused : Stage7Order → Transition → Bool
is_refused order t =
    not (nat_beq (status_rank (new_status order t)) (status_rank order.status))
    && not (allowed order.status (new_status order t))

abbrev pub event_of : Stage7Order → ℕ → ℕ → EventType → Payload → OrderEvent
event_of order now seq event_type payload = record {
  client_order_id = order.client_order_id;
  seq = seq;
  event_type = event_type;
  ts = now;
  payload = payload;
  cycle_id = order.cycle_id;
}

unfoldable pub moved : Stage7Order → ℕ → Transition → Stage7Order
unfolding avg_fill
moved order now t = record order {
  status = new_status order t;
  filled_qty = order.filled_qty +ℤ t.fill_qty;
  avg_fill_price_try = avg_fill order t.fill_qty t.fill_price;
  last_update = now;
}

-- `_transition_once`
unfoldable pub transition_once :
    (order : Stage7Order) (now : ℕ)
    → Transition
    → (existing_event_types : List EventType) → (seq : ℕ) → Stage7Order × Option OrderEvent × ℕ
unfolding moved
transition_once order now t existing seq =
    if has_type t.event_type existing
    then (order, none, seq)
    else if is_refused order t
    then (order, none, seq)
    else (moved order now t, some (event_of order now (seq + 1) t.event_type t.payload), seq + 1)

-- Where the handling of one intent stands: the order, the events that it appended, the event types
-- seen, and the last sequence number.
pub record Progress : Type 0 where
  pub order : Stage7Order
  pub events : List OrderEvent
  pub types : List EventType
  pub seq : ℕ

-- `_append_event`
unfoldable pub append_event : ℕ → EventType → Payload → Progress → Progress
append_event now event_type payload p = record p {
  order = record p.order { last_update = now };
  events = p.events ++ event_of p.order now (p.seq + 1) event_type payload ∷ [];
  seq = p.seq + 1;
}

abbrev event_list : Option OrderEvent → List OrderEvent
event_list none = []
event_list (some e) = e ∷ []

abbrev noted : Bool → EventType → Option OrderEvent → List EventType → List EventType
noted false t e types = types
noted true t none types = types
noted true t (some _) types = types ++ t ∷ []

-- What the caller does with the result of a transition: it appends the event, if there is one, and,
-- where `notes` holds, its type to `existing_event_types`.
unfoldable pub take_result :
    (notes : Bool) → EventType → Progress → Stage7Order × Option OrderEvent × ℕ → Progress
take_result notes t p (order, event, seq) = record {
  order = order;
  events = p.events ++ event_list event;
  types = noted notes t event p.types;
  seq = seq;
}

-- A call of `_transition_once` with what follows it.
unfoldable pub transition : (notes : Bool) → ℕ → Transition → Progress → Progress
unfolding take_result
transition notes now t p =
    take_result notes t.event_type p (transition_once p.order now t p.types p.seq)
