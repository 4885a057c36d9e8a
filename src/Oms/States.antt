-- ===== src/Oms/States.antt =====
-- The order's way through its states, and the numbering of its events, under every operation of
-- services/oms_service.py.
use meva_beta_alpha_codex.Base.{
  ℕ, ◌+◌, ◌≡◌, sym, subst, Bool, true, false, ◌&&◌, not, Option, none, List, [], ◌∷◌, ◌++◌, length,
  length-append, nat_beq, nat_beq_iff, if_intro, Bool-cases, inl, inr, arith,
}
use mathlib.Core.List.{append-nil}
use meva_beta_alpha_codex.Oms.{
  OrderStatus, status_rank, allowed, is_refused, new_status, moved, event_of, Stage7Order,
  OrderEvent, EventType, has_type, Payload, Transition, Progress, transition_once, transition,
  append_event, take_result,
}

-- A chain of allowed transitions.
pub data StatusPath (s : OrderStatus) : OrderStatus → Type 0 where
  stay : StatusPath s s
  step : {t u : OrderStatus} → StatusPath s t → allowed t u ≡ true → StatusPath s u

-- Sequence numbers that follow `n` without a gap, on events of the order `id`.
abbrev pub Numbered : ℕ → ℕ → List OrderEvent → Type 0
Numbered id n [] = Unit {0}
Numbered id n (e ∷ rest) = (e.seq ≡ n + 1) × (e.client_order_id ≡ id) × Numbered id (n + 1) rest

Numbered-append :
    (id n : ℕ) (es : List OrderEvent) (e : OrderEvent)
    → Numbered id n es
    → e.seq ≡ n + length es + 1
    → e.client_order_id ≡ id
    → Numbered id n (es ++ e ∷ [])
Numbered-append id n [] e h seq own = (omega arith, own, tt)
Numbered-append id n (x ∷ es) e h seq own =
    (h.0, h.1, Numbered-append id (n + 1) es e h.2 (omega arith) own)

-- What holds of the handling of order `id` that began in status `s` after `n` events.
pub record IsOrderly (id n : ℕ) (s : OrderStatus) (p : Progress) : Type 0 where
  pub path : StatusPath s p.order.status
  pub own : p.order.client_order_id ≡ id
  pub numbered : Numbered id n p.events
  pub counted : p.seq ≡ n + length p.events

status_rank-injective : (a b : OrderStatus) → status_rank a ≡ status_rank b → a ≡ b
status_rank-injective a b h = ground arith

module _ (id n : ℕ) (s : OrderStatus) where
  pub append_event-IsOrderly :
      (now : ℕ) (t : EventType) (payload : Payload) (p : Progress)
      → IsOrderly id n s p
      → IsOrderly id n s (append_event now t payload p)
  unfolding append_event
  append_event-IsOrderly now t payload p h =
      let e = event_of p.order now (p.seq + 1) t payload in
      record {
        path = h.path;
        own = h.own;
        numbered = Numbered-append id n p.events e h.numbered (omega (arith, h.counted)) h.own;
        counted = omega (arith, h.counted, length-append {0} p.events (e ∷ []));
      }

  moved-path :
      (order : Stage7Order) (now : ℕ) (t : Transition)
      → is_refused order t ≡ false
      → StatusPath s order.status
      → StatusPath s (moved order now t).status
  unfolding moved
  moved-path order now t goes path =
      elim (Bool-cases (nat_beq (status_rank (new_status order t)) (status_rank order.status))) [
        | inl same ↦
            subst (StatusPath s)
              (sym (
                status_rank-injective (new_status order t) order.status ((nat_beq_iff _ _).0 same)))
              path
        | inr other ↦ StatusPath.step path (passes _ _ goes other)
      ]
    where
      passes : (same ok : Bool) → (not same && not ok) ≡ false → same ≡ false → ok ≡ true
      passes same ok h e = ground arith

  unmoved :
      (notes : Bool) (t : EventType) (p : Progress)
      → IsOrderly id n s p
      → IsOrderly id n s (take_result notes t p (p.order, none, p.seq))
  unfolding take_result
  unmoved notes t p h = record {
    path = h.path;
    own = h.own;
    numbered = rw append-nil h.numbered;
    counted = rw append-nil h.counted;
  }

  pub transition-IsOrderly :
      (notes : Bool) (now : ℕ) (t : Transition) (p : Progress)
      → IsOrderly id n s p
      → IsOrderly id n s (transition notes now t p)
  unfolding transition transition_once moved take_result
  transition-IsOrderly notes now t p h =
      let P : Stage7Order × Option OrderEvent × ℕ → Type 0 =
        λ r. IsOrderly id n s (take_result notes t.event_type p r) in
      if_intro P (has_type t.event_type p.types) (λ _. unmoved notes t.event_type p h)
        λ _.
          if_intro P (is_refused p.order t) (λ _. unmoved notes t.event_type p h)
            λ goes.
              let e = event_of p.order now (p.seq + 1) t.event_type t.payload in
              record {
                path = moved-path p.order now t goes h.path;
                own = h.own;
                numbered =
                    Numbered-append id n p.events e h.numbered (omega (arith, h.counted)) h.own;
                counted = omega (arith, h.counted, length-append {0} p.events (e ∷ []));
              }
