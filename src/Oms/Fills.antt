-- ===== src/Oms/Fills.antt =====
-- A submit that goes through fills the whole order, unless the simulator rejects it.
use meva_beta_alpha_codex.Base.{
  ℕ, ◌+◌, ◌≡◌, refl, sym, ap, ap₂, subst, ◌∙◌, Bool, true, false, not, ◌&&◌, ◌||◌, ◌⊎◌, inl, inr,
  some, List, [], ◌∷◌, ◌++◌, nat_beq, any, Bool-cases, All, arith,
}
use meva_beta_alpha_codex.Base.Int.{ℤ, pos_part, neg_part, ◌+ℤ◌, ◌-ℤ◌, int_laws}
use meva_beta_alpha_codex.Base.Dict.{Dict}
use meva_beta_alpha_codex.Retry.{RetryAttempt, returned}
use meva_beta_alpha_codex.Oms.{
  OrderStatus, planned, submitted, acked, partially_filled, filled, rejected, status_rank,
  EventType, submit_requested, acked_event, rejected_event, partial_fill, filled_event, type_rank,
  has_type, submission, append_event, Payload, SubmitError, sim_reject, allowed, is_refused,
  new_status, moved, event_of, Transition, plain, Progress, transition_once, take_result,
  transition,
}
use meva_beta_alpha_codex.Oms.Simulator.{
  OrderIntent, SimulatorSettings, fill_slices, slices_of, should_reject,
}
use meva_beta_alpha_codex.Oms.Submit.{
  OmsExternals, OmsSettings, Handled, skipped_intent, applied, aborted, finish, log_retries,
  after_retries, total_qty, first_fill, final_fill, partial_transition, final_transition,
  acknowledge, after_submit,
}

slices_of-total :
    (splits both : Bool) (qty first second price : ℤ)
    → second ≡ qty -ℤ first
    → total_qty (slices_of splits both qty first second price) ≡ qty
slices_of-total true true qty first second price h = omega (int_laws, ap pos_part h, ap neg_part h)
slices_of-total true false qty first second price h = omega int_laws
slices_of-total false both qty first second price h = omega int_laws

-- The slices of a fill add up to the quantity of the intent.
fill_slices-total :
    (hex_suffix : ℕ → ℕ) (c : SimulatorSettings) (marks : Dict ℕ ℤ) (i : OrderIntent)
    → total_qty (fill_slices hex_suffix c marks i) ≡ i.qty
unfolding fill_slices
fill_slices-total hex_suffix c marks i = slices_of-total _ _ i.qty _ _ _ refl

-- The order is in status `s`, and has no event of the types `ts`.
pub record IsAt (s : OrderStatus) (ts : List EventType) (p : Progress) : Type 0 where
  pub status : p.order.status ≡ s
  pub lacks : All (λ t. has_type t p.types ≡ false) ts

or_false : (a b : Bool) → (a || b) ≡ false → (a ≡ false) × (b ≡ false)
or_false false b h = (refl, h)
or_false true b h = ground (arith, h)

any-append :
    (f : EventType → Bool) (xs : List EventType) (u : EventType)
    → any f xs ≡ false
    → f u ≡ false
    → any f (xs ++ u ∷ []) ≡ false
any-append f [] u h other = rw other refl
any-append f (x ∷ xs) u h other =
    let (first, later) = or_false (f x) (any f xs) h in rw first (any-append f xs u later other)

noted-lacks :
    (u : EventType) (types ts : List EventType)
    → All (λ t. has_type t types ≡ false) ts
    → All (λ t. nat_beq (type_rank t) (type_rank u) ≡ false) ts
    → All (λ t. has_type t (types ++ u ∷ []) ≡ false) ts
noted-lacks u types [] h other = tt
noted-lacks u types (t ∷ ts) h other =
    (any-append _ types u h.0 other.0, noted-lacks u types ts h.1 other.1)

-- What a transition does that neither guard stops.
goes :
    (notes : Bool) (now : ℕ) (t : Transition) (p : Progress)
    → has_type t.event_type p.types ≡ false
    → is_refused p.order t ≡ false
    → transition notes now t p
      ≡ take_result notes t.event_type p (
        moved p.order now t,
        some (event_of p.order now (p.seq + 1) t.event_type t.payload),
        p.seq + 1,
      )
unfolding transition transition_once
goes notes now t p fresh free = rw (fresh, free) refl

advance :
    (notes : Bool) (now : ℕ) (t : Transition) (p : Progress) (ts : List EventType)
    → has_type t.event_type p.types ≡ false
    → is_refused p.order t ≡ false
    → All (λ v. has_type v p.types ≡ false) ts
    → All (λ v. nat_beq (type_rank v) (type_rank t.event_type) ≡ false) ts
    → IsAt (new_status p.order t) ts (transition notes now t p)
unfolding take_result moved
advance true now t p ts fresh free lacks others =
    subst (IsAt (new_status p.order t) ts) (sym (goes true now t p fresh free))
      (record { status = refl; lacks = noted-lacks t.event_type p.types ts lacks others })
advance false now t p ts fresh free lacks others =
    subst (IsAt (new_status p.order t) ts) (sym (goes false now t p fresh free))
      (record { status = refl; lacks = lacks })

free :
    (t : Transition) (p : Progress) (s u : OrderStatus)
    → p.order.status ≡ s
    → new_status p.order t ≡ u
    → (not (nat_beq (status_rank u) (status_rank s)) && not (allowed s u)) ≡ false
    → is_refused p.order t ≡ false
free t p s u at_s to_u e =
    ap₂ (λ u s. not (nat_beq (status_rank u) (status_rank s)) && not (allowed s u)) to_u at_s ∙ e

abbrev pub fill_types : List EventType
fill_types = rejected_event ∷ partial_fill ∷ filled_event ∷ []

-- A planned order with no event of a submit.
abbrev pub IsUnsent : Progress → Type 0
IsUnsent p = IsAt planned (submit_requested ∷ acked_event ∷ fill_types) p

acknowledge-IsAt : (now : ℕ) (p : Progress) → IsUnsent p → IsAt acked fill_types (acknowledge now p)
unfolding acknowledge allowed
acknowledge-IsAt now p h =
    let info = submission p.order.symbol p.order.side in
    let p₁ = transition true now (plain submit_requested info) p in
    let h₁ : IsAt submitted (acked_event ∷ fill_types) p₁ =
      advance true now (plain submit_requested info) p (acked_event ∷ fill_types) h.lacks.0
        (free (plain submit_requested info) p planned submitted h.status refl refl) h.lacks.1
        (refl, (refl, (refl, (refl, tt)))) in
    advance true now (plain acked_event info) p₁ fill_types h₁.lacks.0
      (free (plain acked_event info) p₁ submitted acked h₁.status refl refl) h₁.lacks.1
      (refl, (refl, (refl, tt)))

-- The order is ready for the final fill.
abbrev IsFillable : Progress → Type 0
IsFillable p = IsAt acked (filled_event ∷ []) p ⊎ IsAt partially_filled (filled_event ∷ []) p

first_fill-IsFillable :
    (now : ℕ) (slices : List (ℤ × ℤ)) (p : Progress)
    → IsAt acked fill_types p
    → IsFillable (first_fill now slices p)
unfolding first_fill allowed
first_fill-IsFillable now [] p h = inl (record { status = h.status; lacks = (h.lacks.1.1.0, tt) })
first_fill-IsFillable now (_ ∷ []) p h =
    inl (record { status = h.status; lacks = (h.lacks.1.1.0, tt) })
first_fill-IsFillable now (first ∷ _ ∷ _) p h = inr (
    advance true now (partial_transition first) p (filled_event ∷ []) h.lacks.1.0
      (free (partial_transition first) p acked partially_filled h.status refl refl)
      (h.lacks.1.1.0, tt) (refl, tt))

-- What the order is at the end of a submit: rejected, or filled with its whole quantity.
abbrev pub IsSettled : (rejects : Bool) (qty : ℤ) → Handled → Type 0
IsSettled true qty (applied order events) = order.status ≡ rejected
IsSettled false qty (applied order events) = (order.status ≡ filled) × (order.filled_qty ≡ qty)
IsSettled rejects qty skipped_intent = ⊥
IsSettled rejects qty aborted = ⊥

-- The last filled quantity, told from the one before.
topped_up : (total before : ℤ) → before +ℤ (total -ℤ before) ≡ total
topped_up total before = omega int_laws

final_free :
    (slices : List (ℤ × ℤ)) (p : Progress)
    → IsFillable p
    → is_refused p.order (final_transition slices p) ≡ false
unfolding allowed
final_free slices p (inl h) = free (final_transition slices p) p acked filled h.status refl refl
final_free slices p (inr h) =
    free (final_transition slices p) p partially_filled filled h.status refl refl

final_fresh : (p : Progress) → IsFillable p → has_type filled_event p.types ≡ false
final_fresh p (inl h) = h.lacks.0
final_fresh p (inr h) = h.lacks.0

final_fill-IsSettled :
    (now : ℕ) (slices : List (ℤ × ℤ)) (p : Progress)
    → IsFillable p
    → IsSettled false (total_qty slices) (finish (final_fill now slices p))
unfolding final_fill moved take_result
final_fill-IsSettled now slices p h =
    let t = final_transition slices p in
    subst (λ r. IsSettled false (total_qty slices) (finish r))
      (sym (goes false now t p (final_fresh p h) (final_free slices p h)))
      (refl, topped_up (total_qty slices) p.order.filled_qty)

rejected-IsSettled :
    (now : ℕ) (payload : Payload) (qty : ℤ) (p : Progress)
    → IsAt acked fill_types p
    → IsSettled true qty (finish (transition false now (plain rejected_event payload) p))
unfolding moved take_result allowed
rejected-IsSettled now payload qty p h =
    let t = plain rejected_event payload in
    subst (λ r. IsSettled true qty (finish r))
      (sym (goes false now t p h.lacks.0 (free t p acked rejected h.status refl refl))) refl

log_retries-IsUnsent :
    (now : ℕ) (retries : List (RetryAttempt SubmitError)) (p : Progress)
    → IsUnsent p
    → IsUnsent (log_retries now retries p)
unfolding log_retries append_event
log_retries-IsUnsent now [] p h = h
log_retries-IsUnsent now (a ∷ rest) p h =
    log_retries-IsUnsent now rest _ (record { status = h.status; lacks = h.lacks })

module _ {L : Type 0} (x : OmsExternals L) (c : OmsSettings) where
  after_submit-IsSettled :
      (now : ℕ) (i : OrderIntent) (p : Progress)
      → IsUnsent p
      → IsSettled
          (should_reject x.hex_suffix c.simulator i)
          i.qty
          (finish (after_submit x c now i p))
  unfolding after_submit
  after_submit-IsSettled now i p h =
      let slices = fill_slices x.hex_suffix c.simulator c.mark_prices_try i in
      let ready = acknowledge-IsAt now p h in
      let total = fill_slices-total x.hex_suffix c.simulator c.mark_prices_try i in
      let done_fill =
        final_fill-IsSettled now slices _ (first_fill-IsFillable now slices _ ready) in
      elim (Bool-cases (should_reject x.hex_suffix c.simulator i)) [
        | inl e ↦ rw e (rejected-IsSettled now sim_reject i.qty _ ready)
        | inr e ↦ rw e (done_fill.0, done_fill.1 ∙ total)
      ]

  -- A planned order without an event of a submit, whose call came back after any retries, is rejected
  -- where the simulator rejects it, and otherwise filled with exactly the quantity of the intent,
  -- whatever it was filled with before.
  pub after_retries-IsSettled :
      (now : ℕ) (i : OrderIntent) (p : Progress) (retries : List (RetryAttempt SubmitError))
      → IsUnsent p
      → IsSettled
          (should_reject x.hex_suffix c.simulator i)
          i.qty
          (after_retries x c now i p retries (returned tt))
  unfolding after_retries
  after_retries-IsSettled now i p retries h =
      after_submit-IsSettled now i (log_retries now retries p)
        (log_retries-IsUnsent now retries p h)
