-- ===== src/Registry/Freeze.antt =====
-- The freeze of services/unknown_order_registry.py through any sequence of calls.
use meva_beta_alpha_codex.Base.{
  ℕ, ◌≡◌, ◌≢◌, refl, sym, Bool, true, false, not, ◌&&◌, Option, none, some, List, [], ◌∷◌, is_empty,
  if◌then◌else◌, number_key, is_some, arith, ap, ◌∙◌, All,
}
use meva_beta_alpha_codex.Base.Dict.{
  Dict, contains, insert, erase, IsKeyed, insert-IsKeyed, erase-IsKeyed, lookup-insert,
  lookup-erase_ne,
}
use meva_beta_alpha_codex.Registry.{
  UnknownOrderRecord, UnknownOrderRegistry, empty_registry, mark_unknown, thawed, mark_resolved,
  has_unknown, begun, replaced, added, put_all, sync_snapshot,
}

-- The calls that change the registry.
pub data Call : Type 0 where
  unknown : (order_id reason ts now : ℕ) → Call
  resolved : (order_id : ℕ) → Call
  sync : (records : List UnknownOrderRecord) (allow_clear : Bool) (now : ℕ) → Call

unfoldable pub run_call : Call → UnknownOrderRegistry → UnknownOrderRegistry
run_call (unknown order_id reason ts now) r = mark_unknown order_id reason ts now r
run_call (resolved order_id) r = mark_resolved order_id r
run_call (sync records allow_clear now) r = sync_snapshot records allow_clear now r

unfoldable pub run_calls : List Call → UnknownOrderRegistry → UnknownOrderRegistry
unfolding run_call
run_calls [] r = r
run_calls (c ∷ rest) r = run_calls rest (run_call c r)

-- Frozen exactly while there are records; no order twice.
pub record IsConsistent (r : UnknownOrderRegistry) : Type 0 where
  pub keyed : IsKeyed r.records
  pub frozen : is_some r.frozen_since ≡ has_unknown r

put_all-IsKeyed :
    (records : List UnknownOrderRecord) (d : Dict ℕ UnknownOrderRecord)
    → IsKeyed d
    → IsKeyed (put_all records d)
unfolding put_all
put_all-IsKeyed [] d h = h
put_all-IsKeyed (r ∷ rest) d h = put_all-IsKeyed rest _ (insert-IsKeyed r.order_id r d h)

has_unknown-insert :
    (id : ℕ) (u : UnknownOrderRecord) (d : Dict ℕ UnknownOrderRecord)
    → is_empty (insert id u d) ≡ false
has_unknown-insert id u [] = refl
has_unknown-insert id u (e ∷ d) = ground arith

begun-frozen : (now : ℕ) (since : Option ℕ) → is_some (begun now since) ≡ true
begun-frozen now none = refl
begun-frozen now (some since) = refl

replaced-frozen :
    (had : Bool) (now : ℕ) (since : Option ℕ) → is_some (replaced had now since) ≡ true
replaced-frozen true now since = begun-frozen now since
replaced-frozen false now since = refl

marked :
    (id now : ℕ) (d : Dict ℕ UnknownOrderRecord) (since : Option ℕ)
    → is_some since ≡ not (is_empty d)
    → is_some (if not (contains id d) && is_empty d then some now else since) ≡ true
marked id now [] since h = refl
marked id now (e ∷ d) since h = ground arith

thawed-frozen :
    (d : Dict ℕ UnknownOrderRecord) (since : Option ℕ)
    → is_some since ≡ true
    → is_some (thawed d since) ≡ not (is_empty d)
thawed-frozen [] since h = refl
thawed-frozen (e ∷ d) since h = h

erased :
    (id : ℕ) (d : Dict ℕ UnknownOrderRecord) (since : Option ℕ)
    → is_some since ≡ not (is_empty d)
    → is_some (thawed (erase id d) since) ≡ not (is_empty (erase id d))
erased id [] since h = refl
erased id (e ∷ d) since h = thawed-frozen (erase id (e ∷ d)) since h

added-frozen :
    (d : Dict ℕ UnknownOrderRecord) (now : ℕ) (since : Option ℕ)
    → (is_empty d ≡ true → is_some since ≡ false)
    → is_some (added d now since) ≡ not (is_empty d)
added-frozen [] now since h = h refl
added-frozen (e ∷ d) now since h = begun-frozen now since

-- Putting records in leaves no dict empty that was not.
put_all-empty :
    (records : List UnknownOrderRecord) (d : Dict ℕ UnknownOrderRecord)
    → is_empty (put_all records d) ≡ true
    → is_empty d ≡ true
unfolding put_all
put_all-empty [] d h = h
put_all-empty (r ∷ rest) d h =
    ground (arith, put_all-empty rest (insert r.order_id r d) h, has_unknown-insert r.order_id r d)

contains-insert :
    (j k : ℕ) (u : UnknownOrderRecord) (d : Dict ℕ UnknownOrderRecord)
    → contains j d ≡ true
    → contains j (insert k u d) ≡ true
contains-insert j k u d h = ground (arith, lookup-insert j k u d)

run_call-IsConsistent :
    (c : Call) (r : UnknownOrderRegistry) → IsConsistent r → IsConsistent (run_call c r)
unfolding run_call mark_unknown mark_resolved sync_snapshot
run_call-IsConsistent (unknown order_id reason ts now) r h =
    let u : UnknownOrderRecord = record { order_id = order_id; reason = reason; ts_ms = ts } in
    record {
      keyed = insert-IsKeyed order_id u r.records h.keyed;
      frozen =
          marked order_id now r.records r.frozen_since h.frozen
          ∙ sym (ap not (has_unknown-insert order_id u r.records));
    }
run_call-IsConsistent (resolved order_id) r h = record {
  keyed = erase-IsKeyed order_id r.records h.keyed;
  frozen = erased order_id r.records r.frozen_since h.frozen;
}
run_call-IsConsistent (sync records true now) r h = record {
  keyed = put_all-IsKeyed records [] tt;
  frozen = thawed-frozen _ _ (replaced-frozen (has_unknown r) now r.frozen_since);
}
run_call-IsConsistent (sync records false now) r h = record {
  keyed = put_all-IsKeyed records r.records h.keyed;
  frozen =
      added-frozen _ now r.frozen_since λ e. h.frozen ∙ ap not (put_all-empty records r.records e);
}

run_calls-IsConsistent_from :
    (cs : List Call) (r : UnknownOrderRegistry) → IsConsistent r → IsConsistent (run_calls cs r)
unfolding run_calls
run_calls-IsConsistent_from [] r h = h
run_calls-IsConsistent_from (c ∷ rest) r h =
    run_calls-IsConsistent_from rest _ (run_call-IsConsistent c r h)

-- After any sequence of calls on a new registry no order is recorded twice, and a start of the
-- freeze is set exactly while an order is recorded.
pub run_calls-IsConsistent : (cs : List Call) → IsConsistent (run_calls cs empty_registry)
run_calls-IsConsistent cs =
    run_calls-IsConsistent_from cs empty_registry (record { keyed = tt; frozen = refl })

-- A call that does not take order `id` out: it resolves another one, or syncs without clearing.
abbrev pub Spares : ℕ → Call → Type 0
Spares id (unknown order_id reason ts now) = Unit {0}
Spares id (resolved order_id) = id ≢ order_id
Spares id (sync records allow_clear now) = allow_clear ≡ false

put_all-contains :
    (id : ℕ) (records : List UnknownOrderRecord) (d : Dict ℕ UnknownOrderRecord)
    → contains id d ≡ true
    → contains id (put_all records d) ≡ true
unfolding put_all
put_all-contains id [] d h = h
put_all-contains id (r ∷ rest) d h =
    put_all-contains id rest _ (contains-insert id r.order_id r d h)

-- Order `id` is recorded, and the freeze began at `start`.
pub record IsFrozenBy (id start : ℕ) (r : UnknownOrderRegistry) : Type 0 where
  pub recorded : contains id r.records ≡ true
  pub started : r.frozen_since ≡ some start

thawed-contains :
    (id : ℕ) (d : Dict ℕ UnknownOrderRecord) (since : Option ℕ)
    → contains id d ≡ true
    → thawed d since ≡ since
thawed-contains id [] since h = ground arith
thawed-contains id (e ∷ d) since h = refl

added-started :
    (d : Dict ℕ UnknownOrderRecord) (now start : ℕ) (since : Option ℕ)
    → since ≡ some start
    → added d now since ≡ some start
added-started [] now start since h = h
added-started (e ∷ d) now start none h = ground arith
added-started (e ∷ d) now start (some s) h = h

unmoved :
    (id now : ℕ) (d : Dict ℕ UnknownOrderRecord) (j : ℕ) (since : Option ℕ)
    → contains id d ≡ true
    → (if not (contains j d) && is_empty d then some now else since) ≡ since
unmoved id now [] j since h = ground arith
unmoved id now (e ∷ d) j since h = ground arith

run_call-IsFrozenBy :
    (id start : ℕ) (c : Call) (r : UnknownOrderRegistry)
    → Spares id c
    → IsFrozenBy id start r
    → IsFrozenBy id start (run_call c r)
unfolding run_call mark_unknown mark_resolved sync_snapshot
run_call-IsFrozenBy id start (unknown order_id reason ts now) r spares h = record {
  recorded = contains-insert id order_id _ r.records h.recorded;
  started = unmoved id now r.records order_id r.frozen_since h.recorded ∙ h.started;
}
run_call-IsFrozenBy id start (resolved order_id) r spares h =
    let kept : contains id (erase order_id r.records) ≡ true =
      ap is_some (lookup-erase_ne id order_id r.records spares) ∙ h.recorded in
    record { recorded = kept; started = thawed-contains id _ r.frozen_since kept ∙ h.started }
run_call-IsFrozenBy id start (sync records true now) r spares h = ground arith
run_call-IsFrozenBy id start (sync records false now) r spares h = record {
  recorded = put_all-contains id records r.records h.recorded;
  started = added-started _ now start r.frozen_since h.started;
}

-- While an order is recorded, calls that neither resolve it nor sync with clearing leave it
-- recorded, and the freeze keeps its start.
pub run_calls-IsFrozenBy :
    (id start : ℕ) (cs : List Call) (r : UnknownOrderRegistry)
    → All (Spares id) cs
    → IsFrozenBy id start r
    → IsFrozenBy id start (run_calls cs r)
unfolding run_calls
run_calls-IsFrozenBy id start [] r spares h = h
run_calls-IsFrozenBy id start (c ∷ rest) r spares h =
    run_calls-IsFrozenBy id start rest _ spares.1 (run_call-IsFrozenBy id start c r spares.0 h)
