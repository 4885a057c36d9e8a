-- ===== src/Registry.antt =====
-- services/unknown_order_registry.py: the orders of uncertain state that freeze the submits.
-- Every method runs under the lock, so a run is a sequence of calls. A call that reads
-- `time.monotonic()` takes the reading as an argument, in milliseconds.
mod Freeze
mod Tests
use meva_beta_alpha_codex.Base.{
  ℕ, ◌-◌, Bool, true, false, not, ◌&&◌, ◌||◌, Option, none, some, List, [], ◌∷◌, length, is_empty,
  if◌then◌else◌, leb, nat_beq, sorted, number_key, is_some,
}
use meva_beta_alpha_codex.Base.Dict.{Dict, contains, insert, erase, values}

pub record UnknownOrderRecord : Type 0 where
  pub order_id : ℕ
  pub reason : ℕ
  pub ts_ms : ℕ

pub record UnknownOrderRegistry : Type 0 where
  pub records : Dict ℕ UnknownOrderRecord
  pub frozen_since : Option ℕ

abbrev pub empty_registry : UnknownOrderRegistry
empty_registry = record { records = []; frozen_since = none }

pub mark_unknown : (order_id reason ts now : ℕ) → UnknownOrderRegistry → UnknownOrderRegistry
mark_unknown order_id reason ts now r = record {
  records = insert order_id (record { order_id = order_id; reason = reason; ts_ms = ts }) r.records;
  frozen_since =
      if not (contains order_id r.records) && is_empty r.records then some now else r.frozen_since;
}

-- The freeze ends with the last record.
abbrev pub thawed : Dict ℕ UnknownOrderRecord → Option ℕ → Option ℕ
thawed [] since = none
thawed (_ ∷ _) since = since

pub mark_resolved : (order_id : ℕ) → UnknownOrderRegistry → UnknownOrderRegistry
mark_resolved order_id r =
    let records = erase order_id r.records in
    record { records = records; frozen_since = thawed records r.frozen_since }

abbrev pub has_unknown : UnknownOrderRegistry → Bool
has_unknown r = not (is_empty r.records)

abbrev pub count_unknown : UnknownOrderRegistry → ℕ
count_unknown r = length r.records

-- `max(0.0, now - since)`
abbrev pub elapsed : Option ℕ → ℕ → ℕ
elapsed none now = 0
elapsed (some since) now = now - since

abbrev pub frozen_seconds : (now : ℕ) → UnknownOrderRegistry → ℕ
frozen_seconds now r = elapsed r.frozen_since now

unfoldable pub snapshot : UnknownOrderRegistry → List UnknownOrderRecord
snapshot r = sorted (λ a b. leb a.order_id b.order_id) (values r.records)

-- `self._records[record.order_id] = record` for each record.
pub put_all : List UnknownOrderRecord → Dict ℕ UnknownOrderRecord → Dict ℕ UnknownOrderRecord
put_all [] d = d
put_all (r ∷ rest) d = put_all rest (insert r.order_id r d)

-- The freeze after records came: it begins now if it had not begun.
abbrev pub begun : (now : ℕ) → Option ℕ → Option ℕ
begun now none = some now
begun now (some since) = some since

-- The freeze of a registry whose records were replaced.
abbrev pub replaced : (had_unknown : Bool) (now : ℕ) → Option ℕ → Option ℕ
replaced true now since = begun now since
replaced false now since = some now

-- The freeze where the records came on top of the old ones.
abbrev pub added : Dict ℕ UnknownOrderRecord → (now : ℕ) → Option ℕ → Option ℕ
added [] now since = since
added (_ ∷ _) now since = begun now since

pub sync_snapshot :
    (records : List UnknownOrderRecord) (allow_clear : Bool) (now : ℕ)
    → UnknownOrderRegistry
    → UnknownOrderRegistry
unfolding put_all
sync_snapshot records true now r =
    let incoming = put_all records [] in
    record {
      records = incoming;
      frozen_since = thawed incoming (replaced (has_unknown r) now r.frozen_since);
    }
sync_snapshot records false now r =
    let all_records = put_all records r.records in
    record { records = all_records; frozen_since = added all_records now r.frozen_since }
