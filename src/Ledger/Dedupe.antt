-- ===== src/Ledger/Dedupe.antt =====
-- Events that are delivered again change nothing.
use meva_beta_alpha_codex.Base.{
  ℕ, ◌≤◌, ◌≡◌, refl, sym, ap, subst, ◌∙◌, true, false, Option, none, some, List, [], ◌∷◌, ◌++◌,
  nat_beq, nat_beq_iff, if◌then◌else◌, if_intro, inl, inr, ◌⊎◌, arith, number_key, All,
}
use meva_beta_alpha_codex.Base.Int.{ℤ}
use meva_beta_alpha_codex.Base.Dict.{Dict, lookup, insert, lookup-insert, values}
use meva_beta_alpha_codex.Ledger.{AccountingLedgerEvent}
use meva_beta_alpha_codex.Ledger.Replay.{
  replaces, dedupe_into, dedupe_events, recompute, of_deduped,
}

-- `f` is one of the events.
abbrev pub IsAmong : AccountingLedgerEvent → List AccountingLedgerEvent → Type 0
IsAmong f [] = ⊥
IsAmong f (e ∷ es) = (f ≡ e) ⊎ IsAmong f es

module _ (sort_key : AccountingLedgerEvent → ℕ) where
  -- An event with the id of `e` is kept that does not come after `e`.
  abbrev Covers : Option AccountingLedgerEvent → AccountingLedgerEvent → Type 0
  Covers none e = ⊥
  Covers (some kept) e = sort_key kept ≤ sort_key e

  abbrev Covered : Dict ℕ AccountingLedgerEvent → AccountingLedgerEvent → Type 0
  Covered d e = Covers (lookup e.event_id d) e

  abbrev put : AccountingLedgerEvent → Dict ℕ AccountingLedgerEvent → Dict ℕ AccountingLedgerEvent
  put e d = if replaces sort_key e (lookup e.event_id d) then insert e.event_id e d else d

  not_replaced :
      (e : AccountingLedgerEvent) (o : Option AccountingLedgerEvent)
      → replaces sort_key e o ≡ false
      → Covers o e
  not_replaced e none h = ground arith
  not_replaced e (some kept) h = ground (arith, h)

  stays :
      (e : AccountingLedgerEvent) (o : Option AccountingLedgerEvent)
      → Covers o e
      → replaces sort_key e o ≡ false
  stays e none h = absurd h
  stays e (some kept) h = ground (arith, h)

  replaced-first :
      (e f : AccountingLedgerEvent) (o : Option AccountingLedgerEvent)
      → replaces sort_key e o ≡ true
      → Covers o f
      → sort_key e ≤ sort_key f
  replaced-first e f none t h = absurd h
  replaced-first e f (some kept) t h = ground (arith, t, h)

  put-Covered : (e : AccountingLedgerEvent) (d : Dict ℕ AccountingLedgerEvent) → Covered (put e d) e
  put-Covered e d =
      if_intro (λ d'. Covered d' e) (replaces sort_key e (lookup e.event_id d))
        (λ t.
          let found : lookup e.event_id (insert e.event_id e d) ≡ some e =
            ground
              (arith, lookup-insert e.event_id e.event_id e d, nat_beq_iff e.event_id e.event_id) in
          subst (λ o. Covers o e) (sym found) (omega arith))
        λ t. not_replaced e _ t

  put-keeps :
      (e f : AccountingLedgerEvent) (d : Dict ℕ AccountingLedgerEvent)
      → Covered d f
      → Covered (put e d) f
  put-keeps e f d h =
      if_intro (λ d'. Covered d' f) (replaces sort_key e (lookup e.event_id d))
        (λ t.
          subst (λ o. Covers o f) (sym (lookup-insert f.event_id e.event_id e d))
            (if_intro (λ o. Covers o f) (nat_beq f.event_id e.event_id)
              (λ s.
                replaced-first e f (lookup e.event_id d) t (
                  subst (λ id. Covers (lookup id d) f) ((nat_beq_iff f.event_id e.event_id).0 s) h))
              λ s. h))
        λ t. h

  put-same :
      (e : AccountingLedgerEvent) (d : Dict ℕ AccountingLedgerEvent) → Covered d e → put e d ≡ d
  put-same e d h = rw (stays e (lookup e.event_id d) h) refl

  dedupe_into-keeps :
      (es : List AccountingLedgerEvent) (f : AccountingLedgerEvent)
      (d : Dict ℕ AccountingLedgerEvent)
      → Covered d f
      → Covered (dedupe_into sort_key es d) f
  unfolding dedupe_into
  dedupe_into-keeps [] f d h = h
  dedupe_into-keeps (e ∷ rest) f d h = dedupe_into-keeps rest f _ (put-keeps e f d h)

  dedupe_into-All :
      (es : List AccountingLedgerEvent) (d : Dict ℕ AccountingLedgerEvent)
      → All (Covered (dedupe_into sort_key es d)) es
  unfolding dedupe_into
  dedupe_into-All [] d = tt
  dedupe_into-All (e ∷ rest) d =
      (dedupe_into-keeps rest e _ (put-Covered e d), dedupe_into-All rest (put e d))

  dedupe_into-same :
      (es : List AccountingLedgerEvent) (d : Dict ℕ AccountingLedgerEvent)
      → All (Covered d) es
      → dedupe_into sort_key es d ≡ d
  unfolding dedupe_into
  dedupe_into-same [] d h = refl
  dedupe_into-same (e ∷ rest) d h =
      ap (dedupe_into sort_key rest) (put-same e d h.0) ∙ dedupe_into-same rest d h.1

  dedupe_into-append :
      (es fs : List AccountingLedgerEvent) (d : Dict ℕ AccountingLedgerEvent)
      → dedupe_into sort_key (es ++ fs) d ≡ dedupe_into sort_key fs (dedupe_into sort_key es d)
  unfolding dedupe_into
  dedupe_into-append [] fs d = refl
  dedupe_into-append (e ∷ es) fs d = dedupe_into-append es fs (put e d)

  IsAmong-Covered :
      (d : Dict ℕ AccountingLedgerEvent) (es : List AccountingLedgerEvent)
      (f : AccountingLedgerEvent)
      → All (Covered d) es
      → IsAmong f es
      → Covered d f
  IsAmong-Covered d [] f h among = absurd among
  IsAmong-Covered d (e ∷ es) f h (inl same) = subst (Covered d) (sym same) h.0
  IsAmong-Covered d (e ∷ es) f h (inr later) = IsAmong-Covered d es f h.1 later

  again-Covered :
      (d : Dict ℕ AccountingLedgerEvent) (es fs : List AccountingLedgerEvent)
      → All (Covered d) es
      → All (λ f. IsAmong f es) fs
      → All (Covered d) fs
  again-Covered d es [] h sub = tt
  again-Covered d es (f ∷ fs) h sub =
      (IsAmong-Covered d es f h sub.0, again-Covered d es fs h sub.1)

  -- Events that are delivered again, in any order and number, leave the result of `recompute` as it is.
  pub recompute-again :
      (es again : List AccountingLedgerEvent) (as_of : ℕ) (marks : Dict ℕ ℤ) (capital treasury : ℤ)
      → All (λ f. IsAmong f es) again
      → recompute sort_key (es ++ again) as_of marks capital treasury
        ≡ recompute sort_key es as_of marks capital treasury
  unfolding recompute dedupe_events
  recompute-again es again as_of marks capital treasury sub =
      let d = dedupe_into sort_key es [] in
      let same : dedupe_into sort_key (es ++ again) [] ≡ d =
        dedupe_into-append es again []
        ∙ dedupe_into-same again d (again-Covered d es again (dedupe_into-All es []) sub) in
      ap (λ kept. of_deduped sort_key (values kept) as_of marks capital treasury) same
