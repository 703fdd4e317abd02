-- ===== src/Storage/Delivery/Intact.antt =====
-- The pending events after the loop of `PendingDelivery.repair`.
use anvil_events.Base.{
  ℕ, ◌+◌, Bool, true, false, none, List, [], ◌∷◌, ◌≡◌, refl, ◌∙◌, ap, ◌⊎◌, inl, inr, string_eq,
  if◌then◌else◌, arith, Bool-cases, Option-cases, All, beq_refl, length, length-append,
}
use anvil_events.Table.{select_all, update}
use anvil_events.Json.{Codec}
use anvil_events.Storage.Schema.{Db, EventRow, is_pending}
use anvil_events.Storage.Events.Rows.{event_of, quarantine_row}
use anvil_events.Storage.Delivery.{Validator, defect, clear_state, quarantine_event, repair_rows}

-- The row is in the list.
abbrev In : EventRow → List EventRow → Type 0
In s [] = ⊥
In s (r ∷ t) = (s ≡ r) ⊎ In s t

module _ (codec : Codec) (validator : Validator) where
  -- A pending row is one of those to come, or it has no defect.
  abbrev Due : List EventRow → EventRow → Type 0
  Due t s = is_pending s.producer_state ≡ true → In s t ⊎ (defect codec validator s ≡ none)

  abbrev pub IsClean : EventRow → Type 0
  IsClean s = is_pending s.producer_state ≡ true → defect codec validator s ≡ none

  All-Due-skip :
      (r : EventRow) (t rows : List EventRow)
      → defect codec validator r ≡ none
      → All (Due (r ∷ t)) rows
      → All (Due t) rows
  All-Due-skip r t [] fine h = tt
  All-Due-skip r t (s ∷ rows) fine h = (skip, All-Due-skip r t rows fine h.1)
    where
      skip : Due t s
      skip p = elim (h.0 p) [
        | inr k ↦ inr k
        | inl (inl same) ↦ inr (ap (defect codec validator) same ∙ fine)
        | inl (inr later) ↦ inl later
      ]

  All-Due-clear :
      (r : EventRow) (t rows : List EventRow)
      → All (Due (r ∷ t)) rows
      → All (Due t) (update (event_of r.event_id) clear_state rows)
  unfolding update
  All-Due-clear r t [] h = tt
  All-Due-clear r t (s ∷ rows) h = elim (Bool-cases (event_of r.event_id s)) [
    | inl e ↦ rw e ((λ p. cc), All-Due-clear r t rows h.1)
    | inr e ↦ rw e (other e, All-Due-clear r t rows h.1)
  ]
    where
      other : event_of r.event_id s ≡ false → Due t s
      other e p = elim (h.0 p) [
        | inr k ↦ inr k
        | inl (inl same) ↦ absurd (clash e same)
        | inl (inr later) ↦ inl later
      ]
        where
          clash : event_of r.event_id s ≡ false → s ≡ r → ⊥
          clash e same =
              cc (e, ap (λ (x : EventRow). event_of r.event_id x) same, beq_refl r.event_id)

  All-Due-weaken :
      (r : EventRow) (t rows : List EventRow) → All (Due t) rows → All (Due (r ∷ t)) rows
  All-Due-weaken r t [] h = tt
  All-Due-weaken r t (s ∷ rows) h = (weak, All-Due-weaken r t rows h.1)
    where
      weak : Due (r ∷ t) s
      weak p = elim (h.0 p) [ inl k ↦ inl (inr k) | inr k ↦ inr k ]

  All-Due-step :
      (s : EventRow) (t rows : List EventRow) (b : Bool)
      → is_pending s.producer_state ≡ b
      → All (Due t) rows
      → All (Due (if b then s ∷ t else t)) (s ∷ rows)
  All-Due-step s t rows true e h = ((λ p. inl (inl refl)), All-Due-weaken s t rows h)
  All-Due-step s t rows false e h = ((λ p. absurd (cc)), h)

  -- At the start every pending row is to come.
  All-Due-start :
      (rows : List EventRow) → All (Due (select_all (λ r. is_pending r.producer_state) rows)) rows
  unfolding select_all
  All-Due-start [] = tt
  All-Due-start (s ∷ rows) =
      All-Due-step s (select_all (λ r. is_pending r.producer_state) rows) rows
        (is_pending s.producer_state) refl (All-Due-start rows)

  All-IsClean : (rows : List EventRow) → All (Due []) rows → All IsClean rows
  All-IsClean [] h = tt
  All-IsClean (s ∷ rows) h = (clean, All-IsClean rows h.1)
    where
      clean : IsClean s
      clean p = elim (h.0 p) [ inl k ↦ absurd k | inr k ↦ k ]

  repair_rows-IsClean :
      (now : ℕ) (t : List EventRow) (n : ℕ) (db : Db)
      → All (Due t) db.events
      → All IsClean (repair_rows codec validator now t (n, db)).1.events
  unfolding repair_rows quarantine_event
  repair_rows-IsClean now [] n db h = All-IsClean db.events h
  repair_rows-IsClean now (r ∷ t) n db h = elim (Option-cases (defect codec validator r)) [
    | inl e ↦ rw (e, repair_rows) (repair_rows-IsClean now t n db (All-Due-skip r t db.events e h))
    | inr (reason, e) ↦
        rw (e, repair_rows)
          (repair_rows-IsClean now t (n + 1) (quarantine_event now reason r db)
            (All-Due-clear r t db.events h))
  ]

  repair_rows-counts :
      (now : ℕ) (t : List EventRow) (n : ℕ) (db : Db)
      → let (m, db') = repair_rows codec validator now t (n, db) in
        m + length db.quarantine ≡ length db'.quarantine + n
  unfolding repair_rows quarantine_event
  repair_rows-counts now [] n db = omega arith
  repair_rows-counts now (r ∷ t) n db = elim (Option-cases (defect codec validator r)) [
    | inl e ↦ rw (e, repair_rows) (repair_rows-counts now t n db)
    | inr (reason, e) ↦
        rw (e, repair_rows)
          (omega (
            arith,
            repair_rows-counts now t (n + 1) (quarantine_event now reason r db),
            length-append db.quarantine (quarantine_row r.event_id r.envelope_json reason now ∷ []),
          ))
  ]

  -- After the loop of `repair` every event that is still pending is intact and passes the validator,
  -- and as many envelopes have gone to quarantine as the loop counts.
  pub repair_rows-cleans :
      (now : ℕ) (db : Db)
      → let (n, db') =
          repair_rows codec validator now
            (select_all (λ r. is_pending r.producer_state) db.events)
            (0, db) in
        All IsClean db'.events × (length db'.quarantine ≡ length db.quarantine + n)
  repair_rows-cleans now db =
      let pending = select_all (λ (r : EventRow). is_pending r.producer_state) db.events in
      (
        repair_rows-IsClean now pending 0 db (All-Due-start db.events),
        omega (arith, repair_rows-counts now pending 0 db),
      )
