-- ===== src/Facts/Ingest/Again.antt =====
-- A second run of `cmd_ingest` on the same events.
use anvil_events.Base.{
  ℕ, String, true, ◌&&◌, Option, none, some, List, [], ◌∷◌, ◌≡◌, refl, ap, ◌∙◌, ◌==◌, string_eq,
  Bool-cases, Option-cases, inl, inr, beq_refl, All, All-take, contains,
}
use anvil_events.Result.{Fault, Result, ok, err, value_error, transaction, Result-cases}
use anvil_events.Exec.{pure, raise, ◌>>=◌}
use anvil_events.Table.{select, insert}
use anvil_events.Table.Laws.{select-insert}
use anvil_events.Json.{Json, Fields, Codec, object, get, as_text}
use anvil_events.Domain.V1.{validate_event}
use anvil_events.Domain.V2.Payloads.{Screen}
use anvil_events.Storage.Schema.{Db, FactRow}
use anvil_events.Facts.Store.{fact_of, encoded_fact, fact_row, add, add_in, add_as}
use anvil_events.Facts.Ingest.{
  Found, scan, limit, store_all, store_found, ingest, keep_one, after_invalid,
}

module _ (codec : Codec) (screen : Screen) (allowed : Option (List String)) where
  -- The store has the event's fact.
  record IsNoted (event : Fields) (db : Db) : Type 0 where
    id : String
    has_id : as_text (get "event_id" event) ≡ some id
    row : FactRow
    found : select (fact_of id) db.facts ≡ some row
    agrees :
        (row.fact_json == encoded_fact codec event
          && row.fact_sha256 == codec.sha256 (encoded_fact codec event))
        ≡ true

  IsValid : Fields → Type 0
  IsValid event = validate_event codec screen allowed (object event) ≡ ok tt

  noted-add :
      (event : Fields) (now : ℕ) (db : Db)
      → IsValid event
      → IsNoted event db
      → add codec screen allowed event now db ≡ (ok none, db)
  unfolding IsValid add transaction add_in add_as
  noted-add event now db valid n =
      rw (valid, n.has_id, n.found, n.agrees, add, transaction, add_in, add_as) refl

  -- What `add` leaves of the facts that are there: all of them.
  IsKept : Db → Db → Type 0
  IsKept db db' =
      (id : String) (row : FactRow)
      → select (fact_of id) db.facts ≡ some row
      → select (fact_of id) db'.facts ≡ some row

  IsNoted-kept :
      (event : Fields) (db db' : Db) → IsKept db db' → IsNoted event db → IsNoted event db'
  unfolding IsKept
  IsNoted-kept event db db' k n = record {
    id = n.id;
    has_id = n.has_id;
    row = n.row;
    found = k n.id n.row n.found;
    agrees = n.agrees;
  }

  -- A call of `add` for a valid event that returned.
  add-IsNoted :
      (event : Fields) (now : ℕ) (db db' : Db) (fact : Option Fields)
      → IsValid event
      → add codec screen allowed event now db ≡ (ok fact, db')
      → IsNoted event db' × IsKept db db'
  unfolding IsValid add transaction add_in add_as IsKept
  add-IsNoted event now db db' fact valid h = elim (Option-cases (as_text (get "event_id" event))) [
    | inl e ↦ absurd (cc (rw (valid, e, add, transaction, add_in) at h))
    | inr (id, e) ↦ elim (Option-cases (select (fact_of id) db.facts)) [
      | inl f ↦
          let row = fact_row codec id event now in
          let same : record db { facts = insert row db.facts } ≡ db' =
            ap (λ p. p.1) (rw (valid, e, f, add, transaction, add_in, add_as) at h) in
          rw (← same) (
            record {
              id = id;
              has_id = e;
              row = row;
              found = select-insert (fact_of id) row db.facts ∙ rw (f, beq_refl id) refl;
              agrees =
                  rw
                    (
                      beq_refl (encoded_fact codec event),
                      beq_refl (codec.sha256 (encoded_fact codec event)),
                    )
                    refl;
            },
            λ j old at. select-insert (fact_of j) row db.facts ∙ rw at refl,
          )
      | inr (row, f) ↦
          let agreed =
            row.fact_json == encoded_fact codec event
            && row.fact_sha256 == codec.sha256 (encoded_fact codec event) in
          elim (Bool-cases agreed) [
            | inr g ↦ absurd (cc (rw (valid, e, f, g, add, transaction, add_in, add_as) at h))
            | inl g ↦
                let same : db ≡ db' =
                  ap (λ p. p.1) (rw (valid, e, f, g, add, transaction, add_in, add_as) at h) in
                rw (← same)
                  (record { id = id; has_id = e; row = row; found = f; agrees = g }, λ j old at. at)
          ]
    ]
  ]

  IsKept-trans : (a b c : Db) → IsKept a b → IsKept b c → IsKept a c
  unfolding IsKept
  IsKept-trans a b c k k' id row found = k' id row (k id row found)

  AllNoted : List Fields → Db → Type 0
  AllNoted events db = All (λ e. IsNoted e db) events

  -- The calls of `add` in a row that all returned.
  store_all-Noted :
      (events : List Fields) (now n : ℕ) (db db' : Db)
      → All IsValid events
      → store_all codec screen allowed events now db ≡ (ok n, db')
      → AllNoted events db' × IsKept db db'
  unfolding AllNoted IsKept store_all ◌>>=◌ pure
  store_all-Noted [] now n db db' valid h =
      let same : db ≡ db' = ap (λ p. p.1) h in (tt, λ id row found. rw (← same) found)
  store_all-Noted (event ∷ events) now n db db' (valid, valids) h =
      let first = add codec screen allowed event now db in
      elim (Result-cases first.0) [
        | inr (e, f) ↦ absurd (cc (rw (f, store_all, ◌>>=◌) at h))
        | inl (fact, f) ↦
            let (noted, kept) = add-IsNoted event now db first.1 fact valid (λ i. (f i, first.1)) in
            let rest = store_all codec screen allowed events now first.1 in
            elim (Result-cases rest.0) [
              | inr (e, g) ↦ absurd (cc (rw (f, g, store_all, ◌>>=◌) at h))
              | inl (m, g) ↦
                  let same : rest.1 ≡ db' =
                    ap (λ p. p.1) (rw (f, g, store_all, ◌>>=◌, pure) at h) in
                  let (others, kept') =
                    store_all-Noted events now m first.1 db' valids (λ i. (g i, same i)) in
                  (
                    (IsNoted-kept event first.1 db' kept' noted, others),
                    IsKept-trans db first.1 db' kept kept',
                  )
            ]
      ]

  store_all-again :
      (events : List Fields) (now : ℕ) (db : Db)
      → All IsValid events
      → AllNoted events db
      → store_all codec screen allowed events now db ≡ (ok 0, db)
  unfolding AllNoted store_all ◌>>=◌ pure
  store_all-again [] now db valid noted = refl
  store_all-again (event ∷ events) now db (valid, valids) (noted, others) =
      rw
        (
          noted-add event now db valid noted,
          store_all-again events now db valids others,
          store_all,
          ◌>>=◌,
          pure,
        )
        refl

  -- What the loop has found, if it went through.
  abbrev Finds : Result Found → Type 0
  Finds (ok f) = All IsValid f.valid
  Finds (err e) = Unit

  after_invalid-Finds :
      (e : Fault) (rest : Result Found) → Finds rest → Finds (after_invalid e rest)
  after_invalid-Finds (value_error reason) (ok f) h = h
  after_invalid-Finds (value_error reason) (err e) h = tt
  after_invalid-Finds e rest h = tt

  keep_one-Finds :
      (event : Fields) (rest : Result Found)
      → IsValid event
      → Finds rest
      → Finds (keep_one event rest)
  keep_one-Finds event (ok f) valid h = (valid, h)
  keep_one-Finds event (err e) valid h = tt

  scan-Finds :
      (events : List Json) (seen : List String) → Finds (scan codec screen allowed events seen)
  unfolding scan IsValid
  scan-Finds [] seen = tt
  scan-Finds (object event ∷ events) seen =
      elim (Result-cases (validate_event codec screen allowed (object event))) [
        | inr (e, f) ↦
            rw (f, scan)
              (after_invalid-Finds e (scan codec screen allowed events seen)
                (scan-Finds events seen))
        | inl (u, f) ↦ elim (Option-cases (as_text (get "event_id" event))) [
          | inl g ↦ rw (f, g, scan) tt
          | inr (id, g) ↦ elim (Bool-cases (contains id seen)) [
            | inl c ↦ rw (f, g, c, scan) (scan-Finds events seen)
            | inr c ↦
                rw (f, g, c, scan)
                  (keep_one-Finds event (scan codec screen allowed events (id ∷ seen)) f
                    (scan-Finds events (id ∷ seen)))
          ]
        ]
      ]
  scan-Finds (v ∷ events) seen = elim (Result-cases (validate_event codec screen allowed v)) [
    | inr (e, f) ↦
        rw (f, scan)
          (after_invalid-Finds e (scan codec screen allowed events seen) (scan-Finds events seen))
    | inl (u, f) ↦ rw (f, scan) tt
  ]

  limit-IsValid :
      (count : Option ℕ) (events : List Fields)
      → All IsValid events
      → All IsValid (limit codec screen allowed count events)
  limit-IsValid none events h = h
  limit-IsValid (some n) events h = All-take IsValid n events h

  store_found-again :
      (count : Option ℕ) (now now' n dropped : ℕ) (found : Result Found) (db db' : Db)
      → Finds found
      → store_found codec screen allowed count now found db ≡ (ok (n, dropped), db')
      → store_found codec screen allowed count now' found db' ≡ (ok (0, dropped), db')
  unfolding ◌>>=◌ raise pure
  store_found-again count now now' n dropped (err e) db db' valid h = absurd (cc (h))
  store_found-again count now now' n dropped (ok found) db db' valid h =
      let events = limit codec screen allowed count found.valid in
      let valids = limit-IsValid count found.valid valid in
      let stored = store_all codec screen allowed events now db in
      elim (Result-cases stored.0) [
        | inr (e, g) ↦ absurd (cc (rw (g, ◌>>=◌) at h))
        | inl (m, g) ↦
            let same : stored.1 ≡ db' = ap (λ p. p.1) (rw (g, ◌>>=◌, pure) at h) in
            let count_same : found.dropped ≡ dropped = cc (rw (g, ◌>>=◌, pure) at h) in
            let noted = (store_all-Noted events now m db db' valids (λ i. (g i, same i))).0 in
            rw (store_all-again events now' db' valids noted, ◌>>=◌, pure, count_same) refl
      ]

  -- Ingestion is idempotent: where a run of cmd_ingest on the events of its source returned, a second run
  -- on the same events, with the same limit and at any time, stores nothing, changes nothing and drops as
  -- many events.
  pub ingest-again :
      (events : List Json) (count : Option ℕ) (now now' n dropped : ℕ) (db db' : Db)
      → ingest codec screen allowed events count now db ≡ (ok (n, dropped), db')
      → ingest codec screen allowed events count now' db' ≡ (ok (0, dropped), db')
  unfolding ingest
  ingest-again events count now now' n dropped db db' h =
      store_found-again count now now' n dropped (scan codec screen allowed events []) db db'
        (scan-Finds events []) h
