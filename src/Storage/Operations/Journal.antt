-- ===== src/Storage/Operations/Journal.antt =====
-- What `OperationLedger.record` does to the stored events, and to the ledger where it returns.
use anvil_events.Base.{
  ℕ, String, Bool, true, false, not, Option, none, some, List, [], ◌∷◌, ◌≡◌, refl, ◌∙◌, nat_eq,
  string_eq, option_eq, is_some, arith, Bool-cases, Option-cases, inl, inr, beq_refl, subst,
}
use anvil_events.Result.{
  Result, ok, value_error, key_error, or_raise, ◌>>=◌, guard-then, ok-then, or_raise-then,
  bind-then, transaction-ok, transaction-Writes, Writes, Writes-intro, Result-cases,
}
use anvil_events.Table.{select, insert}
use anvil_events.Table.Laws.{select-insert}
use anvil_events.Json.{Json, Fields, Codec, get, as_text}
use anvil_events.Domain.V2.Payloads.{Screen}
use anvil_events.Storage.Schema.{Db, OperationRow}
use anvil_events.Storage.Events.{emit_v2_in}
use anvil_events.Storage.Events.Calls.{emit_v2_in-keeps}
use anvil_events.Storage.Events.Identity.{Grows, Carries-refl, Grows-IsKept}
use anvil_events.Storage.Operations.{
  check_names, with_key, operation_of, insert_operation, recorded_row, intent_of, record_as,
  record_in, record_v2, is_recorded,
}
use anvil_events.Storage.Operations.Replay.{insert_operation-inversion}

-- The ledger has a recorded operation under the key.
abbrev pub IsRecorded : String → Db → Type 0
IsRecorded key db =
    (r : OperationRow) × (select (with_key key) db.operations ≡ some r)
    × (is_recorded r.state ≡ true)

pub Grows-refl : (db : Db) → Grows db db
unfolding Grows
Grows-refl db = Carries-refl db.events

-- The insertion of an operation leaves the events as they are.
insert-Grows :
    {A : Type 0} (a : A) (row : OperationRow) (db0 db : Db)
    → Grows db0 db
    → Writes (Grows db0) (insert_operation row db >>= λ db'. ok (a, db'))
unfolding Grows insert_operation
insert-Grows a row db0 db g =
    Writes-intro (Grows db0) (insert_operation row db >>= λ db'. ok (a, db'))
      λ b db' h. let same : db'.events ≡ db.events = ground (arith, h) in rw same g

module _ (codec : Codec) (screen : Screen) (id key producer kind node : String) (payload : Json)
    (correlation : Option String) (causes : List String) (clock : String) (now : ℕ) (db : Db) where
  recorded-Grows : Writes (Grows db) (
      record_as codec screen id key producer kind node payload correlation causes clock now none db)
  recorded-Grows = elim (Bool-cases (is_some (select (operation_of id) db.operations))) [
    | inl g ↦ rw g tt
    | inr g ↦
        elim (Result-cases
          (emit_v2_in codec screen producer kind node payload correlation causes clock now db)) [
            | inr (x, e) ↦ rw (g, e) tt
            | inl ((event, db'), e) ↦ elim (Option-cases (as_text (get "event_id" event))) [
              | inl f ↦ rw (g, e, f) tt
              | inr (i, f) ↦
                  rw (g, e, f)
                    (insert-Grows _ _ db db' (
                      rw e at (
                        emit_v2_in-keeps codec screen (Grows db) (Grows-IsKept codec screen db)
                          producer kind node payload correlation causes clock now db
                          (Grows-refl db))))
            ]
          ]
  ]

  record_in-Grows :
      Writes
        (Grows db)
        (record_in codec screen id key producer kind node payload correlation causes clock now db)
  unfolding record_in
  record_in-Grows = elim (Result-cases (check_names (id ∷ key ∷ producer ∷ kind ∷ node ∷ []))) [
    | inr (x, e) ↦ rw (e, record_in) tt
    | inl (u, e) ↦ elim (Option-cases (select (with_key key) db.operations)) [
      | inl f ↦ rw (e, f, record_in) recorded-Grows
      | inr (r, f) ↦
          rw (e, f, record_in)
            (Writes-intro (Grows db)
              (record_as codec screen id key producer kind node payload correlation causes clock now
                (some r) db)
              λ a s h. subst (Grows db) (ground (arith, h)) (Grows-refl db))
    ]
  ]

  -- `record` keeps every stored event.
  pub record_v2-Grows :
      Grows db
        (record_v2 codec screen id key producer kind node payload correlation causes clock now db).1
  unfolding record_v2
  record_v2-Grows = transaction-Writes (Grows db) _ db (Grows-refl db) record_in-Grows

  first-IsRecorded :
      (a : Fields × Bool) (db' : Db)
      → record_as codec screen id key producer kind node payload correlation causes clock now none
          db
        ≡ ok (a, db')
      → IsRecorded key db'
  first-IsRecorded a db' h =
      let row = λ (event_id : String).
        recorded_row id key producer kind correlation (codec.dumps (intent_of node payload causes))
          now event_id in
      let last : Fields → Db → Result ((Fields × Bool) × Db) = λ x d. ok ((x, false), d) in
      let put_row : Fields → Db → String → Result ((Fields × Bool) × Db) =
        λ x d i. insert_operation (row i) d >>= last x in
      let after_emit : Fields × Db → Result ((Fields × Bool) × Db) =
        λ r. or_raise (as_text (get "event_id" r.0)) (key_error "event_id") >>= put_row r.0 r.1 in
      let emit =
        emit_v2_in codec screen producer kind node payload correlation causes clock now db in
      let (new, h1) =
        guard-then (not (is_some (select (operation_of id) db.operations)))
          (value_error "operation-id collision") (emit >>= after_emit) h in
      let ((x, d), emitted, h2) = bind-then emit after_emit h1 in
      let (i, has, h3) =
        or_raise-then (as_text (get "event_id" x)) (key_error "event_id") (put_row x d) h2 in
      let (d', inserted, h4) = bind-then (insert_operation (row i) d) (last x) h3 in
      let (free, written) = insert_operation-inversion codec screen (row i) d d' inserted in
      let same_db : db' ≡ record d { operations = insert (row i) d.operations } = cc in
      (
        row i,
        rw same_db
            (select-insert (with_key key) (row i) d.operations ∙ rw (free, beq_refl key) refl),
        refl,
      )

  again-IsRecorded :
      (r : OperationRow) (a : Fields × Bool) (db' : Db)
      → select (with_key key) db.operations ≡ some r
      → record_as codec screen id key producer kind node payload correlation causes clock now
          (some r)
          db
        ≡ ok (a, db')
      → IsRecorded key db'
  again-IsRecorded r a db' found h =
      let same : db' ≡ db = ground (arith, h) in
      let recorded : is_recorded r.state ≡ true = ground (arith, h) in rw same (r, found, recorded)

  -- Where `record` returns, the ledger has a recorded operation under the key.
  pub record_v2-IsRecorded :
      (a : Fields × Bool) (db' : Db)
      → record_v2 codec screen id key producer kind node payload correlation causes clock now db
        ≡ (ok a, db')
      → IsRecorded key db'
  unfolding record_v2 record_in
  record_v2-IsRecorded a db' h =
      let body =
        transaction-ok
          (record_in codec screen id key producer kind node payload correlation causes clock now) db
          h in
      let record_with = λ (o : Option OperationRow).
        record_as codec screen id key producer kind node payload correlation causes clock now o
          db in
      let (named, h1) =
        ok-then (check_names (id ∷ key ∷ producer ∷ kind ∷ node ∷ []))
          (record_with (select (with_key key) db.operations)) body in
      elim (Option-cases (select (with_key key) db.operations)) [
        | inl e ↦ first-IsRecorded a db' (rw e at h1)
        | inr (r, e) ↦ again-IsRecorded r a db' e (rw e at h1)
      ]
