-- ===== src/Storage/Operations/Replay.antt =====
-- A second call of `OperationLedger.record` with the arguments of the first.
use anvil_events.Base.{
  ℕ, String, Bool, true, false, not, Option, none, some, List, [], ◌∷◌, ◌≡◌, refl, sym, ◌∙◌, ap,
  nat_eq, string_eq, option_eq, is_some, if◌then◌else◌, arith, Option-cases, inl, inr, beq_refl,
}
use anvil_events.Result.{
  Result, ok, value_error, key_error, or_raise, ◌>>=◌, guard-then, ok-then, or_raise-then,
  bind-then, transaction, transaction-ok,
}
use anvil_events.Table.{select, insert}
use anvil_events.Table.Laws.{select-insert}
use anvil_events.Json.{Json, Fields, Codec, IsStable, object, get, as_text, as_fields}
use anvil_events.Domain.V2.Payloads.{Screen}
use anvil_events.Domain.V2.{make_event_v2}
use anvil_events.Storage.Schema.{Db, OperationRow, DeliveryState}
use anvil_events.Storage.Events.Rows.{event_of, bump_pending, next_sequence}
use anvil_events.Storage.Events.{put, put_pending, emit_v2_in}
use anvil_events.Storage.Events.Stored.{IsStored, Wrote-IsStored, envelope_of-event_id, some_inj}
use anvil_events.Storage.Events.Put.{put-inversion}
use anvil_events.Storage.Operations.{
  check_names, with_key, operation_of, insert_operation, recorded_row, stored_event, intent_of,
  same_operation, record_as, record_in, record_v2,
}

module _ (codec : Codec) (screen : Screen) where
  put_pending-IsStored :
      (event event' : Fields) (now : ℕ) (db db' : Db) (id : String)
      → put_pending codec screen event now db ≡ ok (event', db')
      → as_text (get "event_id" event') ≡ some id
      → IsStored id (codec.dumps (object event')) db'
  unfolding put_pending bump_pending
  put_pending-IsStored event event' now db db' id h text_e =
      let body : (Bool × Bool) × Db → Result (Fields × Db) =
        λ r. ok (event, if r.0.1 then bump_pending r.1 else r.1) in
      let ((flags, db0), wrote, done) =
        bind-then (put codec screen event (some DeliveryState.pending) false now db) body h in
      let same : event' ≡ event = ground (arith, done) in
      let rows : db'.events ≡ db0.events = ground (arith, done) in
      let (e, valid, env, w) =
        put-inversion codec screen event (some DeliveryState.pending) false now db db0 flags
          wrote in
      let own : some e.event_id ≡ some id =
        sym (envelope_of-event_id event e env)
        ∙ ap (λ x. as_text (get "event_id" x)) (sym same)
        ∙ text_e in
      let (r, at, bytes) = Wrote-IsStored e _ _ _ false now db db0 flags w in
      (
        r,
        ap (select (event_of id)) rows
            ∙ ap (λ i. select (event_of i) db0.events) (sym (some_inj e.event_id id own))
            ∙ at,
        bytes ∙ ap (λ x. codec.dumps (object x)) (sym same),
      )

  emit-IsStored :
      (producer kind node : String) (payload : Json) (correlation : Option String)
      (causes : List String) (clock : String) (now : ℕ) (event : Fields) (db db' : Db) (id : String)
      → emit_v2_in codec screen producer kind node payload correlation causes clock now db
        ≡ ok (event, db')
      → as_text (get "event_id" event) ≡ some id
      → IsStored id (codec.dumps (object event)) db'
  unfolding emit_v2_in
  emit-IsStored producer kind node payload correlation causes clock now event db db' id h =
      let made =
        make_event_v2 codec screen producer kind node payload (next_sequence producer db.sequences)
          correlation causes clock in
      let (event0, e, wrote) = bind-then made (λ x. put_pending codec screen x now db) h in
      put_pending-IsStored event0 event now db db' id wrote

  pub insert_operation-inversion :
      (r : OperationRow) (db db' : Db)
      → insert_operation r db ≡ ok db'
      → (select (with_key r.idempotency_key) db.operations ≡ none)
        × (db' ≡ record db { operations = insert r db.operations })
  unfolding insert_operation
  insert_operation-inversion r db db' h = ground arith

  -- The arguments of a call of `record`, without the clock.
  module _ (id key producer kind node : String) (payload : Json) (correlation : Option String)
      (causes : List String) where
    -- What the first call has left for a later one.
    record IsRecorded (event : Fields) (db : Db) : Type 0 where
      event_id : String
      has_id : as_text (get "event_id" event) ≡ some event_id
      started : ℕ
      operation :
          select (with_key key) db.operations
          ≡ some (
              recorded_row id key producer kind correlation
                (codec.dumps (intent_of node payload causes))
                started
                event_id)
      stored : IsStored event_id (codec.dumps (object event)) db

    record_as-IsRecorded :
        (clock : String) (now : ℕ) (event : Fields) (db db' : Db)
        → record_as codec screen id key producer kind node payload correlation causes clock now none
            db
          ≡ ok ((event, false), db')
        → IsRecorded event db'
    record_as-IsRecorded clock now event db db' h =
        let row = λ (event_id : String).
          recorded_row id key producer kind correlation
            (codec.dumps (intent_of node payload causes)) now event_id in
        let last : Fields → Db → Result ((Fields × Bool) × Db) = λ x d. ok ((x, false), d) in
        let put_row : Fields → Db → String → Result ((Fields × Bool) × Db) =
          λ x d i. insert_operation (row i) d >>= last x in
        let after_emit : Fields × Db → Result ((Fields × Bool) × Db) =
          λ r. or_raise (as_text (get "event_id" r.0)) (key_error "event_id") >>= put_row r.0 r.1 in
        let emit =
          emit_v2_in codec screen producer kind node payload correlation causes clock now db in
        let (new, h1) =
          guard-then (not (is_some (select (operation_of id) db.operations)))
            (value_error "operation-id collision") (emit >>= after_emit) h in
        let ((x, d), emitted, h2) = bind-then emit after_emit h1 in
        let (i, has, h3) =
          or_raise-then (as_text (get "event_id" x)) (key_error "event_id") (put_row x d) h2 in
        let (d', inserted, h4) = bind-then (insert_operation (row i) d) (last x) h3 in
        let (free, written) = insert_operation-inversion (row i) d d' inserted in
        let same_event : x ≡ event = cc in
        let same_db : db' ≡ record d { operations = insert (row i) d.operations } = cc in
        let (r, at, bytes) =
          emit-IsStored producer kind node payload correlation causes clock now x db d i emitted
            has in
        record {
          event_id = i;
          has_id = ap (λ y. as_text (get "event_id" y)) (sym same_event) ∙ has;
          started = now;
          operation =
              rw same_db
                (select-insert (with_key key) (row i) d.operations ∙ rw (free, beq_refl key) refl);
          stored = (
            r,
            ap (λ (w : Db). select (event_of i) w.events) same_db ∙ at,
            bytes ∙ ap (λ y. codec.dumps (object y)) same_event,
          );
        }

    -- A second call finds the row, and answers the stored event.
    replay_as :
        (stable : IsStable codec) (clock : String) (now : ℕ) (event : Fields) (db : Db)
        → IsRecorded event db
        → (row : OperationRow) × (select (with_key key) db.operations ≡ some row)
          × (record_as codec screen id key producer kind node payload correlation causes clock now
                (some row)
                db
              ≡ ok ((stable.read_fields event, true), db))
    unfolding same_operation stored_event as_fields
    replay_as stable clock now event db r =
        let encoded = codec.dumps (intent_of node payload causes) in
        let row = recorded_row id key producer kind correlation encoded r.started r.event_id in
        let (e, found, bytes) = r.stored in
        (
          row,
          r.operation,
          rw
              (
                beq_refl id,
                beq_refl producer,
                beq_refl kind,
                beq_refl encoded,
                beq_refl correlation,
                found,
                bytes,
                stable.loads-dumps (object event),
                stable.read_back-object event,
              )
              refl,
        )

    record_in-replays :
        (stable : IsStable codec) (clock clock' : String) (now now' : ℕ) (event : Fields)
        (db db' : Db)
        → record_in codec screen id key producer kind node payload correlation causes clock now db
          ≡ ok ((event, false), db')
        → record_in codec screen id key producer kind node payload correlation causes clock' now'
            db'
          ≡ ok ((stable.read_fields event, true), db')
    unfolding record_in
    record_in-replays stable clock clock' now now' event db db' h =
        let names = check_names (id ∷ key ∷ producer ∷ kind ∷ node ∷ []) in
        let record_with = λ (c : String) (n : ℕ) (o : Option OperationRow) (d : Db).
          record_as codec screen id key producer kind node payload correlation causes c n o d in
        let (named, h1) =
          ok-then names (record_with clock now (select (with_key key) db.operations) db) h in
        elim (Option-cases (select (with_key key) db.operations)) [
          | inr (old, e) ↦ absurd (first_answer old (rw e at h1))
          | inl e ↦
              let recorded = record_as-IsRecorded clock now event db db' (rw e at h1) in
              let (row, found, again) = replay_as stable clock' now' event db' recorded in
              rw (named, found) again
        ]
      where
        first_answer :
            (old : OperationRow)
            → record_as codec screen id key producer kind node payload correlation causes clock now
                (some old)
                db
              ≡ ok ((event, false), db')
            → ⊥
        first_answer old e = ground (arith, e)

-- Where `record` has accepted an event under an idempotency key, a second call with the same arguments
-- writes nothing and answers the event as the store reads it back, whatever the clock reads. This asks
-- of `json` that a text it wrote is read back.
pub record_v2-replays :
    (codec : Codec) (screen : Screen) (stable : IsStable codec) (id key producer kind node : String)
    (payload : Json) (correlation : Option String) (causes : List String) (clock clock' : String)
    (now now' : ℕ) (event : Fields) (db db' : Db)
    → record_v2 codec screen id key producer kind node payload correlation causes clock now db
      ≡ (ok (event, false), db')
    → record_v2 codec screen id key producer kind node payload correlation causes clock' now' db'
      ≡ (ok (stable.read_fields event, true), db')
unfolding record_v2 transaction
record_v2-replays codec screen stable id key producer kind node payload correlation causes clock
      clock' now now' event db db' h =
    rw
      (record_in-replays codec screen id key producer kind node payload correlation causes stable
        clock clock' now now' event db db'
        (transaction-ok
          (record_in codec screen id key producer kind node payload correlation causes clock now) db
          h))
      refl
