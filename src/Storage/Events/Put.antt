-- ===== src/Storage/Events/Put.antt =====
-- What `EventRepository.put` has tested and written, where it returned.
use Prim.Native.String.{len}
use anvil_events.Base.{
  ℕ, ◌+◌, String, Bool, true, false, Option, none, some, ◌≡◌, ◌==◌, string_eq, is_some, arith, inl,
  inr, Option-cases, eq_of_beq,
}
use anvil_events.Result.{ok, key_error, or_raise, ◌>>=◌, ok-then, or_raise-then, bind-then}
use anvil_events.Table.{select, insert, update}
use anvil_events.Json.{Fields, Codec, object}
use anvil_events.Domain.V2.Payloads.{Screen}
use anvil_events.Domain.V1.{validate_event}
use anvil_events.Transport.Wire.{encode_js_publish}
use anvil_events.Storage.Schema.{Db, EventRow, DeliveryState}
use anvil_events.Storage.Events.Rows.{
  Envelope, envelope_of, event_of, event_at, new_row, set_state, merge_state, changes,
  update_sequence,
}
use anvil_events.Storage.Events.{put, put_as, put_new, put_existing, heal_envelope}

module _ (e : Envelope) (encoded digest : String) (state : Option DeliveryState) (journaled : Bool)
    (now : ℕ) (db : Db) where
  -- The database with the row of a new event.
  abbrev pub added : Db
  added = record db {
    events =
        insert (new_row e encoded digest (len encoded) state journaled now db.next_row_id)
          db.events;
    next_row_id = db.next_row_id + 1;
    sequences = update_sequence e.producer e.producer_seq db.sequences;
  }

  -- The database with the merged row of an event that was there.
  abbrev pub merged : EventRow → Db
  merged row =
      let healed = heal_envelope e.event_id encoded now row db in
      record healed {
        events =
            update (event_of e.event_id)
              (set_state (merge_state state row.producer_state) journaled now) healed.events;
        sequences = update_sequence e.producer e.producer_seq healed.sequences;
      }

  -- How a write has turned out.
  pub data Wrote : Bool × Bool → Db → Type 0 where
    adds :
        (flags : Bool × Bool) (db' : Db)
        → select (event_of e.event_id) db.events ≡ none
        → select (event_at e.producer e.producer_seq) db.events ≡ none
        → flags ≡ (true, is_some state)
        → db' ≡ added
        → Wrote flags db'
    merges :
        (flags : Bool × Bool) (db' : Db) (row : EventRow)
        → select (event_of e.event_id) db.events ≡ some row
        → row.canonical_sha256 ≡ digest
        → flags ≡ (false, changes row.producer_state (merge_state state row.producer_state))
        → db' ≡ merged row
        → Wrote flags db'

  put_new-inversion :
      (flags : Bool × Bool) (db' : Db)
      → put_new e encoded digest state journaled now db ≡ ok (flags, db')
      → (select (event_at e.producer e.producer_seq) db.events ≡ none)
        × (flags ≡ (true, is_some state))
        × (db' ≡ added)
  unfolding put_new
  put_new-inversion flags db' h = ground arith

  put_existing-inversion :
      (row : EventRow) (flags : Bool × Bool) (db' : Db)
      → put_existing e encoded digest state journaled now row db ≡ ok (flags, db')
      → ((row.canonical_sha256 == digest) ≡ true)
        × (flags ≡ (false, changes row.producer_state (merge_state state row.producer_state)))
        × (db' ≡ merged row)
  unfolding put_existing
  put_existing-inversion row flags db' h = ground arith

  put_as-inversion :
      (flags : Bool × Bool) (db' : Db)
      → put_as e encoded digest state journaled now (select (event_of e.event_id) db.events) db
        ≡ ok (flags, db')
      → Wrote flags db'
  put_as-inversion flags db' h = elim (Option-cases (select (event_of e.event_id) db.events)) [
    | inl none_e ↦
        let (free, flags_e, db_e) = put_new-inversion flags db' (rw none_e at h) in
        adds flags db' none_e free flags_e db_e
    | inr (row, row_e) ↦
        let (same, flags_e, db_e) = put_existing-inversion row flags db' (rw row_e at h) in
        merges flags db' row row_e (eq_of_beq row.canonical_sha256 digest same) flags_e db_e
  ]

module _ (codec : Codec) (screen : Screen) (event : Fields) (state : Option DeliveryState)
    (journaled : Bool) (now : ℕ) (db db' : Db) (flags : Bool × Bool) where
  pub put-inversion :
      put codec screen event state journaled now db ≡ ok (flags, db')
      → (e : Envelope) × (validate_event codec screen none (object event) ≡ ok tt)
        × (envelope_of event ≡ some e)
        × Wrote e
            (codec.dumps (object event))
            (codec.sha256 (codec.dumps (object event)))
            state
            journaled
            now
            db
            flags
            db'
  unfolding put
  put-inversion done =
      let encoded = codec.dumps (object event) in
      let put_as_e = λ (e : Envelope).
        put_as e encoded (codec.sha256 encoded) state journaled now
          (select (event_of e.event_id) db.events) db in
      let send = λ (e : Envelope). encode_js_publish encoded e.event_id >>= λ frame. put_as_e e in
      let (valid, done1) =
        ok-then (validate_event codec screen none (object event))
          (or_raise (envelope_of event) (key_error "event_id") >>= send) done in
      let (e, env, done2) = or_raise-then (envelope_of event) (key_error "event_id") send done1 in
      let (frame, sent, done3) =
        bind-then (encode_js_publish encoded e.event_id) (λ frame. put_as_e e) done2 in
      (
        e,
        valid,
        env,
        put_as-inversion e encoded (codec.sha256 encoded) state journaled now db flags db' done3,
      )
