-- ===== src/Storage/Events.antt =====
-- storage/events.py: each method of `EventRepository` as a function on the database. A name that ends in
-- `_in` takes part in the caller's transaction. The clock that a method reads is the argument `now`.
pub mod Rows
pub mod Identity
pub mod Calls
pub mod Put
pub mod Stored
pub mod Acked
pub mod Numbers
use Prim.Native.String.{len}
use anvil_events.Base.{
  ℕ, ◌+◌, String, Bool, true, false, ◌&&◌, ◌||◌, not, Option, none, some, List, [], ◌∷◌, ◌==◌,
  nat_eq, string_eq, option_eq, ltb, is_some, if◌then◌else◌, clip,
}
use anvil_events.Result.{
  Result, ok, err, value_error, key_error, guard, or_raise, ◌>>=◌, ◌>>◌, transaction,
}
use anvil_events.Table.{select, update, insert}
use anvil_events.Json.{Json, Fields, Codec, object, get, as_text, as_nat, boolean}
use anvil_events.Domain.V2.Payloads.{Screen}
use anvil_events.Domain.V2.{make_event_v2}
use anvil_events.Domain.V1.{validate_event, make_event}
use anvil_events.Domain.V1.Payloads.{validate_payload_v1}
use anvil_events.Domain.Patterns.{is_safe_token}
use anvil_events.Transport.Wire.{encode_js_publish}
use anvil_events.Storage.Schema.{Db, EventRow, DeliveryState, is_acked}
use Rows.{
  Envelope, envelope_of, event_at, event_of, new_row, heal, set_state, set_puback, bump_pending,
  update_sequence, next_sequence, merge_state, changes, quarantine_row, advance_cursors,
  note_failure, is_pending_at,
}

abbrev pub Put : Type 0
Put = Result ((Bool × Bool) × Db)

-- A stored envelope with other bytes and the same digest is replaced, and kept in quarantine.
unfoldable pub heal_envelope : String → String → ℕ → EventRow → Db → Db
heal_envelope id encoded now row db = if row.envelope_json == encoded then db else record db {
  quarantine =
      insert
        (quarantine_row id row.envelope_json "stored envelope healed by canonical redelivery" now)
        db.quarantine;
  events = update (event_of id) (heal encoded) db.events;
}

-- The branch of `put` on an event that is stored.
unfoldable pub put_existing :
    Envelope → String → String → Option DeliveryState → Bool → ℕ → EventRow → Db → Put
put_existing e encoded digest state journaled now row db = do
  guard (row.canonical_sha256 == digest) (value_error "event identity collision")
  let healed = heal_envelope e.event_id encoded now row db in
      let new_state = merge_state state row.producer_state in
      ok (
        (false, changes row.producer_state new_state),
        record healed {
          events = update (event_of e.event_id) (set_state new_state journaled now) healed.events;
          sequences = update_sequence e.producer e.producer_seq healed.sequences;
        },
      )

-- The branch of `put` on a new event.
unfoldable pub put_new : Envelope → String → String → Option DeliveryState → Bool → ℕ → Db → Put
put_new e encoded digest state journaled now db = do
  guard (not (is_some (select (event_at e.producer e.producer_seq) db.events)))
      (value_error "producer sequence collision")
  ok (
    (true, is_some state),
    record db {
      events =
          insert (new_row e encoded digest (len encoded) state journaled now db.next_row_id)
            db.events;
      next_row_id = db.next_row_id + 1;
      sequences = update_sequence e.producer e.producer_seq db.sequences;
    },
  )

-- By the row of the event, if there is one.
abbrev pub put_as :
    Envelope → String → String → Option DeliveryState → Bool → ℕ → Option EventRow → Db → Put
put_as e encoded digest state journaled now none db =
    put_new e encoded digest state journaled now db
put_as e encoded digest state journaled now (some row) db =
    put_existing e encoded digest state journaled now row db

-- puback.get("duplicate", False)
abbrev pub duplicate_of : Option Json → Option Bool
duplicate_of none = some false
duplicate_of (some (boolean b)) = some b
duplicate_of (some _) = none

abbrev pub object_of : Json → Option Fields
object_of (object fs) = some fs
object_of _ = none

-- The two statements of `record_puback` after the write of the event.
unfoldable pub puback_write : Envelope → String → String → ℕ → Bool → ℕ → Db → Db
puback_write e id stream seq duplicate now db = record db {
  events = update (event_of id) (set_puback stream seq duplicate now) db.events;
  cursors = advance_cursors e db.cursors;
}

unfoldable pub finish_puback :
    Fields → String → String → ℕ → Bool → ℕ → Bool → Db → Result (Unit {0} × Db)
unfolding puback_write
finish_puback event id stream seq duplicate now changed db = do
  e ← or_raise (envelope_of event) (key_error "subject")
  let acked = puback_write e id stream seq duplicate now db in
      ok (tt, if changed then bump_pending acked else acked)

-- The evidence of an acknowledgement.
pub record Puback : Type 0 where
  pub stream : String
  pub sequence : ℕ
  pub duplicate : Bool

unfoldable pub check_puback : Json → Result Puback
check_puback puback = do
  p ← or_raise (object_of puback) (value_error "PubAck evidence must be an object")
  seq ← or_raise (as_nat (get "seq" p)) (value_error "PubAck sequence must be a positive integer")
  guard (ltb 0 seq) (value_error "PubAck sequence must be a positive integer")
  stream ←
      or_raise (as_text (get "stream" p))
        (value_error "PubAck must contain stream and positive seq")
  guard (not (stream == "")) (value_error "PubAck must contain stream and positive seq")
  duplicate ←
      or_raise (duplicate_of (get "duplicate" p)) (value_error "PubAck duplicate must be a boolean")
  guard (is_safe_token stream) (value_error "PubAck stream must be one safe token")
  ok (record { stream = stream; sequence = seq; duplicate = duplicate })

-- The acknowledgement of a row agrees with the evidence that the row has.
abbrev pub agrees : String → ℕ → EventRow → Bool
agrees stream seq row =
    not (is_acked row.producer_state)
    || (row.puback_stream == some stream && row.puback_sequence == some seq)

module _ (codec : Codec) (screen : Screen) where
  unfoldable pub put : Fields → Option DeliveryState → Bool → ℕ → Db → Put
  put event state journaled now db = do
    validate_event codec screen none (object event)
    let encoded = codec.dumps (object event) in
        do
          e ← or_raise (envelope_of event) (key_error "event_id")
          frame ← encode_js_publish encoded e.event_id
          put_as e encoded (codec.sha256 encoded) state journaled now
              (select (event_of e.event_id) db.events) db

  -- The write of a pending event, which counts as a change where the row's state changed.
  unfoldable pub put_pending : Fields → ℕ → Db → Result (Fields × Db)
  put_pending event now db = do
    ((created, changed), db') ← put event (some DeliveryState.pending) false now db
    ok (event, if changed then bump_pending db' else db')

  unfoldable pub emit_v1_in :
      String → String → String → Fields → Option String → String → ℕ → Db → Result (Fields × Db)
  emit_v1_in producer kind host payload correlation clock now db = do
    validate_payload_v1 kind (object payload)
    event ←
        make_event producer kind host payload (next_sequence producer db.sequences) correlation []
          clock
    put_pending event now db

  unfoldable pub emit_v1 :
      String → String → String → Fields → Option String → String → ℕ → Db → Result Fields × Db
  emit_v1 producer kind host payload correlation clock now =
      transaction (emit_v1_in producer kind host payload correlation clock now)

  unfoldable pub journal_v1_in :
      String → String → String → Fields → Option String → String → ℕ → Db → Result (Fields × Db)
  journal_v1_in producer kind host payload correlation clock now db = do
    validate_payload_v1 kind (object payload)
    event ←
        make_event producer kind host payload (next_sequence producer db.sequences) correlation []
          clock
    (flags, db') ← put event none true now db
    ok (event, db')

  unfoldable pub emit_v2_in :
      String
      → String
      → String
      → Json
      → Option String
      → List String
      → String
      → ℕ
      → Db
      → Result (Fields × Db)
  emit_v2_in producer kind node payload correlation causes clock now db = do
    event ←
        make_event_v2 codec screen producer kind node payload (next_sequence producer db.sequences)
          correlation causes clock
    put_pending event now db

  unfoldable pub emit_v2 :
      String
      → String
      → String
      → Json
      → Option String
      → List String
      → String
      → ℕ
      → Db
      → Result Fields × Db
  emit_v2 producer kind node payload correlation causes clock now =
      transaction (emit_v2_in producer kind node payload correlation causes clock now)

  unfoldable pub append : Fields → ℕ → Db → Result Fields × Db
  append event now = transaction (put_pending event now)

  -- The body of `append_journal`: whether the event was not in the journal yet.
  unfoldable pub append_journal_in : Fields → ℕ → Db → Result (Bool × Db)
  append_journal_in event now db = do
    (flags, db') ← put event none true now db
    let prior = select (λ r. some r.event_id == as_text (get "event_id" event)) db.events in
        ok (elim prior [ none ↦ true | some row ↦ not row.journaled ], db')

  unfoldable pub append_journal : Fields → ℕ → Db → Result Bool × Db
  append_journal event now = transaction (append_journal_in event now)

  -- The write of the acknowledged event and what follows it.
  unfoldable pub puback_put : Fields → String → String → ℕ → Bool → ℕ → Db → Result (Unit {0} × Db)
  puback_put event id stream seq duplicate now db = do
    ((created, changed), db') ← put event (some DeliveryState.acked) false now db
    finish_puback event id stream seq duplicate now changed db'

  -- The transaction of `record_puback`.
  unfoldable pub puback_in : Fields → String → ℕ → Bool → ℕ → Db → Result (Unit {0} × Db)
  puback_in event stream seq duplicate now db = do
    id ← or_raise (as_text (get "event_id" event)) (key_error "event_id")
    row ← or_raise (select (event_of id) db.events) (value_error "cannot acknowledge unknown event")
    guard (agrees stream seq row) (value_error "conflicting PubAck evidence")
    puback_put event id stream seq duplicate now db

  -- The checks of the evidence, then the transaction.
  unfoldable pub record_puback_in : Fields → Json → ℕ → Db → Result (Unit {0} × Db)
  record_puback_in event puback now db = do
    p ← check_puback puback
    puback_in event p.stream p.sequence p.duplicate now db

  unfoldable pub record_puback : Fields → Json → ℕ → Db → Result (Unit {0}) × Db
  record_puback event puback now = transaction (record_puback_in event puback now)

-- note_delivery_failure
unfoldable pub note_delivery_failure : String → String → Option ℕ → Db → Db
note_delivery_failure id error retry_after db = record db {
  events = update (is_pending_at id) (note_failure (clip 300 error) retry_after) db.events;
}
