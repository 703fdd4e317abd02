-- ===== src/Storage/Events/Calls.antt =====
-- Histories of the methods of storage/events.py, and the induction principle for what they keep.
use anvil_events.Base.{
  ℕ, String, Bool, true, false, Option, none, some, List, [], ◌∷◌, ◌≡◌, if◌then◌else◌, string_eq,
  nat_eq, option_eq, Bool-cases, Option-cases, inl, inr,
}
use anvil_events.Result.{ok, Writes, transaction-Writes, Result-cases}
use anvil_events.Table.{select}
use anvil_events.Json.{Json, Fields, Codec, object, get, as_text}
use anvil_events.Domain.V1.{make_event}
use anvil_events.Domain.V1.Payloads.{validate_payload_v1}
use anvil_events.Domain.V2.{make_event_v2}
use anvil_events.Domain.V2.Payloads.{Screen}
use anvil_events.Storage.Schema.{Db, EventRow, DeliveryState}
use anvil_events.Storage.Events.Rows.{Envelope, envelope_of, event_of, bump_pending, next_sequence}
use anvil_events.Storage.Events.{
  put, put_pending, emit_v1, emit_v2, append, append_journal, append_journal_in, record_puback,
  record_puback_in, puback_in, puback_put, finish_puback, check_puback, agrees, puback_write,
  emit_v1_in, emit_v2_in, note_delivery_failure,
}

pub data Call : Type 0 where
  emits_v1 : String → String → String → Fields → Option String → String → ℕ → Call
  emits_v2 : String → String → String → Json → Option String → List String → String → ℕ → Call
  appends : Fields → ℕ → Call
  journals : Fields → ℕ → Call
  pubacks : Fields → Json → ℕ → Call
  notes : String → String → Option ℕ → Call

module _ (codec : Codec) (screen : Screen) where
  -- What a call leaves, whether it returns or raises.
  unfoldable pub after : Call → Db → Db
  after (emits_v1 producer kind host payload correlation clock now) db =
      (emit_v1 codec screen producer kind host payload correlation clock now db).1
  after (emits_v2 producer kind node payload correlation causes clock now) db =
      (emit_v2 codec screen producer kind node payload correlation causes clock now db).1
  after (appends event now) db = (append codec screen event now db).1
  after (journals event now) db = (append_journal codec screen event now db).1
  after (pubacks event puback now) db = (record_puback codec screen event puback now db).1
  after (notes id error retry_after) db = note_delivery_failure id error retry_after db

  unfoldable pub after_all : List Call → Db → Db
  unfolding after
  after_all [] db = db
  after_all (c ∷ cs) db = after_all cs (after c db)

  -- A property of the database that each of the writes keeps.
  pub record IsKept (P : Db → Type 0) : Type 0 where
    pub by_put :
        (event : Fields) (state : Option DeliveryState) (journaled : Bool) (now : ℕ) (db db' : Db)
        (flags : Bool × Bool)
        → P db
        → put codec screen event state journaled now db ≡ ok (flags, db')
        → P db'
    pub by_bump : (db : Db) → P db → P (bump_pending db)
    pub by_ack :
        (event : Fields) (e : Envelope) (id stream : String) (seq : ℕ) (duplicate : Bool) (now : ℕ)
        (row : EventRow) (db db' : Db) (flags : Bool × Bool)
        → P db
        → select (event_of id) db.events ≡ some row
        → agrees stream seq row ≡ true
        → put codec screen event (some DeliveryState.acked) false now db ≡ ok (flags, db')
        → P (puback_write e id stream seq duplicate now db')
    pub by_note :
        (id error : String) (retry_after : Option ℕ) (db : Db)
        → P db
        → P (note_delivery_failure id error retry_after db)

module _ (codec : Codec) (screen : Screen) (P : Db → Type 0) (k : IsKept codec screen P) where
  bumped : (b : Bool) (db : Db) → P db → P (if b then bump_pending db else db)
  bumped true db p = k.by_bump db p
  bumped false db p = p

  put_pending-keeps :
      (event : Fields) (now : ℕ) (db : Db) → P db → Writes P (put_pending codec screen event now db)
  unfolding put_pending
  put_pending-keeps event now db p =
      elim (Result-cases (put codec screen event (some DeliveryState.pending) false now db)) [
        | inr (x, e) ↦ rw (e, put_pending) tt
        | inl (r, e) ↦
            rw (e, put_pending) (bumped r.0.1 r.1 (k.by_put event _ _ now db r.1 r.0 p e))
      ]

  emit_v1_in-keeps :
      (producer kind host : String) (payload : Fields) (correlation : Option String)
      (clock : String) (now : ℕ) (db : Db)
      → P db
      → Writes P (emit_v1_in codec screen producer kind host payload correlation clock now db)
  unfolding emit_v1_in
  emit_v1_in-keeps producer kind host payload correlation clock now db p =
      elim (Result-cases (validate_payload_v1 kind (object payload))) [
        | inr (x, e) ↦ rw (e, emit_v1_in) tt
        | inl (u, e) ↦
            elim (Result-cases (
              make_event producer kind host payload (next_sequence producer db.sequences)
                correlation [] clock)) [
                  | inr (x, f) ↦ rw (e, f, emit_v1_in) tt
                  | inl (event, f) ↦ rw (e, f, emit_v1_in) (put_pending-keeps event now db p)
                ]
      ]

  pub emit_v2_in-keeps :
      (producer kind node : String) (payload : Json) (correlation : Option String)
      (causes : List String) (clock : String) (now : ℕ) (db : Db)
      → P db
      → Writes P
          (emit_v2_in codec screen producer kind node payload correlation causes clock now db)
  unfolding emit_v2_in
  emit_v2_in-keeps producer kind node payload correlation causes clock now db p =
      elim (Result-cases (
        make_event_v2 codec screen producer kind node payload (next_sequence producer db.sequences)
          correlation causes clock)) [
            | inr (x, f) ↦ rw (f, emit_v2_in) tt
            | inl (event, f) ↦ rw (f, emit_v2_in) (put_pending-keeps event now db p)
          ]

  append_journal_in-keeps :
      (event : Fields) (now : ℕ) (db : Db)
      → P db
      → Writes P (append_journal_in codec screen event now db)
  unfolding append_journal_in
  append_journal_in-keeps event now db p =
      elim (Result-cases (put codec screen event none true now db)) [
        | inr (x, e) ↦ rw (e, append_journal_in) tt
        | inl (r, e) ↦ rw (e, append_journal_in) (k.by_put event _ _ now db r.1 r.0 p e)
      ]

  -- The last steps of `record_puback`, once the write of the event is known.
  acknowledged :
      (event : Fields) (id stream : String) (seq : ℕ) (duplicate changed : Bool) (now : ℕ) (db : Db)
      → ((e : Envelope) → P (puback_write e id stream seq duplicate now db))
      → Writes P (finish_puback event id stream seq duplicate now changed db)
  unfolding finish_puback
  acknowledged event id stream seq duplicate changed now db p =
      elim (Option-cases (envelope_of event)) [
        | inl e ↦ rw (e, finish_puback) tt
        | inr (v, e) ↦ rw (e, finish_puback) (bumped changed _ (p v))
      ]

  puback_put-keeps :
      (event : Fields) (id stream : String) (seq : ℕ) (duplicate : Bool) (now : ℕ) (row : EventRow)
      (db : Db)
      → P db
      → select (event_of id) db.events ≡ some row
      → agrees stream seq row ≡ true
      → Writes P (puback_put codec screen event id stream seq duplicate now db)
  unfolding puback_put
  puback_put-keeps event id stream seq duplicate now row db p f g =
      elim (Result-cases (put codec screen event (some DeliveryState.acked) false now db)) [
        | inr (x, e) ↦ rw (e, puback_put) tt
        | inl (r, e) ↦
            rw (e, puback_put)
              (acknowledged event id stream seq duplicate r.0.1 now r.1
                (λ v. k.by_ack event v id stream seq duplicate now row db r.1 r.0 p f g e))
      ]

  puback_in-keeps :
      (event : Fields) (stream : String) (seq : ℕ) (duplicate : Bool) (now : ℕ) (db : Db)
      → P db
      → Writes P (puback_in codec screen event stream seq duplicate now db)
  unfolding puback_in
  puback_in-keeps event stream seq duplicate now db p =
      elim (Option-cases (as_text (get "event_id" event))) [
        | inl e ↦ rw (e, puback_in) tt
        | inr (id, e) ↦ elim (Option-cases (select (event_of id) db.events)) [
          | inl f ↦ rw (e, f, puback_in) tt
          | inr (row, f) ↦ elim (Bool-cases (agrees stream seq row)) [
            | inr g ↦ rw (e, f, g, puback_in) tt
            | inl g ↦
                rw (e, f, g, puback_in)
                  (puback_put-keeps event id stream seq duplicate now row db p f g)
          ]
        ]
      ]

  record_puback_in-keeps :
      (event : Fields) (puback : Json) (now : ℕ) (db : Db)
      → P db
      → Writes P (record_puback_in codec screen event puback now db)
  unfolding record_puback_in
  record_puback_in-keeps event puback now db p = elim (Result-cases (check_puback puback)) [
    | inr (x, e) ↦ rw (e, record_puback_in) tt
    | inl (r, e) ↦
        rw (e, record_puback_in) (puback_in-keeps event r.stream r.sequence r.duplicate now db p)
  ]

  pub after-keeps : (c : Call) (db : Db) → P db → P (after codec screen c db)
  unfolding after emit_v1 emit_v2 append append_journal record_puback
  after-keeps (emits_v1 producer kind host payload correlation clock now) db p =
      transaction-Writes P _ db p
        (emit_v1_in-keeps producer kind host payload correlation clock now db p)
  after-keeps (emits_v2 producer kind node payload correlation causes clock now) db p =
      transaction-Writes P _ db p
        (emit_v2_in-keeps producer kind node payload correlation causes clock now db p)
  after-keeps (appends event now) db p =
      transaction-Writes P _ db p (put_pending-keeps event now db p)
  after-keeps (journals event now) db p =
      transaction-Writes P _ db p (append_journal_in-keeps event now db p)
  after-keeps (pubacks event puback now) db p =
      transaction-Writes P _ db p (record_puback_in-keeps event puback now db p)
  after-keeps (notes id error retry_after) db p = k.by_note id error retry_after db p

  pub after_all-keeps : (cs : List Call) (db : Db) → P db → P (after_all codec screen cs db)
  unfolding after_all
  after_all-keeps [] db p = p
  after_all-keeps (c ∷ cs) db p = after_all-keeps cs (after codec screen c db) (after-keeps c db p)
