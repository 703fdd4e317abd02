-- ===== src/Runtime/Delivery.antt =====
-- runtime/delivery.py: how `DeliveryPump.deliver` hands a batch to the broker. The client's publish and
-- the stop event are parameters.
pub mod Sending
pub mod Pacing
use anvil_events.Base.{
  ℕ, ◌+◌, ◌^◌, min, String, Bool, true, false, not, Option, none, some, List, [], ◌∷◌, ◌==◌,
  string_eq, option_eq, ltb, nat_eq, if◌then◌else◌, clip,
}
use anvil_events.Result.{Fault, Result, ok, err, value_error, key_error, message}
use anvil_events.Exec.{Exec}
use anvil_events.Table.{select, delete, insert}
use anvil_events.Json.{Json, Fields, Codec, object, get, as_text}
use anvil_events.Domain.V2.Payloads.{Screen}
use anvil_events.Storage.Schema.{Db}
use anvil_events.Storage.Events.{record_puback, note_delivery_failure}

-- self.retry[event_id]
pub record Retry : Type 0 where
  pub event_id : String
  pub failures : ℕ
  pub next_at : ℕ

-- The fields of the pump, and the counters of runtime/stats.py that `deliver` writes. A time is a number
-- of seconds.
pub record Pump : Type 0 where
  pub retry : List Retry
  pub seen : List String
  pub position : Option ℕ
  pub sleep_until : Option ℕ
  pub sleep_signature : Option (ℕ × ℕ)
  pub retried : ℕ
  pub acked : ℕ
  pub delivery_errors : ℕ
  pub last_delivery_error : Option String

pub record Sender (W : Type 0) : Type 0 where
  pub db : Db
  pub outside : W
  pub pump : Pump

-- publish_js with the subject, the event and its id, over the broker's state, and stop.is_set().
pub record Client (W : Type 0) : Type 0 where
  pub publish_js : Json → Fields → String → Exec W Json
  pub is_stopped : W → Bool

abbrev pub retry_of : String → Retry → Bool
retry_of id r = r.event_id == id

-- self.seen.discard(event_id)
unfoldable pub discard : String → List String → List String
discard id = delete (λ s. s == id)

-- (state or {}).get("failures", 0) + 1
abbrev pub failures_after : Option Retry → ℕ
failures_after none = 1
failures_after (some r) = r.failures + 1

-- min(60, 2 ** min(failures, 6))
abbrev pub delay_after : ℕ → ℕ
delay_after failures = min 60 (2 ^ min failures 6)

-- state and now < state["next_at"]
abbrev pub is_waiting : ℕ → Option Retry → Bool
is_waiting now none = false
is_waiting now (some r) = ltb now r.next_at

-- min(item["next_at"] for item in self.retry.values())
unfoldable pub earliest : List Retry → Option ℕ
earliest [] = none
earliest (r ∷ t) = elim (earliest t) [ none ↦ some r.next_at | some n ↦ some (min r.next_at n) ]

module _ {W : Type 0} (codec : Codec) (screen : Screen) (client : Client W) (stream : String) where
  -- record_puback of storage/sqlite.py, with the expected stream.
  abbrev pub is_expected : Json → Bool
  is_expected (object fs) = as_text (get "stream" fs) == some stream
  is_expected _ = false

  unfoldable pub record_expected : Fields → Json → ℕ → Db → Result (Unit {0}) × Db
  record_expected event puback wall db =
      if is_expected puback
      then record_puback codec screen event puback wall db
      else (err (value_error "PubAck stream differs from expected"), db)

  -- The body of the `try`.
  abbrev pub after_publish : Fields → ℕ → Result Json → Exec (Sender W) (Unit {0})
  after_publish event wall (err e) s = (err e, s)
  after_publish event wall (ok puback) s =
      let (r, db') = record_expected event puback wall s.db in (r, record s { db = db' })

  unfoldable pub send : String → Fields → ℕ → Exec (Sender W) (Unit {0})
  send id event wall s = elim (get "subject" event) [
    | none ↦ (err (key_error "subject"), s)
    | some subject ↦
        let (r, o) = client.publish_js subject event id s.outside in
        after_publish event wall r (record s { outside = o })
  ]

  abbrev pub count_retried : Sender W → Sender W
  count_retried s = record s { pump = record s.pump { retried = s.pump.retried + 1 } }

  unfoldable pub succeed : String → Sender W → Sender W
  succeed id s = record s {
    pump = record s.pump { acked = s.pump.acked + 1; retry = delete (retry_of id) s.pump.retry };
  }

  -- The handler: the event is scheduled again, and its failure is noted in the store.
  unfoldable pub schedule : String → Option Retry → Fault → ℕ → ℕ → Sender W → Sender W
  schedule id prior e now wall s =
      let failures = failures_after prior in
      record s {
        db = note_delivery_failure id (message e) (some (wall + delay_after failures)) s.db;
        pump = record s.pump {
          seen = discard id s.pump.seen;
          retry =
              insert
                (record {
                  event_id = id;
                  failures = failures;
                  next_at = now + delay_after failures;
                })
                (delete (retry_of id) s.pump.retry);
          delivery_errors = s.pump.delivery_errors + 1;
          last_delivery_error = some (clip 300 (message e));
        };
      }

  abbrev pub after_send :
      String → Option Retry → Result (Unit {0}) → ℕ → ℕ → ℕ × ℕ → Sender W → (ℕ × ℕ) × Sender W
  after_send id prior (ok u) now wall (attempted, failed) s =
      ((attempted + 1, failed), succeed id s)
  after_send id prior (err e) now wall (attempted, failed) s =
      ((attempted + 1, failed + 1), schedule id prior e now wall s)

  -- One turn of the loop, which has counted the attempted and the failed events.
  unfoldable pub deliver_event : String → Fields → ℕ → ℕ → ℕ × ℕ → Sender W → (ℕ × ℕ) × Sender W
  deliver_event id event now wall counts s =
      let prior = select (retry_of id) s.pump.retry in
      if is_waiting now prior
      then (counts, s)
      else let (r, s') = send id event wall (count_retried s) in
        after_send id prior r now wall counts s'

  unfoldable pub deliver_events : List Fields → ℕ → ℕ → ℕ × ℕ → Exec (Sender W) (ℕ × ℕ)
  deliver_events [] now wall counts s = (ok counts, s)
  deliver_events (event ∷ events) now wall counts s = elim (client.is_stopped s.outside) [
    | true ↦ (ok counts, s)
    | false ↦ elim (as_text (get "event_id" event)) [
      | none ↦ (err (key_error "event_id"), s)
      | some id ↦
          let (counts', s') = deliver_event id event now wall counts s in
          deliver_events events now wall counts' s'
    ]
  ]

  -- What follows the loop.
  abbrev pub rest_until : List Retry → Pump → Pump
  rest_until [] pump = record pump { sleep_until = none; sleep_signature = none }
  rest_until (r ∷ t) pump = record pump { sleep_until = earliest (r ∷ t) }

  abbrev pub after_loop : Result (ℕ × ℕ) → Exec (Sender W) (ℕ × ℕ)
  after_loop (err e) s = (err e, s)
  after_loop (ok (attempted, failed)) s =
      let pump = if attempted == 0 then s.pump else record s.pump { position = none } in
      (ok (attempted, failed), record s { pump = rest_until pump.retry pump })

  unfoldable pub deliver : List Fields → ℕ → ℕ → Exec (Sender W) (ℕ × ℕ)
  deliver batch now wall s = let (r, s') = deliver_events batch now wall (0, 0) s in after_loop r s'
