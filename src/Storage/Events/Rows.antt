-- ===== src/Storage/Events/Rows.antt =====
-- The rows that storage/events.py reads and writes.
use anvil_events.Base.{
  ℕ, ◌+◌, String, Bool, true, false, ◌&&◌, ◌||◌, Option, none, some, List, ◌==◌, nat_eq, string_eq,
  option_eq, ltb, is_some, or_else, if◌then◌else◌,
}
use Prim.Native.String.{len}
use anvil_events.Table.{select, update, insert}
use anvil_events.Json.{Fields, get, as_text, as_nat}
use anvil_events.Storage.Schema.{
  Db, EventRow, SequenceRow, CursorRow, QuarantineRow, DeliveryState, is_pending,
}

-- The fields of an envelope that the tables hold in columns of their own.
pub record Envelope : Type 0 where
  pub event_id : String
  pub producer : String
  pub producer_seq : ℕ
  pub observed_at : String
  pub subject : String
  pub kind : String

infixl 5 ◌>>=◌
abbrev ◌>>=◌ {ℓ κ} : {A : Type ℓ} {B : Type κ} → Option A → (A → Option B) → Option B
none >>= f = none
some a >>= f = f a

unfoldable pub envelope_of : Fields → Option Envelope
envelope_of event = do
  event_id ← as_text (get "event_id" event)
  producer ← as_text (get "producer" event)
  producer_seq ← as_nat (get "producer_seq" event)
  observed_at ← as_text (get "observed_at" event)
  subject ← as_text (get "subject" event)
  kind ← as_text (get "kind" event)
  some (record {
    event_id = event_id;
    producer = producer;
    producer_seq = producer_seq;
    observed_at = observed_at;
    subject = subject;
    kind = kind;
  })

-- WHERE event_id = ?, and WHERE producer = ? AND producer_seq = ?
abbrev pub event_of : String → EventRow → Bool
event_of id r = r.event_id == id

abbrev pub event_at : String → ℕ → EventRow → Bool
event_at producer seq r = r.producer == producer && r.producer_seq == seq

abbrev pub is_pending_at : String → EventRow → Bool
is_pending_at id r = r.event_id == id && is_pending r.producer_state

abbrev pub acked_time : Option DeliveryState → ℕ → Option ℕ
acked_time (some DeliveryState.acked) now = some now
acked_time _ now = none

unfoldable pub new_row :
    Envelope → String → String → ℕ → Option DeliveryState → Bool → ℕ → ℕ → EventRow
new_row e encoded digest size state journaled now row_id = record {
  row_id = row_id;
  event_id = e.event_id;
  producer = e.producer;
  producer_seq = e.producer_seq;
  observed_at = e.observed_at;
  subject = e.subject;
  kind = e.kind;
  envelope_json = encoded;
  canonical_sha256 = digest;
  canonical_size = size;
  producer_state = state;
  journaled = journaled;
  acked_at = acked_time state now;
  puback_stream = none;
  puback_sequence = none;
  puback_duplicate = none;
  delivery_attempts = 0;
  last_delivery_error = none;
  retry_after = none;
  created_at = now;
}

abbrev pub heal : String → EventRow → EventRow
heal encoded r = record r { envelope_json = encoded; canonical_size = len encoded }

-- SET producer_state = ?, journaled = MAX(journaled, ?), acked_at = CASE ...
abbrev pub set_state : Option DeliveryState → Bool → ℕ → EventRow → EventRow
set_state state journaled now r = record r {
  producer_state = state;
  journaled = r.journaled || journaled;
  acked_at = or_else r.acked_at (acked_time state now);
}

-- acked_at = COALESCE(acked_at, ?)
abbrev pub set_puback : String → ℕ → Bool → ℕ → EventRow → EventRow
set_puback stream seq duplicate now r = record r {
  puback_stream = some stream;
  puback_sequence = some seq;
  puback_duplicate = some duplicate;
  acked_at = or_else r.acked_at (some now);
}

abbrev pub note_failure : String → Option ℕ → EventRow → EventRow
note_failure error retry_after r = record r {
  delivery_attempts = r.delivery_attempts + 1;
  last_delivery_error = some error;
  retry_after = retry_after;
}

-- The state of a stored event after a write that asks for a state: the argument, then the stored state.
abbrev pub merge_state : Option DeliveryState → Option DeliveryState → Option DeliveryState
merge_state (some DeliveryState.acked) old = some DeliveryState.acked
merge_state state none = state
merge_state (some DeliveryState.pending) (some DeliveryState.acked) = some DeliveryState.acked
merge_state (some DeliveryState.pending) (some DeliveryState.pending) = some DeliveryState.pending
merge_state none (some old) = some old

-- old_state != new_state
abbrev pub changes : Option DeliveryState → Option DeliveryState → Bool
changes none none = false
changes (some DeliveryState.pending) (some DeliveryState.pending) = false
changes (some DeliveryState.acked) (some DeliveryState.acked) = false
changes _ _ = true

abbrev pub quarantine_row : String → String → String → ℕ → QuarantineRow
quarantine_row id raw reason now = record {
  event_id = id;
  raw_json = raw;
  reason = reason;
  quarantined_at = now;
}

-- _bump_pending
unfoldable pub bump_pending : Db → Db
bump_pending db = record db { pending_change_counter = db.pending_change_counter + 1 }

abbrev pub sequence_of : String → SequenceRow → Bool
sequence_of producer r = r.producer == producer

-- last_sequence = MAX(last_sequence, excluded.last_sequence)
abbrev pub raise_sequence : ℕ → SequenceRow → SequenceRow
raise_sequence seq r = record r {
  last_sequence = if ltb r.last_sequence seq then seq else r.last_sequence;
}

-- _update_sequence
unfoldable pub update_sequence : String → ℕ → List SequenceRow → List SequenceRow
update_sequence producer seq t =
    if is_some (select (sequence_of producer) t)
    then update (sequence_of producer) (raise_sequence seq) t
    else insert (record { producer = producer; last_sequence = seq }) t

-- The last sequence of a producer: 0 where it has no row.
unfoldable pub last_sequence : String → List SequenceRow → ℕ
last_sequence producer t = elim (select (sequence_of producer) t) [
  | none ↦ 0
  | some r ↦ r.last_sequence
]

-- _next_sequence
unfoldable pub next_sequence : String → List SequenceRow → ℕ
unfolding last_sequence
next_sequence producer t = last_sequence producer t + 1

abbrev pub cursor_of : String → String → CursorRow → Bool
cursor_of subject producer r = r.subject == subject && r.producer == producer

-- DO UPDATE SET ... WHERE excluded.producer_seq > cursors.producer_seq
abbrev pub raise_cursor : Envelope → CursorRow → CursorRow
raise_cursor e r =
    if ltb r.producer_seq e.producer_seq
    then record r { event_id = e.event_id; producer_seq = e.producer_seq }
    else r

unfoldable pub advance_cursors : Envelope → List CursorRow → List CursorRow
advance_cursors e t =
    if is_some (select (cursor_of e.subject e.producer) t)
    then update (cursor_of e.subject e.producer) (raise_cursor e) t
    else insert
        (record {
          subject = e.subject;
          producer = e.producer;
          event_id = e.event_id;
          producer_seq = e.producer_seq;
        })
        t
