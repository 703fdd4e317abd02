-- ===== src/Storage/Delivery.antt =====
-- storage/delivery.py: the selection of pending events, and the repair of those that are not intact.
pub mod Intact
pub mod Batches
use anvil_events.Base.{
  ℕ, ◌+◌, ◌*◌, String, Bool, true, false, ◌&&◌, not, Option, none, some, List, [], ◌∷◌, ◌++◌, ◌==◌,
  nat_eq, string_eq, option_eq, ltb, leb, if◌then◌else◌, contains, take, length,
}
use anvil_events.Base.Int.{pos}
use anvil_events.Result.{Result, ok, err, value_error, key_error, message, ◌>>=◌, transaction}
use anvil_events.Table.{select_all, update, insert}
use anvil_events.Json.{Json, Fields, Codec, text, number, object, field, end, get, as_text}
use anvil_events.Domain.V2.Payloads.{Screen}
use anvil_events.Storage.Schema.{Db, EventRow, OperationRow, OperationState, is_pending}
use anvil_events.Storage.Events.{journal_v1_in}
use anvil_events.Storage.Events.Rows.{event_of, quarantine_row, bump_pending}
use anvil_events.Storage.Queries.{is_intact, pending_signature}
use anvil_events.Storage.Operations.{is_recorded}

-- The validator of the source, whose reason or exception is the text of the fault.
abbrev pub Validator : Type 0
Validator = Json → Result (Unit {0})

-- The reason to quarantine a row, if there is one. A mismatch hides the reason that the validator
-- returned, and an exception of the validator ends the checks.
abbrev pub judge : Codec → EventRow → Json → Result (Unit {0}) → Option String
judge codec r event (ok u) =
    if is_intact codec r event then none else some "canonical event integrity mismatch"
judge codec r event (err (value_error s)) =
    if is_intact codec r event then some s else some "canonical event integrity mismatch"
judge codec r event (err e) = some (message e)

unfoldable pub defect : Codec → Validator → EventRow → Option String
defect codec validator r = elim (codec.loads r.envelope_json) [
  | none ↦ some "invalid JSON"
  | some event ↦ judge codec r event (validator event)
]

abbrev pub clear_state : EventRow → EventRow
clear_state r = record r { producer_state = none }

abbrev pub recorded_for : String → OperationRow → Bool
recorded_for id r = r.event_id == some id && is_recorded r.state

abbrev pub lose : OperationRow → OperationRow
lose r = record r { state = OperationState.indeterminate; error = some "event record quarantined" }

-- The writes of one turn of the loop of `repair`.
unfoldable pub quarantine_event : ℕ → String → EventRow → Db → Db
quarantine_event now reason r db = record db {
  quarantine = insert (quarantine_row r.event_id r.envelope_json reason now) db.quarantine;
  events = update (event_of r.event_id) clear_state db.events;
  operations = update (recorded_for r.event_id) lose db.operations;
}

-- The loop of `repair`, with the number of rows that it quarantined.
unfoldable pub repair_rows : Codec → Validator → ℕ → List EventRow → ℕ × Db → ℕ × Db
repair_rows codec validator now [] (n, db) = (n, db)
repair_rows codec validator now (r ∷ t) (n, db) = elim (defect codec validator r) [
  | none ↦ repair_rows codec validator now t (n, db)
  | some reason ↦ repair_rows codec validator now t (n + 1, quarantine_event now reason r db)
]

module _ (codec : Codec) (screen : Screen) (validator : Validator) where
  unfoldable pub repair_in : String → ℕ → Db → Result (ℕ × Db)
  repair_in clock now db =
      let (n, db') =
        repair_rows codec validator now (select_all (λ r. is_pending r.producer_state) db.events)
          (0, db) in
      if n == 0 then ok (0, db') else do
        (event, db'') ←
            journal_v1_in codec screen "local:recovery" "event.degraded" "local"
              (field "cause" (text "invalid pending records quarantined")
                (field "records" (number (pos n)) end))
              none clock now (bump_pending db')
        ok (n, db'')

  unfoldable pub repair : String → ℕ → Db → Result ℕ × Db
  repair clock now = transaction (repair_in clock now)

-- What the loop of `select` has found.
pub record Scan : Type 0 where
  pub selected : List Fields
  pub seen : List String
  pub invalid : Bool
  pub last_position : Option ℕ
  pub is_full : Bool

abbrev pub readable : Codec → Validator → EventRow → Option Fields
readable codec validator r = elim (defect codec validator r) [
  | none ↦ elim (codec.loads r.envelope_json) [ some (object fs) ↦ some fs | _ ↦ none ]
  | some reason ↦ none
]

-- event["event_id"], which is a text in what the validators take
abbrev pub event_id_in : Fields → Option String
event_id_in event = as_text (get "event_id" event)

-- An eligible event, unless its id was seen.
abbrev pub choose_event : ℕ → EventRow → Fields → Scan → Option String → Result Scan
choose_event max_events r event s none = err (key_error "event_id")
choose_event max_events r event s (some id) =
    if contains id s.seen
    then ok (record s { last_position = some r.row_id })
    else ok (record s {
      last_position = some r.row_id;
      seen = id ∷ s.seen;
      selected = s.selected ++ event ∷ [];
      is_full = leb max_events (length s.selected + 1);
    })

-- One turn of the loop of `select`.
unfoldable pub scan_row : Codec → Validator → (Fields → Bool) → ℕ → EventRow → Scan → Result Scan
scan_row codec validator eligible max_events r s = elim (readable codec validator r) [
  | none ↦ ok (record s { last_position = some r.row_id; invalid = true })
  | some event ↦
      if eligible event
      then choose_event max_events r event s (event_id_in event)
      else ok (record s { last_position = some r.row_id })
]

-- The loop goes on with `next` unless the batch is full.
abbrev pub after_row : Result Scan → (Scan → Result Scan) → Result Scan
after_row (err e) next = err e
after_row (ok s) next = if s.is_full then ok s else next s

unfoldable pub scan_rows :
    Codec → Validator → (Fields → Bool) → ℕ → List EventRow → Scan → Result Scan
scan_rows codec validator eligible max_events [] s = ok s
scan_rows codec validator eligible max_events (r ∷ t) s =
    after_row (scan_row codec validator eligible max_events r s)
      (scan_rows codec validator eligible max_events t)

pub record Batch : Type 0 where
  pub selected : List Fields
  pub seen : List String
  pub reached_eof : Bool
  pub repaired : ℕ
  pub position : Option ℕ
  pub rows : ℕ
  pub signature : Option (ℕ × ℕ)

-- WHERE producer_state = 'pending' AND row_id > ?
abbrev pub is_pending_after : ℕ → EventRow → Bool
is_pending_after start r = is_pending r.producer_state && ltb start r.row_id

abbrev pub start_of : Option ℕ → ℕ
start_of none = 0
start_of (some n) = n

-- max_scan or max_events * 4
abbrev pub scan_limit : ℕ → Option ℕ → ℕ
scan_limit max_events none = max_events * 4
scan_limit max_events (some n) = if n == 0 then max_events * 4 else n

abbrev pub start_scan : List String → Option ℕ → Scan
start_scan seen start = record {
  selected = [];
  seen = seen;
  invalid = false;
  last_position = start;
  is_full = false;
}

-- SELECT ... ORDER BY row_id LIMIT ?: rows are inserted in the order of their numbers.
abbrev pub rows_after : Option ℕ → ℕ → Db → List EventRow
rows_after start limit db =
    take (limit + 1) (select_all (is_pending_after (start_of start)) db.events)

module _ (codec : Codec) (screen : Screen) (validator : Validator) where
  -- What follows the loop, over the rows that were read and the limit.
  abbrev pub finish_batch : String → ℕ → ℕ → List EventRow → Db → Result Scan → Result Batch × Db
  finish_batch clock now limit rows db (err e) = (err e, db)
  finish_batch clock now limit rows db (ok s) =
      let eof = leb (length rows) limit && not s.is_full in
      let (repaired, db') =
        if s.invalid then repair codec screen validator clock now db else (ok 0, db) in
      (
        repaired >>= λ n. ok (record {
          selected = s.selected;
          seen = s.seen;
          reached_eof = eof;
          repaired = n;
          position = if n == 0 then s.last_position else none;
          rows = length (take limit rows);
          signature = if eof then some (pending_signature db') else none;
        }),
        db',
      )

  unfoldable pub select_batch :
      (Fields → Bool) → ℕ → Option ℕ → List String → Option ℕ → String → ℕ → Db → Result Batch × Db
  unfolding scan_rows
  select_batch eligible max_events max_scan seen start clock now db =
      if max_events == 0
      then (err (value_error "max_events must be positive"), db)
      else let limit = scan_limit max_events max_scan in
        let rows = rows_after start limit db in
        finish_batch clock now limit rows db
          (scan_rows codec validator eligible max_events (take limit rows) (start_scan seen start))
