-- ===== src/Storage/Schema.antt =====
-- The tables of storage/database.py. A column that may be NULL is an Option, a REAL time a number of
-- ticks, an INTEGER restricted to 0 and 1 a Bool.
use anvil_events.Base.{ℕ, String, Bool, true, false, Option, some, List, []}

pub data DeliveryState : Type 0 where
  pending acked : DeliveryState

pub record EventRow : Type 0 where
  pub row_id : ℕ
  pub event_id : String
  pub producer : String
  pub producer_seq : ℕ
  pub observed_at : String
  pub subject : String
  pub kind : String
  pub envelope_json : String
  pub canonical_sha256 : String
  pub canonical_size : ℕ
  pub producer_state : Option DeliveryState
  pub journaled : Bool
  pub acked_at : Option ℕ
  pub puback_stream : Option String
  pub puback_sequence : Option ℕ
  pub puback_duplicate : Option Bool
  pub delivery_attempts : ℕ
  pub last_delivery_error : Option String
  pub retry_after : Option ℕ
  pub created_at : ℕ

pub record SequenceRow : Type 0 where
  pub producer : String
  pub last_sequence : ℕ

pub record CursorRow : Type 0 where
  pub subject : String
  pub producer : String
  pub event_id : String
  pub producer_seq : ℕ

pub record FactRow : Type 0 where
  pub event_id : String
  pub fact_json : String
  pub fact_sha256 : String
  pub stored_at : ℕ

pub record QuarantineRow : Type 0 where
  pub event_id : String
  pub raw_json : String
  pub reason : String
  pub quarantined_at : ℕ

pub data OperationState : Type 0 where
  prepared recorded applied failed indeterminate : OperationState

pub record OperationRow : Type 0 where
  pub operation_id : String
  pub idempotency_key : String
  pub producer : String
  pub kind : String
  pub correlation_id : Option String
  pub state : OperationState
  pub intent_json : String
  pub prepared_at : ℕ
  pub resolved_at : Option ℕ
  pub event_id : Option String
  pub error : Option String

pub record ResourceRow : Type 0 where
  pub node : String
  pub resource : String
  pub generation : ℕ
  pub revision : String
  pub content_sha256 : String
  pub adapter : String
  pub event_id : String
  pub updated_at : ℕ

pub data AttemptState : Type 0 where
  prepared awaiting_approval applied failed indeterminate : AttemptState

pub record AttemptRow : Type 0 where
  pub operation_id : String
  pub event_id : String
  pub node : String
  pub resource : String
  pub generation : ℕ
  pub state : AttemptState
  pub preview_json : Option String
  pub error : Option String
  pub started_at : ℕ
  pub completed_at : Option ℕ

pub record ApplicationRow : Type 0 where
  pub operation_id : String
  pub node : String
  pub resource : String
  pub started_at : ℕ

-- `pending_change_counter` is the one row of `metadata` that the program reads, and `next_row_id` the
-- AUTOINCREMENT counter of `events`.
pub record Db : Type 0 where
  pub pending_change_counter : ℕ
  pub next_row_id : ℕ
  pub sequences : List SequenceRow
  pub events : List EventRow
  pub cursors : List CursorRow
  pub facts : List FactRow
  pub quarantine : List QuarantineRow
  pub operations : List OperationRow
  pub resources : List ResourceRow
  pub attempts : List AttemptRow
  pub applications : List ApplicationRow

-- The database that `Database._initialize` leaves on a new root.
abbrev pub initial : Db
initial = record {
  pending_change_counter = 0;
  next_row_id = 1;
  sequences = [];
  events = [];
  cursors = [];
  facts = [];
  quarantine = [];
  operations = [];
  resources = [];
  attempts = [];
  applications = [];
}

-- Equality of the state columns.
abbrev pub is_pending : Option DeliveryState → Bool
is_pending (some DeliveryState.pending) = true
is_pending _ = false

abbrev pub is_acked : Option DeliveryState → Bool
is_acked (some DeliveryState.acked) = true
is_acked _ = false

abbrev pub attempt_code : AttemptState → ℕ
attempt_code AttemptState.prepared = 0
attempt_code AttemptState.awaiting_approval = 1
attempt_code AttemptState.applied = 2
attempt_code AttemptState.failed = 3
attempt_code AttemptState.indeterminate = 4
