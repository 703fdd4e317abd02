-- ===== src/Storage/Operations.antt =====
-- storage/operations.py: the methods of `OperationLedger` as functions on the database. A name that ends
-- in `_in` is the body of the method's transaction.
pub mod Replay
pub mod Lifecycle
pub mod Journal
pub mod Rows
use anvil_events.Base.{
  ℕ, String, Bool, true, false, ◌&&◌, ◌||◌, not, Option, none, some, List, [], ◌∷◌, ◌==◌, nat_eq,
  string_eq, option_eq, leb, is_some, if◌then◌else◌, clip,
}
use anvil_events.Result.{
  Result, ok, err, value_error, runtime_error, key_error, integrity_error, guard, or_raise, ◌>>=◌,
  ◌>>◌, transaction,
}
use anvil_events.Table.{select, select_all, update, count, insert}
use anvil_events.Json.{
  Json, Fields, Codec, object, array, text, field, end, get, as_text, as_fields, text_array,
}
use anvil_events.Domain.Patterns.{chars}
use anvil_events.Domain.V2.Payloads.{Screen}
use anvil_events.Storage.Schema.{Db, OperationRow, OperationState}
use anvil_events.Storage.Events.{emit_v2_in}
use anvil_events.Storage.Events.Rows.{event_of}
pub use Rows.{
  with_key, operation_of, is_prepared, is_recorded, is_indeterminate, code, prepared_at_id,
  prepared_row, recorded_row, expected_state, expected_error, set_resolved,
}
unfoldable pub use Rows.{
  check_name, check_names, insert_operation, same_operation, stored_event, intent_of,
}

module _ (codec : Codec) (screen : Screen) where
  -- The branch of `prepare` by the row with the idempotency key.
  abbrev pub prepare_as :
      String
      → String
      → String
      → String
      → Option String
      → String
      → ℕ
      → Option OperationRow
      → Db
      → Result ((OperationRow × Bool) × Db)
  prepare_as id key producer kind correlation encoded now none db = do
    db' ← insert_operation (prepared_row id key producer kind correlation encoded now) db
    ok ((prepared_row id key producer kind correlation encoded now, false), db')
  prepare_as id key producer kind correlation encoded now (some r) db = do
    guard (same_operation id producer kind correlation encoded r)
        (value_error "operation idempotency-key collision")
    ok ((r, true), db)

  unfoldable pub prepare_in :
      String
      → String
      → String
      → String
      → Json
      → Option String
      → ℕ
      → Db
      → Result ((OperationRow × Bool) × Db)
  prepare_in id key producer kind intent correlation now db = do
    check_names (id ∷ key ∷ producer ∷ kind ∷ [])
    prepare_as id key producer kind correlation (codec.dumps intent) now
        (select (with_key key) db.operations) db

  unfoldable pub prepare :
      String
      → String
      → String
      → String
      → Json
      → Option String
      → ℕ
      → Db
      → Result (OperationRow × Bool) × Db
  prepare id key producer kind intent correlation now =
      transaction (prepare_in id key producer kind intent correlation now)

  -- The branch of `record` by the row with the idempotency key.
  abbrev pub record_as :
      String
      → String
      → String
      → String
      → String
      → Json
      → Option String
      → List String
      → String
      → ℕ
      → Option OperationRow
      → Db
      → Result ((Fields × Bool) × Db)
  record_as id key producer kind node payload correlation causes clock now none db = do
    guard (not (is_some (select (operation_of id) db.operations)))
        (value_error "operation-id collision")
    (event, db') ←
        emit_v2_in codec screen producer kind node payload correlation causes clock now db
    event_id ← or_raise (as_text (get "event_id" event)) (key_error "event_id")
    db'' ←
        insert_operation
          (recorded_row id key producer kind correlation
            (codec.dumps (intent_of node payload causes)) now event_id)
          db'
    ok ((event, false), db'')
  record_as id key producer kind node payload correlation causes clock now (some r) db = do
    guard
        (same_operation id producer kind correlation (codec.dumps (intent_of node payload causes)) r
          && is_recorded r.state
          && is_some r.event_id)
        (value_error "operation idempotency-key collision")
    event ← stored_event codec r.event_id "recorded operation is missing its event" db
    ok ((event, true), db)

  unfoldable pub record_in :
      String
      → String
      → String
      → String
      → String
      → Json
      → Option String
      → List String
      → String
      → ℕ
      → Db
      → Result ((Fields × Bool) × Db)
  record_in id key producer kind node payload correlation causes clock now db = do
    check_names (id ∷ key ∷ producer ∷ kind ∷ node ∷ [])
    record_as id key producer kind node payload correlation causes clock now
        (select (with_key key) db.operations) db

  unfoldable pub record_v2 :
      String
      → String
      → String
      → String
      → String
      → Json
      → Option String
      → List String
      → String
      → ℕ
      → Db
      → Result (Fields × Bool) × Db
  record_v2 id key producer kind node payload correlation causes clock now =
      transaction (record_in id key producer kind node payload correlation causes clock now)

  -- A resolution that was made before: it must be the same one.
  unfoldable pub resolve_again :
      OperationRow → String → Json → Bool → Option String → Db → Result ((Fields × Bool) × Db)
  resolve_again r node payload succeeded error db = do
    guard (code r.state == code (expected_state succeeded) && r.error == expected_error error)
        (value_error "operation resolution conflicts with durable result")
    event ← stored_event codec r.event_id "resolved operation is missing its event" db
    stored ← or_raise (get "payload" event) (key_error "payload")
    guard
        (as_text (get "node" event) == some node
          && codec.dumps payload == r.intent_json
          && codec.dumps stored == codec.dumps payload)
        (value_error "operation resolution conflicts with durable result")
    ok ((event, true), db)

  -- The first resolution of a prepared operation.
  unfoldable pub resolve_first :
      OperationRow
      → String
      → Json
      → Bool
      → Option String
      → String
      → ℕ
      → Db
      → Result ((Fields × Bool) × Db)
  resolve_first r node payload succeeded error clock now db = do
    guard (is_prepared r.state) (value_error "operation is not prepared for resolution")
    guard (codec.dumps payload == r.intent_json)
        (value_error "operation resolution differs from durable intent")
    durable ← or_raise (codec.loads r.intent_json) (value_error "intent")
    (event, db') ←
        emit_v2_in codec screen r.producer r.kind node durable r.correlation_id [] clock now db
    event_id ← or_raise (as_text (get "event_id" event)) (key_error "event_id")
    guard (count (prepared_at_id r.operation_id) db'.operations == 1)
        (runtime_error "operation state changed during resolution")
    ok (
      (event, false),
      record db' {
        operations =
            update (prepared_at_id r.operation_id)
              (set_resolved (expected_state succeeded) now event_id (expected_error error))
              db'.operations;
      },
    )

  unfoldable pub resolve_in :
      String
      → String
      → Json
      → Bool
      → Option String
      → String
      → ℕ
      → Db
      → Result ((Fields × Bool) × Db)
  resolve_in id node payload succeeded error clock now db = do
    check_name id
    r ← or_raise (select (operation_of id) db.operations) (value_error "unknown operation")
    guard (not (is_indeterminate r.state))
        (value_error "indeterminate operation requires explicit operator recovery")
    if is_some r.event_id && not (r.event_id == some "")
        then resolve_again r node payload succeeded error db
        else resolve_first r node payload succeeded error clock now db

  unfoldable pub resolve :
      String → String → Json → Bool → Option String → String → ℕ → Db → Result (Fields × Bool) × Db
  resolve id node payload succeeded error clock now =
      transaction (resolve_in id node payload succeeded error clock now)

abbrev pub set_indeterminate : String → OperationRow → OperationRow
set_indeterminate error r = record r {
  state = OperationState.indeterminate;
  error = some (clip 300 error);
}

-- mark_indeterminate, whose UPDATE commits whether or not it finds a row.
unfoldable pub mark_indeterminate : String → String → Db → Result (Unit {0}) × Db
mark_indeterminate id error db = (
  guard (is_some (select (prepared_at_id id) db.operations))
      (value_error "operation is not prepared"),
  record db { operations = update (prepared_at_id id) (set_indeterminate error) db.operations },
)

-- WHERE state IN ('PREPARED', 'INDETERMINATE'); the order by time is left out.
unfoldable pub unresolved : Db → List OperationRow
unresolved db = select_all (λ r. is_prepared r.state || is_indeterminate r.state) db.operations
