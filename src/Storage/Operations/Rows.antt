-- ===== src/Storage/Operations/Rows.antt =====
-- storage/operations.py: the rows of the ledger, and the checks of the methods.
use anvil_events.Base.{
  ℕ, String, Bool, true, false, ◌&&◌, ◌||◌, Option, none, some, List, [], ◌∷◌, ◌==◌, nat_eq,
  string_eq, option_eq, leb, is_some, if◌then◌else◌, clip,
}
use anvil_events.Result.{
  Result, ok, err, value_error, runtime_error, integrity_error, guard, or_raise, ◌>>=◌, ◌>>◌,
}
use anvil_events.Table.{select, insert}
use anvil_events.Json.{Json, Fields, Codec, object, array, text, field, end, as_fields, text_array}
use anvil_events.Domain.Patterns.{chars}
use anvil_events.Storage.Schema.{Db, OperationRow, OperationState}
use anvil_events.Storage.Events.Rows.{event_of}

-- WHERE idempotency_key = ?, and WHERE operation_id = ?
abbrev pub with_key : String → OperationRow → Bool
with_key key r = r.idempotency_key == key

abbrev pub operation_of : String → OperationRow → Bool
operation_of id r = r.operation_id == id

abbrev pub is_prepared : OperationState → Bool
is_prepared OperationState.prepared = true
is_prepared _ = false

abbrev pub is_recorded : OperationState → Bool
is_recorded OperationState.recorded = true
is_recorded _ = false

abbrev pub is_indeterminate : OperationState → Bool
is_indeterminate OperationState.indeterminate = true
is_indeterminate _ = false

abbrev pub code : OperationState → ℕ
code OperationState.prepared = 0
code OperationState.recorded = 1
code OperationState.applied = 2
code OperationState.failed = 3
code OperationState.indeterminate = 4

-- WHERE operation_id = ? AND state = 'PREPARED'
abbrev pub prepared_at_id : String → OperationRow → Bool
prepared_at_id id r = r.operation_id == id && is_prepared r.state

-- _check
unfoldable pub check_name : String → Result (Unit {0})
check_name value =
    guard (leb 1 (chars value) && leb (chars value) 256)
      (value_error "must be a non-empty string <= 256 characters")

-- The loop over the names.
unfoldable pub check_names : List String → Result (Unit {0})
unfolding check_name
check_names [] = ok tt
check_names (value ∷ values) = check_name value >> check_names values

-- PRIMARY KEY, UNIQUE(idempotency_key) and UNIQUE(event_id)
abbrev pub shares_event : Option String → OperationRow → Bool
shares_event none r = false
shares_event (some id) r = r.event_id == some id

unfoldable pub insert_operation : OperationRow → Db → Result Db
insert_operation r db =
    if is_some (select (operation_of r.operation_id) db.operations)
      || is_some (select (with_key r.idempotency_key) db.operations)
      || is_some (select (shares_event r.event_id) db.operations)
    then err (integrity_error "UNIQUE constraint failed: operations")
    else ok (record db { operations = insert r db.operations })

unfoldable pub same_operation :
    String → String → String → Option String → String → OperationRow → Bool
same_operation id producer kind correlation encoded r =
    r.operation_id == id
    && r.producer == producer
    && r.kind == kind
    && r.intent_json == encoded
    && r.correlation_id == correlation

abbrev pub prepared_row :
    String → String → String → String → Option String → String → ℕ → OperationRow
prepared_row id key producer kind correlation encoded now = record {
  operation_id = id;
  idempotency_key = key;
  producer = producer;
  kind = kind;
  correlation_id = correlation;
  state = OperationState.prepared;
  intent_json = encoded;
  prepared_at = now;
  resolved_at = none;
  event_id = none;
  error = none;
}

abbrev pub recorded_row :
    String → String → String → String → Option String → String → ℕ → String → OperationRow
recorded_row id key producer kind correlation encoded now event_id = record {
  operation_id = id;
  idempotency_key = key;
  producer = producer;
  kind = kind;
  correlation_id = correlation;
  state = OperationState.recorded;
  intent_json = encoded;
  prepared_at = now;
  resolved_at = some now;
  event_id = some event_id;
  error = none;
}

-- The envelope of an operation's event, as it is stored.
unfoldable pub stored_event : Codec → Option String → String → Db → Result Fields
stored_event codec event_id missing db = do
  id ← or_raise event_id (runtime_error missing)
  row ← or_raise (select (event_of id) db.events) (runtime_error missing)
  or_raise (as_fields (codec.loads row.envelope_json)) (value_error "stored envelope")

-- {"node": node, "payload": payload, "causes": list(causes or [])}
unfoldable pub intent_of : String → Json → List String → Json
intent_of node payload causes = object (
    field "node" (text node)
      (field "payload" payload (field "causes" (array (text_array causes)) end)))

abbrev pub expected_state : Bool → OperationState
expected_state succeeded = if succeeded then OperationState.applied else OperationState.failed

-- str(error)[:300] if error is not None else None
abbrev pub expected_error : Option String → Option String
expected_error none = none
expected_error (some e) = some (clip 300 e)

abbrev pub set_resolved : OperationState → ℕ → String → Option String → OperationRow → OperationRow
set_resolved state now event_id error r = record r {
  state = state;
  resolved_at = some now;
  event_id = some event_id;
  error = error;
}
