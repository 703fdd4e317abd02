-- ===== src/Tests/Ledger.antt =====
-- The theorems on the operation ledger and on the delivery of pending events, at concrete inputs.
use anvil_events.Base.{true, false, none, some, List, [], ◌∷◌, ◌≡◌, ◌≤◌, ◌+◌, refl, All, length}
use anvil_events.Result.{ok}
use anvil_events.Table.{select, select_all}
use anvil_events.Json.{IsStable, Codec, Fields, object, field, text, end}
use anvil_events.Domain.V2.{envelope_v2}
use anvil_events.Storage.Schema.{Db, OperationRow, is_pending, initial}
use anvil_events.Storage.Operations.{operation_of, record_v2}
use anvil_events.Storage.Operations.Replay.{record_v2-replays}
use anvil_events.Storage.Operations.Lifecycle.{Call, prepares, resolves, marks, after_all, Evolves}
use anvil_events.Storage.Operations.Lifecycle.Methods.{after_all-Evolves}
use anvil_events.Storage.Delivery.{Validator, select_batch, repair_rows, Batch, start_of}
use anvil_events.Storage.Delivery.Intact.{IsClean, repair_rows-cleans}
use anvil_events.Storage.Delivery.Batches.{IsDue, IsDistinct, select_batch-IsDue}
use anvil_events.Tests.Samples.{
  plain, forgetful, lenient, desired_payload, ledger_db, prepared_operation, pending_db,
}

forgetful-IsStable : IsStable forgetful
forgetful-IsStable = record {
  read_back = λ v. object end;
  loads-dumps = λ v. refl;
  dumps-read_back = λ v. refl;
  read_fields = λ fs. end;
  read_back-object = λ fs. refl;
}

abbrev recorded_event : Fields
recorded_event =
    envelope_v2 "a:r" "state.desired" "a" (object desired_payload) 1 none [] "2026-01-01T00:00:00Z"

abbrev after_record : Db
after_record =
    (record_v2 forgetful lenient "op-2" "key-2" "a:r" "state.desired" "a" (object desired_payload)
      none [] "2026-01-01T00:00:00Z" 20 initial).1

first_record :
    record_v2 forgetful lenient "op-2" "key-2" "a:r" "state.desired" "a"
      (object desired_payload)
      none
      []
      "2026-01-01T00:00:00Z"
      20
      initial
    ≡ (ok (recorded_event, false), after_record)
unfolding record_v2 anvil_events.Result.transaction anvil_events.Storage.Operations.record_in
    anvil_events.Storage.Operations.check_names select anvil_events.Storage.Events.emit_v2_in
    anvil_events.Domain.V2.make_event_v2 anvil_events.Domain.Patterns.is_producer
    anvil_events.Domain.Patterns.is_safe_token anvil_events.Domain.Patterns.is_kind
    anvil_events.Domain.Patterns.is_owned_by anvil_events.Storage.Events.Rows.next_sequence
    anvil_events.Domain.V2.Payloads.validate_payload anvil_events.Json.get
    anvil_events.Domain.Patterns.is_resource anvil_events.Json.as_nat
    anvil_events.Domain.Patterns.is_sha256 anvil_events.Domain.Patterns.has_newline
    anvil_events.Domain.Decimal.decimal anvil_events.Domain.Decimal.event_id_of
    anvil_events.Domain.Decimal.six_digits anvil_events.Domain.Patterns.all_some
    anvil_events.Domain.Patterns.first_word anvil_events.Domain.Patterns.is_alnum
    anvil_events.Domain.Patterns.is_digit anvil_events.Domain.Patterns.is_kind_word
    anvil_events.Domain.Patterns.is_lower anvil_events.Domain.Patterns.is_revision
    anvil_events.Domain.Patterns.is_token_char anvil_events.Domain.Patterns.is_upper
    anvil_events.Domain.Patterns.split anvil_events.Domain.V2.Payloads.check_targets
    anvil_events.Domain.V2.Payloads.has_unhashable anvil_events.Domain.V2.Payloads.is_bounded
    anvil_events.Domain.V2.Payloads.no_duplicates anvil_events.Domain.V2.Payloads.required
    anvil_events.Domain.V2.Payloads.validate_fields envelope_v2
    anvil_events.Domain.V2.has_envelope_keys anvil_events.Domain.V2.keys
    anvil_events.Domain.V2.subject_of anvil_events.Domain.V2.validate_event_v2
    anvil_events.Json.as_fields anvil_events.Json.as_text anvil_events.Json.as_texts
    anvil_events.Json.text_array anvil_events.Storage.Events.Rows.bump_pending
    anvil_events.Storage.Events.Rows.envelope_of anvil_events.Storage.Events.Rows.last_sequence
    anvil_events.Storage.Events.Rows.new_row anvil_events.Storage.Events.Rows.update_sequence
    anvil_events.Storage.Events.put anvil_events.Storage.Events.put_new
    anvil_events.Storage.Events.put_pending anvil_events.Storage.Operations.check_name
    anvil_events.Storage.Operations.insert_operation anvil_events.Storage.Operations.intent_of
    anvil_events.Domain.V1.validate_event anvil_events.Transport.Wire.encode_js_publish
first_record = refl

record_v2-replays_example :
    record_v2 forgetful lenient "op-2" "key-2" "a:r" "state.desired" "a"
      (object desired_payload)
      none
      []
      "2026-01-02T00:00:00Z"
      30
      after_record
    ≡ (ok (end, true), after_record)
unfolding forgetful-IsStable
record_v2-replays_example =
    record_v2-replays forgetful lenient forgetful-IsStable "op-2" "key-2" "a:r" "state.desired" "a"
      (object desired_payload) none [] "2026-01-01T00:00:00Z" "2026-01-02T00:00:00Z" 20 30
      recorded_event initial after_record first_record

abbrev ledger_history : List Call
ledger_history =
    prepares "op-2" "key-2" "a:r" "client.observed" (object end) none 4
    ∷ resolves "op-1" "a" (object end) true none "2026-01-01T00:00:00Z" 5
    ∷ marks "op-1" "lost"
    ∷ []

held : select (operation_of "op-1") ledger_db.operations ≡ some prepared_operation
unfolding select
held = refl

after_all-Evolves_example :
    (r' : OperationRow) × (select
        (operation_of "op-1")
        (after_all plain lenient ledger_history ledger_db).operations
      ≡ some r')
    × Evolves prepared_operation r'
after_all-Evolves_example =
    after_all-Evolves plain lenient ledger_history ledger_db "op-1" prepared_operation held

-- A validator that accepts everything.
abbrev accept : Validator
accept v = ok tt

-- The codec reads no text back, so that the pending event is repaired away.
repair_rows-cleans_example :
    let (n, db') =
      repair_rows plain accept 9
        (select_all (λ r. is_pending r.producer_state) pending_db.events)
        (0, pending_db) in
    All (IsClean plain accept) db'.events
    × (length db'.quarantine ≡ length pending_db.quarantine + n)
repair_rows-cleans_example = repair_rows-cleans plain accept 9 pending_db

-- A codec that reads every text back as one event.
abbrev tagged_event : Fields
tagged_event = field "event_id" (text "a:r:000001") end

abbrev tagged : Codec
tagged = record plain { loads = λ s. some (object tagged_event) }

abbrev batch : Batch
batch = record {
  selected = tagged_event ∷ [];
  seen = "a:r:000001" ∷ [];
  reached_eof = true;
  repaired = 0;
  position = some 1;
  rows = 1;
  signature = some (0, 1);
}

one_selected :
    (select_batch tagged lenient accept
      (λ e. true)
      5
      (some 100)
      []
      none
      "2026-01-01T00:00:00Z"
      9
      pending_db).0
    ≡ ok batch
unfolding select_batch anvil_events.Storage.Delivery.scan_rows select_all
    anvil_events.Storage.Delivery.scan_row anvil_events.Storage.Delivery.defect
    anvil_events.Storage.Queries.is_intact anvil_events.Json.as_text
    anvil_events.Storage.Queries.pending_signature anvil_events.Json.get
    anvil_events.Storage.Queries.count_pending anvil_events.Table.count
one_selected = refl

select_batch-IsDue_example :
    All (IsDue tagged accept (λ e. true) (start_of none) [] pending_db) batch.selected
    × IsDistinct batch.selected
    × (length batch.selected ≤ 5)
select_batch-IsDue_example =
    select_batch-IsDue tagged lenient accept (λ e. true) 5 (some 100) [] none "2026-01-01T00:00:00Z"
      9 pending_db batch one_selected
