-- ===== src/Tests/Runtime.antt =====
-- The theorems on the runtime: a message whose artifact does not resolve to the desired revision, and a
-- batch for a broker that accepts everything.
use anvil_events.Base.{false, ◌∷◌, ℕ, true, none, some, [], ◌≡◌, refl}
use anvil_events.Result.{ok}
use anvil_events.Json.{Codec, object}
use anvil_events.Storage.Schema.{initial}
use anvil_events.Reconcile.Engine.Types.{Host, World}
use anvil_events.Runtime.Processor.{process_event}
use anvil_events.Runtime.Subscriber.{Service, handle}
use anvil_events.Runtime.Subscriber.Acks.{Promise, handle-IsDone}
use anvil_events.Runtime.Delivery.{Client, Sender, deliver}
use anvil_events.Runtime.Delivery.Pacing.{AllNamed, IsHandled, deliver-IsHandled}
use anvil_events.Tests.Samples.{evidence, plain, host, bound, lenient, desired_event}

-- A codec that reads every text as the desired event.
abbrev reading : Codec
reading = record plain { loads = λ s. some (object desired_event) }

abbrev reader : Host ℕ
reader = record host { codec = reading }

abbrev idle : Service ℕ
idle = record {
  world = record { db = initial; outside = 0; log = [] };
  stats = record { received = 0; journaled = 0; dropped = 0; last_error = none };
}

abbrev after_message : Service ℕ
after_message =
    (handle reading lenient none (some (process_event reader lenient "a" "a:r" bound)) "{}"
      (some "anvil.events.v2.a.state.desired") "2026-01-01T00:00:00Z" 20 idle).1

acknowledged :
    handle reading lenient none
      (some (process_event reader lenient "a" "a:r" bound))
      "{}"
      (some "anvil.events.v2.a.state.desired")
      "2026-01-01T00:00:00Z"
      20
      idle
    ≡ (ok (true, true), after_message)
unfolding handle anvil_events.Domain.V1.validate_event anvil_events.Json.as_nat
    anvil_events.Json.get anvil_events.Domain.V2.envelope_v2 anvil_events.Domain.Decimal.event_id_of
    anvil_events.Domain.V2.validate_event_v2 anvil_events.Json.as_text
    anvil_events.Domain.Patterns.is_producer anvil_events.Domain.Patterns.is_safe_token
    anvil_events.Domain.Patterns.is_kind anvil_events.Domain.Patterns.is_owned_by
    anvil_events.Domain.V2.subject_of anvil_events.Json.as_texts anvil_events.Json.text_array
    anvil_events.Domain.V2.Payloads.no_duplicates anvil_events.Domain.V2.Payloads.validate_payload
    anvil_events.Domain.Patterns.is_resource anvil_events.Domain.Decimal.decimal
    anvil_events.Domain.Decimal.six_digits anvil_events.Domain.Patterns.all_some
    anvil_events.Domain.Patterns.first_word anvil_events.Domain.Patterns.has_newline
    anvil_events.Domain.Patterns.is_alnum anvil_events.Domain.Patterns.is_digit
    anvil_events.Domain.Patterns.is_kind_word anvil_events.Domain.Patterns.is_lower
    anvil_events.Domain.Patterns.is_revision anvil_events.Domain.Patterns.is_sha256
    anvil_events.Domain.Patterns.is_token_char anvil_events.Domain.Patterns.is_upper
    anvil_events.Domain.Patterns.split anvil_events.Domain.V1.Payloads.fits_field
    anvil_events.Domain.V1.Payloads.fits_fields anvil_events.Domain.V1.Payloads.keys_within
    anvil_events.Domain.V1.Payloads.payload_allowed anvil_events.Domain.V1.Payloads.payload_required
    anvil_events.Domain.V1.Payloads.validate_payload_v1 anvil_events.Domain.V1.subject_v1
    anvil_events.Domain.V1.validate_event_v1 anvil_events.Domain.V2.Payloads.check_targets
    anvil_events.Domain.V2.Payloads.has_unhashable anvil_events.Domain.V2.Payloads.is_bounded
    anvil_events.Domain.V2.Payloads.required anvil_events.Domain.V2.Payloads.validate_fields
    anvil_events.Domain.V2.has_envelope_keys anvil_events.Domain.V2.keys
    anvil_events.Result.transaction anvil_events.Runtime.Subscriber.count_dropped
    anvil_events.Runtime.Subscriber.count_received anvil_events.Runtime.Subscriber.journal
    anvil_events.Runtime.Subscriber.run_processor anvil_events.Runtime.Subscriber.set_error
    anvil_events.Storage.Events.Rows.envelope_of anvil_events.Storage.Events.Rows.new_row
    anvil_events.Storage.Events.Rows.update_sequence anvil_events.Storage.Events.append_journal
    anvil_events.Storage.Events.append_journal_in anvil_events.Storage.Events.heal_envelope
    anvil_events.Storage.Events.put anvil_events.Storage.Events.put_existing
    anvil_events.Storage.Events.put_new anvil_events.Table.select anvil_events.Table.update
    anvil_events.Transport.Wire.encode_js_publish anvil_events.Transport.Wire.header_block
    process_event anvil_events.Exec.◌>>=◌ anvil_events.Runtime.Processor.process_state
    anvil_events.Reconcile.Engine.process anvil_events.Reconcile.Desired.desired_of
    anvil_events.Json.as_fields anvil_events.Reconcile.Desired.payload_of
    anvil_events.Reconcile.Engine.process_desired anvil_events.Reconcile.Engine.Types.on_host
    anvil_events.Reconcile.Engine.process_locked anvil_events.Reconcile.Engine.Types.on_db
    anvil_events.Reconcile.State.claim anvil_events.Reconcile.State.Rows.newest
    anvil_events.Reconcile.State.Rows.attempt_fits anvil_events.Reconcile.State.attempt_row
    anvil_events.Reconcile.Engine.by_claim anvil_events.Reconcile.Contracts.get_adapter
    anvil_events.Domain.V2.make_event_v2 anvil_events.Exec.attempt anvil_events.Exec.pure
    anvil_events.Exec.raise anvil_events.Reconcile.Contracts.allows
    anvil_events.Reconcile.Contracts.find_adapter anvil_events.Reconcile.Contracts.has_binding
    anvil_events.Reconcile.Contracts.is_binding_of anvil_events.Reconcile.Desired.operation_id
    anvil_events.Reconcile.Engine.Types.on_adapter anvil_events.Reconcile.Engine.after_apply
    anvil_events.Reconcile.Engine.after_preview anvil_events.Reconcile.Engine.after_resolution
    anvil_events.Reconcile.Engine.after_rollback anvil_events.Reconcile.Engine.after_verify
    anvil_events.Reconcile.Engine.applied_result anvil_events.Reconcile.Engine.apply_approved
    anvil_events.Reconcile.Engine.await_approval anvil_events.Reconcile.Engine.check_drift
    anvil_events.Reconcile.Engine.fail_with anvil_events.Reconcile.Engine.failed_result
    anvil_events.Reconcile.Engine.finish anvil_events.Reconcile.Engine.outcome_payload
    anvil_events.Reconcile.Engine.reconcile anvil_events.Reconcile.Engine.resolution
    anvil_events.Reconcile.Engine.roll_back anvil_events.Reconcile.State.Rows.application_fits
    anvil_events.Reconcile.State.Rows.insert_application
    anvil_events.Reconcile.State.Rows.insert_attempt anvil_events.Reconcile.State.abandon
    anvil_events.Reconcile.State.begin_apply anvil_events.Reconcile.State.begin_apply_in
    anvil_events.Reconcile.State.check_newer anvil_events.Reconcile.State.claim_in
    anvil_events.Reconcile.State.complete anvil_events.Reconcile.State.complete_in
    anvil_events.Reconcile.State.encode_preview anvil_events.Reconcile.State.fail
    anvil_events.Reconcile.State.is_current anvil_events.Reconcile.State.reopen_applied
    anvil_events.Reconcile.State.reopen_applied_in anvil_events.Reconcile.State.resource_fits
    anvil_events.Reconcile.State.resource_row anvil_events.Reconcile.State.same_content
    anvil_events.Reconcile.State.set_preview anvil_events.Reconcile.State.upsert_resource
    anvil_events.Reconcile.State.write_applied anvil_events.Runtime.Processor.record_outcome
    anvil_events.Runtime.Processor.rejected anvil_events.Storage.Events.Rows.bump_pending
    anvil_events.Storage.Events.Rows.last_sequence anvil_events.Storage.Events.Rows.next_sequence
    anvil_events.Storage.Events.emit_v2_in anvil_events.Storage.Events.put_pending
    anvil_events.Storage.Operations.check_name anvil_events.Storage.Operations.check_names
    anvil_events.Storage.Operations.insert_operation anvil_events.Storage.Operations.intent_of
    anvil_events.Storage.Operations.record_in anvil_events.Storage.Operations.record_v2
    anvil_events.Storage.Operations.same_operation anvil_events.Storage.Operations.stored_event
    anvil_events.Table.count anvil_events.Table.delete
acknowledged = refl

handle-IsDone_example :
    Promise reader lenient "a" "a:r" bound none "2026-01-01T00:00:00Z" 20 "{}"
      (some "anvil.events.v2.a.state.desired")
      idle
      after_message
handle-IsDone_example =
    handle-IsDone reader lenient "a" "a:r" bound none "{}" (some "anvil.events.v2.a.state.desired")
      "2026-01-01T00:00:00Z" 20 true idle after_message acknowledged

-- A broker that accepts every event.
abbrev broker : Client ℕ
broker = record {
  publish_js = λ subject event id n. (ok evidence, ℕ.suc n);
  is_stopped = λ n. false;
}

abbrev pump_at_rest : Sender ℕ
pump_at_rest = record {
  db = after_message.world.db;
  outside = 0;
  pump = record {
    retry = [];
    seen = [];
    position = none;
    sleep_until = none;
    sleep_signature = none;
    retried = 0;
    acked = 0;
    delivery_errors = 0;
    last_delivery_error = none;
  };
}

one_named : AllNamed reading lenient broker "EVENTS" (desired_event ∷ [])
unfolding anvil_events.Json.get anvil_events.Json.as_text anvil_events.Domain.V2.envelope_v2
    anvil_events.Domain.Decimal.event_id_of
one_named = (("a:r:000003", refl), tt)

deliver-IsHandled_example :
    IsHandled reading lenient broker "EVENTS"
      (desired_event ∷ [])
      (deliver reading lenient broker "EVENTS" (desired_event ∷ []) 100 1000 pump_at_rest)
deliver-IsHandled_example =
    deliver-IsHandled reading lenient broker "EVENTS" (desired_event ∷ []) 100 1000 pump_at_rest
      (λ o. refl) one_named
