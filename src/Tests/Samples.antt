-- ===== src/Tests/Samples.antt =====
-- Sample data: an event of the journal, a desired state, and a host with one adapter.
use anvil_events.Base.{ℕ, String, false, true, none, some, [], ◌∷◌}
use anvil_events.Result.{ok}
use anvil_events.Base.Int.{pos}
use anvil_events.Json.{Json, Codec, Fields, field, end, object, text, number}
use anvil_events.Domain.V2.{envelope_v2}
use anvil_events.Domain.V2.Payloads.{Screen}
use anvil_events.Storage.Schema.{Db, EventRow, OperationRow, OperationState, DeliveryState, initial}
use anvil_events.Reconcile.Desired.{Desired}
use anvil_events.Reconcile.Contracts.{Artifact, Policy, allow_bindings}
use anvil_events.Reconcile.Engine.Types.{Adapter, Host, World}

-- A codec whose digests are the texts themselves.
abbrev pub plain : Codec
plain = record {
  dumps_sorted = λ v. "{}";
  dumps = λ v. "{}";
  loads = λ s. none;
  sha256 = λ s. s;
  sha256_bytes = λ bytes. "d1";
}

abbrev pub desired_row : EventRow
desired_row = record {
  row_id = 1;
  event_id = "a:r:000001";
  producer = "a:r";
  producer_seq = 1;
  observed_at = "2026-01-01T00:00:00Z";
  subject = "anvil.events.v2.a.state.desired";
  kind = "state.desired";
  envelope_json = "{}";
  canonical_sha256 = "{}";
  canonical_size = 2;
  producer_state = none;
  journaled = true;
  acked_at = none;
  puback_stream = none;
  puback_sequence = none;
  puback_duplicate = none;
  delivery_attempts = 0;
  last_delivery_error = none;
  retry_after = none;
  created_at = 5;
}

abbrev pub journaled_db : Db
journaled_db = record initial { events = desired_row ∷ []; next_row_id = 2 }

abbrev pub router : Desired
router = record {
  event_id = "a:r:000001";
  producer = "a:r";
  correlation_id = none;
  payload = record {
    resource = "routing";
    generation = 1;
    revision = "rev-1";
    content_sha256 = "d1";
    adapter = "files";
    artifact = "routing";
    targets = none;
  };
}

abbrev pub rev_1 : Artifact
rev_1 = record { data_bytes = 1 ∷ []; revision = "rev-1" }

-- An adapter that counts its applies, on a host that is that count.
abbrev pub counting : Adapter ℕ
counting = record {
  preview = λ d a n. (ok (record { summary = "s"; changes = [] }), n);
  apply = λ d a n. (ok tt, ℕ.suc n);
  verify = λ d a n. (ok true, n);
  rollback = λ d n. (ok tt, n);
}

abbrev pub host : Host ℕ
host = record {
  codec = plain;
  adapters = ("files", counting) ∷ [];
  resolve = λ reference revision n. (ok rev_1, n);
  resource_lock = λ node resource n. (ok tt, n);
  validate_event_v2 = λ event. ok tt;
}

abbrev pub bound : Policy
bound = allow_bindings (record { producer = "a:r"; resource = "routing"; adapter = "files" } ∷ [])

abbrev pub fresh : World ℕ
fresh = record { db = journaled_db; outside = 0; log = [] }

-- The same as JSON.
abbrev pub router_event : Fields
router_event = field "event_id" (text "a:r:000001") (
    field "producer" (text "a:r") (
      field "kind" (text "state.desired") (
        field "payload"
          (object (
            field "resource" (text "routing") (
              field "generation" (number (pos 1)) (
                field "revision" (text "rev-1") (
                  field "content_sha256" (text "d1")
                    (field "adapter" (text "files") (field "artifact" (text "routing") end)))))))
          end)))

-- Every text is a date, and no payload has a sensitive key.
abbrev pub lenient : Screen
lenient = record { contains_sensitive_key = λ v. ok false; is_rfc3339 = λ s. true }

abbrev pub digest : String
digest = "0123456789abcdef0123456789abcdef0123456789abcdef0123456789abcdef"

abbrev pub desired_payload : Fields
desired_payload = field "resource" (text "routing/clients") (
    field "generation" (number (pos 3)) (
      field "revision" (text "rev-3") (
        field "content_sha256" (text digest)
          (field "adapter" (text "files") (field "artifact" (text "routing") end)))))

-- A state.desired event of the node "a".
abbrev pub desired_event : Fields
desired_event =
    envelope_v2 "a:r" "state.desired" "a" (object desired_payload) 3 none ("a:r:000002" ∷ [])
      "2026-01-01T00:00:00Z"

abbrev pub evidence : Json
evidence = object (field "stream" (text "EVENTS") (field "seq" (number (pos 9)) end))

-- A codec that reads every text back as the empty object.
abbrev pub forgetful : Codec
forgetful = record plain { loads = λ s. some (object end) }

abbrev pub prepared_operation : OperationRow
prepared_operation = record {
  operation_id = "op-1";
  idempotency_key = "key-1";
  producer = "a:r";
  kind = "client.observed";
  correlation_id = none;
  intent_json = "{}";
  state = OperationState.prepared;
  event_id = none;
  prepared_at = 3;
  resolved_at = none;
  error = none;
}

abbrev pub ledger_db : Db
ledger_db = record initial { operations = prepared_operation ∷ [] }

-- A pending event that is intact.
abbrev pub pending_row : EventRow
pending_row = record desired_row { producer_state = some DeliveryState.pending; journaled = false }

abbrev pub pending_db : Db
pending_db = record initial { events = pending_row ∷ []; next_row_id = 2 }
