-- ===== src/Tests/Domain.antt =====
-- The theorems on envelopes, at inputs that meet their hypotheses.
use anvil_events.Base.{none, some, [], ◌∷◌, ◌≡◌, refl}
use anvil_events.Result.{ok}
use anvil_events.Json.{Fields, object, array, text, field, nil, cons, get, as_nat}
use anvil_events.Domain.Patterns.{
  is_producer, is_safe_token, is_kind, is_owned_by, is_resource, is_sha256, is_revision,
  has_newline,
}
use anvil_events.Domain.V2.{validate_event_v2, make_event_v2}
use anvil_events.Domain.V2.Payloads.{validate_payload, required, no_duplicates}
use anvil_events.Domain.V2.Envelopes.{make-validates}
use anvil_events.Domain.V2.Desired.{validated-IsReadable, IsWellFormed}
use anvil_events.Reconcile.Desired.{Payload, payload_of}
use anvil_events.Tests.Samples.{plain, lenient, desired_payload, desired_event}

-- The program's own event is made, and it is accepted.
made :
    make_event_v2 plain lenient "a:r" "state.desired" "a"
      (object desired_payload)
      3
      none
      ("a:r:000002" ∷ [])
      "2026-01-01T00:00:00Z"
    ≡ ok desired_event
unfolding make_event_v2 validate_payload has_newline is_producer is_safe_token is_kind is_owned_by
    get as_nat is_resource is_sha256 is_revision required
made = refl

make-validates_example : validate_event_v2 plain lenient none desired_event ≡ ok tt
unfolding no_duplicates
make-validates_example =
    make-validates plain lenient none "a:r" "state.desired" "a" (object desired_payload) 3 none
      ("a:r:000002" ∷ []) "2026-01-01T00:00:00Z" desired_event made refl refl refl refl

-- The payload with targets.
abbrev targeted : Fields
targeted = field "targets" (array (cons (text "node-a") (cons (text "node-b") nil))) desired_payload

valid : validate_payload plain lenient "state.desired" (object targeted) ≡ ok tt
unfolding validate_payload has_newline get as_nat is_resource is_sha256 is_revision required
    is_safe_token anvil_events.Json.as_texts
valid = refl

validated-IsReadable_example :
    (d : Payload) × (payload_of targeted ≡ some d) × IsWellFormed targeted d
validated-IsReadable_example = validated-IsReadable plain lenient targeted valid
