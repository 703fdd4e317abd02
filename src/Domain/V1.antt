-- ===== src/Domain/V1.antt =====
-- The version 1 envelopes of domain.py, and `validate_event`, which goes by the version.
pub mod Payloads
use Prim.Native.String.{◌++◌ as append}
use anvil_events.Base.{
  ℕ, String, Bool, true, false, ◌&&◌, not, Option, none, some, List, [], ◌∷◌, ◌++◌, ◌==◌, nat_eq,
  string_eq, option_eq, ltb, leb, if◌then◌else◌, all, contains,
}
use anvil_events.Base.Int.{pos}
use anvil_events.Result.{Result, ok, err, value_error, other, guard, or_raise, ◌>>=◌, ◌>>◌}
use anvil_events.Json.{
  Json, Fields, Items, null, boolean, number, text, array, object, field, end, get, as_text, as_nat,
  as_texts, text_array, Codec,
}
use anvil_events.Domain.Patterns.{is_safe_token, is_producer, chars}
use anvil_events.Domain.Decimal.{event_id_of}
use anvil_events.Domain.V2.Payloads.{Screen, has}
use anvil_events.Domain.V2.{keys, is_timestamp, is_allowed, nullable, validate_event_v2}
use Payloads.{kinds, validate_payload_v1}

abbrev pub schema_v1 : String
schema_v1 = "https://anvil.dev/schemas/events/v1.json"

abbrev pub envelope_required : List String
envelope_required =
    "version" ∷ "event_id" ∷ "producer" ∷ "producer_seq" ∷ "observed_at" ∷ "emitted_at"
    ∷ "correlation_id" ∷ "schema" ∷ "host" ∷ "kind" ∷ "subject" ∷ "payload" ∷ []

-- f"anvil.fleet.{host}.{kind}"
unfoldable pub subject_v1 : String → String → String
subject_v1 host kind = append "anvil.fleet." (append host (append "." kind))

abbrev pub is_text_or_null : Option Json → Bool
is_text_or_null none = true
is_text_or_null (some null) = true
is_text_or_null (some (text s)) = true
is_text_or_null _ = false

-- event.get("causes", [])
abbrev pub causes_v1 : Option Json → Option (List String)
causes_v1 none = some []
causes_v1 (some (array xs)) = as_texts xs
causes_v1 _ = none

-- `kind not in KINDS` on a value that has no hash raises a TypeError.
abbrev pub kind_of : Option Json → Result String
kind_of (some (text s)) = if contains s kinds then ok s else err (value_error "forged/unknown kind")
kind_of (some (array xs)) = err (other "unhashable type")
kind_of (some (object fs)) = err (other "unhashable type")
kind_of _ = err (value_error "forged/unknown kind")

abbrev pub object_of : Option Json → Option Fields
object_of (some (object fs)) = some fs
object_of _ = none

unfoldable pub validate_event_v1 : Screen → Option (List String) → Fields → Result (Unit {0})
unfolding keys subject_v1
validate_event_v1 screen allowed event = do
  guard (as_nat (get "version" event) == some 1) (value_error "unsupported version")
  guard (all (has event) envelope_required) (value_error "envelope missing required fields")
  guard (all (λ k. contains k (envelope_required ++ "causes" ∷ [])) (keys event))
      (value_error "envelope has unknown fields")
  guard (as_text (get "schema" event) == some schema_v1) (value_error "unsupported schema URI")
  producer ←
      or_raise (as_text (get "producer" event))
        (value_error "producer must be colon-separated safe tokens")
  guard (is_producer producer) (value_error "producer must be colon-separated safe tokens")
  host ← or_raise (as_text (get "host" event)) (value_error "host must be one safe NATS token")
  guard (is_safe_token host) (value_error "host must be one safe NATS token")
  guard
      (is_timestamp screen (get "observed_at" event)
        && is_timestamp screen (get "emitted_at" event))
      (value_error "observed_at/emitted_at must be ISO date-times")
  guard (is_text_or_null (get "correlation_id" event))
      (value_error "correlation_id must be a string or null")
  causes ←
      or_raise (causes_v1 (get "causes" event))
        (value_error "causes must be a list of non-empty event IDs")
  guard (all (λ c. ltb 0 (chars c)) causes)
      (value_error "causes must be a list of non-empty event IDs")
  kind ← kind_of (get "kind" event)
  payload ← or_raise (object_of (get "payload" event)) (value_error "payload must be a dict")
  guard (as_text (get "subject" event) == some (subject_v1 host kind))
      (value_error "subject does not match host/kind")
  seq ←
      or_raise (as_nat (get "producer_seq" event))
        (value_error "producer_seq must be a positive integer")
  guard (ltb 0 seq) (value_error "producer_seq must be a positive integer")
  guard (as_text (get "event_id" event) == some (event_id_of producer seq))
      (value_error "event_id does not match producer/producer_seq")
  guard (is_allowed allowed producer) (value_error "producer is not authorized")
  validate_payload_v1 kind (object payload)

-- domain.validate_event
unfoldable pub validate_event : Codec → Screen → Option (List String) → Json → Result (Unit {0})
validate_event codec screen allowed (object event) =
    if as_nat (get "version" event) == some 2
    then validate_event_v2 codec screen allowed event
    else validate_event_v1 screen allowed event
validate_event codec screen allowed _ = err (value_error "not a dict")

unfoldable pub envelope_v1 :
    String → String → String → Fields → ℕ → Option String → List String → String → Fields
envelope_v1 producer kind host payload seq correlation causes now =
    field "version" (number (pos 1)) (
      field "event_id" (text (event_id_of producer seq)) (
        field "producer" (text producer) (
          field "producer_seq" (number (pos seq)) (
            field "observed_at" (text now) (
              field "emitted_at" (text now) (
                field "correlation_id" (nullable correlation) (
                  field "schema" (text schema_v1) (
                    field "host" (text host) (
                      field "kind" (text kind) (
                        field "subject" (text (subject_v1 host kind)) (
                          field "payload" (object payload)
                            (field "causes" (array (text_array causes)) end))))))))))))

-- The clock is the argument `now`, and the version is left to be 1, as all callers do.
unfoldable pub make_event :
    String → String → String → Fields → ℕ → Option String → List String → String → Result Fields
unfolding envelope_v1
make_event producer kind host payload seq correlation causes now = do
  guard (contains kind kinds) (value_error "unknown kind")
  guard (is_producer producer) (value_error "producer must be colon-separated safe tokens")
  guard (is_safe_token host) (value_error "host must be one safe NATS token")
  guard (ltb 0 seq) (value_error "producer_seq must be positive")
  ok (envelope_v1 producer kind host payload seq correlation causes now)
