-- ===== src/Domain/V2.antt =====
-- domain_v2.py. A function that returns (ok, reason) is a Result: `ok` for (True, ""), a value_error for
-- (False, reason), and another fault where the source raises.
pub mod Payloads
pub mod Envelopes
pub mod Desired
use Prim.Native.String.{◌++◌ as append}
use anvil_events.Base.{
  ℕ, zero, suc, String, Bool, true, false, ◌&&◌, ◌||◌, not, Option, none, some, List, [], ◌∷◌, ◌==◌,
  nat_eq, string_eq, option_eq, ltb, leb, if◌then◌else◌, all, contains, is_some,
}
use anvil_events.Base.Int.{pos}
use anvil_events.Result.{Result, ok, err, value_error, guard, or_raise, ◌>>=◌, ◌>>◌}
use anvil_events.Json.{
  Json, Fields, Items, Codec, null, number, text, array, object, field, end, get, as_text, as_nat,
  as_texts, text_array,
}
use anvil_events.Domain.Patterns.{is_safe_token, is_producer, is_kind, is_owned_by, chars}
use anvil_events.Domain.Decimal.{event_id_of}
use Payloads.{Screen, no_duplicates, validate_payload}

abbrev pub schema_v2 : String
schema_v2 = "https://anvil.dev/schemas/events/v2.json"

abbrev pub envelope_keys : List String
envelope_keys =
    "version" ∷ "event_id" ∷ "producer" ∷ "producer_seq" ∷ "observed_at" ∷ "emitted_at"
    ∷ "correlation_id" ∷ "schema" ∷ "node" ∷ "kind" ∷ "subject" ∷ "payload" ∷ "causes" ∷ []

-- set(event)
unfoldable pub keys : Fields → List String
keys end = []
keys (field k v fs) = k ∷ keys fs

-- set(event) == _REQUIRED
unfoldable pub has_envelope_keys : Fields → Bool
unfolding keys
has_envelope_keys event =
    all (λ k. contains k (keys event)) envelope_keys
    && all (λ k. contains k envelope_keys) (keys event)

-- f"anvil.events.v2.{node}.{kind}"
unfoldable pub subject_of : String → String → String
subject_of node kind = append "anvil.events.v2." (append node (append "." kind))

abbrev pub is_correlation : Option Json → Bool
is_correlation none = true
is_correlation (some null) = true
is_correlation (some (text s)) = leb (chars s) 256
is_correlation _ = false

abbrev pub is_timestamp : Screen → Option Json → Bool
is_timestamp screen (some (text s)) = screen.is_rfc3339 s
is_timestamp screen _ = false

-- isinstance(cause, str) and cause and len(cause) <= 256
abbrev pub is_cause : String → Bool
is_cause s = leb 1 (chars s) && leb (chars s) 256

abbrev pub causes_of : Option Json → Option (List String)
causes_of (some (array xs)) = as_texts xs
causes_of _ = none

abbrev pub is_allowed : Option (List String) → String → Bool
is_allowed none producer = true
is_allowed (some producers) producer = contains producer producers

unfoldable pub validate_event_v2 :
    Codec → Screen → Option (List String) → Fields → Result (Unit {0})
unfolding has_envelope_keys
validate_event_v2 codec screen allowed event = do
  guard (has_envelope_keys event) (value_error "envelope fields mismatch")
  guard (as_nat (get "version" event) == some 2) (value_error "unsupported v2 version")
  guard (as_text (get "schema" event) == some schema_v2) (value_error "unsupported v2 schema URI")
  producer ←
      or_raise (as_text (get "producer" event))
        (value_error "producer must be colon-separated safe tokens")
  guard (leb (chars producer) 256 && is_producer producer)
      (value_error "producer must be colon-separated safe tokens")
  seq ←
      or_raise (as_nat (get "producer_seq" event))
        (value_error "producer_seq must be a positive integer")
  guard (ltb 0 seq) (value_error "producer_seq must be a positive integer")
  guard (as_text (get "event_id" event) == some (event_id_of producer seq))
      (value_error "event_id does not match producer sequence")
  node ← or_raise (as_text (get "node" event)) (value_error "node must be one safe token")
  guard (leb (chars node) 64 && is_safe_token node) (value_error "node must be one safe token")
  kind ←
      or_raise (as_text (get "kind" event))
        (value_error "kind must be a dotted lowercase identifier")
  guard (leb (chars kind) 128 && is_kind kind)
      (value_error "kind must be a dotted lowercase identifier")
  guard (is_owned_by producer node) (value_error "producer identity must belong to the event node")
  guard (as_text (get "subject" event) == some (subject_of node kind))
      (value_error "subject does not match node and kind")
  guard (is_correlation (get "correlation_id" event))
      (value_error "correlation_id must be a string or null")
  guard
      (is_timestamp screen (get "observed_at" event)
        && is_timestamp screen (get "emitted_at" event))
      (value_error "event timestamps must be RFC 3339 date-times")
  causes ←
      or_raise (causes_of (get "causes" event)) (value_error "causes must be non-empty event IDs")
  guard (all is_cause causes) (value_error "causes must be non-empty event IDs")
  guard (no_duplicates causes) (value_error "causes must not contain duplicates")
  guard (is_allowed allowed producer) (value_error "producer is not authorized")
  payload ← or_raise (get "payload" event) (value_error "payload must be an object")
  validate_payload codec screen kind payload

abbrev pub nullable : Option String → Json
nullable none = null
nullable (some s) = text s

unfoldable pub envelope_v2 :
    String → String → String → Json → ℕ → Option String → List String → String → Fields
envelope_v2 producer kind node payload seq correlation causes now =
    field "version" (number (pos 2)) (
      field "event_id" (text (event_id_of producer seq)) (
        field "producer" (text producer) (
          field "producer_seq" (number (pos seq)) (
            field "observed_at" (text now) (
              field "emitted_at" (text now) (
                field "correlation_id" (nullable correlation) (
                  field "schema" (text schema_v2) (
                    field "node" (text node) (
                      field "kind" (text kind) (
                        field "subject" (text (subject_of node kind)) (
                          field "payload" payload
                            (field "causes" (array (text_array causes)) end))))))))))))

-- The clock that `utcnow_iso` reads is the argument `now`; `observed_at` is left to it, as all callers do.
unfoldable pub make_event_v2 :
    Codec
    → Screen
    → String
    → String
    → String
    → Json
    → ℕ
    → Option String
    → List String
    → String
    → Result Fields
unfolding envelope_v2
make_event_v2 codec screen producer kind node payload seq correlation causes now = do
  guard (leb (chars producer) 256 && is_producer producer)
      (value_error "producer must be colon-separated safe tokens")
  guard (leb (chars node) 64 && is_safe_token node) (value_error "node must be one safe token")
  guard (leb (chars kind) 128 && is_kind kind)
      (value_error "kind must be a dotted lowercase identifier")
  guard (is_owned_by producer node) (value_error "producer identity must belong to the event node")
  guard (ltb 0 seq) (value_error "producer_seq must be a positive integer")
  guard (is_correlation (some (nullable correlation)))
      (value_error "correlation_id must be a string or null")
  validate_payload codec screen kind payload
  ok (envelope_v2 producer kind node payload seq correlation causes now)
