-- ===== src/Domain/V1/Payloads.antt =====
-- The kinds of version 1 and the checks of their payloads, from domain.py.
use anvil_events.Base.{
  String, Bool, true, false, ◌&&◌, ◌||◌, not, List, [], ◌∷◌, ◌==◌, string_eq, if◌then◌else◌, all,
  contains, Option, none, some, is_some,
}
use anvil_events.Result.{Result, err, value_error, guard, ◌>>◌}
use anvil_events.Json.{
  Json, Fields, null, boolean, number, text, array, object, field, end, get, as_texts,
}

abbrev pub kinds : List String
kinds =
    "serve.up" ∷ "serve.down" ∷ "profile.enter" ∷ "profile.leave" ∷ "promote.applied"
    ∷ "promote.rolled_back" ∷ "config.adopted" ∷ "repo.synced" ∷ "host.status" ∷ "divergence"
    ∷ "event.degraded" ∷ []

-- PAYLOAD_REQUIRED.get(kind, ())
unfoldable pub payload_required : String → List String
payload_required kind =
    if kind == "serve.up"
    then "serve" ∷ "model" ∷ "port" ∷ []
    else if kind == "serve.down"
    then "serve" ∷ []
    else if kind == "profile.enter"
    then "mode" ∷ "profile" ∷ []
    else if kind == "profile.leave"
    then "mode" ∷ "profile" ∷ []
    else if kind == "promote.applied"
    then "tier" ∷ "model" ∷ []
    else if kind == "promote.rolled_back"
    then "tier" ∷ "restored_model" ∷ []
    else if kind == "config.adopted"
    then "file" ∷ []
    else if kind == "repo.synced"
    then "repo" ∷ "ok" ∷ []
    else if kind == "host.status"
    then "host" ∷ "reachable" ∷ []
    else if kind == "divergence"
    then "issue" ∷ []
    else if kind == "event.degraded"
    then "cause" ∷ []
    else []

-- PAYLOAD_ALLOWED.get(kind, frozenset())
unfoldable pub payload_allowed : String → List String
payload_allowed kind =
    if kind == "serve.up"
    then "serve" ∷ "model" ∷ "port" ∷ "gpu_roles" ∷ "residency" ∷ []
    else if kind == "serve.down"
    then "serve" ∷ "graceful" ∷ []
    else if kind == "profile.enter"
    then "profile" ∷ "mode" ∷ "exclusive_target" ∷ "restore_group" ∷ []
    else if kind == "profile.leave"
    then "profile" ∷ "mode" ∷ "exclusive_target" ∷ "restore_group" ∷ []
    else if kind == "promote.applied"
    then "promotion" ∷ "tier" ∷ "model" ∷ "context" ∷ "rollback" ∷ []
    else if kind == "promote.rolled_back"
    then "promotion" ∷ "tier" ∷ "restored_model" ∷ []
    else if kind == "config.adopted"
    then "file" ∷ "files" ∷ "state" ∷ "repo" ∷ "rev" ∷ []
    else if kind == "repo.synced"
    then "repo" ∷ "ok" ∷ "committed" ∷ "pushed" ∷ "error" ∷ []
    else if kind == "host.status"
    then "host" ∷ "reachable" ∷ "gpu_used" ∷ "gpu_free" ∷ []
    else if kind == "divergence"
    then "issue" ∷ "declared" ∷ "live" ∷ "delta" ∷ []
    else if kind == "event.degraded"
    then "cause" ∷ "event_id" ∷ "file" ∷ "bytes" ∷ "records" ∷ "pending" ∷ []
    else []

abbrev pub string_fields : List String
string_fields =
    "serve" ∷ "model" ∷ "residency" ∷ "profile" ∷ "mode" ∷ "exclusive_target" ∷ "restore_group"
    ∷ "promotion" ∷ "tier" ∷ "rollback" ∷ "restored_model" ∷ "file" ∷ "state" ∷ "repo" ∷ "rev"
    ∷ "error" ∷ "host" ∷ "issue" ∷ "cause" ∷ "event_id" ∷ []

abbrev pub bool_fields : List String
bool_fields = "graceful" ∷ "ok" ∷ "committed" ∷ "pushed" ∷ "reachable" ∷ []

-- _INTEGER_FIELDS and _NUMBER_FIELDS, which the model's numbers do not tell apart.
abbrev pub number_fields : List String
number_fields = "port" ∷ "context" ∷ "bytes" ∷ "records" ∷ "pending" ∷ "gpu_used" ∷ "gpu_free" ∷ []

-- isinstance(value, str), isinstance(value, bool), isinstance(value, int) without the Booleans, and a
-- list of texts
abbrev pub is_text : Json → Bool
is_text (text s) = true
is_text _ = false

abbrev pub is_boolean : Json → Bool
is_boolean (boolean b) = true
is_boolean _ = false

abbrev pub is_number : Json → Bool
is_number (number n) = true
is_number _ = false

abbrev pub is_text_array : Json → Bool
is_text_array (array xs) = is_some (as_texts xs)
is_text_array _ = false

abbrev pub is_null : Json → Bool
is_null null = true
is_null _ = false

-- payload.get(key) is not None
abbrev pub is_present : Option Json → Bool
is_present none = false
is_present (some v) = not (is_null v)

-- The checks of one field.
unfoldable pub fits_field : String → Json → Bool
fits_field key v =
    if contains key string_fields
    then is_text v
    else if contains key bool_fields
    then is_boolean v
    else if contains key number_fields
    then is_number v
    else if key == "gpu_roles" || key == "files"
    then is_text_array v
    else true

-- The loop over payload.items(), which passes over an absent optional value.
unfoldable pub fits_fields : List String → Fields → Bool
unfolding fits_field
fits_fields needed end = true
fits_fields needed (field key v fs) =
    let rest = fits_fields needed fs in
    if is_null v && not (contains key needed) then rest else fits_field key v && rest

unfoldable pub keys_within : List String → Fields → Bool
keys_within names end = true
keys_within names (field key v fs) = contains key names && keys_within names fs

-- validate_payload
unfoldable pub validate_payload_v1 : String → Json → Result (Unit {0})
unfolding fits_fields keys_within payload_required payload_allowed
validate_payload_v1 kind (object p) = do
  guard (all (λ key. is_present (get key p)) (payload_required kind))
      (value_error "payload missing required fields")
  guard (keys_within (payload_allowed kind) p) (value_error "payload has unknown fields")
  guard (fits_fields (payload_required kind) p) (value_error "payload field has the wrong type")
validate_payload_v1 kind _ = err (value_error "payload must be a dict")
