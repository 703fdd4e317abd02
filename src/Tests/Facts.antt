-- ===== src/Tests/Facts.antt =====
-- The theorems on facts, at inputs that meet their hypotheses.
use anvil_events.Base.{if◌then◌else◌, none, some, [], ◌∷◌, ◌≡◌, refl}
use anvil_events.Result.{ok}
use anvil_events.Json.{Fields, object, text, field, end, get}
use anvil_events.Facts.Keys.{sensitive_key, drop_fact_fields}
use anvil_events.Facts.Redact.Paths.{key, find, is_hidden, find-redact}
use anvil_events.Facts.Redact.{redact, redact_fields, IsClean, redact-IsClean, get-redact_fields}
use anvil_events.Storage.Schema.{Db, initial}
use anvil_events.Table.{select}
use anvil_events.Facts.Store.{fact_row}
use anvil_events.Facts.Ingest.{ingest}
use anvil_events.Facts.Ingest.Again.{ingest-again}
use anvil_events.Facts.Store.Ledger.{add_all, replay, view, IsSealed, add_all-replay}
use anvil_events.Tests.Samples.{plain, lenient, desired_event}

abbrev noted_db : Db
noted_db = record initial { facts = fact_row plain "a:r:000003" desired_event 7 ∷ [] }

-- One event twice, and one that is not valid.
ingested :
    ingest plain lenient none
      (object desired_event ∷ object desired_event ∷ object end ∷ [])
      none
      7
      initial
    ≡ (ok (1, 1), noted_db)
unfolding ingest anvil_events.Facts.Ingest.scan anvil_events.Domain.V1.validate_event
    anvil_events.Json.as_nat anvil_events.Json.get anvil_events.Domain.V2.envelope_v2
    anvil_events.Domain.V2.validate_event_v2 anvil_events.Json.as_text
    anvil_events.Domain.Patterns.is_producer anvil_events.Domain.Decimal.event_id_of
    anvil_events.Domain.Patterns.is_safe_token anvil_events.Domain.Patterns.is_kind
    anvil_events.Domain.Patterns.is_owned_by anvil_events.Domain.V2.subject_of
    anvil_events.Json.as_texts anvil_events.Json.text_array
    anvil_events.Domain.V2.Payloads.no_duplicates anvil_events.Domain.V2.Payloads.validate_payload
    anvil_events.Domain.Decimal.decimal anvil_events.Domain.Decimal.six_digits
    anvil_events.Domain.Patterns.all_some anvil_events.Domain.Patterns.first_word
    anvil_events.Domain.Patterns.has_newline anvil_events.Domain.Patterns.is_alnum
    anvil_events.Domain.Patterns.is_digit anvil_events.Domain.Patterns.is_kind_word
    anvil_events.Domain.Patterns.is_lower anvil_events.Domain.Patterns.is_resource
    anvil_events.Domain.Patterns.is_revision anvil_events.Domain.Patterns.is_sha256
    anvil_events.Domain.Patterns.is_token_char anvil_events.Domain.Patterns.is_upper
    anvil_events.Domain.Patterns.same_codes anvil_events.Domain.Patterns.split
    anvil_events.Domain.V1.Payloads.fits_field anvil_events.Domain.V1.Payloads.fits_fields
    anvil_events.Domain.V1.Payloads.keys_within anvil_events.Domain.V1.Payloads.payload_allowed
    anvil_events.Domain.V1.Payloads.payload_required
    anvil_events.Domain.V1.Payloads.validate_payload_v1 anvil_events.Domain.V1.subject_v1
    anvil_events.Domain.V1.validate_event_v1 anvil_events.Domain.V2.Payloads.check_targets
    anvil_events.Domain.V2.Payloads.has_unhashable anvil_events.Domain.V2.Payloads.is_bounded
    anvil_events.Domain.V2.Payloads.required anvil_events.Domain.V2.Payloads.validate_fields
    anvil_events.Domain.V2.has_envelope_keys anvil_events.Domain.V2.keys anvil_events.Exec.pure
    anvil_events.Exec.raise anvil_events.Exec.◌>>=◌ anvil_events.Facts.Ingest.store_all
    anvil_events.Facts.Keys.camel_split anvil_events.Facts.Keys.collapse
    anvil_events.Facts.Keys.compact anvil_events.Facts.Keys.ends_with anvil_events.Facts.Keys.lstrip
    anvil_events.Facts.Keys.normalized anvil_events.Facts.Keys.rstrip
    anvil_events.Facts.Keys.sensitive_key anvil_events.Facts.Redact.redact
    anvil_events.Facts.Store.add anvil_events.Facts.Store.add_as anvil_events.Facts.Store.add_in
    anvil_events.Facts.Store.encoded_fact anvil_events.Facts.Store.event_to_fact
    anvil_events.Result.transaction anvil_events.Table.select
ingested = refl

ingest-again_example :
    ingest plain lenient none
      (object desired_event ∷ object desired_event ∷ object end ∷ [])
      none
      9
      noted_db
    ≡ (ok (0, 1), noted_db)
ingest-again_example =
    ingest-again plain lenient none (object desired_event ∷ object desired_event ∷ object end ∷ [])
      none 7 9 1 1 initial noted_db ingested

initial-IsSealed : IsSealed plain initial
unfolding IsSealed select
initial-IsSealed id r h = absurd (cc h)

add_all-replay_example :
    IsSealed plain (add_all plain lenient none ((desired_event, 7) ∷ (end, 8) ∷ []) initial)
    × (view plain (add_all plain lenient none ((desired_event, 7) ∷ (end, 8) ∷ []) initial)
        ≡ replay plain lenient none ((desired_event, 7) ∷ (end, 8) ∷ []) (view plain initial))
add_all-replay_example =
    add_all-replay plain lenient none ((desired_event, 7) ∷ (end, 8) ∷ []) initial initial-IsSealed

-- The payload of an event with a credential in a nested object.
abbrev leaky : Fields
leaky = field "name" (text "n") (
    field "login" (object (field "authToken" (text "t") (field "user" (text "u") end)))
      (field "Password" (text "p") end))

redact-IsClean_example :
    IsClean
      (sensitive_key drop_fact_fields)
      (redact (sensitive_key drop_fact_fields) (object leaky))
    × (redact
          (sensitive_key drop_fact_fields)
          (redact (sensitive_key drop_fact_fields) (object leaky))
        ≡ redact (sensitive_key drop_fact_fields) (object leaky))
redact-IsClean_example = redact-IsClean (sensitive_key drop_fact_fields) (object leaky)

find-redact_example :
    find
      (key "login" ∷ key "user" ∷ [])
      (some (redact (sensitive_key drop_fact_fields) (object leaky)))
    ≡ (if is_hidden (sensitive_key drop_fact_fields) (key "login" ∷ key "user" ∷ [])
        then none
        else find (key "login" ∷ key "user" ∷ []) (some (object leaky)))
find-redact_example =
    find-redact (sensitive_key drop_fact_fields) (key "login" ∷ key "user" ∷ []) (object leaky)

-- The credentials of both depths are gone.
redacted_test :
    redact (sensitive_key drop_fact_fields) (object leaky)
    ≡ object (field "name" (text "n") (field "login" (object (field "user" (text "u") end)) end))
unfolding redact sensitive_key
redacted_test = refl
