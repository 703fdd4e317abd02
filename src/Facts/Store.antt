-- ===== src/Facts/Store.antt =====
-- storage/facts.py: `FactRepository` as functions on the database, and the projection of ingest.py.
pub mod Ledger
use anvil_events.Base.{
  ℕ, String, Bool, true, false, ◌&&◌, ◌||◌, Option, none, some, List, [], ◌∷◌, ◌==◌, string_eq,
  nat_eq, ltb, if◌then◌else◌,
}
use anvil_events.Base.Int.{pos}
use anvil_events.Result.{
  Result, ok, err, value_error, key_error, or_raise, guard, ◌>>=◌, ◌>>◌, transaction,
}
use anvil_events.Table.{select, insert}
use anvil_events.Json.{
  Json, Fields, Codec, null, boolean, number, text, array, object, nil, field, end, get, as_text,
}
use anvil_events.Domain.V1.{validate_event}
use anvil_events.Domain.V2.Payloads.{Screen}
use anvil_events.Storage.Schema.{Db, FactRow}
use anvil_events.Facts.Keys.{sensitive_key, drop_fact_fields}
use anvil_events.Facts.Redact.{redact}

-- event.get(key), and event.get(key, other)
abbrev pub get_or : Json → Option Json → Json
get_or other none = other
get_or other (some v) = v

-- event.get("payload") or {}
abbrev pub or_empty : Option Json → Json
or_empty (some null) = object end
or_empty (some (boolean false)) = object end
or_empty (some (number (pos ℕ.zero))) = object end
or_empty (some (text String.[])) = object end
or_empty (some (array nil)) = object end
or_empty (some v) = v
or_empty none = object end

unfoldable pub event_to_fact : Fields → Fields
event_to_fact event = field "event_id" (get_or null (get "event_id" event)) (
    field "kind" (get_or null (get "kind" event)) (
      field "node" (get_or (get_or null (get "host" event)) (get "node" event)) (
        field "observed_at" (get_or null (get "observed_at" event)) (
          field "correlation_id" (get_or null (get "correlation_id" event)) (
            field "payload"
              (redact (sensitive_key drop_fact_fields) (or_empty (get "payload" event))) end)))))

-- WHERE event_id = ?
abbrev pub fact_of : String → FactRow → Bool
fact_of id r = r.event_id == id

module _ (codec : Codec) where
  -- json.dumps(fact, ...)
  unfoldable pub encoded_fact : Fields → String
  encoded_fact event = codec.dumps (object (event_to_fact event))

  abbrev pub fact_row : String → Fields → ℕ → FactRow
  fact_row id event now = record {
    event_id = id;
    fact_json = encoded_fact event;
    fact_sha256 = codec.sha256 (encoded_fact event);
    stored_at = now;
  }

  -- By the row of the event, if there is one: the fact that was stored, or nothing.
  unfoldable pub add_as : String → Fields → ℕ → Option FactRow → Db → Result (Option Fields × Db)
  add_as id event now none db =
      ok (some (event_to_fact event), record db { facts = insert (fact_row id event now) db.facts })
  add_as id event now (some row) db = do
    guard
        (row.fact_json == encoded_fact event
          && row.fact_sha256 == codec.sha256 (encoded_fact event))
        (value_error "fact identity collision")
    ok (none, db)

  unfoldable pub add_in : Fields → ℕ → Db → Result (Option Fields × Db)
  add_in event now db = do
    id ← or_raise (as_text (get "event_id" event)) (key_error "event_id")
    add_as id event now (select (fact_of id) db.facts) db

  -- An event that is not valid is no fact.
  abbrev pub add_valid : Result (Unit {0}) → Fields → ℕ → Db → Result (Option Fields) × Db
  add_valid (ok u) event now db = transaction (add_in event now) db
  add_valid (err (value_error reason)) event now db = (ok none, db)
  add_valid (err e) event now db = (err e, db)

  unfoldable pub add : Screen → Option (List String) → Fields → ℕ → Db → Result (Option Fields) × Db
  add screen allowed event now =
      add_valid (validate_event codec screen allowed (object event)) event now

  -- ORDER BY stored_at, event_id: the order of the texts is a parameter.
  abbrev pub fact_precedes : (String → String → Bool) → FactRow → FactRow → Bool
  fact_precedes before r s =
      ltb r.stored_at s.stored_at || (r.stored_at == s.stored_at && before r.event_id s.event_id)

  unfoldable pub place_fact : (String → String → Bool) → FactRow → List FactRow → List FactRow
  place_fact before r [] = r ∷ []
  place_fact before r (s ∷ t) =
      let rest = place_fact before r t in if fact_precedes before s r then s ∷ rest else r ∷ s ∷ t

  unfoldable pub facts_in_order : (String → String → Bool) → List FactRow → List FactRow
  facts_in_order before [] = []
  facts_in_order before (r ∷ t) = place_fact before r (facts_in_order before t)

  unfoldable pub load_facts : List FactRow → Result (List Json)
  load_facts [] = ok []
  load_facts (r ∷ t) = do
    fact ← or_raise (codec.loads r.fact_json) (value_error "fact_json")
    facts ← load_facts t
    ok (fact ∷ facts)

  unfoldable pub read_facts : (String → String → Bool) → Db → Result (List Json)
  read_facts before db = load_facts (facts_in_order before db.facts)
