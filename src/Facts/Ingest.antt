-- ===== src/Facts/Ingest.antt =====
-- `cmd_ingest` of ingest.py, on the events that its source reads. What it prints is not modelled.
pub mod Again
use anvil_events.Base.{
  ℕ, ◌+◌, String, Bool, true, false, Option, none, some, List, [], ◌∷◌, ◌==◌, string_eq, nat_eq,
  if◌then◌else◌, contains, take,
}
use anvil_events.Result.{Fault, Result, ok, err, value_error, key_error, other}
use anvil_events.Exec.{Exec, pure, raise, ◌>>=◌, ◌>>◌}
use anvil_events.Json.{Json, Fields, Codec, object, get, as_text}
use anvil_events.Domain.V1.{validate_event}
use anvil_events.Domain.V2.Payloads.{Screen}
use anvil_events.Storage.Schema.{Db}
use anvil_events.Facts.Store.{add}

-- What the loop over the source's events has found.
pub record Found : Type 0 where
  pub valid : List Fields
  pub dropped : ℕ

abbrev pub drop_one : Result Found → Result Found
drop_one (ok f) = ok (record f { dropped = f.dropped + 1 })
drop_one (err e) = err e

-- A fault that is no verdict on the event ends the loop.
abbrev pub after_invalid : Fault → Result Found → Result Found
after_invalid (value_error reason) rest = drop_one rest
after_invalid e rest = err e

abbrev pub keep_one : Fields → Result Found → Result Found
keep_one event (ok f) = ok (record f { valid = event ∷ f.valid })
keep_one event (err e) = err e

module _ (codec : Codec) (screen : Screen) (allowed : Option (List String)) where
  -- The loop: the valid events, each id once, and the number of events that are not valid.
  unfoldable pub scan : List Json → List String → Result Found
  scan [] seen = ok (record { valid = []; dropped = 0 })
  scan (v ∷ events) seen = elim (validate_event codec screen allowed v) [
    | err e ↦ after_invalid e (scan events seen)
    | ok u ↦ elim v [
      | object event ↦ elim (as_text (get "event_id" event)) [
        | none ↦ err (key_error "event_id")
        | some id ↦ elim (contains id seen) [
          | true ↦ scan events seen
          | false ↦ keep_one event (scan events (id ∷ seen))
        ]
      ]
      | _ ↦ err (other "event is no dictionary")
    ]
  ]

  abbrev pub limit : Option ℕ → List Fields → List Fields
  limit none valid = valid
  limit (some count) valid = take count valid

  abbrev pub count_stored : Option Fields → ℕ → ℕ
  count_stored none n = n
  count_stored (some fact) n = n + 1

  -- sum(fact_store(event) is not None for event in valid)
  unfoldable pub store_all : List Fields → ℕ → Exec Db ℕ
  store_all [] now = pure 0
  store_all (event ∷ events) now = do
    fact ← add codec screen allowed event now
    rest ← store_all events now
    pure (count_stored fact rest)

  abbrev pub store_found : Option ℕ → ℕ → Result Found → Exec Db (ℕ × ℕ)
  store_found count now (err e) = raise e
  store_found count now (ok found) = do
    stored ← store_all (limit count found.valid) now
    pure (stored, found.dropped)

  -- The numbers of facts that are stored, and of events that are dropped.
  unfoldable pub ingest : List Json → Option ℕ → ℕ → Exec Db (ℕ × ℕ)
  ingest events count now = store_found count now (scan events [])
