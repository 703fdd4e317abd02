-- ===== src/Runtime/Processor.antt =====
-- reconciliation/processor.py: `DesiredStateProcessor` over the engine and the store of one node. The
-- fields of the node, its producer and its policy are parameters, as the host is.
pub mod Outcomes
use Prim.Native.String.{◌++◌ as append}
use anvil_events.Base.{
  ℕ, String, Bool, true, false, not, Option, none, some, List, [], ◌∷◌, ◌==◌, string_eq, option_eq,
  if◌then◌else◌, contains, any, is_some,
}
use anvil_events.Base.Int.{pos}
use anvil_events.Result.{Result, ok, err, value_error, runtime_error, key_error, other, or_raise}
use anvil_events.Exec.{Exec, pure, raise, attempt, ◌>>=◌, ◌>>◌}
use anvil_events.Json.{
  Json, Fields, object, null, text, number, field, end, get, as_text, as_fields,
}
use anvil_events.Domain.V2.Payloads.{Screen}
use anvil_events.Storage.Operations.{record_v2}
use anvil_events.Storage.Queries.{read_journal}
use anvil_events.Reconcile.Desired.{operation_id}
use anvil_events.Reconcile.Contracts.{Policy}
use anvil_events.Reconcile.State.{applied_event_ids}
use anvil_events.Reconcile.Engine
use anvil_events.Reconcile.Engine.Types.{
  Host, World, ResultState, Outcome, ReconcileResult, on_db, lift,
}

-- The fields of an outcome, the error last.
abbrev pub error_field : Option String → Fields
error_field none = end
error_field (some e) = field "error" (text e) end

abbrev pub digest_field : Option String → Fields → Fields
digest_field none rest = rest
digest_field (some d) rest = field "content_sha256" (text d) rest

abbrev pub outcome_fields : Outcome → Fields
outcome_fields o = field "resource" (text o.resource) (
    field "generation" (number (pos o.generation)) (
      field "revision" (text o.revision) (
        digest_field o.content_sha256 (
          field "adapter" (text o.adapter) (
            field "operation_id" (text o.operation_id)
              (field "node" (text o.node) (error_field o.error)))))))

-- A `ReconcileResult` with its payload as a dictionary.
pub record Answer : Type 0 where
  pub state : ResultState
  pub operation_id : String
  pub outcome_kind : Option String
  pub payload : Option Fields

abbrev pub answer_of : ReconcileResult → Answer
answer_of r = record {
  state = r.state;
  operation_id = r.operation_id;
  outcome_kind = r.outcome_kind;
  payload = elim r.payload [ none ↦ none | some o ↦ some (outcome_fields o) ];
}

abbrev pub has_applied : ResultState → Bool
has_applied ResultState.applied = true
has_applied _ = false

-- payload[key]
abbrev pub key_of : String → Fields → Result Json
key_of key fs = or_raise (get key fs) (key_error key)

module _ {W : Type 0} (host : Host W) (screen : Screen) (node producer : String)
    (policy : Policy) where
  -- The result of an event that the engine refuses.
  unfoldable pub rejected : Fields → Exec (World W) Answer
  rejected event = do
    fields ← lift (or_raise (as_fields (get "payload" event)) (key_error "payload"))
    event_id ← lift (or_raise (as_text (get "event_id" event)) (key_error "event_id"))
    resource ← lift (key_of "resource" fields)
    generation ← lift (key_of "generation" fields)
    revision ← lift (key_of "revision" fields)
    adapter ← lift (key_of "adapter" fields)
    pure (record {
      state = ResultState.rejected;
      operation_id = operation_id host.codec node event_id;
      outcome_kind = some "reconcile.failed";
      payload = some (
          field "resource" resource (
            field "generation" generation (
              field "revision" revision (
                field "adapter" adapter (
                  field "operation_id" (text (operation_id host.codec node event_id))
                    (field "node" (text node) (error_field (some "desired state rejected"))))))));
    })

  abbrev pub by_result : Fields → Result ReconcileResult → Exec (World W) Answer
  by_result event (ok r) = pure (answer_of r)
  by_result event (err (value_error s)) = rejected event
  by_result event (err e) = raise e

  -- f"outcome:{delivery_operation_id}:{result.outcome_kind}"
  abbrev pub outcome_key : String → String → String
  outcome_key event_id kind =
      append "outcome:" (append (operation_id host.codec node event_id) (append ":" kind))

  abbrev pub payload_json : Option Fields → Json
  payload_json none = null
  payload_json (some fs) = object fs

  -- self.store.record_v2(...)
  unfoldable pub record_outcome :
      Fields → String → Option Fields → String → ℕ → Exec (World W) (Unit {0})
  record_outcome event kind payload clock now = do
    event_id ← lift (or_raise (as_text (get "event_id" event)) (key_error "event_id"))
    recorded ← on_db (
        record_v2 host.codec screen (outcome_key event_id kind) (outcome_key event_id kind) producer
          kind node (payload_json payload) (as_text (get "correlation_id" event)) (event_id ∷ [])
          clock now)
    pure tt

  -- A result without an outcome is only returned.
  abbrev pub record_answer : Fields → String → ℕ → Answer → Exec (World W) (Unit {0})
  record_answer event clock now a = elim a.outcome_kind [
    | none ↦ pure tt
    | some kind ↦ record_outcome event kind a.payload clock now
  ]

  unfoldable pub process_state : Fields → String → ℕ → Exec (World W) (Option Answer)
  process_state event clock now = do
    result ← attempt (Engine.process host node policy event now)
    answer ← by_result event result
    record_answer event clock now answer
    pure (some answer)

  unfoldable pub process_event : Fields → String → ℕ → Exec (World W) (Option Answer)
  process_event event clock now = do
    kind ← lift (key_of "kind" event)
    if as_text (some kind) == some "state.desired" then process_state event clock now else pure none

  -- The stored events that are wanted, by id.
  abbrev pub wanted_event : List String → Fields → Result Bool
  wanted_event wanted event = elim (as_text (get "event_id" event)) [
    | none ↦ err (key_error "event_id")
    | some id ↦
        if contains id wanted
        then (elim (get "kind" event) [
          | none ↦ err (key_error "kind")
          | some kind ↦ ok (as_text (some kind) == some "state.desired")
        ])
        else ok false
  ]

  abbrev pub id_of : Fields → String
  id_of event = elim (as_text (get "event_id" event)) [ none ↦ "" | some s ↦ s ]

  -- A later event of the same id takes the place of an earlier one.
  unfoldable pub find_event : String → List Fields → Option Fields
  find_event id [] = none
  find_event id (e ∷ es) = elim (find_event id es) [
    | some later ↦ some later
    | none ↦ if id_of e == id then some e else none
  ]

  unfoldable pub wanted_events : List String → List Json → Result (List Fields)
  wanted_events wanted [] = ok []
  wanted_events wanted (object e ∷ es) = elim (wanted_event wanted e) [
    | err x ↦ err x
    | ok b ↦ elim (wanted_events wanted es) [
      | err x ↦ err x
      | ok rest ↦ ok (if b then e ∷ rest else rest)
    ]
  ]
  wanted_events wanted (_ ∷ es) = err (other "event is no dictionary")

  -- The loop over the ids, in their order.
  unfoldable pub process_all : List String → List Fields → String → ℕ → Exec (World W) (List Answer)
  process_all [] events clock now = pure []
  process_all (id ∷ ids) events clock now = do
    event ← lift (or_raise (find_event id events) (key_error id))
    processed ← process_event event clock now
    answer ← lift (or_raise processed (other "no result"))
    answers ← process_all ids events clock now
    pure (answer ∷ answers)

  abbrev pub reconcile_ids :
      (String → String → Bool) → List String → String → ℕ → Exec (World W) (List Answer)
  reconcile_ids before ids clock now = do
    stored ← on_db (λ db. (read_journal host.codec before db, db))
    events ← lift (wanted_events ids stored)
    if any (λ id. not (is_some (find_event id events))) ids
        then raise (value_error "applied desired event is missing from the journal")
        else (do
          answers ← process_all ids events clock now
          if any (λ (a : Answer). not (has_applied a.state)) answers
              then raise (runtime_error "stored desired state did not converge")
              else pure answers)

  unfoldable pub reconcile_stored :
      (String → String → Bool)
      → (String → String → Bool)
      → String
      → ℕ
      → Exec (World W) (List Answer)
  reconcile_stored le before clock now = do
    ids ← on_db (λ db. (ok (applied_event_ids le node db), db))
    elim ids [ [] ↦ pure [] | id ∷ rest ↦ reconcile_ids before (id ∷ rest) clock now ]
