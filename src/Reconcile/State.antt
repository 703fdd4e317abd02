-- ===== src/Reconcile/State.antt =====
-- reconciliation/state.py: each method of `ReconcileState` as a function on the database. A name that
-- ends in `_in` is the body of the method's transaction. The clock that a method reads is an argument.
pub mod Rows
pub mod Cases
pub mod Calls
pub mod Generations
pub mod Settled
pub mod Applied
use Prim.Native.String.{◌++◌ as append}
use anvil_events.Base.{
  ℕ, String, Bool, true, false, ◌&&◌, ◌||◌, Option, none, some, List, ◌==◌, nat_eq, string_eq, ltb,
  leb, is_some, if◌then◌else◌, map, clip,
}
use anvil_events.Result.{Fault, Result, ok, err, value_error, ◌>>=◌, ◌>>◌, transaction}
use anvil_events.Table.{select, select_all, update, delete, count, insert}
use anvil_events.Json.{Codec, object, field, end, array, text, text_array}
use anvil_events.Storage.Schema.{Db, ResourceRow, AttemptRow, AttemptState, ApplicationRow}
use anvil_events.Reconcile.Desired.{Payload, Desired, operation_id}
use anvil_events.Reconcile.Contracts.{Preview}
use Rows.{
  resource_at, application_at, attempt_at, attempt_for, application_of, attempt_of, is_prepared,
  is_applied, is_previewable, newest, has_event, insert_attempt, insert_application,
}

-- The state that `claim` returns as text: `superseded`, or that of an attempt in lower case.
pub data Claim : Type 0 where
  prepared awaiting_approval applied failed indeterminate superseded : Claim

abbrev pub lower : AttemptState → Claim
lower AttemptState.prepared = prepared
lower AttemptState.awaiting_approval = awaiting_approval
lower AttemptState.applied = applied
lower AttemptState.failed = failed
lower AttemptState.indeterminate = indeterminate

abbrev pub Claimed : Type 0
Claimed = Result ((Claim × String) × Db)

-- An attempt whose process ended during the external apply.
abbrev pub give_up : ℕ → AttemptRow → AttemptRow
give_up now a = record a {
  state = AttemptState.indeterminate;
  error = some "process ended during external apply";
  completed_at = some now;
}

unfoldable pub abandon : String → ℕ → Db → Db
abandon id now db = record db {
  attempts = update (attempt_of id) (give_up now) db.attempts;
  applications = delete (application_of id) db.applications;
}

unfoldable pub attempt_row : Desired → String → String → ℕ → AttemptRow
attempt_row d node id now = record {
  operation_id = id;
  event_id = d.event_id;
  node = node;
  resource = d.payload.resource;
  generation = d.payload.generation;
  state = AttemptState.prepared;
  preview_json = none;
  error = none;
  started_at = now;
  completed_at = none;
}

open_attempt : Desired → String → String → ℕ → Db → Claimed
unfolding insert_attempt
open_attempt d node id now db =
    insert_attempt (attempt_row d node id now) db >>= λ r. ok ((prepared, id), r.1)

claim_generation : Desired → String → String → ℕ → Db → Claimed
unfolding open_attempt
claim_generation d node id now db = elim (newest (attempt_at node d.payload.resource) db.attempts) [
  | none ↦ open_attempt d node id now db
  | some owner ↦
      if ltb d.payload.generation owner.generation
      then ok ((superseded, id), db)
      else if d.payload.generation == owner.generation
      then err (value_error "conflicting desired events reuse one resource generation")
      else open_attempt d node id now db
]

claim_attempt : Desired → String → String → ℕ → Db → Claimed
unfolding claim_generation
claim_attempt d node id now db = elim (select (attempt_of id) db.attempts) [
  | some attempt ↦ ok ((lower attempt.state, id), db)
  | none ↦ claim_generation d node id now db
]

unfoldable pub same_content : Payload → ResourceRow → Bool
same_content p current =
    p.revision == current.revision
    && p.content_sha256 == current.content_sha256
    && p.adapter == current.adapter

-- The generation is the applied one: the answer is that of the attempt that owns it.
claim_owner : Desired → String → String → Db → Claimed
claim_owner d node id db =
    elim (select (attempt_for node d.payload.resource d.payload.generation) db.attempts) [
      | none ↦ ok ((applied, id), db)
      | some owner ↦
          if is_applied owner.state
          then ok ((applied, owner.operation_id), db)
          else ok ((lower owner.state, owner.operation_id), db)
    ]

claim_resource : Desired → String → String → ℕ → Db → Claimed
unfolding claim_attempt claim_owner same_content
claim_resource d node id now db = elim (select (resource_at node d.payload.resource) db.resources) [
  | none ↦ claim_attempt d node id now db
  | some current ↦
      if ltb d.payload.generation current.generation
      then ok ((superseded, id), db)
      else if d.payload.generation == current.generation
      then (if same_content d.payload current
          then claim_owner d node id db
          else err (value_error "conflicting desired state for an applied generation"))
      else claim_attempt d node id now db
]

unfoldable pub claim_in : Codec → String → Desired → ℕ → Db → Claimed
unfolding claim_resource abandon operation_id
claim_in codec node d now db =
    let id = operation_id codec node d.event_id in
    elim (select (application_at node d.payload.resource) db.applications) [
      | none ↦ claim_resource d node id now db
      | some abandoned ↦
          if abandoned.operation_id == id
          then ok ((indeterminate, id), abandon abandoned.operation_id now db)
          else claim_resource d node id now (abandon abandoned.operation_id now db)
    ]

unfoldable pub claim : Codec → String → Desired → ℕ → Db → Result (Claim × String) × Db
unfolding claim_in transaction
claim codec node d now = transaction (claim_in codec node d now)

-- any(current[field] != payload[field] for field in (...))
unfoldable pub is_current : Payload → ResourceRow → Bool
unfolding same_content
is_current p current = current.generation == p.generation && same_content p current

abbrev pub reopen : ℕ → AttemptRow → AttemptRow
reopen now a = record a {
  state = AttemptState.prepared;
  preview_json = none;
  error = none;
  started_at = now;
  completed_at = none;
}

unfoldable pub reopen_applied_in : String → Desired → String → ℕ → Db → Result (Unit {0} × Db)
unfolding is_current
reopen_applied_in id d node now db =
    elim (select (resource_at node d.payload.resource) db.resources) [
      | none ↦ err (value_error "applied resource changed before drift repair")
      | some current ↦
          if is_current d.payload current
          then (if count (attempt_of id) db.attempts == 0
              then err (value_error "applied reconciliation attempt is missing")
              else ok
                  (tt, record db { attempts = update (attempt_of id) (reopen now) db.attempts }))
          else err (value_error "applied resource changed before drift repair")
    ]

unfoldable pub reopen_applied : String → Desired → String → ℕ → Db → Result (Unit {0}) × Db
unfolding reopen_applied_in transaction
reopen_applied id d node now = transaction (reopen_applied_in id d node now)

-- ORDER BY resource, with `le` the database's order of texts.
insert_by : (String → String → Bool) → ResourceRow → List ResourceRow → List ResourceRow
insert_by le r List.[] = List.◌∷◌ r List.[]
insert_by le r (List.◌∷◌ s t) =
    if le r.resource s.resource then List.◌∷◌ r (List.◌∷◌ s t) else List.◌∷◌ s (insert_by le r t)

sort_by : (String → String → Bool) → List ResourceRow → List ResourceRow
unfolding insert_by
sort_by le List.[] = List.[]
sort_by le (List.◌∷◌ r t) = insert_by le r (sort_by le t)

unfoldable pub applied_event_ids : (String → String → Bool) → String → Db → List String
unfolding sort_by
applied_event_ids le node db =
    map (λ (r : ResourceRow). r.event_id)
      (sort_by le (select_all (λ (r : ResourceRow). r.node == node) db.resources))

abbrev pub prepared_of : String → AttemptRow → Bool
prepared_of id a = a.operation_id == id && is_prepared a.state

abbrev pub application_row : String → AttemptRow → ℕ → ApplicationRow
application_row id attempt now = record {
  operation_id = id;
  node = attempt.node;
  resource = attempt.resource;
  started_at = now;
}

unfoldable pub begin_apply_in : String → ℕ → Db → Result (Unit {0} × Db)
begin_apply_in id now db = elim (select (prepared_of id) db.attempts) [
  | none ↦ err (value_error "reconciliation attempt is not ready to apply")
  | some attempt ↦ insert_application (application_row id attempt now) db
]

unfoldable pub begin_apply : String → ℕ → Db → Result (Unit {0}) × Db
unfolding begin_apply_in insert_application transaction
begin_apply id now = transaction (begin_apply_in id now)

abbrev pub previewable_of : String → AttemptRow → Bool
previewable_of id a = a.operation_id == id && is_previewable a.state

-- json.dumps({"summary": ..., "changes": ...}, sort_keys=True)
unfoldable pub encode_preview : Codec → Preview → String
encode_preview codec preview = codec.dumps_sorted (
    object (
      field "changes" (array (text_array preview.changes))
        (field "summary" (text preview.summary) end)))

abbrev pub set_preview_of : String → Bool → AttemptRow → AttemptRow
set_preview_of encoded awaits a = record a {
  preview_json = some encoded;
  state = if awaits then AttemptState.awaiting_approval else AttemptState.prepared;
}

-- The transaction has committed when a rowcount of 0 raises; it has then changed no row.
unfoldable pub set_preview : Codec → String → Preview → Bool → Db → Result (Unit {0}) × Db
unfolding encode_preview
set_preview codec id preview awaits db =
    let changed = count (previewable_of id) db.attempts in
    let encoded = encode_preview codec preview in
    (
      (if changed == 0
          then err (value_error "reconciliation attempt is not previewable")
          else ok tt),
      record db {
        attempts = update (previewable_of id) (set_preview_of encoded awaits) db.attempts;
      },
    )

-- INSERT ... ON CONFLICT(node, resource) DO UPDATE ... WHERE excluded.generation >= generation
abbrev pub is_replaced_by : ResourceRow → ResourceRow → Bool
is_replaced_by r s = resource_at r.node r.resource s && leb s.generation r.generation

abbrev pub overwrite : ResourceRow → ResourceRow → ResourceRow
overwrite r s = record s {
  generation = r.generation;
  revision = r.revision;
  content_sha256 = r.content_sha256;
  adapter = r.adapter;
  event_id = r.event_id;
  updated_at = r.updated_at;
}

unfoldable pub upsert_resource : ResourceRow → List ResourceRow → List ResourceRow
upsert_resource r t = elim (select (resource_at r.node r.resource) t) [
  | none ↦ insert r t
  | some current ↦ update (is_replaced_by r) (overwrite r) t
]

-- The two refusals of `complete` over the row that is applied.
unfoldable pub check_newer : Payload → Option ResourceRow → Result (Unit {0})
check_newer p none = ok tt
check_newer p (some current) =
    if ltb p.generation current.generation
    then err (value_error "a newer resource generation is already applied")
    else if p.generation == current.generation
    then (if p.revision == current.revision && p.content_sha256 == current.content_sha256
        then ok tt
        else err (value_error "generation content conflict"))
    else ok tt

unfoldable pub resource_row : Desired → String → ℕ → ResourceRow
resource_row d node now = record {
  node = node;
  resource = d.payload.resource;
  generation = d.payload.generation;
  revision = d.payload.revision;
  content_sha256 = d.payload.content_sha256;
  adapter = d.payload.adapter;
  event_id = d.event_id;
  updated_at = now;
}

abbrev pub set_applied : ℕ → AttemptRow → AttemptRow
set_applied now a = record a { state = AttemptState.applied; completed_at = some now }

unfoldable pub write_applied : String → Desired → String → ℕ → Db → Db
write_applied id d node now db = record db {
  resources = upsert_resource (resource_row d node now) db.resources;
  attempts = update (attempt_of id) (set_applied now) db.attempts;
  applications = delete (application_of id) db.applications;
}

-- CHECK (generation > 0) and the foreign key of `reconcile_resources`.
unfoldable pub resource_fits : Desired → Db → Bool
resource_fits d db = ltb 0 d.payload.generation && has_event db d.event_id

unfoldable pub complete_in : String → Desired → String → ℕ → Db → Result (Unit {0} × Db)
unfolding check_newer resource_fits write_applied resource_row
complete_in id d node now db = elim (select (application_of id) db.applications) [
  | none ↦ err (value_error "reconciliation attempt is not applying")
  | some _ ↦
      check_newer d.payload (select (resource_at node d.payload.resource) db.resources)
      >> (if resource_fits d db
          then ok (tt, write_applied id d node now db)
          else err (Fault.integrity_error "reconcile_resources"))
]

unfoldable pub complete : String → Desired → String → ℕ → Db → Result (Unit {0}) × Db
unfolding complete_in transaction
complete id d node now = transaction (complete_in id d node now)

abbrev pub set_failed : String → Bool → ℕ → AttemptRow → AttemptRow
set_failed error is_indeterminate now a = record a {
  state = if is_indeterminate then AttemptState.indeterminate else AttemptState.failed;
  error = some (clip 300 error);
  completed_at = some now;
}

unfoldable pub fail : String → String → Bool → ℕ → Db → Result (Unit {0}) × Db
fail id error is_indeterminate now db =
    let changed = count (attempt_of id) db.attempts in
    (
      (if changed == 0 then err (value_error "unknown reconciliation attempt") else ok tt),
      record db {
        attempts = update (attempt_of id) (set_failed error is_indeterminate now) db.attempts;
        applications = delete (application_of id) db.applications;
      },
    )
