-- ===== src/Reconcile/State/Rows.antt =====
-- The WHERE clauses, updates and constrained inserts of reconciliation/state.py over the tables of
-- storage/database.py.
use anvil_events.Base.{
  ℕ, String, Bool, true, false, ◌&&◌, Option, none, some, List, [], ◌∷◌, ◌==◌, nat_eq, string_eq,
  ltb, is_some, if◌then◌else◌,
}
use anvil_events.Result.{Result, ok, err, integrity_error}
use anvil_events.Table.{select, insert}
use anvil_events.Storage.Schema.{
  Db, EventRow, ResourceRow, AttemptRow, ApplicationRow, AttemptState,
}

-- WHERE node = ? AND resource = ?
abbrev pub resource_at : String → String → ResourceRow → Bool
resource_at node resource r = r.node == node && r.resource == resource

abbrev pub application_at : String → String → ApplicationRow → Bool
application_at node resource a = a.node == node && a.resource == resource

abbrev pub attempt_at : String → String → AttemptRow → Bool
attempt_at node resource a = a.node == node && a.resource == resource

abbrev pub attempt_for : String → String → ℕ → AttemptRow → Bool
attempt_for node resource generation a =
    a.node == node && a.resource == resource && a.generation == generation

-- WHERE operation_id = ?
abbrev pub application_of : String → ApplicationRow → Bool
application_of id a = a.operation_id == id

abbrev pub attempt_of : String → AttemptRow → Bool
attempt_of id a = a.operation_id == id

abbrev pub is_prepared : AttemptState → Bool
is_prepared AttemptState.prepared = true
is_prepared _ = false

abbrev pub is_applied : AttemptState → Bool
is_applied AttemptState.applied = true
is_applied _ = false

-- state IN ('PREPARED', 'AWAITING_APPROVAL')
abbrev pub is_previewable : AttemptState → Bool
is_previewable AttemptState.prepared = true
is_previewable AttemptState.awaiting_approval = true
is_previewable _ = false

-- ORDER BY generation DESC LIMIT 1
abbrev pub newer : AttemptRow → Option AttemptRow → AttemptRow
newer a none = a
newer a (some b) = if ltb a.generation b.generation then b else a

unfoldable pub newest : (AttemptRow → Bool) → List AttemptRow → Option AttemptRow
newest p [] = none
newest p (a ∷ t) = let rest = newest p t in if p a then some (newer a rest) else rest

-- FOREIGN KEY(event_id) REFERENCES events(event_id)
abbrev pub has_event : Db → String → Bool
has_event db id = is_some (select (λ (e : EventRow). e.event_id == id) db.events)

-- The constraints of `reconcile_attempts` on a new row: the key, UNIQUE (event_id, node), the unique
-- index on (node, resource, generation), CHECK (generation > 0), and the foreign key.
unfoldable pub attempt_fits : Db → AttemptRow → Bool
attempt_fits db a =
    ltb 0 a.generation
    && has_event db a.event_id
    && (if is_some (select (attempt_of a.operation_id) db.attempts) then false else true)
    && (if is_some
          (select (λ (b : AttemptRow). b.event_id == a.event_id && b.node == a.node) db.attempts)
        then false
        else true)
    && (if is_some (select (attempt_for a.node a.resource a.generation) db.attempts)
        then false
        else true)

unfoldable pub insert_attempt : AttemptRow → Db → Result (Unit {0} × Db)
insert_attempt a db =
    if attempt_fits db a
    then ok (tt, record db { attempts = insert a db.attempts })
    else err (integrity_error "reconcile_attempts")

-- Those of `reconcile_applications`: the key, UNIQUE (node, resource), and the foreign key.
unfoldable pub application_fits : Db → ApplicationRow → Bool
application_fits db a =
    is_some (select (attempt_of a.operation_id) db.attempts)
    && (if is_some (select (application_of a.operation_id) db.applications) then false else true)
    && (if is_some (select (application_at a.node a.resource) db.applications) then false else true)

unfoldable pub insert_application : ApplicationRow → Db → Result (Unit {0} × Db)
insert_application a db =
    if application_fits db a
    then ok (tt, record db { applications = insert a db.applications })
    else err (integrity_error "reconcile_applications")
