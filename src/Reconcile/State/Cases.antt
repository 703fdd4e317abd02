-- ===== src/Reconcile/State/Cases.antt =====
-- The ways in which a method of `ReconcileState` may leave the database, each with what it has tested.
use anvil_events.Base.{
  ℕ, ◌<◌, String, true, some, ◌≡◌, ◌==◌, string_eq, nat_eq, ltb, arith, Bool-cases, Option-cases,
  inl, inr, is_some,
}
use anvil_events.Result.{ok, transaction-Writes, Writes, Result-cases}
use anvil_events.Table.{select, update, insert, count}
use anvil_events.Json.{Codec}
use anvil_events.Storage.Schema.{Db, ResourceRow, AttemptRow, ApplicationRow}
use anvil_events.Reconcile.Desired.{Desired, operation_id}
use anvil_events.Reconcile.State.Rows.{
  resource_at, application_at, attempt_at, attempt_of, attempt_for, attempt_fits, newest,
  is_applied, application_of, application_fits, insert_application,
}
use anvil_events.Reconcile.State.{
  abandon, attempt_row, open_attempt, claim_generation, claim_attempt, claim_owner, claim_resource,
  claim_in, claim, same_content, complete_in, complete, check_newer, resource_fits, write_applied,
  reopen, reopen_applied_in, reopen_applied, is_current, prepared_of, application_row,
  begin_apply_in, begin_apply,
}

abbrev pub opened : Desired → String → String → ℕ → Db → Db
opened d node id now db = record db { attempts = insert (attempt_row d node id now) db.attempts }

-- The attempts on a resource are all of earlier generations.
abbrev pub IsLater : Desired → String → Db → Type 0
IsLater d node db =
    (o : AttemptRow)
    → newest (attempt_at node d.payload.resource) db.attempts ≡ some o
    → o.generation < d.payload.generation

module _ {κ} (P : Db → Type κ) (d : Desired) (node id : String) (now : ℕ) (db : Db) (kept : P db)
    (fresh : attempt_fits db (attempt_row d node id now) ≡ true
      → IsLater d node db
      → P (opened d node id now db)) where
  open_attempt-Writes : IsLater d node db → Writes P (open_attempt d node id now db)
  unfolding open_attempt
  open_attempt-Writes later = elim (Bool-cases (attempt_fits db (attempt_row d node id now))) [
    | inl e ↦ rw e (fresh e later)
    | inr e ↦ rw e tt
  ]

  claim_generation-Writes : Writes P (claim_generation d node id now db)
  unfolding claim_generation
  claim_generation-Writes =
      elim (Option-cases (newest (attempt_at node d.payload.resource) db.attempts)) [
        | inl e ↦ rw (e, claim_generation) (open_attempt-Writes (λ o h. cc))
        | inr (o, e) ↦ elim (Bool-cases (ltb d.payload.generation o.generation)) [
          | inl f ↦ rw (e, claim_generation, f) kept
          | inr f ↦ elim (Bool-cases (d.payload.generation == o.generation)) [
            | inl g ↦ rw (e, claim_generation, f, g) tt
            | inr g ↦ rw (e, claim_generation, f, g) (open_attempt-Writes (λ o' h. ground arith))
          ]
        ]
      ]

  claim_attempt-Writes : Writes P (claim_attempt d node id now db)
  unfolding claim_attempt
  claim_attempt-Writes = elim (Option-cases (select (attempt_of id) db.attempts)) [
    | inl e ↦ rw (e, claim_attempt) claim_generation-Writes
    | inr (a, e) ↦ rw (e, claim_attempt) kept
  ]

  claim_owner-Writes : Writes P (claim_owner d node id db)
  unfolding claim_owner
  claim_owner-Writes =
      elim (Option-cases
        (select (attempt_for node d.payload.resource d.payload.generation) db.attempts)) [
          | inl e ↦ rw (e, claim_owner) kept
          | inr (o, e) ↦ elim (Bool-cases (is_applied o.state)) [
            | inl f ↦ rw (e, claim_owner, f) kept
            | inr f ↦ rw (e, claim_owner, f) kept
          ]
        ]

  claim_resource-Writes : Writes P (claim_resource d node id now db)
  unfolding claim_resource
  claim_resource-Writes =
      elim (Option-cases (select (resource_at node d.payload.resource) db.resources)) [
        | inl e ↦ rw (e, claim_resource) claim_attempt-Writes
        | inr (r, e) ↦ elim (Bool-cases (ltb d.payload.generation r.generation)) [
          | inl f ↦ rw (e, claim_resource, f) kept
          | inr f ↦ elim (Bool-cases (d.payload.generation == r.generation)) [
            | inr g ↦ rw (e, claim_resource, f, g) claim_attempt-Writes
            | inl g ↦ elim (Bool-cases (same_content d.payload r)) [
              | inl s ↦ rw (e, claim_resource, f, g, s) claim_owner-Writes
              | inr s ↦ rw (e, claim_resource, f, g, s) tt
            ]
          ]
        ]
      ]

-- `claim` leaves the database as it was, marks an abandoned attempt on the resource, opens an attempt
-- of a later generation, or does both.
module _ {κ} (P : Db → Type κ) (codec : Codec) (d : Desired) (node : String) (now : ℕ) (db : Db)
    (kept : P db)
    (left : (a : ApplicationRow)
      → select (application_at node d.payload.resource) db.applications ≡ some a
      → P (abandon a.operation_id now db))
    (fresh : (db' : Db)
      → P db'
      → attempt_fits db' (attempt_row d node (operation_id codec node d.event_id) now) ≡ true
      → IsLater d node db'
      → P (opened d node (operation_id codec node d.event_id) now db')) where
  claim_in-Writes : Writes P (claim_in codec node d now db)
  unfolding claim_in
  claim_in-Writes =
      elim (Option-cases (select (application_at node d.payload.resource) db.applications)) [
        | inl e ↦ rw (e, claim_in) (claim_resource-Writes P d node _ now db kept (fresh db kept))
        | inr (a, e) ↦ elim (Bool-cases (a.operation_id == operation_id codec node d.event_id)) [
          | inl f ↦ rw (e, claim_in, f) (left a e)
          | inr f ↦
              rw (e, claim_in, f)
                (claim_resource-Writes P d node _ now (abandon a.operation_id now db) (left a e)
                  (fresh _ (left a e)))
        ]
      ]

  pub claim-keeps : P (claim codec node d now db).1
  unfolding claim
  claim-keeps = transaction-Writes P (claim_in codec node d now) db kept claim_in-Writes

module _ {κ} (P : Db → Type κ) (id : String) (d : Desired) (node : String) (now : ℕ) (db : Db)
    (kept : P db) where
  module _
      (written : is_some (select (application_of id) db.applications) ≡ true
        → check_newer d.payload (select (resource_at node d.payload.resource) db.resources) ≡ ok tt
        → resource_fits d db ≡ true
        → P (write_applied id d node now db)) where
    complete_in-Writes : Writes P (complete_in id d node now db)
    unfolding complete_in
    complete_in-Writes = elim (Option-cases (select (application_of id) db.applications)) [
      | inl e ↦ rw (e, complete_in) tt
      | inr (a, e) ↦
          elim (Result-cases
            (check_newer d.payload (select (resource_at node d.payload.resource) db.resources))) [
              | inr (x, f) ↦ rw (e, complete_in, f) tt
              | inl (done, f) ↦ elim (Bool-cases (resource_fits d db)) [
                | inl g ↦ rw (e, complete_in, f, g) (written (rw e) f g)
                | inr g ↦ rw (e, complete_in, f, g) tt
              ]
            ]
    ]

    pub complete-keeps : P (complete id d node now db).1
    unfolding complete
    complete-keeps = transaction-Writes P (complete_in id d node now) db kept complete_in-Writes

  module _
      (reopened : (r : ResourceRow)
        → select (resource_at node d.payload.resource) db.resources ≡ some r
        → is_current d.payload r ≡ true
        → P (record db { attempts = update (attempt_of id) (reopen now) db.attempts })) where
    reopen_in-Writes : Writes P (reopen_applied_in id d node now db)
    unfolding reopen_applied_in
    reopen_in-Writes =
        elim (Option-cases (select (resource_at node d.payload.resource) db.resources)) [
          | inl e ↦ rw (e, reopen_applied_in) tt
          | inr (r, e) ↦ elim (Bool-cases (is_current d.payload r)) [
            | inr f ↦ rw (e, reopen_applied_in, f) tt
            | inl f ↦ elim (Bool-cases (count (attempt_of id) db.attempts == 0)) [
              | inl g ↦ rw (e, reopen_applied_in, f, g) tt
              | inr g ↦ rw (e, reopen_applied_in, f, g) (reopened r e f)
            ]
          ]
        ]

    pub reopen-keeps : P (reopen_applied id d node now db).1
    unfolding reopen_applied
    reopen-keeps = transaction-Writes P (reopen_applied_in id d node now) db kept reopen_in-Writes

module _ {κ} (P : Db → Type κ) (id : String) (now : ℕ) (db : Db) (kept : P db)
    (begun : (a : AttemptRow)
      → select (prepared_of id) db.attempts ≡ some a
      → application_fits db (application_row id a now) ≡ true
      → P (record db { applications = insert (application_row id a now) db.applications })) where
  begin_in-Writes : Writes P (begin_apply_in id now db)
  unfolding begin_apply_in insert_application
  begin_in-Writes = elim (Option-cases (select (prepared_of id) db.attempts)) [
    | inl e ↦ rw (e, begin_apply_in) tt
    | inr (a, e) ↦ elim (Bool-cases (application_fits db (application_row id a now))) [
      | inl f ↦ rw (e, begin_apply_in, f) (begun a e f)
      | inr f ↦ rw (e, begin_apply_in, f) tt
    ]
  ]

  pub begin-keeps : P (begin_apply id now db).1
  unfolding begin_apply
  begin-keeps = transaction-Writes P (begin_apply_in id now) db kept begin_in-Writes
