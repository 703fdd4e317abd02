-- ===== src/Reconcile/State/Applied.antt =====
-- What is in `reconcile_resources` when `claim` answers "applied", and after `complete`.
use mathlib.Core.Option
use anvil_events.Base.{
  ℕ, ◌≤◌, String, true, Option, none, some, ◌≡◌, refl, ◌∙◌, sym, subst, arith, ◌==◌, nat_eq,
  string_eq, ltb, if◌then◌else◌, Bool-cases, Option-cases, inl, inr, eq_of_beq, beq_refl,
}
use anvil_events.Result.{ok, err, commit}
use anvil_events.Exec.Keeps.{Post, Post-intro}
use anvil_events.Reconcile.State.Generations.{complete-inversion}
use anvil_events.Table.{select}
use anvil_events.Table.Laws.{select-update, select-insert, select_fits}
use anvil_events.Json.{Codec}
use anvil_events.Storage.Schema.{Db, ResourceRow, AttemptRow, AttemptState}
use anvil_events.Reconcile.Desired.{Desired, operation_id}
use anvil_events.Reconcile.State.Rows.{
  resource_at, application_at, attempt_at, attempt_of, attempt_for, attempt_fits, newest,
  is_applied,
}
use anvil_events.Reconcile.State.{
  applied, Claimed, abandon, attempt_row, open_attempt, claim_generation, claim_attempt,
  claim_owner, claim_resource, claim_in, claim, same_content, lower, check_newer, upsert_resource,
  resource_row, is_replaced_by, overwrite, give_up, complete, write_applied,
}

-- The row of the resource has the generation and the content of the desired state.
abbrev pub IsCurrent : Desired → Option ResourceRow → Type 0
IsCurrent d none = ⊥
IsCurrent d (some r) =
    (r.generation ≡ d.payload.generation)
    × (r.revision ≡ d.payload.revision)
    × (r.content_sha256 ≡ d.payload.content_sha256)
    × (r.adapter ≡ d.payload.adapter)

abbrev pub row_for : Db → String → Desired → Option ResourceRow
row_for db node d = select (resource_at node d.payload.resource) db.resources

-- The row is of that generation or a later one.
abbrev pub Reaches : Desired → Option ResourceRow → Type 0
Reaches d none = ⊥
Reaches d (some r) = d.payload.generation ≤ r.generation

-- An attempt that is recorded as applied is behind a row of its generation or a later one.
abbrev pub IsBacked : Desired → String → String → Db → Type 0
IsBacked d node id db =
    (a : AttemptRow)
    → select (attempt_of id) db.attempts ≡ some a
    → is_applied a.state ≡ true
    → Reaches d (row_for db node d)

abbrev ClaimPost : Desired → String → Claimed → Type 0
ClaimPost d node (ok ((c, id), db)) = c ≡ applied → IsCurrent d (row_for db node d)
ClaimPost d node (err e) = Unit

lower-applied : (s : AttemptState) → lower s ≡ applied → is_applied s ≡ true
lower-applied AttemptState.applied h = refl
lower-applied AttemptState.prepared h = cc
lower-applied _ h = cc

module _ (d : Desired) (node id : String) (now : ℕ) (db : Db) where
  open_attempt-ClaimPost : ClaimPost d node (open_attempt d node id now db)
  unfolding open_attempt
  open_attempt-ClaimPost = elim (Bool-cases (attempt_fits db (attempt_row d node id now))) [
    | inl e ↦ rw e (λ h. cc)
    | inr e ↦ rw e tt
  ]

  claim_generation-ClaimPost : ClaimPost d node (claim_generation d node id now db)
  unfolding claim_generation
  claim_generation-ClaimPost =
      elim (Option-cases (newest (attempt_at node d.payload.resource) db.attempts)) [
        | inl e ↦ rw (e, claim_generation) open_attempt-ClaimPost
        | inr (o, e) ↦ elim (Bool-cases (ltb d.payload.generation o.generation)) [
          | inl f ↦ rw (e, claim_generation, f) (λ h. cc)
          | inr f ↦ elim (Bool-cases (d.payload.generation == o.generation)) [
            | inl g ↦ rw (e, claim_generation, f, g) tt
            | inr g ↦ rw (e, claim_generation, f, g) open_attempt-ClaimPost
          ]
        ]
      ]

  claim_attempt-ClaimPost :
      IsBacked d node id db
      → ¬ Reaches d (row_for db node d)
      → ClaimPost d node (claim_attempt d node id now db)
  unfolding claim_attempt
  claim_attempt-ClaimPost backed ahead = elim (Option-cases (select (attempt_of id) db.attempts)) [
    | inl e ↦ rw (e, claim_attempt) claim_generation-ClaimPost
    | inr (a, e) ↦
        rw (e, claim_attempt) (λ h. absurd (ahead (backed a e (lower-applied a.state h))))
  ]

  claim_owner-ClaimPost :
      IsCurrent d (row_for db node d) → ClaimPost d node (claim_owner d node id db)
  unfolding claim_owner
  claim_owner-ClaimPost current =
      elim (Option-cases
        (select (attempt_for node d.payload.resource d.payload.generation) db.attempts)) [
          | inl e ↦ rw (e, claim_owner) (λ _. current)
          | inr (o, e) ↦ elim (Bool-cases (is_applied o.state)) [
            | inl f ↦ rw (e, claim_owner, f) (λ _. current)
            | inr f ↦ rw (e, claim_owner, f) (λ _. current)
          ]
        ]

  same_content-IsCurrent :
      (r : ResourceRow)
      → (d.payload.generation == r.generation) ≡ true
      → same_content d.payload r ≡ true
      → IsCurrent d (some r)
  unfolding same_content
  same_content-IsCurrent r g s = ground (
    arith,
    g,
    s,
    eq_of_beq d.payload.revision r.revision,
    eq_of_beq d.payload.content_sha256 r.content_sha256,
    eq_of_beq d.payload.adapter r.adapter,
  )

  claim_resource-ClaimPost :
      IsBacked d node id db → ClaimPost d node (claim_resource d node id now db)
  unfolding claim_resource
  claim_resource-ClaimPost backed = elim (Option-cases (row_for db node d)) [
    | inl e ↦ rw (e, claim_resource) (claim_attempt-ClaimPost backed (rw e (λ h. h)))
    | inr (r, e) ↦ elim (Bool-cases (ltb d.payload.generation r.generation)) [
      | inl f ↦ rw (e, claim_resource, f) (λ h. cc)
      | inr f ↦ elim (Bool-cases (d.payload.generation == r.generation)) [
        | inr g ↦
            rw (e, claim_resource, f, g) (claim_attempt-ClaimPost backed (rw e (λ h. ground arith)))
        | inl g ↦ elim (Bool-cases (same_content d.payload r)) [
          | inl s ↦
              rw (e, claim_resource, f, g, s)
                (claim_owner-ClaimPost (rw e (same_content-IsCurrent r g s)))
          | inr s ↦ rw (e, claim_resource, f, g, s) tt
        ]
      ]
    ]
  ]

abandon-IsBacked :
    (d : Desired) (node id other : String) (now : ℕ) (db : Db)
    → IsBacked d node id db
    → IsBacked d node id (abandon other now db)
unfolding abandon
abandon-IsBacked d node id other now db backed a e s =
    elim (Option-cases (select (attempt_of id) db.attempts)) [
      | inl f ↦ absurd (ground (arith, f, found))
      | inr (b, f) ↦ backed b f (ground (arith, f, found, s))
    ]
  where
    found :
        Option.map
          (λ (r : AttemptRow). if attempt_of other r then give_up now r else r)
          (select (attempt_of id) db.attempts)
        ≡ some a
    found =
        sym (select-update (attempt_of id) (attempt_of other) (give_up now) (λ r. refl) db.attempts)
        ∙ e

-- Where `claim` answers "applied", the row of the resource is that of the desired state.
pub claim-IsCurrent :
    (codec : Codec) (node : String) (d : Desired) (now : ℕ) (db : Db)
    → IsBacked d node (operation_id codec node d.event_id) db
    → Post (λ c db'. c.0 ≡ applied → IsCurrent d (row_for db' node d)) (claim codec node d now db)
unfolding claim
claim-IsCurrent codec node d now db backed = settle (claim_in codec node d now db) post
  where
    post : ClaimPost d node (claim_in codec node d now db)
    post = elim (Option-cases (select (application_at node d.payload.resource) db.applications)) [
      | inl e ↦ rw (e, claim_in) (claim_resource-ClaimPost d node _ now db backed)
      | inr (a, e) ↦ elim (Bool-cases (a.operation_id == operation_id codec node d.event_id)) [
        | inl f ↦ rw (e, claim_in, f) (λ h. cc)
        | inr f ↦
            rw (e, claim_in, f)
              (claim_resource-ClaimPost d node _ now (abandon a.operation_id now db)
                (abandon-IsBacked d node _ a.operation_id now db backed))
      ]
    ]

    settle :
        (r : Claimed)
        → ClaimPost d node r
        → Post (λ c db'. c.0 ≡ applied → IsCurrent d (row_for db' node d)) (commit db r)
    settle (ok ((c, id), db')) p = p
    settle (err e) p = tt

overwrite-IsCurrent :
    (d : Desired) (node : String) (now : ℕ) (c : ResourceRow)
    → resource_at node d.payload.resource c ≡ true
    → check_newer d.payload (some c) ≡ ok tt
    → IsCurrent d (
        some (
          if is_replaced_by (resource_row d node now) c
          then overwrite (resource_row d node now) c
          else c))
unfolding check_newer resource_row
overwrite-IsCurrent d node now c k h = ground (arith, k, h)

written-IsCurrent :
    (id : String) (d : Desired) (node : String) (now : ℕ) (db : Db)
    → check_newer d.payload (row_for db node d) ≡ ok tt
    → IsCurrent d (row_for (write_applied id d node now db) node d)
unfolding write_applied upsert_resource resource_row
written-IsCurrent id d node now db h = elim (Option-cases (row_for db node d)) [
  | inl e ↦
      rw
        (
          e,
          upsert_resource,
          select-insert (resource_at node d.payload.resource) (resource_row d node now)
              db.resources,
          e,
          beq_refl node,
          beq_refl d.payload.resource,
        )
        (refl, refl, refl, refl)
  | inr (c, e) ↦
      rw
        (
          e,
          upsert_resource,
          select-update (resource_at node d.payload.resource)
              (is_replaced_by (resource_row d node now)) (overwrite (resource_row d node now))
              (λ r. refl) db.resources,
          e,
        )
        (overwrite-IsCurrent d node now c
          (select_fits (resource_at node d.payload.resource) db.resources {r = c} e) (rw e at h))
]

-- Where `complete` returns, so it is too.
pub complete-IsCurrent :
    (id : String) (d : Desired) (node : String) (now : ℕ) (db : Db)
    → Post (λ _ db'. IsCurrent d (row_for db' node d)) (complete id d node now db)
complete-IsCurrent id d node now db = Post-intro (complete id d node now db) λ a db' e.
    let facts = complete-inversion id d node now db db' e in
    subst (λ x. IsCurrent d (row_for x node d)) (sym facts.3)
      (written-IsCurrent id d node now db facts.1)
