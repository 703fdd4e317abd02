-- ===== src/Reconcile/State/Generations.antt =====
-- The generation of a resource over the methods of reconciliation/state.py.
use mathlib.Core.Path.{subst₂}
use anvil_events.Base.{
  ℕ, ◌<◌, String, Bool, true, false, Option, none, some, List, [], ◌∷◌, ◌≡◌, refl, ◌⊎◌, inl, inr,
  ◌==◌, string_eq, nat_eq, is_some, if◌then◌else◌, arith, beq_refl, eq_of_beq, Bool-cases,
  Option-cases, or_else-none, and-true,
}
use anvil_events.Result.{ok}
use anvil_events.Table.{select}
use anvil_events.Table.Laws.{select-update, select-update_other, select-insert}
use anvil_events.Json.{Codec}
use anvil_events.Storage.Schema.{Db, ResourceRow}
use anvil_events.Reconcile.Desired.{Desired}
use anvil_events.Reconcile.Contracts.{Preview}
use anvil_events.Reconcile.State.Rows.{resource_at, application_of}
use anvil_events.Reconcile.State.Calls.{
  Call, claims, reopens, begins, previews, completes, fails, after, after_all,
}
use anvil_events.Reconcile.State.Cases.{claim-keeps, complete-keeps}
use anvil_events.Reconcile.State.{
  abandon, claim, reopen_applied, begin_apply, set_preview, complete, fail, resource_fits,
  write_applied, upsert_resource, check_newer, is_replaced_by, overwrite, resource_row,
}

-- What a row of `reconcile_resources` may become.
abbrev pub Advances : Option ResourceRow → Option ResourceRow → Type 0
Advances none after = Unit
Advances (some r) none = ⊥
Advances (some r) (some s) =
    (r.generation < s.generation)
    ⊎ ((r.generation ≡ s.generation)
        × (r.revision ≡ s.revision)
        × (r.content_sha256 ≡ s.content_sha256))

abbrev pub applied_row : Db → String → String → Option ResourceRow
applied_row db node resource = select (resource_at node resource) db.resources

pub Advances-refl : (o : Option ResourceRow) → Advances o o
Advances-refl none = tt
Advances-refl (some r) = inr (refl, refl, refl)

pub Advances-trans : (a b c : Option ResourceRow) → Advances a b → Advances b c → Advances a c
Advances-trans none b c h k = tt
Advances-trans (some r) none c h k = absurd h
Advances-trans (some r) (some s) none h k = absurd k
Advances-trans (some r) (some s) (some t) h k = ground arith

claim-resources :
    (codec : Codec) (node : String) (d : Desired) (now : ℕ) (db : Db)
    → (claim codec node d now db).1.resources ≡ db.resources
unfolding abandon
claim-resources codec node d now db =
    claim-keeps (λ db'. db'.resources ≡ db.resources) codec d node now db refl (λ a e. refl)
      (λ db' h f l. h)

reopen-resources :
    (id : String) (d : Desired) (node : String) (now : ℕ) (db : Db)
    → (reopen_applied id d node now db).1.resources ≡ db.resources
unfolding reopen_applied
reopen-resources id d node now db = ground arith

begin-resources :
    (id : String) (now : ℕ) (db : Db) → (begin_apply id now db).1.resources ≡ db.resources
unfolding begin_apply
begin-resources id now db = ground arith

preview-resources :
    (codec : Codec) (id : String) (preview : Preview) (awaits : Bool) (db : Db)
    → (set_preview codec id preview awaits db).1.resources ≡ db.resources
unfolding set_preview
preview-resources codec id preview awaits db = refl

fail-resources :
    (id error : String) (b : Bool) (now : ℕ) (db : Db)
    → (fail id error b now db).1.resources ≡ db.resources
unfolding fail
fail-resources id error b now db = refl

-- The upsert leaves every other key alone.
at_other :
    (r s : ResourceRow) (node resource : String)
    → resource_at node resource r ≡ false
    → resource_at node resource s ≡ true
    → resource_at r.node r.resource s ≡ false
at_other r s node resource h k = elim (Bool-cases (resource_at r.node r.resource s)) [
  | inr e ↦ e
  | inl e ↦ absurd (
      ground (
        arith,
        h,
        k,
        e,
        eq_of_beq r.node node,
        eq_of_beq r.resource resource,
        eq_of_beq s.node node,
        eq_of_beq s.resource resource,
        eq_of_beq s.node r.node,
        eq_of_beq s.resource r.resource,
        beq_refl node,
        beq_refl resource,
      ))
]

at_other_and :
    (r s : ResourceRow) (node resource : String)
    → resource_at node resource r ≡ false
    → resource_at node resource s ≡ true
    → is_replaced_by r s ≡ false
at_other_and r s node resource h k = rw (at_other r s node resource h k)

upsert-other :
    (r : ResourceRow) (node resource : String) (t : List ResourceRow)
    → resource_at node resource r ≡ false
    → select (resource_at node resource) (upsert_resource r t)
      ≡ select (resource_at node resource) t
unfolding upsert_resource
upsert-other r node resource t h = elim (Option-cases (select (resource_at r.node r.resource) t)) [
  | inl e ↦
      rw (e, upsert_resource, select-insert (resource_at node resource) r t, h) (or_else-none _)
  | inr (c, e) ↦
      rw (e, upsert_resource)
        (select-update_other (resource_at node resource) (is_replaced_by r) (overwrite r)
          (λ s. refl) (λ s k. at_other_and r s node resource h k) t)
]

-- At its own key it writes the row, unless the row there is of a later generation.
overwrite-Advances :
    (d : Desired) (node : String) (now : ℕ) (c : ResourceRow)
    → check_newer d.payload (some c) ≡ ok tt
    → Advances (some c) (
        some (
          if is_replaced_by (resource_row d node now) c
          then overwrite (resource_row d node now) c
          else c))
unfolding check_newer resource_row
overwrite-Advances d node now c h = ground (
  arith,
  eq_of_beq d.payload.revision c.revision,
  eq_of_beq d.payload.content_sha256 c.content_sha256,
)

upsert-Advances :
    (d : Desired) (node : String) (now : ℕ) (t : List ResourceRow)
    → check_newer d.payload (select (resource_at node d.payload.resource) t) ≡ ok tt
    → Advances
        (select (resource_at node d.payload.resource) t)
        (select (resource_at node d.payload.resource) (upsert_resource (resource_row d node now) t))
unfolding upsert_resource resource_row
upsert-Advances d node now t h =
    elim (Option-cases (select (resource_at node d.payload.resource) t)) [
      | inl e ↦ rw e tt
      | inr (c, e) ↦
          rw
            (
              e,
              upsert_resource,
              select-update (resource_at node d.payload.resource)
                  (is_replaced_by (resource_row d node now)) (overwrite (resource_row d node now))
                  (λ s. refl) t,
              e,
            )
            (overwrite-Advances d node now c (rw e at h))
    ]

-- What a completion did, where it returned.
pub complete-inversion :
    (id : String) (d : Desired) (node : String) (now : ℕ) (db db' : Db)
    → complete id d node now db ≡ (ok tt, db')
    → (is_some (select (application_of id) db.applications) ≡ true)
      × (check_newer d.payload (select (resource_at node d.payload.resource) db.resources) ≡ ok tt)
      × (resource_fits d db ≡ true)
      × (db' ≡ write_applied id d node now db)
unfolding complete
complete-inversion id d node now db db' h = ground arith

written-Advances :
    (id : String) (d : Desired) (now : ℕ) (at node resource : String) (db : Db)
    → check_newer d.payload (applied_row db at d.payload.resource) ≡ ok tt
    → Advances
        (applied_row db node resource)
        (applied_row (write_applied id d at now db) node resource)
unfolding write_applied resource_row
written-Advances id d now at node resource db h =
    elim (Bool-cases (resource_at node resource (resource_row d at now))) [
      | inl e ↦
          subst₂
            (λ n r. Advances (applied_row db n r) (applied_row (write_applied id d at now db) n r))
            (eq_of_beq at node (and-true (at == node) _ e).0)
            (eq_of_beq d.payload.resource resource (and-true (at == node) _ e).1)
            (upsert-Advances d at now db.resources h)
      | inr e ↦
          rw (upsert-other (resource_row d at now) node resource db.resources e)
            (Advances-refl (applied_row db node resource))
    ]

complete-Advances :
    (id : String) (d : Desired) (now : ℕ) (at node resource : String) (db : Db)
    → Advances
        (applied_row db node resource)
        (applied_row (complete id d at now db).1 node resource)
complete-Advances id d now at node resource db =
    complete-keeps (λ db'. Advances (applied_row db node resource) (applied_row db' node resource))
      id d at now db (Advances-refl (applied_row db node resource))
      λ a n f. written-Advances id d now at node resource db n

after-Advances :
    (codec : Codec) (c : Call) (db : Db) (node resource : String)
    → Advances (applied_row db node resource) (applied_row (after codec c db) node resource)
unfolding after
after-Advances codec (claims n d now) db node resource =
    rw (claim-resources codec n d now db) (Advances-refl (applied_row db node resource))
after-Advances codec (reopens id d n now) db node resource =
    rw (reopen-resources id d n now db) (Advances-refl (applied_row db node resource))
after-Advances codec (begins id now) db node resource =
    rw (begin-resources id now db) (Advances-refl (applied_row db node resource))
after-Advances codec (previews id preview awaits) db node resource =
    rw (preview-resources codec id preview awaits db) (Advances-refl (applied_row db node resource))
after-Advances codec (completes id d n now) db node resource =
    complete-Advances id d now n node resource db
after-Advances codec (fails id error b now) db node resource =
    rw (fail-resources id error b now db) (Advances-refl (applied_row db node resource))

-- Whatever methods of `ReconcileState` are called, in whatever order and on whatever arguments, a
-- resource that has a row of `reconcile_resources` keeps one, and that row's generation does not fall;
-- where it stays the same, so do the revision and the digest.
pub after_all-Advances :
    (codec : Codec) (cs : List Call) (db : Db) (node resource : String)
    → Advances (applied_row db node resource) (applied_row (after_all codec cs db) node resource)
unfolding after_all
after_all-Advances codec [] db node resource = Advances-refl (applied_row db node resource)
after_all-Advances codec (c ∷ cs) db node resource =
    Advances-trans (applied_row db node resource) (applied_row (after codec c db) node resource) _
      (after-Advances codec c db node resource)
      (after_all-Advances codec cs (after codec c db) node resource)
