-- ===== src/Reconcile/Engine/Convergence.antt =====
-- What it means that the engine reports a desired state as applied.
use anvil_events.Base.{ℕ, String, Bool, true, false, ◌≡◌, ◌≢◌, refl, subst, ◌==◌, string_eq}
use anvil_events.Result.{Result, ok, err}
use anvil_events.Exec.{Exec}
use anvil_events.Exec.Keeps.{
  Post, Keeps, Returns, Returns-pure, Returns-raise, Returns-if, Returns-bind, Returns-then,
  Returns-any, Returns-attempt, Keeps-pure, Keeps-raise, keeps_rules,
}
use anvil_events.Storage.Schema.{Db}
use anvil_events.Reconcile.Desired.{Desired, operation_id}
use anvil_events.Reconcile.Contracts.{Artifact, Preview, Policy, allows}
use anvil_events.Reconcile.State
use anvil_events.Reconcile.State.{Claim}
use anvil_events.Reconcile.State.Applied.{
  IsCurrent, IsBacked, row_for, claim-IsCurrent, complete-IsCurrent,
}
use anvil_events.Reconcile.Engine.Types.{
  Adapter, Host, Effect, World, ResultState, ReconcileResult, on_db, on_host, on_adapter, lift,
}
use anvil_events.Reconcile.Engine.{
  fail_with, after_rollback, roll_back, finish, after_apply, apply_approved, await_approval,
  after_preview, after_resolution, reconcile, resolution, after_verify, check_drift, by_claim,
  process_locked, digest_of, is_value_error, failed_result,
}

-- A result "applied" comes with a row of the resource that has the desired generation and content.
abbrev pub IsConverged : {W : Type 0} → String → Desired → ReconcileResult → World W → Type 0
IsConverged node d r w = r.state ≡ ResultState.applied → IsCurrent d (row_for w.db node d)

failed-ne-applied : ResultState.failed ≢ ResultState.applied
failed-ne-applied h = cc

indeterminate-ne-applied : ResultState.indeterminate ≢ ResultState.applied
indeterminate-ne-applied h = cc

-- What a method leaves in the database, seen from the world.
on_db-Post :
    {W A : Type 0} (Q : A → Db → Type 0) (r : Result A × Db) (w : World W)
    → Post Q r
    → Post (λ a w'. Q a w'.db) (r.0, record w { db = r.1 })
on_db-Post Q (ok a, db) w h = h
on_db-Post Q (err e, db) w h = tt

module _ {W : Type 0} (host : Host W) (node : String) (policy : Policy) (d : Desired) (id : String)
    (now : ℕ) where
  abbrev Anything : World W → Type 0
  Anything w = Unit

  abbrev Converges : Exec (World W) ReconcileResult → Type 0
  Converges m = Returns Anything m (IsConverged node d)

  abbrev Current : World W → Type 0
  Current w = IsCurrent d (row_for w.db node d)

  fail_with-Converges :
      (s : ResultState) (b : Bool) (error public_error : String)
      → s ≢ ResultState.applied
      → Converges (fail_with host node policy d id s b error public_error now)
  unfolding fail_with failed_result
  fail_with-Converges s b error public_error ne =
      Returns-then _ _ λ a. Returns-pure _ (λ w p h. absurd (ne h))

  after_rollback-Converges :
      (error : String) (r : Result (Unit {0}))
      → Converges (after_rollback host node policy d id error r now)
  unfolding after_rollback
  after_rollback-Converges error (ok _) = fail_with-Converges _ _ _ _ failed-ne-applied
  after_rollback-Converges error (err e) = fail_with-Converges _ _ _ _ failed-ne-applied

  roll_back-Converges :
      (adapter : Adapter W) (error : String)
      → Converges (roll_back host node policy d id adapter error now)
  unfolding roll_back
  roll_back-Converges adapter error = Returns-then _ _ (after_rollback-Converges error)

  completed : Returns Anything (on_db {W = W} (State.complete id d node now)) (λ a. Current)
  unfolding on_db
  completed = record {
    at = λ w p.
        on_db-Post (λ _ db. IsCurrent d (row_for db node d)) (State.complete id d node now w.db) w
          (complete-IsCurrent id d node now w.db);
  }

  finish-Converges :
      (adapter : Adapter W) (r : Result Bool)
      → Converges (finish host node policy d id adapter r now)
  unfolding finish
  finish-Converges adapter (ok true) = Returns-bind _ _ completed λ a. Returns-pure _ (λ w c h. c)
  finish-Converges adapter (ok false) = roll_back-Converges adapter _
  finish-Converges adapter (err e) = roll_back-Converges adapter _

  after_apply-Converges :
      (adapter : Adapter W) (artifact : Artifact) (r : Result (Unit {0}))
      → Converges (after_apply host node policy d id adapter artifact r now)
  unfolding after_apply
  after_apply-Converges adapter artifact (err e) =
      fail_with-Converges _ _ _ _ indeterminate-ne-applied
  after_apply-Converges adapter artifact (ok _) = Returns-then _ _ (finish-Converges adapter)

  apply_approved-Converges :
      (adapter : Adapter W) (artifact : Artifact) (preview : Preview)
      → Converges (apply_approved host node policy d id adapter artifact preview now)
  unfolding apply_approved
  apply_approved-Converges adapter artifact preview =
      Returns-then _ _
        λ _. Returns-then _ _ λ _. Returns-then _ _ (after_apply-Converges adapter artifact)

  await_approval-Converges :
      (preview : Preview) → Converges (await_approval host node policy d id preview)
  unfolding await_approval
  await_approval-Converges preview = Returns-then _ _ λ a. Returns-pure _ (λ w p h. cc)

  after_preview-Converges :
      (adapter : Adapter W) (artifact : Artifact) (r : Result Preview)
      → Converges (after_preview host node policy d id adapter artifact r now)
  unfolding after_preview
  after_preview-Converges adapter artifact (err e) = fail_with-Converges _ _ _ _ failed-ne-applied
  after_preview-Converges adapter artifact (ok preview) =
      Returns-if (allows policy d preview) _ _
        (λ _. apply_approved-Converges adapter artifact preview)
        (λ _. await_approval-Converges preview)

  after_resolution-Converges :
      (r : Result (Adapter W × Artifact)) → Converges (after_resolution host node policy d id r now)
  unfolding after_resolution
  after_resolution-Converges (err e) =
      Returns-if (is_value_error host node policy e) _ _
        (λ _. fail_with-Converges _ _ _ _ failed-ne-applied) (λ _. Returns-raise e)
  after_resolution-Converges (ok (adapter, artifact)) =
      Returns-if (artifact.revision == d.payload.revision) _ _
        (λ _.
          Returns-if (digest_of host node policy artifact == d.payload.content_sha256) _ _
            (λ _. Returns-then _ _ (after_preview-Converges adapter artifact))
            (λ _. fail_with-Converges _ _ _ _ failed-ne-applied))
        (λ _. fail_with-Converges _ _ _ _ failed-ne-applied)

  reconcile-Converges : Converges (reconcile host node policy d id now)
  unfolding reconcile
  reconcile-Converges = Returns-then _ _ after_resolution-Converges

  after_verify-Converges :
      (r : Result Bool)
      → Returns Current (after_verify host node policy d id r now) (IsConverged node d)
  unfolding after_verify
  after_verify-Converges (ok true) = Returns-pure _ (λ w c h. c)
  after_verify-Converges (ok false) = Returns-then _ _ λ _. reconcile-Converges
  after_verify-Converges (err e) = Returns-then _ _ λ _. reconcile-Converges

  -- The adapters and the resolver do not write the database.
  on_host-Current : {A : Type 0} (f : Exec W A) → Keeps Current (on_host f)
  unfolding on_host
  on_host-Current f = record { at = λ w c. c }

  lift-Current : {A : Type 0} (r : Result A) → Keeps Current (lift r)
  lift-Current (ok a) = Keeps-pure a
  lift-Current (err e) = Keeps-raise e

  resolution-Current : Keeps Current (resolution host node policy d)
  unfolding resolution
  resolution-Current = search (keeps_rules, on_host-Current, lift-Current)

  verify-Current :
      (adapter : Adapter W) (artifact : Artifact)
      → Keeps Current (on_adapter (Effect.verifies d artifact) (adapter.verify d artifact))
  unfolding on_adapter
  verify-Current adapter artifact = record { at = λ w c. c }

  check_drift-Converges :
      (r : Result (Adapter W × Artifact))
      → Returns Current (check_drift host node policy d id r now) (IsConverged node d)
  unfolding check_drift
  check_drift-Converges (err e) =
      Returns-if (is_value_error host node policy e) _ _ (λ _. Returns-pure _ (λ w c h. c))
        (λ _. Returns-raise e)
  check_drift-Converges (ok (adapter, artifact)) =
      Returns-if (artifact.revision == d.payload.revision) _ _
        (λ _.
          Returns-if (digest_of host node policy artifact == d.payload.content_sha256) _ _
            (λ _.
              Returns-bind _ _ (Returns-attempt _ (verify-Current adapter artifact))
                after_verify-Converges)
            (λ _. Returns-pure _ (λ w c h. c)))
        (λ _. Returns-pure _ (λ w c h. c))

  -- What is known of a claim's answer.
  abbrev Answered : Claim → World W → Type 0
  Answered c w = c ≡ Claim.applied → Current w

  by_claim-Converges :
      (c : Claim) → Returns (Answered c) (by_claim host node policy d id c now) (IsConverged node d)
  unfolding by_claim
  by_claim-Converges Claim.applied =
      Returns-bind _ _ (record { at = λ w c. (Returns-attempt _ resolution-Current).at w (c refl) })
        check_drift-Converges
  by_claim-Converges Claim.prepared = Returns-any _ reconcile-Converges
  by_claim-Converges Claim.awaiting_approval = Returns-any _ reconcile-Converges
  by_claim-Converges Claim.superseded = Returns-pure _ (λ w c h. cc)
  by_claim-Converges Claim.failed = Returns-pure _ (λ w c h. cc)
  by_claim-Converges Claim.indeterminate = Returns-pure _ (λ w c h. cc)

claimed-Answered :
    {W : Type 0} (host : Host W) (node : String) (d : Desired) (now : ℕ)
    → Returns
        (λ (w : World W). IsBacked d node (operation_id host.codec node d.event_id) w.db)
        (on_db (State.claim host.codec node d now))
        (λ c w. c.0 ≡ Claim.applied → IsCurrent d (row_for w.db node d))
unfolding on_db
claimed-Answered host node d now = record {
  at = λ w backed.
      on_db-Post (λ c db. c.0 ≡ Claim.applied → IsCurrent d (row_for db node d))
        (State.claim host.codec node d now w.db) w
        (claim-IsCurrent host.codec node d now w.db backed);
}

process_locked-Converges :
    {W : Type 0} (host : Host W) (node : String) (policy : Policy) (d : Desired) (now : ℕ)
    → Returns
        (λ w. IsBacked d node (operation_id host.codec node d.event_id) w.db)
        (process_locked host node policy d now)
        (IsConverged node d)
unfolding process_locked
process_locked-Converges host node policy d now =
    Returns-bind _ _ (claimed-Answered host node d now)
      λ c. by_claim-Converges host node policy d c.1 now c.0

-- Where `_process_locked` returns a result "applied", whatever the adapters and the resolver do, the
-- database has a row of the resource with the generation, the revision, the digest and the adapter of
-- the desired state. This asks of the database before that an attempt of the event that is recorded as
-- applied is behind a row of that generation or a later one.
pub process_locked-IsConverged :
    {W : Type 0} (host : Host W) (node : String) (policy : Policy) (d : Desired) (now : ℕ)
    (w w' : World W) (r : ReconcileResult)
    → IsBacked d node (operation_id host.codec node d.event_id) w.db
    → process_locked host node policy d now w ≡ (ok r, w')
    → r.state ≡ ResultState.applied
    → IsCurrent d (row_for w'.db node d)
process_locked-IsConverged host node policy d now w w' r backed e =
    subst (Post (IsConverged node d)) e
      ((process_locked-Converges host node policy d now).at w backed)
