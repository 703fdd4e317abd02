-- ===== src/Reconcile/Engine.antt =====
-- reconciliation/engine.py over adapters and an artifact resolver, which are parameters. Each `try` of
-- the source is an `attempt`, and what follows it a function of what the attempt returned or raised.
pub mod Types
pub mod Kept
pub mod Approval
pub mod Events
pub mod Convergence
use Prim.Native.String.{◌++◌ as append}
use anvil_events.Base.{
  option_eq, ℕ, String, Bool, true, false, Option, none, some, List, [], ◌∷◌, ◌++◌, ◌==◌, string_eq,
  contains, if◌then◌else◌,
}
use anvil_events.Result.{Fault, Result, ok, err, value_error, runtime_error, key_error, message}
use anvil_events.Exec.{Exec, pure, raise, attempt, ◌>>=◌, ◌>>◌}
use anvil_events.Json.{Codec, Fields, get, as_text}
use anvil_events.Storage.Schema.{Db}
use anvil_events.Reconcile.Desired.{Payload, Desired, desired_of}
use anvil_events.Reconcile.Contracts.{Artifact, Preview, Policy, allows, Registry, get_adapter}
use anvil_events.Reconcile.State
use anvil_events.Reconcile.State.{Claim}
use Types.{
  Adapter, Host, Effect, World, ResultState, Outcome, ReconcileResult, on_db, on_host, on_adapter,
  lift,
}

-- The engine of one node under one policy.
module _ {W : Type 0} (host : Host W) (node : String) (policy : Policy) where
  unfoldable pub outcome_payload : Payload → String → Option String → Outcome
  outcome_payload p id error = record {
    resource = p.resource;
    generation = p.generation;
    revision = p.revision;
    content_sha256 = some p.content_sha256;
    adapter = p.adapter;
    operation_id = id;
    node = node;
    error = error;
  }

  unfoldable pub failed_result : ResultState → Desired → String → String → ReconcileResult
  unfolding outcome_payload
  failed_result state d id error = record {
    state = state;
    operation_id = id;
    outcome_kind = some "reconcile.failed";
    payload = some (outcome_payload d.payload id (some error));
  }

  unfoldable pub applied_result : Desired → String → ReconcileResult
  unfolding outcome_payload
  applied_result d id = record {
    state = ResultState.applied;
    operation_id = id;
    outcome_kind = some "reconcile.applied";
    payload = some (outcome_payload d.payload id none);
  }

  -- self.adapters.get(...), then self.artifacts.resolve(...)
  unfoldable pub resolution : Desired → Exec (World W) (Adapter W × Artifact)
  unfolding on_host
  resolution d = do
    adapter ← lift (get_adapter d.payload.adapter host.adapters)
    artifact ← on_host (host.resolve d.payload.artifact d.payload.revision)
    pure (adapter, artifact)

  abbrev pub is_value_error : Fault → Bool
  is_value_error (value_error s) = true
  is_value_error _ = false

  abbrev pub digest_of : Artifact → String
  digest_of a = host.codec.sha256_bytes a.data_bytes

  -- self.state.fail(...), then the result
  unfoldable pub fail_with :
      Desired → String → ResultState → Bool → String → String → ℕ → Exec (World W) ReconcileResult
  unfolding on_db failed_result
  fail_with d id state is_indeterminate error public_error now = do
    on_db (State.fail id error is_indeterminate now)
    pure (failed_result state d id public_error)

  -- What follows `verify` after an apply: completion, or rollback and failure.
  unfoldable pub after_rollback :
      Desired → String → String → Result (Unit {0}) → ℕ → Exec (World W) ReconcileResult
  unfolding fail_with
  after_rollback d id verify_error (ok _) now =
      fail_with d id ResultState.failed false verify_error "adapter verification failed" now
  after_rollback d id verify_error (err e) now =
      fail_with d id ResultState.failed false
        (append "verification failed; rollback failed: " (message e))
        "adapter verification and rollback failed" now

  unfoldable pub roll_back :
      Desired → String → Adapter W → String → ℕ → Exec (World W) ReconcileResult
  unfolding on_adapter after_rollback
  roll_back d id adapter verify_error now = do
    rolled ← attempt (on_adapter (Effect.rolls_back d) (adapter.rollback d))
    after_rollback d id verify_error rolled now

  unfoldable pub finish :
      Desired → String → Adapter W → Result Bool → ℕ → Exec (World W) ReconcileResult
  unfolding roll_back on_db applied_result
  finish d id adapter (ok true) now = do
    on_db (State.complete id d node now)
    pure (applied_result d id)
  finish d id adapter (ok false) now =
      roll_back d id adapter "adapter verification returned false" now
  finish d id adapter (err e) now = roll_back d id adapter (message e) now

  unfoldable pub after_apply :
      Desired
      → String
      → Adapter W
      → Artifact
      → Result (Unit {0})
      → ℕ
      → Exec (World W) ReconcileResult
  unfolding finish on_adapter fail_with
  after_apply d id adapter artifact (err e) now =
      fail_with d id ResultState.indeterminate true (message e)
        "adapter apply result is indeterminate" now
  after_apply d id adapter artifact (ok _) now = do
    verified ← attempt (on_adapter (Effect.verifies d artifact) (adapter.verify d artifact))
    finish d id adapter verified now

  -- The approved path: the preview is stored, the marker is written, and the adapter applies.
  unfoldable pub apply_approved :
      Desired → String → Adapter W → Artifact → Preview → ℕ → Exec (World W) ReconcileResult
  unfolding after_apply on_db on_adapter
  apply_approved d id adapter artifact preview now = do
    on_db (State.set_preview host.codec id preview false)
    on_db (State.begin_apply id now)
    done ← attempt (on_adapter (Effect.applies d artifact) (adapter.apply d artifact))
    after_apply d id adapter artifact done now

  unfoldable pub await_approval : Desired → String → Preview → Exec (World W) ReconcileResult
  unfolding on_db outcome_payload
  await_approval d id preview = do
    on_db (State.set_preview host.codec id preview true)
    pure (record {
      state = ResultState.awaiting_approval;
      operation_id = id;
      outcome_kind = some "reconcile.awaiting_approval";
      payload = some (outcome_payload d.payload id none);
    })

  unfoldable pub after_preview :
      Desired → String → Adapter W → Artifact → Result Preview → ℕ → Exec (World W) ReconcileResult
  unfolding apply_approved await_approval fail_with
  after_preview d id adapter artifact (err e) now =
      fail_with d id ResultState.failed false (message e) "adapter preview failed" now
  after_preview d id adapter artifact (ok preview) now =
      if allows policy d preview
      then apply_approved d id adapter artifact preview now
      else await_approval d id preview

  unfoldable pub after_resolution :
      Desired → String → Result (Adapter W × Artifact) → ℕ → Exec (World W) ReconcileResult
  unfolding after_preview on_adapter fail_with
  after_resolution d id (err e) now =
      if is_value_error e
      then fail_with d id ResultState.failed false (message e)
          "artifact or adapter resolution failed" now
      else raise e
  after_resolution d id (ok (adapter, artifact)) now =
      if artifact.revision == d.payload.revision
      then (if digest_of artifact == d.payload.content_sha256
          then (do
            preview ← attempt (on_adapter (Effect.previews d artifact) (adapter.preview d artifact))
            after_preview d id adapter artifact preview now)
          else fail_with d id ResultState.failed false "artifact digest mismatch"
              "artifact digest mismatch" now)
      else fail_with d id ResultState.failed false "artifact revision mismatch"
          "artifact revision mismatch" now

  unfoldable pub reconcile : Desired → String → ℕ → Exec (World W) ReconcileResult
  unfolding resolution after_resolution
  reconcile d id now = do found ← attempt (resolution d); after_resolution d id found now

  -- An applied generation: its adapter verifies it, and drift reopens the attempt.
  unfoldable pub after_verify : Desired → String → Result Bool → ℕ → Exec (World W) ReconcileResult
  unfolding reconcile applied_result on_db
  after_verify d id (ok true) now = pure (applied_result d id)
  after_verify d id _ now = do on_db (State.reopen_applied id d node now); reconcile d id now

  unfoldable pub check_drift :
      Desired → String → Result (Adapter W × Artifact) → ℕ → Exec (World W) ReconcileResult
  unfolding after_verify failed_result on_adapter
  check_drift d id (err e) now =
      if is_value_error e
      then pure (failed_result ResultState.failed d id "artifact or adapter resolution failed")
      else raise e
  check_drift d id (ok (adapter, artifact)) now =
      if artifact.revision == d.payload.revision
      then (if digest_of artifact == d.payload.content_sha256
          then (do
            verified ← attempt (on_adapter (Effect.verifies d artifact) (adapter.verify d artifact))
            after_verify d id verified now)
          else pure (failed_result ResultState.failed d id "artifact digest mismatch"))
      else pure (failed_result ResultState.failed d id "artifact revision mismatch")

  unfoldable pub by_claim : Desired → String → Claim → ℕ → Exec (World W) ReconcileResult
  unfolding check_drift resolution reconcile failed_result
  by_claim d id Claim.superseded now = pure (record {
    state = ResultState.superseded;
    operation_id = id;
    outcome_kind = none;
    payload = none;
  })
  by_claim d id Claim.applied now = do found ← attempt (resolution d); check_drift d id found now
  by_claim d id Claim.failed now =
      pure (failed_result ResultState.failed d id "reconciliation is failed")
  by_claim d id Claim.indeterminate now =
      pure (failed_result ResultState.indeterminate d id "reconciliation is indeterminate")
  by_claim d id _ now = reconcile d id now

  unfoldable pub process_locked : Desired → ℕ → Exec (World W) ReconcileResult
  process_locked d now = do
    claimed ← on_db (State.claim host.codec node d now)
    by_claim d claimed.1 claimed.0 now

  -- targets is not None and self.node not in targets
  abbrev pub is_target : Option (List String) → Bool
  is_target none = true
  is_target (some targets) = contains node targets

  unfoldable pub process_desired : Desired → ℕ → Exec (World W) ReconcileResult
  process_desired d now =
      if is_target d.payload.targets
      then (do on_host (host.resource_lock node d.payload.resource); process_locked d now)
      else pure (record {
        state = ResultState.not_targeted;
        operation_id = "";
        outcome_kind = none;
        payload = none;
      })

  abbrev pub or_key_error : Option Desired → Exec (World W) Desired
  or_key_error none = raise (key_error "payload")
  or_key_error (some d) = pure d

  abbrev pub check_kind : Fields → Exec (World W) (Unit {0})
  check_kind event =
      if as_text (get "kind" event) == some "state.desired"
      then pure tt
      else raise (value_error "reconciler accepts only state.desired events")

  unfoldable pub process : Fields → ℕ → Exec (World W) ReconcileResult
  process event now = do
    lift (host.validate_event_v2 event)
    check_kind event
    d ← or_key_error (desired_of event)
    process_desired d now
