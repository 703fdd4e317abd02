-- ===== src/Reconcile/Engine/Kept.antt =====
-- What `process` keeps: whatever each method of `ReconcileState`, each act of the host and each justified
-- call of an adapter keep.
use anvil_events.Base.{
  ℕ, String, Bool, true, false, Option, none, some, ◌≡◌, ◌==◌, string_eq, eq_of_beq,
}
use anvil_events.Result.{Result, ok, err}
use anvil_events.Exec.{Exec}
use anvil_events.Exec.Keeps.{Keeps, Keeps-raise, Keeps-pure, Keeps-if, Keeps-bind, keeps_rules}
use anvil_events.Json.{Fields}
use anvil_events.Reconcile.Desired.{Desired}
use anvil_events.Reconcile.Contracts.{Artifact, Preview, Policy, allows}
use anvil_events.Reconcile.State
use anvil_events.Reconcile.State.{Claim}
use anvil_events.Reconcile.Engine.Types.{
  Adapter, Host, Effect, World, ResultState, on_db, on_host, on_adapter, lift,
}
use anvil_events.Reconcile.Engine.{
  fail_with, after_rollback, roll_back, finish, after_apply, apply_approved, await_approval,
  after_preview, after_resolution, reconcile, resolution, after_verify, check_drift, by_claim,
  process_locked, process_desired, process, digest_of, or_key_error, check_kind,
}

-- An artifact is applied only if it is the revision and has the digest of the desired state, and the
-- policy allows that state.
abbrev pub IsJustified : {W : Type 0} → Host W → Policy → Effect → Type 0
IsJustified host policy (Effect.applies d artifact) =
    (artifact.revision ≡ d.payload.revision)
    × (host.codec.sha256_bytes artifact.data_bytes ≡ d.payload.content_sha256)
    × ((preview : Preview) × (allows policy d preview ≡ true))
IsJustified host policy _ = Unit

module _ {W : Type 0} (host : Host W) (node : String) (policy : Policy) where
  -- A property of the world that each step of the engine keeps.
  pub record IsKept (P : World W → Type 0) : Type 1 where
    pub by_claim : (d : Desired) (now : ℕ) → Keeps P (on_db (State.claim host.codec node d now))
    pub by_reopen :
        (id : String) (d : Desired) (now : ℕ) → Keeps P (on_db (State.reopen_applied id d node now))
    pub by_preview :
        (id : String) (preview : Preview) (awaits : Bool)
        → Keeps P (on_db (State.set_preview host.codec id preview awaits))
    pub by_begin : (id : String) (now : ℕ) → Keeps P (on_db (State.begin_apply id now))
    pub by_complete :
        (id : String) (d : Desired) (now : ℕ) → Keeps P (on_db (State.complete id d node now))
    pub by_fail :
        (id error : String) (b : Bool) (now : ℕ) → Keeps P (on_db (State.fail id error b now))
    pub by_host : {A : Type 0} (f : Exec W A) → Keeps P (on_host f)
    pub by_adapter :
        {A : Type 0} (e : Effect) (f : Exec W A)
        → IsJustified host policy e
        → Keeps P (on_adapter e f)

module _ {W : Type 0} (host : Host W) (node : String) (policy : Policy) (P : World W → Type 0)
    (k : IsKept host node policy P) where
  lift-keeps : {A : Type 0} (r : Result A) → Keeps P (lift r)
  lift-keeps (ok a) = Keeps-pure a
  lift-keeps (err e) = Keeps-raise e

  claim-keeps : (d : Desired) (now : ℕ) → Keeps P (on_db (State.claim host.codec node d now))
  claim-keeps = k.by_claim

  reopen-keeps :
      (id : String) (d : Desired) (now : ℕ) → Keeps P (on_db (State.reopen_applied id d node now))
  reopen-keeps = k.by_reopen

  preview-keeps :
      (id : String) (preview : Preview) (awaits : Bool)
      → Keeps P (on_db (State.set_preview host.codec id preview awaits))
  preview-keeps = k.by_preview

  begin-keeps : (id : String) (now : ℕ) → Keeps P (on_db (State.begin_apply id now))
  begin-keeps = k.by_begin

  complete-keeps :
      (id : String) (d : Desired) (now : ℕ) → Keeps P (on_db (State.complete id d node now))
  complete-keeps = k.by_complete

  fail-keeps :
      (id error : String) (b : Bool) (now : ℕ) → Keeps P (on_db (State.fail id error b now))
  fail-keeps = k.by_fail

  host-keeps : {A : Type 0} (f : Exec W A) → Keeps P (on_host f)
  host-keeps = k.by_host

  adapter-keeps :
      {A : Type 0} (e : Effect) (f : Exec W A)
      → IsJustified host policy e
      → Keeps P (on_adapter e f)
  adapter-keeps = k.by_adapter

  ruleset kept_rules = (
    keeps_rules, claim-keeps, reopen-keeps, preview-keeps, begin-keeps, complete-keeps, fail-keeps,
    host-keeps, adapter-keeps, lift-keeps,
  )

  fail_with-keeps :
      (d : Desired) (id : String) (s : ResultState) (b : Bool) (error public_error : String)
      (now : ℕ)
      → Keeps P (fail_with host node policy d id s b error public_error now)
  unfolding fail_with
  fail_with-keeps d id s b error public_error now = search kept_rules

  after_rollback-keeps :
      (d : Desired) (id error : String) (r : Result (Unit {0})) (now : ℕ)
      → Keeps P (after_rollback host node policy d id error r now)
  unfolding after_rollback
  after_rollback-keeps d id error (ok _) now = fail_with-keeps d id _ _ _ _ now
  after_rollback-keeps d id error (err e) now = fail_with-keeps d id _ _ _ _ now

  roll_back-keeps :
      (d : Desired) (id : String) (adapter : Adapter W) (error : String) (now : ℕ)
      → Keeps P (roll_back host node policy d id adapter error now)
  unfolding roll_back
  roll_back-keeps d id adapter error now = search (kept_rules, after_rollback-keeps, tt)

  finish-keeps :
      (d : Desired) (id : String) (adapter : Adapter W) (r : Result Bool) (now : ℕ)
      → Keeps P (finish host node policy d id adapter r now)
  unfolding finish
  finish-keeps d id adapter (ok true) now = search kept_rules
  finish-keeps d id adapter (ok false) now = roll_back-keeps d id adapter _ now
  finish-keeps d id adapter (err e) now = roll_back-keeps d id adapter _ now

  after_apply-keeps :
      (d : Desired) (id : String) (adapter : Adapter W) (artifact : Artifact)
      (r : Result (Unit {0})) (now : ℕ)
      → Keeps P (after_apply host node policy d id adapter artifact r now)
  unfolding after_apply
  after_apply-keeps d id adapter artifact (err e) now = fail_with-keeps d id _ _ _ _ now
  after_apply-keeps d id adapter artifact (ok _) now = search (kept_rules, finish-keeps, tt)

  apply_approved-keeps :
      (d : Desired) (id : String) (adapter : Adapter W) (artifact : Artifact) (preview : Preview)
      (now : ℕ)
      → IsJustified host policy (Effect.applies d artifact)
      → Keeps P (apply_approved host node policy d id adapter artifact preview now)
  unfolding apply_approved
  apply_approved-keeps d id adapter artifact preview now j = search (kept_rules, after_apply-keeps)

  await_approval-keeps :
      (d : Desired) (id : String) (preview : Preview)
      → Keeps P (await_approval host node policy d id preview)
  unfolding await_approval
  await_approval-keeps d id preview = search kept_rules

  after_preview-keeps :
      (d : Desired) (id : String) (adapter : Adapter W) (artifact : Artifact) (r : Result Preview)
      (now : ℕ)
      → artifact.revision ≡ d.payload.revision
      → host.codec.sha256_bytes artifact.data_bytes ≡ d.payload.content_sha256
      → Keeps P (after_preview host node policy d id adapter artifact r now)
  unfolding after_preview
  after_preview-keeps d id adapter artifact (err e) now p q = fail_with-keeps d id _ _ _ _ now
  after_preview-keeps d id adapter artifact (ok preview) now p q =
      Keeps-if (allows policy d preview) _ _
        (λ a. apply_approved-keeps d id adapter artifact preview now (p, q, (preview, a)))
        (λ _. await_approval-keeps d id preview)

  after_resolution-keeps :
      (d : Desired) (id : String) (r : Result (Adapter W × Artifact)) (now : ℕ)
      → Keeps P (after_resolution host node policy d id r now)
  unfolding after_resolution
  after_resolution-keeps d id (err e) now = search (kept_rules, fail_with-keeps)
  after_resolution-keeps d id (ok (adapter, artifact)) now =
      Keeps-if (artifact.revision == d.payload.revision) _ _
        (λ p.
          Keeps-if (digest_of host node policy artifact == d.payload.content_sha256) _ _
            (λ q. Keeps-bind _ _ (search (kept_rules, tt)) λ r.
              after_preview-keeps d id adapter artifact r now (eq_of_beq _ _ p) (eq_of_beq _ _ q))
            (λ _. fail_with-keeps d id _ _ _ _ now))
        (λ _. fail_with-keeps d id _ _ _ _ now)

  resolution-keeps : (d : Desired) → Keeps P (resolution host node policy d)
  unfolding resolution
  resolution-keeps d = search kept_rules

  reconcile-keeps :
      (d : Desired) (id : String) (now : ℕ) → Keeps P (reconcile host node policy d id now)
  unfolding reconcile
  reconcile-keeps d id now = search (kept_rules, resolution-keeps, after_resolution-keeps)

  after_verify-keeps :
      (d : Desired) (id : String) (r : Result Bool) (now : ℕ)
      → Keeps P (after_verify host node policy d id r now)
  unfolding after_verify
  after_verify-keeps d id (ok true) now = search kept_rules
  after_verify-keeps d id (ok false) now = search (kept_rules, reconcile-keeps)
  after_verify-keeps d id (err e) now = search (kept_rules, reconcile-keeps)

  check_drift-keeps :
      (d : Desired) (id : String) (r : Result (Adapter W × Artifact)) (now : ℕ)
      → Keeps P (check_drift host node policy d id r now)
  unfolding check_drift
  check_drift-keeps d id (err e) now = search kept_rules
  check_drift-keeps d id (ok (adapter, artifact)) now =
      search (kept_rules, after_verify-keeps, tt) depth 9

  by_claim-keeps :
      (d : Desired) (id : String) (c : Claim) (now : ℕ)
      → Keeps P (by_claim host node policy d id c now)
  unfolding by_claim
  by_claim-keeps d id Claim.applied now = search (kept_rules, resolution-keeps, check_drift-keeps)
  by_claim-keeps d id Claim.prepared now = reconcile-keeps d id now
  by_claim-keeps d id Claim.awaiting_approval now = reconcile-keeps d id now
  by_claim-keeps d id _ now = search kept_rules

  process_locked-keeps : (d : Desired) (now : ℕ) → Keeps P (process_locked host node policy d now)
  unfolding process_locked
  process_locked-keeps d now = search (kept_rules, by_claim-keeps)

  process_desired-keeps : (d : Desired) (now : ℕ) → Keeps P (process_desired host node policy d now)
  unfolding process_desired
  process_desired-keeps d now = search (kept_rules, process_locked-keeps)

  or_key_error-keeps : (o : Option Desired) → Keeps P (or_key_error host node policy o)
  or_key_error-keeps none = Keeps-raise _
  or_key_error-keeps (some d) = Keeps-pure d

  check_kind-keeps : (event : Fields) → Keeps P (check_kind host node policy event)
  check_kind-keeps event = search kept_rules

  pub process-keeps : (event : Fields) (now : ℕ) → Keeps P (process host node policy event now)
  unfolding process
  process-keeps event now =
      search (kept_rules, check_kind-keeps, or_key_error-keeps, process_desired-keeps) depth 8
