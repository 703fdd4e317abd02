-- ===== src/Reconcile/Engine/Types.antt =====
-- The contracts of reconciliation/contracts.py that the host implements, the results of
-- reconciliation/engine.py, and the acts of the engine. What adapters and the resolver do to the host
-- (files, controllers, the network) is a state of its own; the log of their calls is the model's.
use anvil_events.Base.{ℕ, String, Bool, Option, List, [], ◌∷◌, ◌++◌}
use anvil_events.Result.{Result, ok, err}
use anvil_events.Exec.{Exec, pure, raise}
use anvil_events.Json.{Codec, Fields}
use anvil_events.Storage.Schema.{Db}
use anvil_events.Reconcile.Desired.{Desired}
use anvil_events.Reconcile.Contracts.{Artifact, Preview, Registry}

-- ReconcileAdapter, over the host's state `W`.
pub record Adapter (W : Type 0) : Type 0 where
  pub preview : Desired → Artifact → Exec W Preview
  pub apply : Desired → Artifact → Exec W (Unit {0})
  pub verify : Desired → Artifact → Exec W Bool
  pub rollback : Desired → Exec W (Unit {0})

-- ArtifactResolver.resolve, and the lock of reconciliation/resource_lock.py, which another process
-- may hold.
pub record Host (W : Type 0) : Type 0 where
  pub codec : Codec
  pub adapters : Registry (Adapter W)
  pub resolve : String → String → Exec W Artifact
  pub resource_lock : String → String → Exec W (Unit {0})
  pub validate_event_v2 : Fields → Result (Unit {0})

-- The calls of an adapter, with what they are handed.
pub data Effect : Type 0 where
  previews : Desired → Artifact → Effect
  applies : Desired → Artifact → Effect
  verifies : Desired → Artifact → Effect
  rolls_back : Desired → Effect

pub record World (W : Type 0) : Type 0 where
  pub db : Db
  pub outside : W
  pub log : List Effect

pub data ResultState : Type 0 where
  not_targeted superseded applied failed indeterminate awaiting_approval rejected : ResultState

-- The payload of an outcome event.
pub record Outcome : Type 0 where
  pub resource : String
  pub generation : ℕ
  pub revision : String
  pub content_sha256 : Option String
  pub adapter : String
  pub operation_id : String
  pub node : String
  pub error : Option String

pub record ReconcileResult : Type 0 where
  pub state : ResultState
  pub operation_id : String
  pub outcome_kind : Option String
  pub payload : Option Outcome

module _ {W : Type 0} where
  -- A method of `ReconcileState`, and a call of an adapter or the resolver, as acts of the engine.
  unfoldable pub on_db : {A : Type 0} → (Db → Result A × Db) → Exec (World W) A
  on_db f w = let (r, db') = f w.db in (r, record w { db = db' })

  unfoldable pub on_host : {A : Type 0} → Exec W A → Exec (World W) A
  on_host f w = let (r, o) = f w.outside in (r, record w { outside = o })

  unfoldable pub on_adapter : {A : Type 0} → Effect → Exec W A → Exec (World W) A
  on_adapter e f w =
      let (r, o) = f w.outside in (r, record w { outside = o; log = w.log ++ e ∷ [] })

abbrev pub lift : {S A : Type 0} → Result A → Exec S A
lift (ok a) = pure a
lift (err e) = raise e
