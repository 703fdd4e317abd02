-- ===== src/Reconcile/Engine/Events.antt =====
-- The table of events during `ReconcileEngine.process`.
use anvil_events.Base.{ℕ, String, List, ◌≡◌, refl}
use anvil_events.Json.{Fields}
use anvil_events.Storage.Schema.{Db, EventRow}
use anvil_events.Reconcile.Contracts.{Policy}
use anvil_events.Reconcile.State.{abandon, write_applied, set_preview, fail}
use anvil_events.Reconcile.State.Cases.{claim-keeps, complete-keeps, reopen-keeps, begin-keeps}
use anvil_events.Reconcile.Engine.Types.{Host, World, on_db, on_host, on_adapter}
use anvil_events.Reconcile.Engine.{process}
use anvil_events.Reconcile.Engine.Kept.{IsKept, process-keeps}

module _ (events : List EventRow) where
  abbrev HasEvents : Db → Type 0
  HasEvents db = db.events ≡ events

  WorldHasEvents : {W : Type 0} → World W → Type 0
  WorldHasEvents w = HasEvents w.db

  module _ {W : Type 0} (host : Host W) (node : String) (policy : Policy) where
    HasEvents-IsKept : IsKept host node policy WorldHasEvents
    unfolding WorldHasEvents on_db on_host on_adapter abandon write_applied set_preview fail
    HasEvents-IsKept = record {
      by_claim = λ d now. record {
        at = λ w h. claim-keeps HasEvents host.codec d node now w.db h (λ a e. h) (λ db' p f l. p);
      };
      by_reopen = λ id d now. record {
        at = λ w h. reopen-keeps HasEvents id d node now w.db h (λ r e f. h);
      };
      by_preview = λ id preview awaits. record { at = λ w h. h };
      by_begin = λ id now. record { at = λ w h. begin-keeps HasEvents id now w.db h (λ a e f. h) };
      by_complete = λ id d now. record {
        at = λ w h. complete-keeps HasEvents id d node now w.db h (λ a e f. h);
      };
      by_fail = λ id error b now. record { at = λ w h. h };
      by_host = λ f. record { at = λ w h. h };
      by_adapter = λ e f j. record { at = λ w h. h };
    }

-- Whether `process` returns or raises, the stored events are as before.
pub process-events :
    {W : Type 0} (host : Host W) (node : String) (policy : Policy) (event : Fields) (now : ℕ)
    (w : World W)
    → (process host node policy event now w).1.db.events ≡ w.db.events
unfolding WorldHasEvents
process-events host node policy event now w =
    (process-keeps host node policy (WorldHasEvents w.db.events)
        (HasEvents-IsKept w.db.events host node policy) event now).at
      w refl
