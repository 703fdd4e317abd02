-- ===== src/Reconcile/Engine/Approval.antt =====
-- What the engine has tested before it lets an adapter apply.
use anvil_events.Base.{ℕ, String, [], ◌∷◌, All, All-append}
use anvil_events.Json.{Fields}
use anvil_events.Reconcile.Contracts.{Policy}
use anvil_events.Reconcile.Engine.Types.{Host, World, on_db, on_host, on_adapter}
use anvil_events.Reconcile.Engine.{process}
use anvil_events.Reconcile.Engine.Kept.{IsJustified, IsKept, process-keeps}

module _ {W : Type 0} (host : Host W) (node : String) (policy : Policy) where
  Log : World W → Type 0
  Log w = All (IsJustified host policy) w.log

  Log-IsKept : IsKept host node policy Log
  unfolding Log on_db on_host on_adapter
  Log-IsKept = record {
    by_claim = λ d now. record { at = λ w h. h };
    by_reopen = λ id d now. record { at = λ w h. h };
    by_preview = λ id preview awaits. record { at = λ w h. h };
    by_begin = λ id now. record { at = λ w h. h };
    by_complete = λ id d now. record { at = λ w h. h };
    by_fail = λ id error b now. record { at = λ w h. h };
    by_host = λ f. record { at = λ w h. h };
    by_adapter = λ e f j. record {
      at = λ w h. All-append (IsJustified host policy) w.log (e ∷ []) h (j, tt);
    };
  }

-- Every call of an adapter's `apply` that `process` makes is justified: the artifact that it hands
-- over has the revision and the digest of the desired state, and the policy allows that state. If
-- this holds of the calls made before, it holds of all calls after, whether `process` returns or
-- raises, and whatever the adapters, the resolver and the database do.
pub process_applies-IsJustified :
    {W : Type 0} (host : Host W) (node : String) (policy : Policy) (event : Fields) (now : ℕ)
    (w : World W)
    → All (IsJustified host policy) w.log
    → All (IsJustified host policy) (process host node policy event now w).1.log
unfolding Log
process_applies-IsJustified host node policy event now w h =
    (process-keeps host node policy (Log host node policy) (Log-IsKept host node policy) event
        now).at
      w h
