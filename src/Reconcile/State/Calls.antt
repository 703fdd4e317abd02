-- ===== src/Reconcile/State/Calls.antt =====
-- Histories of a node's database: calls of the methods of `ReconcileState`, one after the other.
use anvil_events.Base.{ℕ, String, Bool, false, List, [], ◌∷◌, ◌==◌, string_eq}
use anvil_events.Json.{Codec}
use anvil_events.Storage.Schema.{Db}
use anvil_events.Reconcile.Desired.{Desired}
use anvil_events.Reconcile.Contracts.{Preview}
use anvil_events.Reconcile.State.{claim, reopen_applied, begin_apply, set_preview, complete, fail}

pub data Call : Type 0 where
  claims : String → Desired → ℕ → Call
  reopens : String → Desired → String → ℕ → Call
  begins : String → ℕ → Call
  previews : String → Preview → Bool → Call
  completes : String → Desired → String → ℕ → Call
  fails : String → String → Bool → ℕ → Call

-- What a call leaves, whether it returns or raises.
unfoldable pub after : Codec → Call → Db → Db
after codec (claims node d now) db = (claim codec node d now db).1
after codec (reopens id d node now) db = (reopen_applied id d node now db).1
after codec (begins id now) db = (begin_apply id now db).1
after codec (previews id preview awaits) db = (set_preview codec id preview awaits db).1
after codec (completes id d node now) db = (complete id d node now db).1
after codec (fails id error is_indeterminate now) db = (fail id error is_indeterminate now db).1

unfoldable pub after_all : Codec → List Call → Db → Db
unfolding after
after_all codec [] db = db
after_all codec (c ∷ cs) db = after_all codec cs (after codec c db)

-- The call reopens that attempt.
abbrev pub is_reopening : String → Call → Bool
is_reopening id (reopens other d node now) = other == id
is_reopening id _ = false
