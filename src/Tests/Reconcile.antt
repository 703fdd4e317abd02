-- ===== src/Tests/Reconcile.antt =====
-- The theorems on reconciliation, at inputs that meet their hypotheses.
use anvil_events.Base.{ℕ, String, true, false, some, List, [], ◌∷◌, ◌≡◌, refl, All, is_some}
use anvil_events.Result.{ok, err, value_error}
use anvil_events.Table.{select}
use anvil_events.Storage.Schema.{Db, ApplicationRow}
use anvil_events.Reconcile.Desired.{operation_id}
use anvil_events.Reconcile.State.{claim, begin_apply, indeterminate, attempt_row}
use anvil_events.Reconcile.State.Calls.{Call, claims, begins, completes, fails, after_all}
use anvil_events.Reconcile.State.Settled.{crash_never_replays}
use anvil_events.Reconcile.State.Generations.{Advances, applied_row, after_all-Advances}
use anvil_events.Reconcile.State.Rows.{
  attempt_of, application_at, newest, attempt_fits, application_fits, insert_attempt,
}
use anvil_events.Reconcile.Engine.{process, process_locked}
use anvil_events.Reconcile.Engine.Approval.{process_applies-IsJustified}
use anvil_events.Reconcile.Engine.Kept.{IsJustified}
use anvil_events.Reconcile.State.Applied.{IsBacked, IsCurrent, row_for}
use anvil_events.Exec.{◌>>=◌}
use anvil_events.Table.{update, count}
use anvil_events.Reconcile.Contracts.{get_adapter, allows}
use anvil_events.Reconcile.State.{set_preview, complete}
use anvil_events.Reconcile.Engine.Types.{World, ReconcileResult, ResultState, on_db}
use anvil_events.Reconcile.Engine.{by_claim, applied_result}
use anvil_events.Reconcile.Engine.Convergence.{process_locked-IsConverged}
use anvil_events.Tests.Samples.{router_event, plain, journaled_db, router, host, bound, fresh}

abbrev id : String
id = "reconcile:b\0a:r:000001"

-- The node ended between the marker and the result of the apply.
abbrev crashed : Db
crashed = (begin_apply id 8 (claim plain "b" router 7 journaled_db).1).1

abbrev marker : ApplicationRow
marker = record { operation_id = id; node = "b"; resource = "routing"; started_at = 8 }

-- The real calls leave that marker.
marked : select (application_at "b" "routing") crashed.applications ≡ some marker
unfolding begin_apply claim select insert_attempt newest attempt_fits attempt_row application_fits
marked = refl

own : marker.operation_id ≡ operation_id plain "b" "a:r:000001"
unfolding operation_id
own = refl

there : is_some (select (attempt_of id) crashed.attempts) ≡ true
unfolding begin_apply claim select insert_attempt newest attempt_fits attempt_row application_fits
there = refl

abbrev calls : List Call
calls = claims "b" router 10 ∷ begins id 11 ∷ []

crash_never_replays_example :
    let claimed = claim plain "b" router 9 crashed in
    let db' = after_all plain calls claimed.1 in
    (claimed.0 ≡ ok (indeterminate, id))
    × (begin_apply id 12 db'
        ≡ (err (value_error "reconciliation attempt is not ready to apply"), db'))
crash_never_replays_example =
    crash_never_replays plain "b" router 9 12 crashed marker calls marked own there
      (refl, (refl, tt))

abbrev history : List Call
history =
    claims "b" router 7 ∷ begins id 8 ∷ completes id router "b" 9 ∷ fails id "late" false 10 ∷ []

after_all-Advances_example :
    Advances
      (applied_row journaled_db "b" "routing")
      (applied_row (after_all plain history journaled_db) "b" "routing")
after_all-Advances_example = after_all-Advances plain history journaled_db "b" "routing"

process_applies-IsJustified_example :
    All (IsJustified host bound) (process host "b" bound router_event 7 fresh).1.log
process_applies-IsJustified_example =
    process_applies-IsJustified host "b" bound router_event 7 fresh tt

abbrev applied_world : World ℕ
applied_world = (process_locked host "b" bound router 7 fresh).1

abbrev report : ReconcileResult
report = applied_result host "b" bound router id

-- The engine applies once, and reports it.
applied_once :
    (process_locked host "b" bound router 7 fresh ≡ (ok report, applied_world))
    × (applied_world.outside ≡ 1)
unfolding process_locked ◌>>=◌ on_db claim select newest attempt_fits attempt_row by_claim
    get_adapter allows set_preview count begin_apply update application_fits complete applied_result
applied_once = (refl, refl)

applied_reported : report.state ≡ ResultState.applied
unfolding applied_result
applied_reported = refl

IsBacked-fresh : IsBacked router "b" (operation_id plain "b" "a:r:000001") fresh.db
unfolding select
IsBacked-fresh a e h = cc

process_locked-IsConverged_example : IsCurrent router (row_for applied_world.db "b" router)
process_locked-IsConverged_example =
    process_locked-IsConverged host "b" bound router 7 fresh applied_world report IsBacked-fresh
      applied_once.0 applied_reported
