-- ===== src/Tests/Storage.antt =====
-- The theorems on the event store, at inputs that meet their hypotheses.
use anvil_events.Base.{◌-◌, ◌*◌, none, some, List, [], ◌∷◌, ◌≡◌, refl}
use anvil_events.Table.{select}
use anvil_events.Json.{object}
use anvil_events.Storage.Schema.{Db, EventRow, DeliveryState, initial}
use anvil_events.Storage.Retention.{collect}
use anvil_events.Storage.Retention.Survival.{Survives, collect-Survives}
use anvil_events.Storage.Events.Rows.{event_of, event_at, next_sequence}
use anvil_events.Storage.Events.Calls.{Call, emits_v2, appends, journals, pubacks, notes, after_all}
use anvil_events.Storage.Events.Identity.{Extends, after_all-Extends}
use anvil_events.Storage.Events.Numbers.{IsSound, after_all-IsSound, after_all-next-free}
use anvil_events.Tests.Samples.{
  plain, lenient, desired_payload, desired_event, evidence, journaled_db, desired_row,
}

-- An event of this node, and a received one that is delivered.
abbrev history : List Call
history =
    journals desired_event 10
    ∷ appends desired_event 11
    ∷ notes "a:r:000003" "timeout" none
    ∷ pubacks desired_event evidence 12
    ∷ emits_v2 "a:r" "state.desired" "a" (object desired_payload) none [] "2026-01-01T00:00:00Z" 13
    ∷ []

stored : select (event_of "a:r:000001") journaled_db.events ≡ some desired_row
unfolding select
stored = refl

after_all-Extends_example :
    (r' : EventRow) × (select
        (event_of "a:r:000001")
        (after_all plain lenient history journaled_db).events
      ≡ some r')
    × Extends desired_row r'
after_all-Extends_example =
    after_all-Extends plain lenient history journaled_db "a:r:000001" desired_row stored

initial-IsSound : IsSound initial
initial-IsSound = record { numbered = tt; unique = tt }

after_all-IsSound_example : IsSound (after_all plain lenient history initial)
after_all-IsSound_example = after_all-IsSound plain lenient history initial initial-IsSound

after_all-next-free_example :
    let db' = after_all plain lenient history initial in
    select (event_at "a:r" (next_sequence "a:r" db'.sequences)) db'.events ≡ none
after_all-next-free_example =
    after_all-next-free plain lenient history initial "a:r" initial-IsSound

-- An event that was acknowledged long ago.
abbrev old_row : EventRow
old_row = record desired_row { producer_state = some DeliveryState.acked; acked_at = some 1 }

abbrev old_db : Db
old_db = record initial { events = old_row ∷ []; next_row_id = 2 }

old_stored : select (event_of "a:r:000001") old_db.events ≡ some old_row
unfolding select
old_stored = refl

collect-Survives_example :
    (r' : EventRow) × (select
        (event_of "a:r:000001")
        (collect plain lenient 0 1000 "2026-01-01T00:00:00Z" 50 old_db).1.events
      ≡ some r')
    × Survives (50 - 0 * 86400) old_row r'
collect-Survives_example =
    collect-Survives plain lenient 0 1000 "2026-01-01T00:00:00Z" 50 old_db "a:r:000001" old_row
      old_stored
