-- ===== src/Storage/Events/Stored.antt =====
-- The row that a write of an event leaves: its bytes, and its place in the journal.
use anvil_events.Base.{
  ℕ, String, Bool, true, not, Option, none, some, ◌≡◌, refl, ◌∙◌, ◌==◌, nat_eq, string_eq,
  option_eq, arith, Bool-cases, inl, inr, beq_refl, eq_of_beq,
}
use anvil_events.Result.{Result, ok, bind-then, transaction-ok}
use Prim.Native.String.{len}
use anvil_events.Table.{select}
use anvil_events.Table.Laws.{select-update, select-insert, select_fits}
use anvil_events.Json.{Fields, Codec, get, as_text}
use anvil_events.Domain.V2.Payloads.{Screen}
use anvil_events.Storage.Schema.{Db, EventRow, DeliveryState}
use anvil_events.Storage.Events.Rows.{
  Envelope, envelope_of, event_of, heal, set_state, merge_state, new_row,
}
use anvil_events.Storage.Events.{put, heal_envelope}
use anvil_events.Storage.Events.Put.{Wrote, adds, merges, put-inversion}
use anvil_events.Storage.Events.{append_journal, append_journal_in}
use anvil_events.Storage.Events.Identity.{Grows}
use anvil_events.Storage.Events.Identity.{Carries}

-- The stored event has these bytes.
abbrev pub IsStored : String → String → Db → Type 0
IsStored id encoded db =
    (r : EventRow) × (select (event_of id) db.events ≡ some r) × (r.envelope_json ≡ encoded)

pub heal-IsStored :
    (id encoded : String) (now : ℕ) (row : EventRow) (db : Db)
    → select (event_of id) db.events ≡ some row
    → IsStored id encoded (heal_envelope id encoded now row db)
unfolding heal_envelope
heal-IsStored id encoded now row db found = elim (Bool-cases (row.envelope_json == encoded)) [
  | inl e ↦ rw e (row, found, eq_of_beq row.envelope_json encoded e)
  | inr e ↦ rw e (
    heal encoded row,
    select-update (event_of id) (event_of id) (heal encoded) (λ s. refl) db.events
        ∙ rw (found, select_fits (event_of id) db.events {r = row} found) refl,
    refl,
  )
]

pub Wrote-IsStored :
    (e : Envelope) (encoded digest : String) (state : Option DeliveryState) (journaled : Bool)
    (now : ℕ) (db db' : Db) (flags : Bool × Bool)
    → Wrote e encoded digest state journaled now db flags db'
    → IsStored e.event_id encoded db'
unfolding new_row
Wrote-IsStored e encoded digest state journaled now db db' flags (adds _ _ absent free f same) =
    let row = new_row e encoded digest (len encoded) state journaled now db.next_row_id in
    rw same (
      row,
      select-insert (event_of e.event_id) row db.events ∙ rw (absent, beq_refl e.event_id) refl,
      refl,
    )
Wrote-IsStored e encoded digest state journaled now db db' flags
      (merges _ _ row found same_digest f same) =
    let healed = heal_envelope e.event_id encoded now row db in
    let (r, at, bytes) = heal-IsStored e.event_id encoded now row db found in
    let f = set_state (merge_state state row.producer_state) journaled now in
    rw same (
      f r,
      select-update (event_of e.event_id) (event_of e.event_id) f (λ s. refl) healed.events
          ∙ rw (at, select_fits (event_of e.event_id) healed.events {r = r} at) refl,
      bytes,
    )

-- The event id that an envelope has as a column is its field.
pub envelope_of-event_id :
    (event : Fields) (e : Envelope)
    → envelope_of event ≡ some e
    → as_text (get "event_id" event) ≡ some e.event_id
unfolding envelope_of
envelope_of-event_id event e h = ground arith

pub some_inj : (a b : String) → some a ≡ some b → a ≡ b
some_inj a b p = cc

-- The event is in the journal.
abbrev pub IsJournaled : String → Db → Type 0
IsJournaled id db =
    (r : EventRow) × (select (event_of id) db.events ≡ some r) × (r.journaled ≡ true)

pub Grows-IsJournaled :
    (id : String) (db db' : Db) → Grows db db' → IsJournaled id db → IsJournaled id db'
unfolding Grows Carries
Grows-IsJournaled id db db' grows (r, at, j) =
    let (r', at', x) = grows id r at in (r', at', x.journaled j)

Wrote-IsJournaled :
    (e : Envelope) (encoded digest : String) (state : Option DeliveryState) (now : ℕ) (db db' : Db)
    (flags : Bool × Bool)
    → Wrote e encoded digest state true now db flags db'
    → IsJournaled e.event_id db'
unfolding new_row
Wrote-IsJournaled e encoded digest state now db db' flags (adds _ _ absent free f same) =
    let row = new_row e encoded digest (len encoded) state true now db.next_row_id in
    rw same (
      row,
      select-insert (event_of e.event_id) row db.events ∙ rw (absent, beq_refl e.event_id) refl,
      refl,
    )
Wrote-IsJournaled e encoded digest state now db db' flags
      (merges _ _ row found same_digest f same) =
    let healed = heal_envelope e.event_id encoded now row db in
    let (r, at, bytes) = heal-IsStored e.event_id encoded now row db found in
    let f = set_state (merge_state state row.producer_state) true now in
    rw same (
      f r,
      select-update (event_of e.event_id) (event_of e.event_id) f (λ s. refl) healed.events
          ∙ rw (at, select_fits (event_of e.event_id) healed.events {r = r} at) refl,
      ground arith,
    )

-- An event that `append_journal` has accepted is in the journal.
pub append_journal-IsJournaled :
    (codec : Codec) (screen : Screen) (event : Fields) (now : ℕ) (db db' : Db) (new : Bool)
    → append_journal codec screen event now db ≡ (ok new, db')
    → (id : String) × (as_text (get "event_id" event) ≡ some id) × IsJournaled id db'
unfolding append_journal append_journal_in
append_journal-IsJournaled codec screen event now db db' new h =
    let prior =
      select (λ (r : EventRow). some r.event_id == as_text (get "event_id" event)) db.events in
    let rest : (Bool × Bool) × Db → Result (Bool × Db) =
      λ r. ok (elim prior [ none ↦ true | some row ↦ not row.journaled ], r.1) in
    let body = transaction-ok (append_journal_in codec screen event now) db h in
    let ((flags, db0), wrote, done) =
      bind-then (put codec screen event none true now db) rest body in
    let same : db' ≡ db0 = ground (arith, done) in
    let (e, valid, env, w) = put-inversion codec screen event none true now db db0 flags wrote in
    (
      e.event_id,
      envelope_of-event_id event e env,
      rw same (Wrote-IsJournaled e _ _ none now db db0 flags w),
    )
