-- ===== src/Storage/Events/Acked.antt =====
-- The row that a recorded acknowledgement leaves.
use anvil_events.Base.{false, [], ◌∷◌, subst, sym, ap, if◌then◌else◌}
use anvil_events.Result.{◌>>=◌}
use anvil_events.Storage.Events.Rows.{bump_pending}
use anvil_events.Result.{or_raise, value_error, key_error, guard, ◌>>◌, or_raise-then, guard-then}
use anvil_events.Json.{Json}
use anvil_events.Storage.Schema.{is_acked}
use anvil_events.Storage.Events.Rows.{set_puback}
use anvil_events.Storage.Events.Calls.{pubacks, notes, after, after_all, after_all-keeps}
use anvil_events.Storage.Events.Identity.{Grows-IsKept, Carries-refl}
use anvil_events.Storage.Events.Stored.{heal-IsStored, envelope_of-event_id, some_inj}
use anvil_events.Base.{
  ℕ, String, Bool, true, Option, none, some, ◌≡◌, refl, ◌∙◌, nat_eq, string_eq, option_eq, arith,
  beq_refl,
}
use anvil_events.Result.{Result, ok, bind-then, transaction-ok}
use Prim.Native.String.{len}
use anvil_events.Table.{select}
use anvil_events.Table.Laws.{select-update, select-insert, select_fits}
use anvil_events.Json.{Fields, Codec, get, as_text}
use anvil_events.Domain.V2.Payloads.{Screen}
use anvil_events.Storage.Schema.{Db, EventRow, DeliveryState}
use anvil_events.Storage.Events.Rows.{
  Envelope, envelope_of, event_of, set_state, merge_state, new_row,
}
use anvil_events.Storage.Events.{
  record_puback, record_puback_in, puback_in, puback_put, finish_puback, check_puback, agrees,
  puback_write, note_delivery_failure, Puback, put, heal_envelope,
}
use anvil_events.Storage.Events.Put.{Wrote, adds, merges, put-inversion}
use anvil_events.Storage.Events.{
  record_puback, record_puback_in, puback_in, puback_put, finish_puback, check_puback, agrees,
  puback_write, note_delivery_failure, Puback,
}
use anvil_events.Storage.Events.Identity.{Grows}
use anvil_events.Storage.Events.Identity.{Carries}

-- The event is stored as acknowledged.
abbrev pub IsAcked : String → Db → Type 0
IsAcked id db =
    (r : EventRow) × (select (event_of id) db.events ≡ some r) × (is_acked r.producer_state ≡ true)

merge_state-IsAcked :
    (old : Option DeliveryState) → is_acked (merge_state (some DeliveryState.acked) old) ≡ true
merge_state-IsAcked none = refl
merge_state-IsAcked (some DeliveryState.pending) = refl
merge_state-IsAcked (some DeliveryState.acked) = refl

Wrote-IsAcked :
    (e : Envelope) (encoded digest : String) (journaled : Bool) (now : ℕ) (db db' : Db)
    (flags : Bool × Bool)
    → Wrote e encoded digest (some DeliveryState.acked) journaled now db flags db'
    → IsAcked e.event_id db'
unfolding new_row
Wrote-IsAcked e encoded digest journaled now db db' flags (adds _ _ absent free f same) =
    let row =
      new_row e encoded digest (len encoded) (some DeliveryState.acked) journaled now
        db.next_row_id in
    rw same (
      row,
      select-insert (event_of e.event_id) row db.events ∙ rw (absent, beq_refl e.event_id) refl,
      refl,
    )
Wrote-IsAcked e encoded digest journaled now db db' flags
      (merges _ _ row found same_digest f same) =
    let healed = heal_envelope e.event_id encoded now row db in
    let (r, at, bytes) = heal-IsStored e.event_id encoded now row db found in
    let f = set_state (merge_state (some DeliveryState.acked) row.producer_state) journaled now in
    rw same (
      f r,
      select-update (event_of e.event_id) (event_of e.event_id) f (λ s. refl) healed.events
          ∙ rw (at, select_fits (event_of e.event_id) healed.events {r = r} at) refl,
      merge_state-IsAcked row.producer_state,
    )

puback_write-IsAcked :
    (e : Envelope) (id stream : String) (seq : ℕ) (duplicate : Bool) (now : ℕ) (db : Db)
    → IsAcked id db
    → IsAcked id (puback_write e id stream seq duplicate now db)
unfolding puback_write
puback_write-IsAcked e id stream seq duplicate now db (r, at, acked) = (
  set_puback stream seq duplicate now r,
  select-update (event_of id) (event_of id) (set_puback stream seq duplicate now) (λ s. refl)
        db.events
      ∙ rw (at, select_fits (event_of id) db.events {r = r} at) refl,
  acked,
)

finish_puback-IsAcked :
    (event : Fields) (id stream : String) (seq : ℕ) (duplicate changed : Bool) (now : ℕ)
    (db db' : Db)
    → finish_puback event id stream seq duplicate now changed db ≡ ok (tt, db')
    → IsAcked id db
    → IsAcked id db'
unfolding finish_puback bump_pending
finish_puback-IsAcked event id stream seq duplicate changed now db db' h acked =
    let last : Envelope → Result (Unit {0} × Db) = λ e.
      let written = puback_write e id stream seq duplicate now db in
      ok (tt, if changed then bump_pending written else written) in
    let (e, env, h1) = or_raise-then (envelope_of event) (key_error "subject") last h in
    let (r, at, k) = puback_write-IsAcked e id stream seq duplicate now db acked in
    let same : db'.events ≡ (puback_write e id stream seq duplicate now db).events =
      ground (arith, h1) in
    (r, ap (select (event_of id)) same ∙ at, k)

module _ (codec : Codec) (screen : Screen) where
  puback_put-IsAcked :
      (event : Fields) (id stream : String) (seq : ℕ) (duplicate : Bool) (now : ℕ) (db db' : Db)
      → as_text (get "event_id" event) ≡ some id
      → puback_put codec screen event id stream seq duplicate now db ≡ ok (tt, db')
      → IsAcked id db'
  unfolding puback_put
  puback_put-IsAcked event id stream seq duplicate now db db' has h =
      let last : (Bool × Bool) × Db → Result (Unit {0} × Db) =
        λ r. finish_puback event id stream seq duplicate now r.0.1 r.1 in
      let ((flags, db0), wrote, h1) =
        bind-then (put codec screen event (some DeliveryState.acked) false now db) last h in
      let (e, valid, env, w) = put-inversion codec screen event _ false now db db0 flags wrote in
      let own = some_inj e.event_id id (sym (envelope_of-event_id event e env) ∙ has) in
      finish_puback-IsAcked event id stream seq duplicate flags.1 now db0 db' h1
        (subst (λ i. IsAcked i db0) own (Wrote-IsAcked e _ _ false now db db0 flags w))

  puback_in-IsAcked :
      (event : Fields) (id stream : String) (seq : ℕ) (duplicate : Bool) (now : ℕ) (db db' : Db)
      → as_text (get "event_id" event) ≡ some id
      → puback_in codec screen event stream seq duplicate now db ≡ ok (tt, db')
      → IsAcked id db'
  unfolding puback_in
  puback_in-IsAcked event id stream seq duplicate now db db' has h =
      let send : String → Result (Unit {0} × Db) =
        λ i. puback_put codec screen event i stream seq duplicate now db in
      let checked : String → EventRow → Result (Unit {0} × Db) = λ i row.
        guard (agrees stream seq row) (value_error "conflicting PubAck evidence") >> send i in
      let known : String → Result (Unit {0} × Db) = λ i.
        or_raise (select (event_of i) db.events) (value_error "cannot acknowledge unknown event")
        >>= checked i in
      let (i, is_i, h1) =
        or_raise-then (as_text (get "event_id" event)) (key_error "event_id") known h in
      let (row, found, h2) =
        or_raise-then (select (event_of i) db.events)
          (value_error "cannot acknowledge unknown event") (checked i) h1 in
      let (g, h3) =
        guard-then (agrees stream seq row) (value_error "conflicting PubAck evidence") (send i)
          h2 in
      let own = some_inj i id (sym is_i ∙ has) in
      subst (λ j. IsAcked j db') own
        (puback_put-IsAcked event i stream seq duplicate now db db' is_i h3)

  -- An event whose acknowledgement `record_puback` has accepted is stored as acknowledged.
  pub record_puback-IsAcked :
      (event : Fields) (puback : Json) (id : String) (now : ℕ) (db db' : Db)
      → as_text (get "event_id" event) ≡ some id
      → record_puback codec screen event puback now db ≡ (ok tt, db')
      → IsAcked id db'
  unfolding record_puback record_puback_in
  record_puback-IsAcked event puback id now db db' has h =
      let body = transaction-ok (record_puback_in codec screen event puback now) db h in
      let rest : Puback → Result (Unit {0} × Db) =
        λ p. puback_in codec screen event p.stream p.sequence p.duplicate now db in
      let (p, valid, h1) = bind-then (check_puback puback) rest body in
      puback_in-IsAcked event id p.stream p.sequence p.duplicate now db db' has h1

  -- An acknowledged event stays acknowledged.
  pub Grows-IsAcked : (id : String) (db db' : Db) → Grows db db' → IsAcked id db → IsAcked id db'
  unfolding Grows Carries
  Grows-IsAcked id db db' grows (r, at, k) =
      let (r', at', x) = grows id r at in (r', at', x.acked k)

  pub record_puback-Grows :
      (event : Fields) (puback : Json) (now : ℕ) (db : Db)
      → Grows db (record_puback codec screen event puback now db).1
  unfolding after_all after Grows
  record_puback-Grows event puback now db =
      after_all-keeps codec screen (Grows db) (Grows-IsKept codec screen db)
        (pubacks event puback now ∷ []) db (Carries-refl db.events)

  pub note-IsGrowing :
      (id error : String) (retry_after : Option ℕ) (db : Db)
      → Grows db (note_delivery_failure id error retry_after db)
  unfolding after_all after Grows
  note-IsGrowing id error retry_after db =
      after_all-keeps codec screen (Grows db) (Grows-IsKept codec screen db)
        (notes id error retry_after ∷ []) db (Carries-refl db.events)
