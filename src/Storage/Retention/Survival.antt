-- ===== src/Storage/Retention/Survival.antt =====
-- What the sweep of storage/retention.py leaves of the stored events.
use anvil_events.Base.{
  ℕ, ◌*◌, ◌-◌, String, Bool, true, false, Option, none, some, [], ◌≡◌, refl, ◌∙◌, ◌==◌, nat_eq, inl,
  inr, Bool-cases, arith,
}
use anvil_events.Base.Int.{pos}
use anvil_events.Result.{
  Result, ok, ◌>>=◌, bind-then, ok-then, Writes, Writes-intro, transaction-Writes,
}
use anvil_events.Table.{select, update, count}
use anvil_events.Table.Laws.{select-update}
use anvil_events.Json.{Fields, Codec, object, text, number, field, end, get, as_text}
use anvil_events.Domain.V1.{make_event}
use anvil_events.Domain.V1.Payloads.{validate_payload_v1}
use anvil_events.Domain.V2.Payloads.{Screen}
use anvil_events.Storage.Schema.{Db, EventRow}
use anvil_events.Storage.Events.{journal_v1_in, put}
use anvil_events.Storage.Events.Rows.{event_of, next_sequence}
use anvil_events.Storage.Events.Identity.{Carries}
use anvil_events.Storage.Events.Identity.Quiet.{Steady, put-Steady}
use anvil_events.Storage.Delivery.{clear_state}
use anvil_events.Storage.Retention.{is_expired, collect_in, collect}

-- An event is still the event, is in the journal if it was, and has its state unless it had expired.
pub record Survives (cutoff : ℕ) (r r' : EventRow) : Type 0 where
  pub same_id : r'.event_id ≡ r.event_id
  pub same_seq : r'.producer_seq ≡ r.producer_seq
  pub same_digest : r'.canonical_sha256 ≡ r.canonical_sha256
  pub journaled : r.journaled ≡ true → r'.journaled ≡ true
  pub same_state : is_expired cutoff r ≡ false → r'.producer_state ≡ r.producer_state

Lives : ℕ → Db → Db → Type 0
Lives cutoff db db' =
    (id : String) (r : EventRow)
    → select (event_of id) db.events ≡ some r
    → (r' : EventRow) × (select (event_of id) db'.events ≡ some r') × Survives cutoff r r'

Lives-refl : (cutoff : ℕ) (db : Db) → Lives cutoff db db
unfolding Lives
Lives-refl cutoff db id r h = (
  r,
  h,
  record {
    same_id = refl;
    same_seq = refl;
    same_digest = refl;
    journaled = λ j. j;
    same_state = λ e. refl;
  },
)

swept-Lives :
    (cutoff : ℕ) (db : Db)
    → Lives cutoff db (record db { events = update (is_expired cutoff) clear_state db.events })
unfolding Lives
swept-Lives cutoff db id r h =
    let moved = select-update (event_of id) (is_expired cutoff) clear_state (λ s. refl) db.events in
    elim (Bool-cases (is_expired cutoff r)) [
      | inl e ↦ (
        clear_state r,
        moved ∙ rw (h, e) refl,
        record {
          same_id = refl;
          same_seq = refl;
          same_digest = refl;
          journaled = λ j. j;
          same_state = λ f. absurd (cc (e, f));
        },
      )
      | inr e ↦ (
        r,
        moved ∙ rw (h, e) refl,
        record {
          same_id = refl;
          same_seq = refl;
          same_digest = refl;
          journaled = λ j. j;
          same_state = λ f. refl;
        },
      )
    ]

Lives-Steady :
    (cutoff : ℕ) (db db1 db2 : Db)
    → Lives cutoff db db1
    → Steady db1.events db2.events
    → Lives cutoff db db2
unfolding Lives Steady Carries
Lives-Steady cutoff db db1 db2 a b id r h =
    let (r1, h1, s) = a id r h in
    let (r2, h2, (x, at)) = b id r1 h1 in
    (
      r2,
      h2,
      record {
        same_id = x.same_id ∙ s.same_id;
        same_seq = x.same_seq ∙ s.same_seq;
        same_digest = x.same_digest ∙ s.same_digest;
        journaled = λ j. x.journaled (s.journaled j);
        same_state = λ e. at ∙ s.same_state e;
      },
    )

module _ (codec : Codec) (screen : Screen) where
  journal_v1-Steady :
      (producer kind host : String) (payload : Fields) (correlation : Option String)
      (clock : String) (now : ℕ) (event : Fields) (db db' : Db)
      → journal_v1_in codec screen producer kind host payload correlation clock now db
        ≡ ok (event, db')
      → Steady db.events db'.events
  unfolding journal_v1_in
  journal_v1-Steady producer kind host payload correlation clock now event db db' h =
      let made =
        make_event producer kind host payload (next_sequence producer db.sequences) correlation []
          clock in
      let last : Fields → (Bool × Bool) × Db → Result (Fields × Db) = λ e r. ok (e, r.1) in
      let store : Fields → Result (Fields × Db) =
        λ e. put codec screen e none true now db >>= last e in
      let (valid, h1) = ok-then (validate_payload_v1 kind (object payload)) (made >>= store) h in
      let (e, is_made, h2) = bind-then made store h1 in
      let ((flags, db0), wrote, h3) = bind-then (put codec screen e none true now db) (last e) h2 in
      let same : db' ≡ db0 = ground (arith, h3) in
      rw same (put-Steady codec screen e true now db db0 flags wrote)

  collect_in-Lives :
      (archive_days : ℕ) (clock : String) (now : ℕ) (db : Db)
      → Writes
          (Lives (now - archive_days * 86400) db)
          (collect_in codec screen archive_days clock now db)
  unfolding collect_in
  collect_in-Lives archive_days clock now db =
      let cutoff = now - archive_days * 86400 in
      let removed = count (is_expired cutoff) db.events in
      let swept : Db = record db { events = update (is_expired cutoff) clear_state db.events } in
      let journal =
        journal_v1_in codec screen "local:gc" "event.degraded" "local"
          (field "cause" (text "retention sweep deleted expired archives")
            (field "records" (number (pos removed)) end))
          none clock now swept in
      let last : Fields × Db → Result ((ℕ × Option String) × Db) =
        λ r. ok ((removed, as_text (get "event_id" r.0)), r.1) in
      elim (Bool-cases (removed == 0)) [
        | inl e ↦ rw (e, collect_in) (swept-Lives cutoff db)
        | inr e ↦
            rw (e, collect_in)
              (Writes-intro (Lives cutoff db) (journal >>= last) λ a db' h.
                let ((event, db0), wrote, h1) = bind-then journal last h in
                let same : db' ≡ db0 = ground (arith, h1) in
                rw same (
                  Lives-Steady cutoff db swept db0 (swept-Lives cutoff db)
                    (journal_v1-Steady _ _ _ _ none clock now event swept db0 wrote)))
      ]

  -- Whether `collect` returns or raises, an event that is stored stays stored under its id, with its number and its
  -- digest, stays in the journal, and keeps its state unless it was acknowledged before the cutoff.
  pub collect-Survives :
      (archive_days max_bytes : ℕ) (clock : String) (now : ℕ) (db : Db) (id : String) (r : EventRow)
      → select (event_of id) db.events ≡ some r
      → (r' : EventRow) × (select
            (event_of id)
            (collect codec screen archive_days max_bytes clock now db).1.events
          ≡ some r')
        × Survives (now - archive_days * 86400) r r'
  unfolding collect Lives
  collect-Survives archive_days max_bytes clock now db = elim (Bool-cases (max_bytes == 0)) [
    | inl e ↦ rw e (Lives-refl (now - archive_days * 86400) db)
    | inr e ↦ rw e (
        transaction-Writes (Lives (now - archive_days * 86400) db) _ db
          (Lives-refl (now - archive_days * 86400) db) (collect_in-Lives archive_days clock now db))
  ]
