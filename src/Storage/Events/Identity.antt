-- ===== src/Storage/Events/Identity.antt =====
-- What the methods of storage/events.py do to the rows that are there already.
pub mod Quiet
use anvil_events.Base.{
  ℕ, String, Bool, true, Option, none, some, List, ◌==◌, nat_eq, string_eq, option_eq, ◌≡◌, refl,
  sym, ap, ◌∙◌, arith, Bool-cases, inl, inr, eq_of_beq,
}
use anvil_events.Table.{select, update, insert}
use anvil_events.Table.Laws.{select-update, select-insert, select_fits}
use anvil_events.Json.{Codec}
use anvil_events.Domain.V2.Payloads.{Screen}
use anvil_events.Storage.Schema.{Db, EventRow, DeliveryState, is_acked}
use anvil_events.Storage.Events.Rows.{Envelope, event_of, heal, set_state, merge_state}
use anvil_events.Storage.Events.{heal_envelope, agrees, puback_write, note_delivery_failure}
use anvil_events.Storage.Events.Put.{Wrote, adds, merges, merged, put-inversion}
use anvil_events.Storage.Events.Calls.{Call, IsKept, after_all, after_all-keeps}
use anvil_events.Storage.Events.Rows.{set_puback, bump_pending, note_failure, is_pending_at}
use anvil_events.Base.{clip, false}
use anvil_events.Json.{Codec}
use anvil_events.Domain.V2.Payloads.{Screen}

-- An event keeps its identity and its digest, stays in the journal, and stays acknowledged by the same
-- evidence.
pub record Extends (r r' : EventRow) : Type 0 where
  pub same_id : r'.event_id ≡ r.event_id
  pub same_producer : r'.producer ≡ r.producer
  pub same_seq : r'.producer_seq ≡ r.producer_seq
  pub same_digest : r'.canonical_sha256 ≡ r.canonical_sha256
  pub journaled : r.journaled ≡ true → r'.journaled ≡ true
  pub acked : is_acked r.producer_state ≡ true → is_acked r'.producer_state ≡ true
  pub same_stream : is_acked r.producer_state ≡ true → r'.puback_stream ≡ r.puback_stream
  pub same_sequence : is_acked r.producer_state ≡ true → r'.puback_sequence ≡ r.puback_sequence

-- Every event of the one table is in the other, in the relation.
unfoldable pub Carries : (EventRow → EventRow → Type 0) → List EventRow → List EventRow → Type 0
Carries R t t' =
    (id : String) (r : EventRow)
    → select (event_of id) t ≡ some r
    → (r' : EventRow) × (select (event_of id) t' ≡ some r') × R r r'

Extends-refl : (r : EventRow) → Extends r r
Extends-refl r = record {
  same_id = refl;
  same_producer = refl;
  same_seq = refl;
  same_digest = refl;
  journaled = λ h. h;
  acked = λ h. h;
  same_stream = λ h. refl;
  same_sequence = λ h. refl;
}

Extends-trans : (r s t : EventRow) → Extends r s → Extends s t → Extends r t
Extends-trans r s t a b = record {
  same_id = b.same_id ∙ a.same_id;
  same_producer = b.same_producer ∙ a.same_producer;
  same_seq = b.same_seq ∙ a.same_seq;
  same_digest = b.same_digest ∙ a.same_digest;
  journaled = λ h. b.journaled (a.journaled h);
  acked = λ h. b.acked (a.acked h);
  same_stream = λ h. b.same_stream (a.acked h) ∙ a.same_stream h;
  same_sequence = λ h. b.same_sequence (a.acked h) ∙ a.same_sequence h;
}

pub Carries-refl : (t : List EventRow) → Carries Extends t t
unfolding Carries
Carries-refl t id r h = (r, h, Extends-refl r)

Carries-trans :
    (t u v : List EventRow) → Carries Extends t u → Carries Extends u v → Carries Extends t v
unfolding Carries
Carries-trans t u v a b id r h =
    let (s, hs, rs) = a id r h in let (w, hw, sw) = b id s hs in (w, hw, Extends-trans r s w rs sw)

insert-Carries : (r : EventRow) (t : List EventRow) → Carries Extends t (insert r t)
unfolding Carries
insert-Carries r t id s h = (s, select-insert (event_of id) r t ∙ rw h refl, Extends-refl s)

module _ (R : EventRow → EventRow → Type 0) (p : EventRow → Bool) (f : EventRow → EventRow)
    (t : List EventRow) where
  update-Carries :
      ((r : EventRow) → (f r).event_id ≡ r.event_id)
      → ((r : EventRow) → R r r)
      → ((id : String) (r : EventRow) → select (event_of id) t ≡ some r → p r ≡ true → R r (f r))
      → Carries R t (update p f t)
  unfolding Carries
  update-Carries keeps here step id r h =
      let moved = select-update (event_of id) p f (λ s. rw (keeps s) refl) t in
      elim (Bool-cases (p r)) [
        | inl e ↦ (f r, moved ∙ rw (h, e) refl, step id r h e)
        | inr e ↦ (r, moved ∙ rw (h, e) refl, here r)
      ]

-- The rows before and after a method: those of the database, and those that it writes.
unfoldable pub Grows : Db → Db → Type 0
unfolding Carries
Grows db db' = Carries Extends db.events db'.events

-- A healed row is still the event, in the same state.
Heals : EventRow → EventRow → Type 0
Heals r r' = Extends r r' × (r'.producer_state ≡ r.producer_state)

heal_envelope-Carries :
    (id encoded : String) (now : ℕ) (row : EventRow) (db : Db)
    → Carries Heals db.events (heal_envelope id encoded now row db).events
unfolding heal_envelope Heals Carries
heal_envelope-Carries id encoded now row db = elim (Bool-cases (row.envelope_json == encoded)) [
  | inl e ↦ rw e (λ i r h. (r, h, (Extends-refl r, refl)))
  | inr e ↦ rw e (
      update-Carries Heals (event_of id) (heal encoded) db.events (λ r. refl)
        (λ r. (Extends-refl r, refl))
        (λ i r h p. (
          record {
            same_id = refl;
            same_producer = refl;
            same_seq = refl;
            same_digest = refl;
            journaled = λ h. h;
            acked = λ h. h;
            same_stream = λ h. refl;
            same_sequence = λ h. refl;
          },
          refl,
        )))
]

merge_state-acked :
    (state old : Option DeliveryState)
    → is_acked old ≡ true
    → is_acked (merge_state state old) ≡ true
merge_state-acked state none h = absurd (cc)
merge_state-acked state (some DeliveryState.pending) h = absurd (cc)
merge_state-acked none (some DeliveryState.acked) h = refl
merge_state-acked (some DeliveryState.pending) (some DeliveryState.acked) h = refl
merge_state-acked (some DeliveryState.acked) (some DeliveryState.acked) h = refl

set_state-Extends :
    (state old : Option DeliveryState) (journaled : Bool) (now : ℕ) (r : EventRow)
    → r.producer_state ≡ old
    → Extends r (set_state (merge_state state old) journaled now r)
set_state-Extends state old journaled now r h = record {
  same_id = refl;
  same_producer = refl;
  same_seq = refl;
  same_digest = refl;
  journaled = λ j. rw j refl;
  acked = λ a. merge_state-acked state old (ap is_acked (sym h) ∙ a);
  same_stream = λ a. refl;
  same_sequence = λ a. refl;
}

-- The one row that a SELECT by id finds.
same_row :
    (t : List EventRow) (i j : String) (s r : EventRow)
    → select (event_of i) t ≡ some s
    → event_of j s ≡ true
    → select (event_of j) t ≡ some r
    → s ≡ r
same_row t i j s r hs p hr =
    let same =
      sym (eq_of_beq s.event_id i (select_fits (event_of i) t hs)) ∙ eq_of_beq s.event_id j p in
    let both = sym hs ∙ ap (λ k. select (event_of k) t) same ∙ hr in cc

module _ (e : Envelope) (encoded digest : String) (state : Option DeliveryState) (journaled : Bool)
    (now : ℕ) (db : Db) where
  merged-Grows :
      (row : EventRow)
      → select (event_of e.event_id) db.events ≡ some row
      → Grows db (merged e encoded digest state journaled now db row)
  unfolding Grows Carries Heals
  merged-Grows row found =
      let healed = (heal_envelope e.event_id encoded now row db).events in
      let (r1, found1, (same, at)) =
        heal_envelope-Carries e.event_id encoded now row db e.event_id row found in
      λ id r h.
        let (r2, h2, (ext, at2)) = heal_envelope-Carries e.event_id encoded now row db id r h in
        let (r3, h3, ext3) =
          update-Carries Extends (event_of e.event_id)
            (set_state (merge_state state row.producer_state) journaled now) healed (λ s. refl)
            Extends-refl
            (λ i s hs p. set_state-Extends state row.producer_state journaled now s (
              ap (λ (x : EventRow). x.producer_state)
                (same_row healed i e.event_id s r1 hs p found1)
              ∙ at))
            id r2 h2 in
        (r3, h3, Extends-trans r r2 r3 ext ext3)

  Wrote-Grows :
      {flags : Bool × Bool} {db' : Db}
      → Wrote e encoded digest state journaled now db flags db'
      → Grows db db'
  unfolding Grows
  Wrote-Grows (adds flags db' absent free f same) = rw same (insert-Carries _ db.events)
  Wrote-Grows (merges flags db' row found digest_e f same) = rw same (merged-Grows row found)

-- The evidence is written only over none, or over the same evidence.
set_puback-Extends :
    (stream : String) (seq : ℕ) (duplicate : Bool) (now : ℕ) (r r1 : EventRow)
    → agrees stream seq r ≡ true
    → Extends r r1
    → Extends r (set_puback stream seq duplicate now r1)
set_puback-Extends stream seq duplicate now r r1 g x = record {
  same_id = x.same_id;
  same_producer = x.same_producer;
  same_seq = x.same_seq;
  same_digest = x.same_digest;
  journaled = x.journaled;
  acked = x.acked;
  same_stream = λ a. sym (eq_of_beq r.puback_stream (some stream) (ground (arith, g, a)));
  same_sequence = λ a. sym (eq_of_beq r.puback_sequence (some seq) (ground (arith, g, a)));
}

puback_write-Grows :
    (e : Envelope) (id stream : String) (seq : ℕ) (duplicate : Bool) (now : ℕ) (row : EventRow)
    (db db' : Db)
    → select (event_of id) db.events ≡ some row
    → agrees stream seq row ≡ true
    → Grows db db'
    → Grows db (puback_write e id stream seq duplicate now db')
unfolding puback_write Grows Carries
puback_write-Grows e id stream seq duplicate now row db db' found g grows i r h =
    let (r1, h1, x) = grows i r h in
    let moved =
      select-update (event_of i) (event_of id) (set_puback stream seq duplicate now) (λ s. refl)
        db'.events in
    elim (Bool-cases (event_of id r1)) [
      | inr e ↦ (r1, moved ∙ rw (h1, e) refl, x)
      | inl e ↦
          let own : event_of id r ≡ true = rw (← x.same_id) e in
          let same = same_row db.events i id r row h own found in
          (
            set_puback stream seq duplicate now r1,
            moved ∙ rw (h1, e) refl,
            set_puback-Extends stream seq duplicate now r r1 (rw same g) x,
          )
    ]

note-Grows :
    (id error : String) (retry_after : Option ℕ) (db : Db)
    → Grows db (note_delivery_failure id error retry_after db)
unfolding note_delivery_failure Grows
note-Grows id error retry_after db =
    update-Carries Extends (is_pending_at id) (note_failure (clip 300 error) retry_after) db.events
      (λ s. refl) Extends-refl (λ i r h p. same_but_error r)
  where
    same_but_error : (r : EventRow) → Extends r (note_failure (clip 300 error) retry_after r)
    same_but_error r = record {
      same_id = refl;
      same_producer = refl;
      same_seq = refl;
      same_digest = refl;
      journaled = λ h. h;
      acked = λ h. h;
      same_stream = λ h. refl;
      same_sequence = λ h. refl;
    }

module _ (codec : Codec) (screen : Screen) where
  pub Grows-IsKept : (db0 : Db) → IsKept codec screen (Grows db0)
  unfolding Grows bump_pending
  Grows-IsKept db0 = record {
    by_put = λ event state journaled now db db' flags p h.
        let (e, valid, env, wrote) =
          put-inversion codec screen event state journaled now db db' flags h in
        Carries-trans db0.events db.events db'.events p
          (Wrote-Grows e _ _ state journaled now db wrote);
    by_bump = λ db p. p;
    by_ack = λ event e id stream seq duplicate now row db db' flags p f g h.
        let (v, valid, env, wrote) = put-inversion codec screen event _ false now db db' flags h in
        Carries-trans db0.events db.events _ p (
          puback_write-Grows e id stream seq duplicate now row db db' f g
            (Wrote-Grows v _ _ _ false now db wrote));
    by_note = λ id error retry_after db p.
        Carries-trans db0.events db.events _ p (note-Grows id error retry_after db);
  }

  -- Whatever methods of `EventRepository` are called, in whatever order and on whatever arguments, and
  -- whether they return or raise, an event that is stored stays stored under its id, with its producer,
  -- its sequence number and its digest; once in the journal it stays there, and once acknowledged it
  -- stays acknowledged, with the stream and the sequence number of its evidence.
  pub after_all-Extends :
      (cs : List Call) (db : Db) (id : String) (r : EventRow)
      → select (event_of id) db.events ≡ some r
      → (r' : EventRow) × (select (event_of id) (after_all codec screen cs db).events ≡ some r')
        × Extends r r'
  unfolding Grows Carries
  after_all-Extends cs db =
      after_all-keeps codec screen (Grows db) (Grows-IsKept db) cs db (Carries-refl db.events)
