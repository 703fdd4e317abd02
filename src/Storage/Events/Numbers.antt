-- ===== src/Storage/Events/Numbers.antt =====
-- The sequence numbers of producers in storage/events.py, and the constraints UNIQUE of the table
-- `events`.
use anvil_events.Base.{
  ℕ, suc, ◌+◌, ◌≤◌, String, Bool, true, false, Option, none, some, List, [], ◌∷◌, ◌≡◌, refl, sym,
  ◌∙◌, ◌==◌, nat_eq, string_eq, ltb, if◌then◌else◌, arith, Bool-cases, Option-cases, inl, inr,
  eq_of_beq, beq_refl, All, All-append, and-true, clip, subst,
}
use Prim.Native.String.{len}
use native.Mathlib.Nat.{le_trans}
use anvil_events.Table.{select, insert, update}
use anvil_events.Table.Laws.{select-update, select-insert, All-update, select_fits}
use anvil_events.Json.{Codec}
use anvil_events.Domain.V2.Payloads.{Screen}
use anvil_events.Storage.Schema.{Db, EventRow, SequenceRow, DeliveryState}
use anvil_events.Storage.Events.Rows.{
  Envelope, event_of, event_at, heal, set_state, set_puback, merge_state, bump_pending,
  note_failure, is_pending_at, new_row, sequence_of, raise_sequence, update_sequence, last_sequence,
  next_sequence,
}
use anvil_events.Storage.Events.{heal_envelope, puback_write, note_delivery_failure}
use anvil_events.Storage.Events.Put.{Wrote, adds, merges, put-inversion}
use anvil_events.Storage.Events.Calls.{Call, IsKept, after_all, after_all-keeps}

-- Every number that was written is at most the last number of its producer.
abbrev pub IsNumbered : Db → Type 0
IsNumbered db =
    All (λ (r : EventRow). r.producer_seq ≤ last_sequence r.producer db.sequences) db.events

-- Two events differ in the id, and in the producer or the number.
abbrev pub Differs : EventRow → EventRow → Type 0
Differs r s =
    (r.event_id ≡ s.event_id → ⊥) × (r.producer ≡ s.producer → r.producer_seq ≡ s.producer_seq → ⊥)

-- UNIQUE (event_id) and UNIQUE (producer, producer_seq)
abbrev pub IsUnique : List EventRow → Type 0
IsUnique [] = Unit
IsUnique (r ∷ t) = All (Differs r) t × IsUnique t

raised : ℕ → Option SequenceRow → ℕ
raised n none = n
raised n (some r) = if ltb r.last_sequence n then n else r.last_sequence

last_sequence-update_self :
    (p : String) (n : ℕ) (t : List SequenceRow) → n ≤ last_sequence p (update_sequence p n t)
unfolding last_sequence update_sequence
last_sequence-update_self p n t = elim (Option-cases (select (sequence_of p) t)) [
  | inl e ↦
      rw
        (
          e,
          update_sequence,
          last_sequence,
          select-insert (sequence_of p) (record { producer = p; last_sequence = n }) t,
          e,
          beq_refl p,
        )
        (omega arith)
  | inr (r, e) ↦
      rw
        (
          e,
          update_sequence,
          last_sequence,
          select-update (sequence_of p) (sequence_of p) (raise_sequence n) (λ s. refl) t,
          e,
          select_fits (sequence_of p) t {r = r} e,
        )
        (ground arith)
]

last_sequence-grows :
    (p q : String) (n : ℕ) (t : List SequenceRow)
    → last_sequence q t ≤ last_sequence q (update_sequence p n t)
unfolding last_sequence update_sequence
last_sequence-grows p q n t = elim (Option-cases (select (sequence_of p) t)) [
  | inl e ↦
      rw
        (
          e,
          update_sequence,
          last_sequence,
          select-insert (sequence_of q) (record { producer = p; last_sequence = n }) t,
        )
        (ground arith)
  | inr (r, e) ↦
      rw
        (
          e,
          update_sequence,
          last_sequence,
          select-update (sequence_of q) (sequence_of p) (raise_sequence n) (λ s. refl) t,
        )
        (ground arith)
]

module _ {P Q : EventRow → Type 0} where
  All-map : ((r : EventRow) → P r → Q r) → (t : List EventRow) → All P t → All Q t
  All-map f [] h = tt
  All-map f (r ∷ t) h = (f r h.0, All-map f t h.1)

-- An UPDATE that leaves the keys of a row alone.
record IsSameKey (f : EventRow → EventRow) : Type 0 where
  same_id : (r : EventRow) → (f r).event_id ≡ r.event_id
  same_producer : (r : EventRow) → (f r).producer ≡ r.producer
  same_seq : (r : EventRow) → (f r).producer_seq ≡ r.producer_seq

module _ (p : EventRow → Bool) (f : EventRow → EventRow) (same : IsSameKey f) where
  update-IsNumbered :
      (u : List SequenceRow) (t : List EventRow)
      → All (λ r. r.producer_seq ≤ last_sequence r.producer u) t
      → All (λ r. r.producer_seq ≤ last_sequence r.producer u) (update p f t)
  update-IsNumbered u t =
      All-update (λ r. r.producer_seq ≤ last_sequence r.producer u) p f
        (λ r e h. rw (same.same_producer r, same.same_seq r) h) t

  Differs-left : (r s : EventRow) → Differs r s → Differs (f r) s
  Differs-left r s d = (
    (λ e. d.0 (sym (same.same_id r) ∙ e)),
    (λ e g. d.1 (sym (same.same_producer r) ∙ e) (sym (same.same_seq r) ∙ g)),
  )

  Differs-right : (r s : EventRow) → Differs r s → Differs r (f s)
  Differs-right r s d = (
    (λ e. d.0 (e ∙ same.same_id s)),
    (λ e g. d.1 (e ∙ same.same_producer s) (g ∙ same.same_seq s)),
  )

  update-IsUnique : (t : List EventRow) → IsUnique t → IsUnique (update p f t)
  unfolding update
  update-IsUnique [] u = tt
  update-IsUnique (r ∷ t) u =
      let rest = All-update (Differs r) p f (λ s e d. Differs-right r s d) t u.0 in
      elim (Bool-cases (p r)) [
        | inl e ↦ rw e (All-map (Differs-left r) (update p f t) rest, update-IsUnique t u.1)
        | inr e ↦ rw e (rest, update-IsUnique t u.1)
      ]

insert-IsUnique :
    (t : List EventRow) (r : EventRow)
    → IsUnique t
    → select (event_of r.event_id) t ≡ none
    → select (event_at r.producer r.producer_seq) t ≡ none
    → IsUnique (insert r t)
unfolding select
insert-IsUnique [] r u a b = (tt, tt)
insert-IsUnique (s ∷ t) r u a b = (
  All-append (Differs s) t (r ∷ []) u.0 (((λ e. clash_id e), (λ e g. clash_seq e g)), tt),
  insert-IsUnique t r u.1 (ground arith) (ground arith),
)
  where
    clash_id : s.event_id ≡ r.event_id → ⊥
    clash_id e = ground (arith, a, string_eq.agrees_iff s.event_id r.event_id)

    clash_seq : s.producer ≡ r.producer → s.producer_seq ≡ r.producer_seq → ⊥
    clash_seq e g = ground (
      arith,
      b,
      string_eq.agrees_iff s.producer r.producer,
      nat_eq.agrees_iff s.producer_seq r.producer_seq,
    )

pub record IsSound (db : Db) : Type 0 where
  pub numbered : IsNumbered db
  pub unique : IsUnique db.events

update-IsSound :
    (p : EventRow → Bool) (f : EventRow → EventRow) (db : Db)
    → IsSameKey f
    → IsSound db
    → IsSound (record db { events = update p f db.events })
update-IsSound p f db same s = record {
  numbered = update-IsNumbered p f same db.sequences db.events s.numbered;
  unique = update-IsUnique p f same db.events s.unique;
}

-- A producer's last number may rise.
raise-IsSound :
    (p : String) (n : ℕ) (db : Db)
    → IsSound db
    → IsSound (record db { sequences = update_sequence p n db.sequences })
raise-IsSound p n db s = record {
  numbered =
      All-map (λ r h. le_trans h (last_sequence-grows p r.producer n db.sequences)) db.events
        s.numbered;
  unique = s.unique;
}

heal-IsSound :
    (id encoded : String) (now : ℕ) (row : EventRow) (db : Db)
    → IsSound db
    → IsSound (heal_envelope id encoded now row db)
unfolding heal_envelope
heal-IsSound id encoded now row db s = elim (Bool-cases (row.envelope_json == encoded)) [
  | inl e ↦ rw e s
  | inr e ↦ rw e (record { numbered = healed.numbered; unique = healed.unique })
]
  where
    healed : IsSound (record db { events = update (event_of id) (heal encoded) db.events })
    healed =
        update-IsSound (event_of id) (heal encoded) db
          (record { same_id = λ r. refl; same_producer = λ r. refl; same_seq = λ r. refl }) s

module _ (e : Envelope) (encoded digest : String) (state : Option DeliveryState) (journaled : Bool)
    (now : ℕ) (db : Db) where
  Wrote-IsSound :
      {flags : Bool × Bool} {db' : Db}
      → Wrote e encoded digest state journaled now db flags db'
      → IsSound db
      → IsSound db'
  unfolding new_row
  Wrote-IsSound (adds flags db' absent free f same) s =
      let row = new_row e encoded digest (len encoded) state journaled now db.next_row_id in
      let raised = raise-IsSound e.producer e.producer_seq db s in
      rw same (record {
        numbered =
            All-append _ db.events (row ∷ []) raised.numbered
              (last_sequence-update_self e.producer e.producer_seq db.sequences, tt);
        unique = insert-IsUnique db.events row s.unique absent free;
      })
  Wrote-IsSound (merges flags db' row found digest_e f same) s =
      let healed = heal_envelope e.event_id encoded now row db in
      let new_state = merge_state state row.producer_state in
      rw same (
        raise-IsSound e.producer e.producer_seq
          (record healed {
            events = update (event_of e.event_id) (set_state new_state journaled now) healed.events;
          })
          (update-IsSound (event_of e.event_id) (set_state new_state journaled now) healed
            (record { same_id = λ r. refl; same_producer = λ r. refl; same_seq = λ r. refl })
            (heal-IsSound e.event_id encoded now row db s)))

module _ (codec : Codec) (screen : Screen) where
  IsSound-IsKept : IsKept codec screen IsSound
  unfolding bump_pending puback_write note_delivery_failure
  IsSound-IsKept = record {
    by_put = λ event state journaled now db db' flags s h.
        let (e, valid, env, wrote) =
          put-inversion codec screen event state journaled now db db' flags h in
        Wrote-IsSound e _ _ state journaled now db wrote s;
    by_bump = λ db s. record { numbered = s.numbered; unique = s.unique };
    by_ack = λ event e id stream seq duplicate now row db db' flags s f g h.
        let (v, valid, env, wrote) = put-inversion codec screen event _ false now db db' flags h in
        let acked =
          update-IsSound (event_of id) (set_puback stream seq duplicate now) db'
            (record { same_id = λ r. refl; same_producer = λ r. refl; same_seq = λ r. refl })
            (Wrote-IsSound v _ _ _ false now db wrote s) in
        record { numbered = acked.numbered; unique = acked.unique };
    by_note = λ id error retry_after db s.
        update-IsSound (is_pending_at id) (note_failure (clip 300 error) retry_after) db
          (record { same_id = λ r. refl; same_producer = λ r. refl; same_seq = λ r. refl }) s;
  }

  -- Whatever methods of `EventRepository` are called on a database whose events have distinct ids and
  -- numbers, none above the last number of its producer, leave such a database: the UNIQUE constraints
  -- of `events` are never what refuses a write.
  pub after_all-IsSound :
      (cs : List Call) (db : Db) → IsSound db → IsSound (after_all codec screen cs db)
  after_all-IsSound = after_all-keeps codec screen IsSound IsSound-IsKept

next-free :
    (p : String) (u : List SequenceRow) (t : List EventRow)
    → All (λ r. r.producer_seq ≤ last_sequence r.producer u) t
    → select (event_at p (last_sequence p u + 1)) t ≡ none
unfolding select
next-free p u [] h = refl
next-free p u (r ∷ t) h = elim (Bool-cases (event_at p (last_sequence p u + 1) r)) [
  | inl e ↦ absurd (omega (arith, clash e))
  | inr e ↦ rw e (next-free p u t h.1)
]
  where
    clash :
        event_at p (last_sequence p u + 1) r ≡ true → suc (last_sequence p u) ≤ last_sequence p u
    clash e =
        let (same, at) = and-true (r.producer == p) _ e in
        let below =
          subst (λ q. r.producer_seq ≤ last_sequence q u) (eq_of_beq r.producer p same) h.0 in
        omega (arith, eq_of_beq r.producer_seq (last_sequence p u + 1) at)

module _ (codec : Codec) (screen : Screen) where
  -- After any calls of the methods of `EventRepository`, on a database whose events have distinct ids
  -- and numbers, none above the last number of its producer, no event of a producer has the number that
  -- the next emit takes for that producer.
  pub after_all-next-free :
      (cs : List Call) (db : Db) (producer : String)
      → IsSound db
      → let db' = after_all codec screen cs db in
        select (event_at producer (next_sequence producer db'.sequences)) db'.events ≡ none
  unfolding next_sequence
  after_all-next-free cs db producer s =
      let db' = after_all codec screen cs db in
      next-free producer db'.sequences db'.events (after_all-IsSound codec screen cs db s).numbered
