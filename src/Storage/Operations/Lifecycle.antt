-- ===== src/Storage/Operations/Lifecycle.antt =====
-- The lifecycle of an operation under the methods of `OperationLedger`.
pub mod Methods
use anvil_events.Base.{
  ℕ, String, Bool, true, false, Option, none, some, List, [], ◌∷◌, ◌≡◌, refl, sym, ◌∙◌, ap, ◌==◌,
  string_eq, is_some, if◌then◌else◌, arith, nat_eq, option_eq, Bool-cases, Option-cases, inl, inr,
  ◌&&◌, not, subst,
}
use anvil_events.Result.{
  Result, ok, err, guard, or_raise, ◌>>=◌, ◌>>◌, Writes, Writes-intro, transaction-Writes,
  transaction, bind-then, guard-then, or_raise-then, Result-cases, runtime_error, key_error,
  value_error,
}
use anvil_events.Table.{select, insert, update, count}
use anvil_events.Table.Laws.{select-update, select-insert}
use anvil_events.Json.{Json, Fields, Codec, get, as_text}
use anvil_events.Domain.V2.Payloads.{Screen}
use anvil_events.Domain.V2.{make_event_v2}
use anvil_events.Storage.Schema.{Db, OperationRow, OperationState, DeliveryState}
use anvil_events.Storage.Events.Rows.{Envelope, bump_pending, next_sequence}
use anvil_events.Storage.Events.{put, put_pending, emit_v2_in, heal_envelope}
use anvil_events.Storage.Events.Put.{Wrote, adds, merges, put-inversion}
use mathlib.Core.Bool.{false≢true}
use anvil_events.Storage.Operations.{
  expected_state, expected_error, is_prepared, operation_of, with_key, prepared_at_id,
  insert_operation, prepare, prepare_in, prepare_as, record_v2, record_in, record_as, resolve,
  resolve_in, resolve_first, resolve_again, mark_indeterminate, set_resolved, set_indeterminate,
  check_names, check_name, prepared_row, recorded_row, stored_event, intent_of, is_indeterminate,
}

-- An operation keeps its identity and its intent, and one that is not prepared keeps its row.
pub record Evolves (r r' : OperationRow) : Type 0 where
  pub same_id : r'.operation_id ≡ r.operation_id
  pub same_key : r'.idempotency_key ≡ r.idempotency_key
  pub same_producer : r'.producer ≡ r.producer
  pub same_kind : r'.kind ≡ r.kind
  pub same_intent : r'.intent_json ≡ r.intent_json
  pub settled : is_prepared r.state ≡ false → r' ≡ r

pub data Call : Type 0 where
  prepares : String → String → String → String → Json → Option String → ℕ → Call
  records :
      String
      → String
      → String
      → String
      → String
      → Json
      → Option String
      → List String
      → String
      → ℕ
      → Call
  resolves : String → String → Json → Bool → Option String → String → ℕ → Call
  marks : String → String → Call

module _ (codec : Codec) (screen : Screen) where
  -- What a call leaves, whether it returns or raises.
  unfoldable pub after : Call → Db → Db
  after (prepares id key producer kind intent correlation now) db =
      (prepare codec screen id key producer kind intent correlation now db).1
  after (records id key producer kind node payload correlation causes clock now) db =
      (record_v2 codec screen id key producer kind node payload correlation causes clock now db).1
  after (resolves id node payload succeeded error clock now) db =
      (resolve codec screen id node payload succeeded error clock now db).1
  after (marks id error) db = (mark_indeterminate id error db).1

  unfoldable pub after_all : List Call → Db → Db
  unfolding after
  after_all [] db = db
  after_all (c ∷ cs) db = after_all cs (after c db)

Evolves-refl : (r : OperationRow) → Evolves r r
Evolves-refl r = record {
  same_id = refl;
  same_key = refl;
  same_producer = refl;
  same_kind = refl;
  same_intent = refl;
  settled = λ h. refl;
}

Evolves-trans : (r s t : OperationRow) → Evolves r s → Evolves s t → Evolves r t
Evolves-trans r s t a b = record {
  same_id = b.same_id ∙ a.same_id;
  same_key = b.same_key ∙ a.same_key;
  same_producer = b.same_producer ∙ a.same_producer;
  same_kind = b.same_kind ∙ a.same_kind;
  same_intent = b.same_intent ∙ a.same_intent;
  settled = λ h.
      b.settled (ap (λ (x : OperationRow). is_prepared x.state) (a.settled h) ∙ h) ∙ a.settled h;
}

-- Every operation of the one table is in the other, evolved.
Carries : List OperationRow → List OperationRow → Type 0
Carries t u =
    (id : String) (r : OperationRow)
    → select (operation_of id) t ≡ some r
    → (r' : OperationRow) × (select (operation_of id) u ≡ some r') × Evolves r r'

Carries-refl : (t : List OperationRow) → Carries t t
unfolding Carries
Carries-refl t id r h = (r, h, Evolves-refl r)

Carries-trans : (t u v : List OperationRow) → Carries t u → Carries u v → Carries t v
unfolding Carries
Carries-trans t u v a b id r h =
    let (s, hs, rs) = a id r h in let (w, hw, sw) = b id s hs in (w, hw, Evolves-trans r s w rs sw)

-- An UPDATE of prepared rows that keeps their identity and their intent.
update-Carries :
    (id : String) (f : OperationRow → OperationRow) (t : List OperationRow)
    → ((r : OperationRow) → (f r).operation_id ≡ r.operation_id)
    → ((r : OperationRow) → is_prepared r.state ≡ true → Evolves r (f r))
    → Carries t (update (prepared_at_id id) f t)
unfolding Carries
update-Carries id f t keeps step i r h =
    let moved =
      select-update (operation_of i) (prepared_at_id id) f (λ s. ap (λ x. x == i) (keeps s)) t in
    elim (Bool-cases (prepared_at_id id r)) [
      | inl e ↦ (f r, moved ∙ rw (h, e) refl, step r (ground (arith, e)))
      | inr e ↦ (r, moved ∙ rw (h, e) refl, Evolves-refl r)
    ]

insert-Carries :
    (row : OperationRow) (db db' : Db)
    → insert_operation row db ≡ ok db'
    → Carries db.operations db'.operations
unfolding insert_operation Carries
insert-Carries row db db' h id r found =
    let written : db'.operations ≡ insert row db.operations = ground (arith, h) in
    (
      r,
      ap (select (operation_of id)) written
          ∙ select-insert (operation_of id) row db.operations
          ∙ rw found refl,
      Evolves-refl r,
    )

Wrote-operations :
    (e : Envelope) (encoded digest : String) (state : Option DeliveryState) (journaled : Bool)
    (now : ℕ) (db db' : Db) (flags : Bool × Bool)
    → Wrote e encoded digest state journaled now db flags db'
    → db'.operations ≡ db.operations
unfolding heal_envelope
Wrote-operations e encoded digest state journaled now db db' flags (adds _ _ absent free f same) =
    ap (λ (d : Db). d.operations) same
Wrote-operations e encoded digest state journaled now db db' flags (merges _ _ row found d f same) =
    ap (λ (d : Db). d.operations) same ∙ healed (row.envelope_json == encoded)
  where
    healed : (b : Bool) → (heal_envelope e.event_id encoded now row db).operations ≡ db.operations
    healed b = ground arith

module _ (codec : Codec) (screen : Screen) where
  put_pending-operations :
      (event event' : Fields) (now : ℕ) (db db' : Db)
      → put_pending codec screen event now db ≡ ok (event', db')
      → db'.operations ≡ db.operations
  unfolding put_pending bump_pending
  put_pending-operations event event' now db db' h =
      let body : (Bool × Bool) × Db → Result (Fields × Db) =
        λ r. ok (event, if r.0.1 then bump_pending r.1 else r.1) in
      let ((flags, db0), wrote, done) =
        bind-then (put codec screen event (some DeliveryState.pending) false now db) body h in
      let same : db'.operations ≡ db0.operations = ground (arith, done) in
      let (e, valid, env, w) =
        put-inversion codec screen event (some DeliveryState.pending) false now db db0 flags
          wrote in
      same ∙ Wrote-operations e _ _ _ false now db db0 flags w

  emit-operations :
      (producer kind node : String) (payload : Json) (correlation : Option String)
      (causes : List String) (clock : String) (now : ℕ) (event : Fields) (db db' : Db)
      → emit_v2_in codec screen producer kind node payload correlation causes clock now db
        ≡ ok (event, db')
      → db'.operations ≡ db.operations
  unfolding emit_v2_in
  emit-operations producer kind node payload correlation causes clock now event db db' h =
      let made =
        make_event_v2 codec screen producer kind node payload (next_sequence producer db.sequences)
          correlation causes clock in
      let (event0, e, wrote) = bind-then made (λ x. put_pending codec screen x now db) h in
      put_pending-operations event0 event now db db' wrote
