-- ===== src/Storage/Operations/Lifecycle/Methods.antt =====
-- What each method of `OperationLedger` does to the table of operations.
use anvil_events.Base.{
  ℕ, String, Bool, false, Option, none, some, List, [], ◌∷◌, ◌≡◌, refl, sym, ◌∙◌, ◌==◌, string_eq,
  is_some, arith, nat_eq, option_eq, Bool-cases, Option-cases, inl, inr, ◌&&◌, not, subst,
}
use anvil_events.Result.{
  Result, ok, guard, or_raise, ◌>>=◌, ◌>>◌, Writes, Writes-intro, transaction-Writes, bind-then,
  guard-then, or_raise-then, Result-cases, runtime_error, key_error, value_error,
}
use anvil_events.Table.{select, update, count}
use anvil_events.Json.{Json, Fields, Codec, get, as_text}
use anvil_events.Domain.V2.Payloads.{Screen}
use anvil_events.Storage.Schema.{Db, OperationRow, OperationState}
use anvil_events.Storage.Events.{emit_v2_in}
use mathlib.Core.Bool.{false≢true}
use anvil_events.Storage.Operations.{
  expected_state, expected_error, is_prepared, operation_of, with_key, prepared_at_id,
  insert_operation, prepare, prepare_in, prepare_as, record_v2, record_in, record_as, resolve,
  resolve_in, resolve_first, resolve_again, mark_indeterminate, set_resolved, set_indeterminate,
  check_names, check_name, is_indeterminate,
}
use anvil_events.Storage.Operations.Lifecycle.{
  Evolves, Evolves-refl, Evolves-trans, Call, prepares, records, resolves, marks, after, after_all,
  Carries, Carries-refl, update-Carries, insert-Carries, emit-operations,
}

Kept : Db → Db → Type 0
unfolding Carries
Kept db db' = Carries db.operations db'.operations

Kept-refl : (db : Db) → Kept db db
unfolding Kept Carries
Kept-refl db = Carries-refl db.operations

insert-Kept :
    {A : Type 0} (a : A) (row : OperationRow) (db0 db : Db)
    → db.operations ≡ db0.operations
    → Writes (Kept db0) (insert_operation row db >>= λ db'. ok (a, db'))
unfolding Kept
insert-Kept a row db0 db same = elim (Result-cases (insert_operation row db)) [
  | inr (x, e) ↦ rw e tt
  | inl (db', e) ↦ rw e (rw (← same) (insert-Carries row db db' e))
]

module _ (codec : Codec) (screen : Screen) (db : Db) where
  prepare_in-Kept :
      (id key producer kind : String) (intent : Json) (correlation : Option String) (now : ℕ)
      → Writes (Kept db) (prepare_in codec screen id key producer kind intent correlation now db)
  unfolding prepare_in
  prepare_in-Kept id key producer kind intent correlation now =
      elim (Result-cases (check_names (id ∷ key ∷ producer ∷ kind ∷ []))) [
        | inr (x, e) ↦ rw (e, prepare_in) tt
        | inl (u, e) ↦ elim (Option-cases (select (with_key key) db.operations)) [
          | inl f ↦ rw (e, f, prepare_in) (insert-Kept _ _ db db refl)
          | inr (r, f) ↦
              rw (e, f, prepare_in)
                (Writes-intro (Kept db)
                  (prepare_as codec screen id key producer kind correlation (codec.dumps intent) now
                    (some r) db)
                  λ a s h. subst (Kept db) (ground (arith, h)) (Kept-refl db))
        ]
      ]

  record_in-Kept :
      (id key producer kind node : String) (payload : Json) (correlation : Option String)
      (causes : List String) (clock : String) (now : ℕ)
      → Writes
          (Kept db)
          (record_in codec screen id key producer kind node payload correlation causes clock now db)
  unfolding record_in
  record_in-Kept id key producer kind node payload correlation causes clock now =
      elim (Result-cases (check_names (id ∷ key ∷ producer ∷ kind ∷ node ∷ []))) [
        | inr (x, e) ↦ rw (e, record_in) tt
        | inl (u, e) ↦ elim (Option-cases (select (with_key key) db.operations)) [
          | inl f ↦ rw (e, f, record_in) recorded
          | inr (r, f) ↦ rw (e, f, record_in) (replayed r)
        ]
      ]
    where
      recorded : Writes (Kept db) (
          record_as codec screen id key producer kind node payload correlation causes clock now none
            db)
      recorded = elim (Bool-cases (is_some (select (operation_of id) db.operations))) [
        | inl g ↦ rw g tt
        | inr g ↦
            elim (Result-cases (
              emit_v2_in codec screen producer kind node payload correlation causes clock now db)) [
                | inr (x, e) ↦ rw (g, e) tt
                | inl ((event, db'), e) ↦ elim (Option-cases (as_text (get "event_id" event))) [
                  | inl f ↦ rw (g, e, f) tt
                  | inr (i, f) ↦
                      rw (g, e, f)
                        (insert-Kept _ _ db db' (
                          emit-operations codec screen producer kind node payload correlation causes
                            clock now event db db' e))
                ]
              ]
      ]

      replayed :
          (r : OperationRow)
          → Writes (Kept db) (
              record_as codec screen id key producer kind node payload correlation causes clock now
                (some r)
                db)
      replayed r =
          Writes-intro (Kept db)
            (record_as codec screen id key producer kind node payload correlation causes clock now
              (some r) db)
            λ a s h. subst (Kept db) (ground (arith, h)) (Kept-refl db)

  resolve_again-Kept :
      (r : OperationRow) (node : String) (payload : Json) (succeeded : Bool) (error : Option String)
      → Writes (Kept db) (resolve_again codec screen r node payload succeeded error db)
  unfolding resolve_again
  resolve_again-Kept r node payload succeeded error =
      Writes-intro (Kept db) (resolve_again codec screen r node payload succeeded error db)
        λ a s h. subst (Kept db) (ground (arith, h)) (Kept-refl db)

  -- The UPDATE of a resolution, on the row that is prepared.
  resolved-Kept :
      (id : String) (state : OperationState) (now : ℕ) (event_id : String) (error : Option String)
      (db' : Db)
      → db'.operations ≡ db.operations
      → Kept db (record db' {
        operations =
            update (prepared_at_id id) (set_resolved state now event_id error) db'.operations;
      })
  unfolding Kept
  resolved-Kept id state now event_id error db' same = rw (← same) (
      update-Carries id (set_resolved state now event_id error) db'.operations (λ r. refl)
        λ r p. record {
          same_id = refl;
          same_key = refl;
          same_producer = refl;
          same_kind = refl;
          same_intent = refl;
          settled = λ h. absurd (false≢true (sym h ∙ p));
        })

  resolve_first-Kept :
      (r : OperationRow) (node : String) (payload : Json) (succeeded : Bool) (error : Option String)
      (clock : String) (now : ℕ)
      → Writes (Kept db) (resolve_first codec screen r node payload succeeded error clock now db)
  unfolding resolve_first
  resolve_first-Kept r node payload succeeded error clock now =
      Writes-intro (Kept db)
        (resolve_first codec screen r node payload succeeded error clock now db)
        λ a s h.
          let last : Fields → Db → String → Result ((Fields × Bool) × Db) = λ event db' event_id.
            guard (count (prepared_at_id r.operation_id) db'.operations == 1)
              (runtime_error "operation state changed during resolution")
            >> ok (
              (event, false),
              record db' {
                operations =
                    update (prepared_at_id r.operation_id)
                      (set_resolved (expected_state succeeded) now event_id (expected_error error))
                      db'.operations;
              },
            ) in
          let after_emit : Fields × Db → Result ((Fields × Bool) × Db) =
            λ e. or_raise (as_text (get "event_id" e.0)) (key_error "event_id") >>= last e.0 e.1 in
          let emit : Json → Result (Fields × Db) = λ durable.
            emit_v2_in codec screen r.producer r.kind node durable r.correlation_id [] clock now
              db in
          let with_intent : Result ((Fields × Bool) × Db) =
            or_raise (codec.loads r.intent_json) (value_error "intent") >>= λ j.
            emit j >>= after_emit in
          let (is_open, h1) =
            guard-then (is_prepared r.state)
              (value_error "operation is not prepared for resolution")
              (guard (codec.dumps payload == r.intent_json)
                  (value_error "operation resolution differs from durable intent")
                >> with_intent)
              h in
          let (same, h2) =
            guard-then (codec.dumps payload == r.intent_json)
              (value_error "operation resolution differs from durable intent") with_intent h1 in
          let (durable, loaded, h3) =
            or_raise-then (codec.loads r.intent_json) (value_error "intent")
              (λ j. emit j >>= after_emit) h2 in
          let ((event, db'), emitted, h4) = bind-then (emit durable) after_emit h3 in
          let (event_id, has, h5) =
            or_raise-then (as_text (get "event_id" event)) (key_error "event_id") (last event db')
              h4 in
          subst (Kept db) (ground (arith, h5)) (
            resolved-Kept r.operation_id (expected_state succeeded) now event_id
              (expected_error error) db'
              (emit-operations codec screen r.producer r.kind node durable r.correlation_id [] clock
                now event db db' emitted))

  resolve_in-Kept :
      (id node : String) (payload : Json) (succeeded : Bool) (error : Option String)
      (clock : String) (now : ℕ)
      → Writes (Kept db) (resolve_in codec screen id node payload succeeded error clock now db)
  unfolding resolve_in
  resolve_in-Kept id node payload succeeded error clock now = elim (Result-cases (check_name id)) [
    | inr (x, e) ↦ rw (e, resolve_in) tt
    | inl (u, e) ↦ elim (Option-cases (select (operation_of id) db.operations)) [
      | inl f ↦ rw (e, f, resolve_in) tt
      | inr (r, f) ↦ elim (Bool-cases (is_indeterminate r.state)) [
        | inl g ↦ rw (e, f, g, resolve_in) tt
        | inr g ↦ elim (Bool-cases (is_some r.event_id && not (r.event_id == some ""))) [
          | inl k ↦ rw (e, f, g, k, resolve_in) (resolve_again-Kept r node payload succeeded error)
          | inr k ↦
              rw (e, f, g, k, resolve_in)
                (resolve_first-Kept r node payload succeeded error clock now)
        ]
      ]
    ]
  ]

  mark-Kept : (id error : String) → Kept db (mark_indeterminate id error db).1
  unfolding mark_indeterminate Kept
  mark-Kept id error =
      update-Carries id (set_indeterminate error) db.operations (λ r. refl)
        λ r p. record {
          same_id = refl;
          same_key = refl;
          same_producer = refl;
          same_kind = refl;
          same_intent = refl;
          settled = λ h. absurd (false≢true (sym h ∙ p));
        }

module _ (codec : Codec) (screen : Screen) where
  after-Kept : (c : Call) (db : Db) → Kept db (after codec screen c db)
  unfolding after prepare record_v2 resolve
  after-Kept (prepares id key producer kind intent correlation now) db =
      transaction-Writes (Kept db) _ db (Kept-refl db)
        (prepare_in-Kept codec screen db id key producer kind intent correlation now)
  after-Kept (records id key producer kind node payload correlation causes clock now) db =
      transaction-Writes (Kept db) _ db (Kept-refl db) (
        record_in-Kept codec screen db id key producer kind node payload correlation causes clock
          now)
  after-Kept (resolves id node payload succeeded error clock now) db =
      transaction-Writes (Kept db) _ db (Kept-refl db)
        (resolve_in-Kept codec screen db id node payload succeeded error clock now)
  after-Kept (marks id error) db = mark-Kept codec screen db id error

  -- Whatever methods of `OperationLedger` are called, in whatever order and on whatever arguments, an
  -- operation that is in the ledger stays there with its key, its producer, its kind and its intent,
  -- and one that is recorded, applied, failed or indeterminate keeps its whole row.
  pub after_all-Evolves :
      (cs : List Call) (db : Db) (id : String) (r : OperationRow)
      → select (operation_of id) db.operations ≡ some r
      → (r' : OperationRow) × (select (operation_of id) (after_all codec screen cs db).operations
          ≡ some r')
        × Evolves r r'
  unfolding after_all Kept Carries
  after_all-Evolves [] db id r h = (r, h, Evolves-refl r)
  after_all-Evolves (c ∷ cs) db id r h =
      let (s, at, first) = after-Kept c db id r h in
      let (t, at', rest) = after_all-Evolves cs (after codec screen c db) id s at in
      (t, at', Evolves-trans r s t first rest)
