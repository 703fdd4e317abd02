-- ===== src/Facts/Store/Ledger.antt =====
-- The facts as a function from event ids to texts, over any calls of `add`.
use anvil_events.Base.{
  ℕ, String, true, Option, none, some, List, [], ◌∷◌, ◌≡◌, refl, sym, ap, ◌∙◌, ◌==◌, string_eq,
  fun_ext, if◌then◌else◌, Bool-cases, Option-cases, inl, inr, beq_refl, eq_of_beq,
}
use mathlib.Core.Option
use anvil_events.Result.{Result, ok, err, value_error, transaction, commit}
use anvil_events.Table.{select, insert}
use anvil_events.Table.Laws.{select-insert}
use anvil_events.Json.{Fields, Codec, object, get, as_text}
use anvil_events.Domain.V1.{validate_event}
use anvil_events.Domain.V2.Payloads.{Screen}
use anvil_events.Storage.Schema.{Db, FactRow}
use anvil_events.Facts.Store.{fact_of, encoded_fact, fact_row, add, add_in, add_as, add_valid}

-- What a reader sees: the text of the fact of each event.
abbrev pub Facts : Type 0
Facts = String → Option String

-- What a call answers.
pub data Reply : Type 0 where
  stored known collides : Reply

-- The contract: the first fact of an event stays, and a different one is refused.
unfoldable pub offer : String → String → Facts → Facts
offer id encoded facts j = elim (facts id) [
  | none ↦ if id == j then some encoded else facts j
  | some old ↦ facts j
]

abbrev pub answer : String → Option String → Reply
answer encoded none = stored
answer encoded (some old) = if old == encoded then known else collides

module _ (codec : Codec) where
  unfoldable pub view : Db → Facts
  view db id = Option.map (λ (r : FactRow). r.fact_json) (select (fact_of id) db.facts)

  -- The digest of a row is that of its text.
  unfoldable pub IsSealed : Db → Type 0
  IsSealed db =
      (id : String) (r : FactRow)
      → select (fact_of id) db.facts ≡ some r
      → r.fact_sha256 ≡ codec.sha256 r.fact_json

  -- A call of `add` that returned or raised.
  abbrev pub answer_of : Result (Option Fields) → Reply
  answer_of (ok none) = known
  answer_of (ok (some fact)) = stored
  answer_of (err e) = collides

  insert-IsSealed :
      (event : Fields) (id : String) (now : ℕ) (db : Db)
      → IsSealed db
      → IsSealed (record db { facts = insert (fact_row codec id event now) db.facts })
  unfolding IsSealed
  insert-IsSealed event id now db sealed j r h =
      let row = fact_row codec id event now in
      let h' = sym (select-insert (fact_of j) row db.facts) ∙ h in
      elim (Option-cases (select (fact_of j) db.facts)) [
        | inr (s, e) ↦ let same : s ≡ r = cc (rw e at h') in rw (← same) (sealed j s e)
        | inl e ↦ elim (Bool-cases (id == j)) [
          | inl f ↦ let same : row ≡ r = cc (rw (e, f) at h') in rw (← same) refl
          | inr f ↦ absurd (cc (rw (e, f) at h'))
        ]
      ]

  insert-view :
      (event : Fields) (id : String) (now : ℕ) (db : Db)
      → select (fact_of id) db.facts ≡ none
      → view (record db { facts = insert (fact_row codec id event now) db.facts })
        ≡ offer id (encoded_fact codec event) (view db)
  unfolding view offer
  insert-view event id now db free = fun_ext λ j.
      let found = select-insert (fact_of j) (fact_row codec id event now) db.facts in
      elim (Bool-cases (id == j)) [
        | inl f ↦
            let absent : select (fact_of j) db.facts ≡ none =
              ap (λ i. select (fact_of i) db.facts) (sym (eq_of_beq id j f)) ∙ free in
            rw (offer, view, found, free, absent, f) refl
        | inr f ↦ elim (Option-cases (select (fact_of j) db.facts)) [
          | inl e ↦ rw (offer, view, found, free, e, f) refl
          | inr (s, e) ↦ rw (offer, view, found, free, e, f) refl
        ]
      ]

  known-view :
      (id : String) (encoded : String) (db : Db) (row : FactRow)
      → select (fact_of id) db.facts ≡ some row
      → view db ≡ offer id encoded (view db)
  unfolding view offer
  known-view id encoded db row found = fun_ext λ j. rw (offer, view, found) refl

  -- What `add` does to an event with an id.
  record Refines (event : Fields) (id : String) (db : Db) (p : Result (Option Fields) × Db)
      : Type 0 where
    is_sealed : IsSealed p.1
    same_view : view p.1 ≡ offer id (encoded_fact codec event) (view db)
    same_answer : answer_of p.0 ≡ answer (encoded_fact codec event) (view db id)

  known-Refines :
      (event : Fields) (id : String) (now : ℕ) (db : Db) (row : FactRow)
      → IsSealed db
      → select (fact_of id) db.facts ≡ some row
      → Refines event id db (commit db (add_as codec id event now (some row) db))
  unfolding view add_as IsSealed
  known-Refines event id now db row sealed found =
      let encoded = encoded_fact codec event in
      let same_row = known-view id encoded db row found in
      elim (Bool-cases (row.fact_json == encoded)) [
        | inl e ↦
            let digest : (row.fact_sha256 == codec.sha256 encoded) ≡ true =
              ap (λ d. d == codec.sha256 encoded)
                (sealed id row found ∙ ap codec.sha256 (eq_of_beq row.fact_json encoded e))
              ∙ beq_refl (codec.sha256 encoded) in
            rw (e, digest, add_as)
              (record {
                is_sealed = sealed;
                same_view = same_row;
                same_answer = rw (view, found, e) refl;
              })
        | inr e ↦
            rw (e, add_as)
              (record {
                is_sealed = sealed;
                same_view = same_row;
                same_answer = rw (view, found, e) refl;
              })
      ]

  new-Refines :
      (event : Fields) (id : String) (now : ℕ) (db : Db)
      → IsSealed db
      → select (fact_of id) db.facts ≡ none
      → Refines event id db (commit db (add_as codec id event now none db))
  unfolding view add_as
  new-Refines event id now db sealed free = record {
    is_sealed = insert-IsSealed event id now db sealed;
    same_view = insert-view event id now db free;
    same_answer = rw (view, free) refl;
  }

  add_in-Refines :
      (event : Fields) (id : String) (now : ℕ) (db : Db)
      → as_text (get "event_id" event) ≡ some id
      → IsSealed db
      → Refines event id db (transaction (add_in codec event now) db)
  unfolding transaction add_in
  add_in-Refines event id now db has sealed = elim (Option-cases (select (fact_of id) db.facts)) [
    | inl e ↦ rw (has, e, transaction, add_in) (new-Refines event id now db sealed e)
    | inr (row, e) ↦ rw (has, e, transaction, add_in) (known-Refines event id now db row sealed e)
  ]

-- A call of `add`: an event, and the time.
abbrev pub Call : Type 0
Call = Fields × ℕ

module _ (codec : Codec) (screen : Screen) (allowed : Option (List String)) where
  -- The database after calls of `add`, whether they return or raise.
  unfoldable pub add_all : List Call → Db → Db
  add_all [] db = db
  add_all ((event, now) ∷ calls) db = add_all calls (add codec screen allowed event now db).1

  -- The contract for an event that may be refused.
  abbrev pub accept : Result (Unit {0}) → Option String → String → Facts → Facts
  accept (ok u) (some id) encoded facts = offer id encoded facts
  accept _ _ encoded facts = facts

  unfoldable pub replay : List Call → Facts → Facts
  replay [] facts = facts
  replay ((event, now) ∷ calls) facts = replay calls (
      accept (validate_event codec screen allowed (object event)) (as_text (get "event_id" event))
        (encoded_fact codec event) facts)

  Steps : Fields → Db → Result (Unit {0}) → Db → Type 0
  Steps event db verdict db' =
      IsSealed codec db'
      × (view codec db'
          ≡ accept verdict (as_text (get "event_id" event)) (encoded_fact codec event)
              (view codec db))

  add_valid-Steps :
      (event : Fields) (now : ℕ) (db : Db) (verdict : Result (Unit {0}))
      → IsSealed codec db
      → Steps event db verdict (add_valid codec verdict event now db).1
  unfolding Steps transaction add_in
  add_valid-Steps event now db (err (value_error reason)) sealed = (sealed, refl)
  add_valid-Steps event now db (err _) sealed = (sealed, refl)
  add_valid-Steps event now db (ok u) sealed =
      elim (Option-cases (as_text (get "event_id" event))) [
        | inl e ↦ rw (e, transaction, add_in) (sealed, refl)
        | inr (id, e) ↦
            let step = add_in-Refines codec event id now db e sealed in
            let contract =
              ap (λ o. accept (ok u) o (encoded_fact codec event) (view codec db)) (sym e) in
            (step.is_sealed, step.same_view ∙ contract)
      ]

  -- The facts refine their contract: after any calls of `add`, on a database whose digests are right, the
  -- texts that are read under the event ids are those that the calls leave in a function from ids to
  -- texts, where the first fact of a valid event stays; and the digests are right.
  pub add_all-replay :
      (calls : List Call) (db : Db)
      → IsSealed codec db
      → IsSealed codec (add_all calls db)
        × (view codec (add_all calls db) ≡ replay calls (view codec db))
  unfolding add_all replay add Steps
  add_all-replay [] db sealed = (sealed, refl)
  add_all-replay ((event, now) ∷ calls) db sealed =
      let (sealed', same) =
        add_valid-Steps event now db (validate_event codec screen allowed (object event)) sealed in
      let (done, rest) = add_all-replay calls (add codec screen allowed event now db).1 sealed' in
      (done, rest ∙ ap (replay calls) same)
