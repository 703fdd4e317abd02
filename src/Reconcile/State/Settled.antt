-- ===== src/Reconcile/State/Settled.antt =====
-- An attempt that failed, or whose process ended during the external apply, in reconciliation/state.py.
use anvil_events.Base.{
  ℕ, String, Bool, true, false, none, some, List, [], ◌∷◌, ◌≡◌, ◌≢◌, ◌∙◌, sym, refl, ap, ◌==◌,
  string_eq, is_some, arith, All, All-append, beq_refl, beq_of_ne, ne_of_beq, subst, eq_of_beq,
  Option-cases, inl, inr,
}
use text.Mathlib.TextEquality.{eq_iff}
use anvil_events.Result.{ok, err, value_error}
use anvil_events.Table.{select, update}
use anvil_events.Table.Laws.{
  select-insert, select-delete-none, select-delete_self, is_some-select-update, select_fits,
  All-update, All-update_every, All-select, is_some-select-insert,
}
use anvil_events.Json.{Codec}
use anvil_events.Storage.Schema.{Db, AttemptRow, ApplicationRow, AttemptState}
use anvil_events.Reconcile.Contracts.{Preview}
use anvil_events.Reconcile.Desired.{Desired, operation_id}
use anvil_events.Reconcile.State.Rows.{attempt_of, application_of, application_at, attempt_fits}
use anvil_events.Reconcile.State.Cases.{
  opened, claim-keeps, complete-keeps, begin-keeps, reopen-keeps,
}
use anvil_events.Reconcile.State.Calls.{
  Call, claims, reopens, begins, previews, completes, fails, after, after_all, is_reopening,
}
use anvil_events.Reconcile.State.{
  indeterminate, give_up, set_applied, set_failed, set_preview_of, encode_preview, abandon,
  attempt_row, application_row, prepared_of, previewable_of, reopen, claim, claim_in, begin_apply,
  begin_apply_in, set_preview, complete, write_applied, reopen_applied, fail,
}

abbrev pub is_settled : AttemptState → Bool
is_settled AttemptState.failed = true
is_settled AttemptState.indeterminate = true
is_settled _ = false

-- The rows of `reconcile_attempts` with that key are settled.
abbrev pub SettledRow : String → AttemptRow → Type 0
SettledRow id a = attempt_of id a ≡ true → is_settled a.state ≡ true

-- The attempt is there, it is settled, and no marker says that its external apply is under way.
pub record IsSettled (id : String) (db : Db) : Type 0 where
  pub there : is_some (select (attempt_of id) db.attempts) ≡ true
  pub settled : All (SettledRow id) db.attempts
  pub unmarked : select (application_of id) db.applications ≡ none

abandon-IsSettled :
    (id other : String) (now : ℕ) (db : Db) → IsSettled id db → IsSettled id (abandon other now db)
unfolding abandon
abandon-IsSettled id other now db s = record {
  there =
      is_some-select-update (attempt_of id) (attempt_of other) (give_up now) (λ a. refl) db.attempts
      ∙ s.there;
  settled =
      All-update (SettledRow id) (attempt_of other) (give_up now) (λ a p h k. refl) db.attempts
        s.settled;
  unmarked =
      select-delete-none (application_of id) (application_of other) db.applications s.unmarked;
}

-- A new attempt has another key: `reconcile_attempts` has a row with this one.
opened_other :
    (id other : String) (d : Desired) (node : String) (now : ℕ) (db : Db)
    → is_some (select (attempt_of id) db.attempts) ≡ true
    → attempt_fits db (attempt_row d node other now) ≡ true
    → other ≢ id
unfolding attempt_fits attempt_row
opened_other id other d node now db s f e = ground (arith, f, rw (← e) at s)

opened-IsSettled :
    (id other : String) (d : Desired) (node : String) (now : ℕ) (db : Db)
    → IsSettled id db
    → attempt_fits db (attempt_row d node other now) ≡ true
    → IsSettled id (opened d node other now db)
unfolding attempt_row
opened-IsSettled id other d node now db s f = record {
  there = is_some-select-insert (attempt_of id) (attempt_row d node other now) db.attempts s.there;
  settled =
      All-append (SettledRow id) db.attempts _ s.settled
        ((λ e. absurd (opened_other id other d node now db s.there f (eq_of_beq other id e))), tt);
  unmarked = s.unmarked;
}

claim-IsSettled :
    (codec : Codec) (id : String) (d : Desired) (node : String) (now : ℕ) (db : Db)
    → IsSettled id db
    → IsSettled id (claim codec node d now db).1
claim-IsSettled codec id d node now db s =
    claim-keeps (IsSettled id) codec d node now db s
      (λ a e. abandon-IsSettled id a.operation_id now db s)
      (λ db' h f l. opened-IsSettled id _ d node now db' h f)

-- An update of another key's rows.
other-IsSettled :
    (id other : String) (p : AttemptRow → Bool) (f : AttemptRow → AttemptRow) (db : Db)
    → ((a : AttemptRow) → p a ≡ true → attempt_of other a ≡ true)
    → ((a : AttemptRow) → (f a).operation_id ≡ a.operation_id)
    → other ≢ id
    → IsSettled id db
    → IsSettled id (record db { attempts = update p f db.attempts })
other-IsSettled id other p f db only keeps ne s = record {
  there = is_some-select-update (attempt_of id) p f (λ a. rw (keeps a)) db.attempts ∙ s.there;
  settled =
      All-update (SettledRow id) p f
        (λ a q h k. absurd (
          ne (
            sym (eq_of_beq a.operation_id other (only a q))
            ∙ eq_of_beq a.operation_id id (rw (keeps a) at k))))
        db.attempts s.settled;
  unmarked = s.unmarked;
}

module _ (id : String) (db : Db) (s : IsSettled id db) where
  begun_other :
      (other : String) (a : AttemptRow)
      → select (prepared_of other) db.attempts ≡ some a
      → other ≢ id
  begun_other other a e same = ground (
    arith,
    All-select (SettledRow id) (prepared_of other) db.attempts {r = a} s.settled e,
    select_fits (prepared_of other) db.attempts {r = a} e,
    eq_of_beq a.operation_id other,
    beq_refl id,
  )

  begin-IsSettled : (other : String) (now : ℕ) → IsSettled id (begin_apply other now db).1
  begin-IsSettled other now = begin-keeps (IsSettled id) other now db s λ a e f. record {
    there = s.there;
    settled = s.settled;
    unmarked =
        rw
          (
            select-insert (application_of id) (application_row other a now) db.applications,
            s.unmarked,
          )
          (rw (beq_of_ne other id (begun_other other a e)));
  }

  marked_other :
      (other : String) → is_some (select (application_of other) db.applications) ≡ true → other ≢ id
  marked_other other a same = ground (arith, s.unmarked, rw same at a)

  complete-IsSettled :
      (other : String) (d : Desired) (node : String) (now : ℕ)
      → IsSettled id (complete other d node now db).1
  unfolding write_applied
  complete-IsSettled other d node now = complete-keeps (IsSettled id) other d node now db s λ a n f.
      let t =
        other-IsSettled id other (attempt_of other) (set_applied now) db (λ r h. h) (λ r. refl)
          (marked_other other a) s in
      record {
        there = t.there;
        settled = t.settled;
        unmarked =
            select-delete-none (application_of id) (application_of other) db.applications
              s.unmarked;
      }

  preview-IsSettled :
      (codec : Codec) (other : String) (preview : Preview) (awaits : Bool)
      → IsSettled id (set_preview codec other preview awaits db).1
  unfolding set_preview
  preview-IsSettled codec other preview awaits = record {
    there =
        is_some-select-update (attempt_of id) (previewable_of other)
          (set_preview_of (encode_preview codec preview) awaits) (λ a. refl) db.attempts
        ∙ s.there;
    settled =
        All-update (SettledRow id) (previewable_of other)
          (set_preview_of (encode_preview codec preview) awaits) (λ a p h k. ground arith)
          db.attempts s.settled;
    unmarked = s.unmarked;
  }

  fail-IsSettled :
      (other error : String) (b : Bool) (now : ℕ) → IsSettled id (fail other error b now db).1
  unfolding fail
  fail-IsSettled other error b now = record {
    there =
        is_some-select-update (attempt_of id) (attempt_of other) (set_failed error b now)
          (λ a. refl) db.attempts
        ∙ s.there;
    settled =
        All-update (SettledRow id) (attempt_of other) (set_failed error b now)
          (λ a p h k. ground arith) db.attempts s.settled;
    unmarked =
        select-delete-none (application_of id) (application_of other) db.applications s.unmarked;
  }

  reopen-IsSettled :
      (other : String) (d : Desired) (node : String) (now : ℕ)
      → other ≢ id
      → IsSettled id (reopen_applied other d node now db).1
  reopen-IsSettled other d node now ne = reopen-keeps (IsSettled id) other d node now db s λ r e f.
      other-IsSettled id other (attempt_of other) (reopen now) db (λ r h. h) (λ r. refl) ne s

after-IsSettled :
    (codec : Codec) (id : String) (c : Call) (db : Db)
    → is_reopening id c ≡ false
    → IsSettled id db
    → IsSettled id (after codec c db)
unfolding after
after-IsSettled codec id (claims node d now) db o s = claim-IsSettled codec id d node now db s
after-IsSettled codec id (reopens other d node now) db o s =
    reopen-IsSettled id db s other d node now (ne_of_beq other id o)
after-IsSettled codec id (begins other now) db o s = begin-IsSettled id db s other now
after-IsSettled codec id (previews other preview awaits) db o s =
    preview-IsSettled id db s codec other preview awaits
after-IsSettled codec id (completes other d node now) db o s =
    complete-IsSettled id db s other d node now
after-IsSettled codec id (fails other error b now) db o s = fail-IsSettled id db s other error b now

pub after_all-IsSettled :
    (codec : Codec) (id : String) (cs : List Call) (db : Db)
    → All (λ c. is_reopening id c ≡ false) cs
    → IsSettled id db
    → IsSettled id (after_all codec cs db)
unfolding after_all
after_all-IsSettled codec id [] db o s = s
after_all-IsSettled codec id (c ∷ cs) db o s =
    after_all-IsSettled codec id cs (after codec c db) o.1 (after-IsSettled codec id c db o.0 s)

-- A settled attempt cannot be begun.
pub begin-settled :
    (id : String) (now : ℕ) (db : Db)
    → IsSettled id db
    → begin_apply id now db ≡ (err (value_error "reconciliation attempt is not ready to apply"), db)
unfolding begin_apply
begin-settled id now db s = elim (Option-cases (select (prepared_of id) db.attempts)) [
  | inl e ↦ rw (e, begin_apply_in)
  | inr (a, e) ↦ absurd (begun_other id db s id a e refl)
]

abandoned-IsSettled :
    (id : String) (now : ℕ) (db : Db)
    → is_some (select (attempt_of id) db.attempts) ≡ true
    → IsSettled id (abandon id now db)
unfolding abandon
abandoned-IsSettled id now db there = record {
  there =
      is_some-select-update (attempt_of id) (attempt_of id) (give_up now) (λ a. refl) db.attempts
      ∙ there;
  settled =
      All-update_every (SettledRow id) (attempt_of id) (give_up now) (λ a p k. refl) (λ a p k. cc)
        db.attempts;
  unmarked = select-delete_self (application_of id) db.applications;
}

claim-own :
    (codec : Codec) (node : String) (d : Desired) (now : ℕ) (db : Db) (a : ApplicationRow)
    → select (application_at node d.payload.resource) db.applications ≡ some a
    → a.operation_id ≡ operation_id codec node d.event_id
    → claim codec node d now db
      ≡ (ok (indeterminate, operation_id codec node d.event_id), abandon a.operation_id now db)
unfolding claim
claim-own codec node d now db a e own =
    let same : (a.operation_id == operation_id codec node d.event_id) ≡ true =
      (eq_iff a.operation_id (operation_id codec node d.event_id)).1 own in
    rw (e, claim_in, same)

-- A node that ended during an external apply: the marker of that attempt is in the database. Then the
-- next claim of the same event answers "indeterminate", and whatever methods are called after it, as
-- long as none of them reopens the attempt, `begin_apply` refuses the attempt and writes nothing.
pub crash_never_replays :
    (codec : Codec) (node : String) (d : Desired) (now later : ℕ) (db : Db) (a : ApplicationRow)
    (cs : List Call)
    → select (application_at node d.payload.resource) db.applications ≡ some a
    → a.operation_id ≡ operation_id codec node d.event_id
    → is_some (select (attempt_of a.operation_id) db.attempts) ≡ true
    → All (λ c. is_reopening a.operation_id c ≡ false) cs
    → let claimed = claim codec node d now db in
      let db' = after_all codec cs claimed.1 in
      (claimed.0 ≡ ok (indeterminate, a.operation_id))
      × (begin_apply a.operation_id later db'
          ≡ (err (value_error "reconciliation attempt is not ready to apply"), db'))
crash_never_replays codec node d now later db a cs e own there quiet = (
  ap (λ r. r.0) (claim-own codec node d now db a e own) ∙ rw own refl,
  begin-settled a.operation_id later _ (
      after_all-IsSettled codec a.operation_id cs _ quiet (
        subst (IsSettled a.operation_id)
          (sym (ap (λ r. r.1) (claim-own codec node d now db a e own)))
          (abandoned-IsSettled a.operation_id now db there))),
)
