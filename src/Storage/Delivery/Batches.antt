-- ===== src/Storage/Delivery/Batches.antt =====
-- What `PendingDelivery.select` returns.
use anvil_events.Base.{
  ℕ, ◌+◌, ◌≤◌, ◌<◌, String, Bool, true, false, Option, some, List, [], ◌∷◌, ◌++◌, ◌≡◌, refl, ap,
  inl, inr, string_eq, nat_eq, leb, if◌then◌else◌, arith, Bool-cases, Option-cases, All, All-append,
  All-take, beq_refl, contains, take, length, length-append, ◌≢◌, ◌==◌,
}
use mathlib.Core.List.{Memᴰ}
use anvil_events.Result.{Result, ok, err}
use anvil_events.Table.{select_all}
use anvil_events.Json.{Fields, Codec}
use anvil_events.Domain.V2.Payloads.{Screen}
use anvil_events.Storage.Schema.{Db, EventRow, is_pending}
use anvil_events.Storage.Delivery.{
  Validator, readable, event_id_in, Scan, scan_row, scan_rows, after_row, Batch, select_batch,
  scan_limit, start_scan, rows_after, finish_batch, is_pending_after, start_of,
}

select_all_fits :
    (p : EventRow → Bool) (all t : List EventRow)
    → ((r : EventRow) → Memᴰ r t → Memᴰ r all)
    → All (λ r. Memᴰ r all × (p r ≡ true)) (select_all p t)
unfolding select_all
select_all_fits p all [] f = tt
select_all_fits p all (r ∷ t) f =
    let rest = select_all_fits p all t (λ q m. f q (Memᴰ.tail m)) in
    elim (Bool-cases (p r)) [ inl e ↦ rw e ((f r (Memᴰ.head refl), e), rest) | inr e ↦ rw e rest ]

-- Events with distinct ids.
abbrev pub IsDistinct : List Fields → Type 0
IsDistinct [] = Unit
IsDistinct (e ∷ es) = All (λ f. event_id_in e ≢ event_id_in f) es × IsDistinct es

-- An event of a batch is that of a pending row of the database after the start, intact and valid; it is
-- eligible, and has an id that was not seen before.
pub record IsDue (codec : Codec) (validator : Validator) (eligible : Fields → Bool) (start : ℕ)
    (seen : List String) (db : Db) (event : Fields) : Type 0 where
  pub row : EventRow
  pub is_stored : Memᴰ row db.events
  pub pending : is_pending row.producer_state ≡ true
  pub after_start : start < row.row_id
  pub is_valid : readable codec validator row ≡ some event
  pub is_eligible : eligible event ≡ true
  pub id : String
  pub has_id : event_id_in event ≡ some id
  pub is_unseen : contains id seen ≡ false

-- The event's id is one of these.
abbrev IsListed : List String → Fields → Type 0
IsListed seen event = (i : String) × (event_id_in event ≡ some i) × (contains i seen ≡ true)

branch {ℓ κ} :
    {A : Type ℓ} (P : A → Type κ) (b : Bool) {x y : A}
    → P x
    → (b ≡ false → P y)
    → P (if b then x else y)
branch P true h k = h
branch P false h k = k refl

module _ (seen : List String) where
  IsDistinct-append :
      (es : List Fields) (e : Fields) (id : String)
      → IsDistinct es
      → All (IsListed seen) es
      → event_id_in e ≡ some id
      → contains id seen ≡ false
      → IsDistinct (es ++ e ∷ [])
  IsDistinct-append [] e id d l h n = (tt, tt)
  IsDistinct-append (f ∷ es) e id d l h n =
      let differ : event_id_in f ≢ event_id_in e = λ same.
        let (i, named, listed) = l.0 in
        let equal : i ≡ id = cc (named, h, same) in
        cc (ap (λ x. contains x seen) equal, listed, n) in
      (
        All-append (λ g. event_id_in f ≢ event_id_in g) es (e ∷ []) d.0 (differ, tt),
        IsDistinct-append es e id d.1 l.1 h n,
      )

  IsListed-more :
      (es : List Fields) (i : String) → All (IsListed seen) es → All (IsListed (i ∷ seen)) es
  IsListed-more [] i l = tt
  IsListed-more (f ∷ es) i l =
      let (j, named, listed) = l.0 in ((j, named, ground (arith, listed)), IsListed-more es i l.1)

module _ (codec : Codec) (validator : Validator) (eligible : Fields → Bool) (max_events start : ℕ)
    (seen : List String) (db : Db) where
  -- What holds of the loop's variables.
  record IsScanned (s : Scan) : Type 0 where
    due : All (IsDue codec validator eligible start seen db) s.selected
    listed : All (IsListed s.seen) s.selected
    grown : (id : String) → contains id s.seen ≡ false → contains id seen ≡ false
    distinct : IsDistinct s.selected
    bounded : length s.selected ≤ max_events
    room : s.is_full ≡ false → length s.selected < max_events

  -- Of a loop that did not raise.
  abbrev Scanned : Result Scan → Type 0
  Scanned (ok s) = IsScanned s
  Scanned (err e) = Unit {0}

  abbrev IsSource : EventRow → Type 0
  IsSource r = Memᴰ r db.events × (is_pending_after start r ≡ true)

  passed :
      (r : EventRow) (s : Scan)
      → IsScanned s
      → IsScanned (record s { last_position = some r.row_id })
  passed r s k = record {
    due = k.due;
    listed = k.listed;
    grown = k.grown;
    distinct = k.distinct;
    bounded = k.bounded;
    room = k.room;
  }

  chosen :
      (r : EventRow) (s : Scan) (event : Fields) (id : String)
      → IsSource r
      → s.is_full ≡ false
      → IsScanned s
      → readable codec validator r ≡ some event
      → eligible event ≡ true
      → event_id_in event ≡ some id
      → contains id s.seen ≡ false
      → IsScanned (record s {
        last_position = some r.row_id;
        seen = id ∷ s.seen;
        selected = s.selected ++ event ∷ [];
        is_full = leb max_events (length s.selected + 1);
      })
  chosen r s event id (stored, p) open_s k e fits named unseen = record {
    due = All-append _ s.selected (event ∷ []) k.due (
      record {
        row = r;
        is_stored = stored;
        pending = ground (arith, p);
        after_start = ground (arith, p);
        is_valid = e;
        is_eligible = fits;
        id = id;
        has_id = named;
        is_unseen = k.grown id unseen;
      },
      tt,
    );
    listed =
        All-append _ s.selected (event ∷ []) (IsListed-more s.seen s.selected id k.listed)
          ((id, named, rw (beq_refl id) refl), tt);
    grown = λ i h. k.grown i (ground (arith, h));
    distinct = IsDistinct-append s.seen s.selected event id k.distinct k.listed named unseen;
    bounded = omega (arith, length-append s.selected (event ∷ []), k.room open_s);
    room = λ h. ground (arith, length-append s.selected (event ∷ []), k.room open_s, h);
  }

  scan_row-Scanned :
      (r : EventRow) (s : Scan)
      → IsSource r
      → s.is_full ≡ false
      → IsScanned s
      → Scanned (scan_row codec validator eligible max_events r s)
  unfolding scan_row
  scan_row-Scanned r s p open_s k = elim (Option-cases (readable codec validator r)) [
    | inl e ↦
        rw (e, scan_row)
          (record {
            due = k.due;
            listed = k.listed;
            grown = k.grown;
            distinct = k.distinct;
            bounded = k.bounded;
            room = k.room;
          })
    | inr (event, e) ↦ elim (Bool-cases (eligible event)) [
      | inr f ↦ rw (e, scan_row, f) (passed r s k)
      | inl f ↦ elim (Option-cases (event_id_in event)) [
        | inl g ↦ rw (e, scan_row, f, g) tt
        | inr (id, g) ↦ elim (Bool-cases (contains id s.seen)) [
          | inl c ↦ rw (e, scan_row, f, g, c) (passed r s k)
          | inr c ↦ rw (e, scan_row, f, g, c) (chosen r s event id p open_s k e f g c)
        ]
      ]
    ]
  ]

  after_row-Scanned :
      (r : Result Scan) (next : Scan → Result Scan)
      → Scanned r
      → ((s : Scan) → s.is_full ≡ false → IsScanned s → Scanned (next s))
      → Scanned (after_row r next)
  after_row-Scanned (err e) next h k = tt
  after_row-Scanned (ok s) next h k = branch Scanned s.is_full h (λ f. k s f h)

  scan_rows-Scanned :
      (t : List EventRow) (s : Scan)
      → All IsSource t
      → s.is_full ≡ false
      → IsScanned s
      → Scanned (scan_rows codec validator eligible max_events t s)
  unfolding scan_rows
  scan_rows-Scanned [] s p o k = k
  scan_rows-Scanned (r ∷ t) s p o k =
      after_row-Scanned (scan_row codec validator eligible max_events r s)
        (scan_rows codec validator eligible max_events t) (scan_row-Scanned r s p.0 o k)
        (λ s' o' k'. scan_rows-Scanned t s' p.1 o' k')

-- What the batch holds is what the loop has found.
finish-IsDue :
    (codec : Codec) (screen : Screen) (validator : Validator) (clock : String) (now limit : ℕ)
    (rows : List EventRow) (db : Db) (b : Batch) (scan : Result Scan)
    → (finish_batch codec screen validator clock now limit rows db scan).0 ≡ ok b
    → (eligible : Fields → Bool) (max_events start : ℕ) (seen : List String)
    → Scanned codec validator eligible max_events start seen db scan
    → All (IsDue codec validator eligible start seen db) b.selected
      × IsDistinct b.selected
      × (length b.selected ≤ max_events)
finish-IsDue codec screen validator clock now limit rows db b (err e) h eligible max_events start
      seen k =
    absurd (cc h)
finish-IsDue codec screen validator clock now limit rows db b (ok s) h eligible max_events start
      seen k =
    let same : b.selected ≡ s.selected = ground (arith, h) in rw same (k.due, k.distinct, k.bounded)

-- A batch that `select` returns has at most `max_events` events, with distinct ids: each is the event of
-- an intact and valid pending row of the database after the start, is eligible, and has an id that was not
-- seen before.
pub select_batch-IsDue :
    (codec : Codec) (screen : Screen) (validator : Validator) (eligible : Fields → Bool)
    (max_events : ℕ) (max_scan : Option ℕ) (seen : List String) (start : Option ℕ) (clock : String)
    (now : ℕ) (db : Db) (b : Batch)
    → (select_batch codec screen validator eligible max_events max_scan seen start clock now db).0
      ≡ ok b
    → All (IsDue codec validator eligible (start_of start) seen db) b.selected
      × IsDistinct b.selected
      × (length b.selected ≤ max_events)
unfolding select_batch
select_batch-IsDue codec screen validator eligible max_events max_scan seen start clock now db b h =
    let limit = scan_limit max_events max_scan in
    let rows = rows_after start limit db in
    let scan =
      scan_rows codec validator eligible max_events (take limit rows) (start_scan seen start) in
    elim (Bool-cases (max_events == 0)) [
      | inl e ↦ absurd (cc (rw (e, select_batch) at h))
      | inr e ↦
          let sources =
            All-take (IsSource codec validator eligible max_events (start_of start) seen db) limit
              rows
              (All-take _ (limit + 1) _ (
                select_all_fits (is_pending_after (start_of start)) db.events db.events
                  (λ r m. m))) in
          let begun : IsScanned codec validator eligible max_events (start_of start) seen db
              (start_scan seen start) =
            record {
              due = tt;
              listed = tt;
              grown = λ id k. k;
              distinct = tt;
              bounded = omega arith;
              room = λ k. ground (arith, e);
            } in
          let scanned =
            scan_rows-Scanned codec validator eligible max_events (start_of start) seen db
              (take limit rows) (start_scan seen start) sources refl begun in
          finish-IsDue codec screen validator clock now limit rows db b scan
            (rw (e, select_batch) at h) eligible max_events (start_of start) seen scanned
    ]
