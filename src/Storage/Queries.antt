-- ===== src/Storage/Queries.antt =====
-- storage/queries.py and the reads of storage/sqlite.py: stored envelopes, each checked against its digest.
use anvil_events.Base.{
  ℕ, String, Bool, ◌&&◌, ◌||◌, List, [], ◌∷◌, ◌==◌, string_eq, if◌then◌else◌, ltb,
}
use anvil_events.Result.{Result, ok, value_error, guard, or_raise, ◌>>=◌, ◌>>◌}
use anvil_events.Table.{select_all, count}
use anvil_events.Json.{Json, Codec}
use anvil_events.Base.{nat_eq}
use anvil_events.Storage.Schema.{Db, EventRow, is_pending, is_acked}

-- The bytes are canonical and have the stored digest.
unfoldable pub is_intact : Codec → EventRow → Json → Bool
is_intact codec r event =
    codec.dumps event == r.envelope_json && codec.sha256 (codec.dumps event) == r.canonical_sha256

-- One turn of the loop of `read`.
unfoldable pub read_row : Codec → EventRow → Result Json
read_row codec r = do
  event ← or_raise (codec.loads r.envelope_json) (value_error "stored event failed integrity check")
  guard (is_intact codec r event) (value_error "stored event failed integrity check")
  ok event

unfoldable pub read_rows : Codec → List EventRow → Result (List Json)
read_rows codec [] = ok []
read_rows codec (r ∷ t) = do
  event ← read_row codec r
  events ← read_rows codec t
  ok (event ∷ events)

-- ORDER BY observed_at, producer_seq, row_id: the order of the texts is a parameter.
abbrev pub precedes : (String → String → Bool) → EventRow → EventRow → Bool
precedes before r s =
    if r.observed_at == s.observed_at
    then (if r.producer_seq == s.producer_seq
        then ltb r.row_id s.row_id
        else ltb r.producer_seq s.producer_seq)
    else before r.observed_at s.observed_at

unfoldable pub place : (String → String → Bool) → EventRow → List EventRow → List EventRow
place before r [] = r ∷ []
place before r (s ∷ t) =
    let rest = place before r t in if precedes before s r then s ∷ rest else r ∷ s ∷ t

unfoldable pub in_order : (String → String → Bool) → List EventRow → List EventRow
in_order before [] = []
in_order before (r ∷ t) = place before r (in_order before t)

unfoldable pub read : Codec → (String → String → Bool) → (EventRow → Bool) → Db → Result (List Json)
read codec before p db = read_rows codec (in_order before (select_all p db.events))

abbrev pub is_produced : EventRow → Bool
is_produced r = is_pending r.producer_state || is_acked r.producer_state

module _ (codec : Codec) (before : String → String → Bool) where
  unfoldable pub read_pending : Db → Result (List Json)
  read_pending = read codec before (λ r. is_pending r.producer_state)

  unfoldable pub read_archive : Db → Result (List Json)
  read_archive = read codec before (λ r. is_acked r.producer_state)

  unfoldable pub read_journal : Db → Result (List Json)
  read_journal = read codec before (λ r. r.journaled)

  unfoldable pub read_producer_history : Db → Result (List Json)
  read_producer_history = read codec before is_produced

  unfoldable pub read_all : Db → Result (List Json)
  read_all = read codec before (λ r. is_produced r || r.journaled)

unfoldable pub count_pending : Db → ℕ
count_pending db = count (λ r. is_pending r.producer_state) db.events

unfoldable pub pending_signature : Db → ℕ × ℕ
pending_signature db = (db.pending_change_counter, count_pending db)
