-- ===== src/Storage/Retention.antt =====
-- storage/retention.py: the sweep of acknowledged events. What is measured of the files is not modelled.
pub mod Survival
use anvil_events.Base.{
  ℕ, ◌*◌, ◌-◌, String, Bool, false, ◌&&◌, ◌==◌, nat_eq, ltb, Option, none, some, if◌then◌else◌,
}
use anvil_events.Base.Int.{pos}
use anvil_events.Result.{Result, ok, err, value_error, ◌>>=◌, transaction}
use anvil_events.Table.{count, update}
use anvil_events.Json.{Codec, text, number, field, end, get, as_text}
use anvil_events.Domain.V2.Payloads.{Screen}
use anvil_events.Storage.Schema.{Db, EventRow, is_acked}
use anvil_events.Storage.Events.{journal_v1_in}
use anvil_events.Storage.Delivery.{clear_state}

-- producer_state = 'acked' AND acked_at < ?, which no row without a time fits
abbrev pub is_expired : ℕ → EventRow → Bool
is_expired cutoff r =
    is_acked r.producer_state && elim r.acked_at [ none ↦ false | some t ↦ ltb t cutoff ]

module _ (codec : Codec) (screen : Screen) where
  -- The transaction of `collect`: the number of rows and the audit event's id. A time is a number of
  -- seconds, so that before the epoch no row is expired.
  unfoldable pub collect_in : ℕ → String → ℕ → Db → Result ((ℕ × Option String) × Db)
  collect_in archive_days clock now db =
      let cutoff = now - archive_days * 86400 in
      let removed = count (is_expired cutoff) db.events in
      let swept = record db { events = update (is_expired cutoff) clear_state db.events } in
      if removed == 0 then ok ((0, none), swept) else do
        (event, db') ←
            journal_v1_in codec screen "local:gc" "event.degraded" "local"
              (field "cause" (text "retention sweep deleted expired archives")
                (field "records" (number (pos removed)) end))
              none clock now swept
        ok ((removed, as_text (get "event_id" event)), db')

  unfoldable pub collect : ℕ → ℕ → String → ℕ → Db → Result (ℕ × Option String) × Db
  collect archive_days max_bytes clock now db =
      if max_bytes == 0
      then (err (value_error "max_bytes must be positive"), db)
      else transaction (collect_in archive_days clock now) db
