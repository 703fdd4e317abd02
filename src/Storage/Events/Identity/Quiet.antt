-- ===== src/Storage/Events/Identity/Quiet.antt =====
-- The writes of storage/events.py that give no state, and the states of the stored rows.
use anvil_events.Base.{ℕ, String, Bool, Option, none, some, List, ◌≡◌, refl, sym, ap, ◌∙◌}
use anvil_events.Result.{ok}
use anvil_events.Table.{select}
use anvil_events.Table.Laws.{select-insert}
use anvil_events.Json.{Fields, Codec}
use anvil_events.Domain.V2.Payloads.{Screen}
use anvil_events.Storage.Schema.{Db, EventRow, DeliveryState}
use anvil_events.Storage.Events.Rows.{Envelope, event_of, set_state, merge_state}
use anvil_events.Storage.Events.{heal_envelope, put}
use anvil_events.Storage.Events.Put.{Wrote, adds, merges, merged, put-inversion}
use anvil_events.Storage.Events.Identity.{
  Carries, Extends-refl, Extends-trans, Heals, heal_envelope-Carries, update-Carries, same_row,
  set_state-Extends,
}

-- Every stored event is kept, in its state.
unfoldable pub Steady : List EventRow → List EventRow → Type 0
unfolding Carries Heals
Steady t t' = Carries Heals t t'

pub Steady-refl : (t : List EventRow) → Steady t t
unfolding Steady Carries Heals
Steady-refl t id r h = (r, h, (Extends-refl r, refl))

merge_state-none : (old : Option DeliveryState) → merge_state none old ≡ old
merge_state-none none = refl
merge_state-none (some DeliveryState.pending) = refl
merge_state-none (some DeliveryState.acked) = refl

module _ (e : Envelope) (encoded digest : String) (journaled : Bool) (now : ℕ) (db : Db) where
  merged-Steady :
      (row : EventRow)
      → select (event_of e.event_id) db.events ≡ some row
      → Steady db.events (merged e encoded digest none journaled now db row).events
  unfolding Steady Carries Heals
  merged-Steady row found =
      let healed = (heal_envelope e.event_id encoded now row db).events in
      let (r1, found1, (same, at)) =
        heal_envelope-Carries e.event_id encoded now row db e.event_id row found in
      λ id r h.
        let (r2, h2, (ext, at2)) = heal_envelope-Carries e.event_id encoded now row db id r h in
        let (r3, h3, (ext3, at3)) =
          update-Carries Heals (event_of e.event_id)
            (set_state (merge_state none row.producer_state) journaled now) healed (λ s. refl)
            (λ s. (Extends-refl s, refl))
            (λ i s hs p.
              let own : s.producer_state ≡ row.producer_state =
                ap (λ (x : EventRow). x.producer_state)
                  (same_row healed i e.event_id s r1 hs p found1)
                ∙ at in
              (
                set_state-Extends none row.producer_state journaled now s own,
                merge_state-none row.producer_state ∙ sym own,
              ))
            id r2 h2 in
        (r3, h3, (Extends-trans r r2 r3 ext ext3, at3 ∙ at2))

  Wrote-Steady :
      {flags : Bool × Bool} {db' : Db}
      → Wrote e encoded digest none journaled now db flags db'
      → Steady db.events db'.events
  unfolding Steady Carries Heals
  Wrote-Steady (adds flags db' absent free f same) =
      rw same
        λ id r h. (r, select-insert (event_of id) _ db.events ∙ rw h refl, (Extends-refl r, refl))
  Wrote-Steady (merges flags db' row found digest_e f same) = rw same (merged-Steady row found)

module _ (codec : Codec) (screen : Screen) where
  pub put-Steady :
      (event : Fields) (journaled : Bool) (now : ℕ) (db db' : Db) (flags : Bool × Bool)
      → put codec screen event none journaled now db ≡ ok (flags, db')
      → Steady db.events db'.events
  put-Steady event journaled now db db' flags h =
      let (e, valid, env, wrote) =
        put-inversion codec screen event none journaled now db db' flags h in
      Wrote-Steady e _ _ journaled now db wrote
