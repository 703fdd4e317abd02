-- ===== src/Runtime/Delivery/Sending.antt =====
-- What sending one event leaves of the store and of the pump's retries.
use mathlib.Core.Bool.{false≢true}
use anvil_events.Base.{
  ℕ, ◌+◌, String, false, Option, some, List, ◌≡◌, refl, sym, ap, ◌∙◌, ◌==◌, ◌⊎◌, inl, inr,
  string_eq, option_eq, nat_eq, Bool-cases, Option-cases, subst, beq_refl, eq_of_beq,
}
use anvil_events.Result.{Fault, Result, ok, err}
use anvil_events.Table.{select, delete}
use anvil_events.Table.Laws.{select-insert, select-delete_other, select-delete_self}
use anvil_events.Json.{Json, Fields, Codec, get, as_text}
use anvil_events.Domain.V2.Payloads.{Screen}
use anvil_events.Storage.Schema.{Db}
use anvil_events.Storage.Events.{record_puback}
use anvil_events.Storage.Events.Identity.{Grows}
use anvil_events.Storage.Events.Acked.{
  IsAcked, record_puback-IsAcked, Grows-IsAcked, record_puback-Grows, note-IsGrowing,
}
use anvil_events.Runtime.Delivery.{
  delay_after, failures_after, Retry, Pump, Sender, Client, retry_of, record_expected, is_expected,
  after_publish, send, succeed, schedule,
}

-- The event is acknowledged in the store, or the pump has it to retry.
abbrev pub IsSettled : {W : Type 0} → String → Sender W → Type 0
IsSettled id s = IsAcked id s.db ⊎ ((r : Retry) × (select (retry_of id) s.pump.retry ≡ some r))

retry_other :
    (i j : String) (t : List Retry)
    → (i == j) ≡ false
    → select (retry_of j) (delete (retry_of i) t) ≡ select (retry_of j) t
retry_other i j t e =
    select-delete_other (retry_of j) (retry_of i)
      (λ r h. elim (Bool-cases (retry_of i r)) [
        | inr k ↦ k
        | inl k ↦
            let same : i ≡ j = sym (eq_of_beq r.event_id i k) ∙ eq_of_beq r.event_id j h in
            absurd (false≢true (sym e ∙ ap (λ x. i == x) (sym same) ∙ beq_refl i))
      ])
      t

module _ {W : Type 0} (codec : Codec) (screen : Screen) (client : Client W) (stream : String) where
  -- Sending an event keeps the pump and the acknowledged events, and where it returns, its event is
  -- acknowledged.
  pub record IsSent (id : String) (event : Fields) (s : Sender W) (p : Result (Unit {0}) × Sender W)
      : Type 0 where
    pub same_pump : p.1.pump ≡ s.pump
    pub keeps : (j : String) → IsAcked j s.db → IsAcked j p.1.db
    pub acked : as_text (get "event_id" event) ≡ some id → p.0 ≡ ok tt → IsAcked id p.1.db

  recorded :
      (id : String) (event : Fields) (wall : ℕ) (s : Sender W) (puback : Json)
      (q : Result (Unit {0}) × Db)
      → record_puback codec screen event puback wall s.db ≡ q
      → IsSent id event s (q.0, record s { db = q.1 })
  recorded id event wall s puback (r, db') e = record {
    same_pump = refl;
    keeps = λ j k.
        Grows-IsAcked codec screen j s.db db'
          (subst (Grows s.db) (ap (λ x. x.1) e)
            (record_puback-Grows codec screen event puback wall s.db))
          k;
    acked = λ has done.
        record_puback-IsAcked codec screen event puback id wall s.db db' has
          (e ∙ ap (λ x. (x, db')) done);
  }

  published :
      (id : String) (event : Fields) (wall : ℕ) (s : Sender W) (r : Result Json) (o : W)
      → IsSent id event s
          (after_publish codec screen client stream event wall r (record s { outside = o }))
  unfolding record_expected
  published id event wall s (err e) o = record {
    same_pump = refl;
    keeps = λ j k. k;
    acked = λ has done. absurd (cc);
  }
  published id event wall s (ok puback) o =
      elim (Bool-cases (is_expected codec screen client stream puback)) [
        | inl e ↦ rw e (
            let sent =
              recorded id event wall (record s { outside = o }) puback
                (record_puback codec screen event puback wall s.db) refl in
            record { same_pump = sent.same_pump; keeps = sent.keeps; acked = sent.acked })
        | inr e ↦
            rw e (record { same_pump = refl; keeps = λ j k. k; acked = λ has done. absurd (cc) })
      ]

  pub send-IsSent :
      (id : String) (event : Fields) (wall : ℕ) (s : Sender W)
      → IsSent id event s (send codec screen client stream id event wall s)
  unfolding send
  send-IsSent id event wall s = elim (Option-cases (get "subject" event)) [
    | inl e ↦
        rw (e, send)
          (record { same_pump = refl; keeps = λ j k. k; acked = λ has done. absurd (cc) })
    | inr (subject, e) ↦
        rw (e, send)
          (published id event wall s (client.publish_js subject event id s.outside).0
            (client.publish_js subject event id s.outside).1)
  ]

  pub sent-IsSettled :
      {id : String} {event : Fields} {s s1 : Sender W} {r : Result (Unit {0})}
      → IsSent id event s (r, s1)
      → (j : String) → IsSettled j s
      → IsSettled j s1
  sent-IsSettled sent j (inl k) = inl (sent.keeps j k)
  sent-IsSettled sent j (inr (r, at)) =
      inr (r, ap (λ (p : Pump). select (retry_of j) p.retry) sent.same_pump ∙ at)

  pub succeed-IsSettled :
      (id j : String) (s : Sender W)
      → IsAcked id s.db
      → IsSettled j s
      → IsSettled j (succeed codec screen client stream id s)
  unfolding succeed
  succeed-IsSettled id j s acked (inl k) = inl k
  succeed-IsSettled id j s acked (inr (r, at)) = elim (Bool-cases (id == j)) [
    | inl e ↦ inl (subst (λ x. IsAcked x s.db) (eq_of_beq id j e) acked)
    | inr e ↦ inr (r, retry_other id j s.pump.retry e ∙ at)
  ]

  pub schedule-own :
      (id : String) (prior : Option Retry) (e : Fault) (now wall : ℕ) (s : Sender W)
      → IsSettled id (schedule codec screen client stream id prior e now wall s)
  unfolding schedule
  schedule-own id prior e now wall s =
      let entry : Retry = record {
        event_id = id;
        failures = failures_after prior;
        next_at = now + delay_after (failures_after prior);
      } in
      inr (
        entry,
        select-insert (retry_of id) entry (delete (retry_of id) s.pump.retry)
            ∙ rw (select-delete_self (retry_of id) s.pump.retry, beq_refl id) refl,
      )

  pub schedule-IsSettled :
      (id j : String) (prior : Option Retry) (e : Fault) (now wall : ℕ) (s : Sender W)
      → IsSettled j s
      → IsSettled j (schedule codec screen client stream id prior e now wall s)
  unfolding schedule
  schedule-IsSettled id j prior e now wall s (inl k) =
      inl (Grows-IsAcked codec screen j s.db _ (note-IsGrowing codec screen id _ _ s.db) k)
  schedule-IsSettled id j prior e now wall s (inr (r, at)) = elim (Bool-cases (id == j)) [
    | inl f ↦
        subst (λ x. IsSettled x (schedule codec screen client stream id prior e now wall s))
          (eq_of_beq id j f) (schedule-own id prior e now wall s)
    | inr f ↦ inr (
      r,
      select-insert (retry_of j) _ (delete (retry_of id) s.pump.retry)
          ∙ rw (retry_other id j s.pump.retry f ∙ at) refl,
    )
  ]
