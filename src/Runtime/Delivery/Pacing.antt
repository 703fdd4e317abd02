-- ===== src/Runtime/Delivery/Pacing.antt =====
-- What `deliver` leaves of the events of a batch.
use mathlib.Core.Bool.{false≢true}
use anvil_events.Base.{
  ℕ, String, Bool, true, false, Option, none, some, List, [], ◌∷◌, ◌≡◌, refl, sym, ap, ◌∙◌, ◌==◌,
  inl, inr, string_eq, option_eq, nat_eq, if◌then◌else◌, All, Bool-cases, Option-cases, subst,
}
use anvil_events.Result.{Result, ok, err}
use anvil_events.Table.{select}
use anvil_events.Json.{Fields, Codec, get, as_text}
use anvil_events.Domain.V2.Payloads.{Screen}
use anvil_events.Runtime.Delivery.{
  Retry, Pump, Sender, Client, retry_of, is_waiting, send, count_retried, after_send, deliver_event,
  deliver_events, deliver, after_loop, rest_until,
}
use anvil_events.Runtime.Delivery.Sending.{
  IsSettled, IsSent, send-IsSent, sent-IsSettled, succeed-IsSettled, schedule-own,
  schedule-IsSettled,
}

module _ {W : Type 0} (codec : Codec) (screen : Screen) (client : Client W) (stream : String) where
  -- What one turn of the loop leaves of any event, and of its own.
  record IsDelivered (id : String) (event : Fields) (s : Sender W) (s' : Sender W) : Type 0 where
    others : (j : String) → IsSettled j s → IsSettled j s'
    own : as_text (get "event_id" event) ≡ some id → IsSettled id s'

  after_send-IsDelivered :
      (id : String) (event : Fields) (prior : Option Retry) (r : Result (Unit {0})) (now wall : ℕ)
      (counts : ℕ × ℕ) (s s1 : Sender W)
      → IsSent codec screen client stream id event s (r, s1)
      → as_text (get "event_id" event) ≡ some id
      → IsDelivered id event s
          (after_send codec screen client stream id prior r now wall counts s1).1
  after_send-IsDelivered id event prior (ok u) now wall (a, f) s s1 sent has =
      let acked = sent.acked has refl in
      record {
        others = λ j k.
            succeed-IsSettled codec screen client stream id j s1 acked
              (sent-IsSettled codec screen client stream sent j k);
        own = λ h. succeed-IsSettled codec screen client stream id id s1 acked (inl acked);
      }
  after_send-IsDelivered id event prior (err e) now wall (a, f) s s1 sent has = record {
    others = λ j k.
        schedule-IsSettled codec screen client stream id j prior e now wall s1
          (sent-IsSettled codec screen client stream sent j k);
    own = λ h. schedule-own codec screen client stream id prior e now wall s1;
  }

  deliver_event-IsDelivered :
      (id : String) (event : Fields) (now wall : ℕ) (counts : ℕ × ℕ) (s : Sender W)
      → as_text (get "event_id" event) ≡ some id
      → IsDelivered id event s
          (deliver_event codec screen client stream id event now wall counts s).1
  unfolding deliver_event
  deliver_event-IsDelivered id event now wall counts s has =
      elim (Bool-cases (is_waiting now (select (retry_of id) s.pump.retry))) [
        | inl e ↦ rw (e, deliver_event) (record { others = λ j k. k; own = λ h. waiting e })
        | inr e ↦
            let t = count_retried codec screen client stream s in
            let sent = send-IsSent codec screen client stream id event wall t in
            let step =
              after_send-IsDelivered id event (select (retry_of id) s.pump.retry)
                (send codec screen client stream id event wall t).0 now wall counts t
                (send codec screen client stream id event wall t).1
                (record { same_pump = sent.same_pump; keeps = sent.keeps; acked = sent.acked })
                has in
            rw (e, deliver_event) (record { others = step.others; own = step.own })
      ]
    where
      waiting : is_waiting now (select (retry_of id) s.pump.retry) ≡ true → IsSettled id s
      waiting e = elim (Option-cases (select (retry_of id) s.pump.retry)) [
        | inl f ↦ absurd (false≢true (ap (is_waiting now) (sym f) ∙ e))
        | inr (r, f) ↦ inr (r, f)
      ]

  -- Every event of the list is settled.
  abbrev pub AllSettled : List Fields → Sender W → Type 0
  AllSettled events s =
      All (λ event. (id : String) → as_text (get "event_id" event) ≡ some id → IsSettled id s)
        events

  -- Every event of the list has an id.
  abbrev pub AllNamed : List Fields → Type 0
  AllNamed events = All (λ event. (id : String) × (as_text (get "event_id" event) ≡ some id)) events

  -- The loop has returned, every event of its list is settled, and what was settled still is.
  record HasDelivered (events : List Fields) (s : Sender W) (p : Result (ℕ × ℕ) × Sender W)
      : Type 0 where
    counts : ℕ × ℕ
    returned : p.0 ≡ ok counts
    settled : AllSettled events p.1
    keeps : (j : String) → IsSettled j s → IsSettled j p.1

  deliver_events-HasDelivered :
      (events : List Fields) (now wall : ℕ) (counts : ℕ × ℕ) (s : Sender W)
      → ((o : W) → client.is_stopped o ≡ false)
      → AllNamed events
      → HasDelivered events s (deliver_events codec screen client stream events now wall counts s)
  unfolding deliver_events
  deliver_events-HasDelivered [] now wall counts s runs named = record {
    counts = counts;
    returned = refl;
    settled = tt;
    keeps = λ j k. k;
  }
  deliver_events-HasDelivered (event ∷ events) now wall counts s runs ((id, e), named) =
      let step = deliver_event-IsDelivered id event now wall counts s e in
      let (c, t) = deliver_event codec screen client stream id event now wall counts s in
      let rest = deliver_events-HasDelivered events now wall c t runs named in
      rw (runs s.outside, e, deliver_events)
        (record {
          counts = rest.counts;
          returned = rest.returned;
          settled = (
            (λ i is_i.
                rest.keeps i (subst (λ x. IsSettled x t) (inner id i (sym e ∙ is_i)) (step.own e))),
            rest.settled,
          );
          keeps = λ j k. rest.keeps j (step.others j k);
        })
    where
      inner : (a b : String) → some a ≡ some b → a ≡ b
      inner a b p = cc

  -- The end of `deliver` changes neither the store nor the retries.
  rest_until-IsSettled :
      (j : String) (s : Sender W) (pump : Pump)
      → pump.retry ≡ s.pump.retry
      → IsSettled j s
      → IsSettled j (record s { pump = rest_until codec screen client stream pump.retry pump })
  rest_until-IsSettled j s pump same (inl k) = inl k
  rest_until-IsSettled j s pump same (inr (r, at)) =
      inr (r, ap (select (retry_of j)) (rested pump.retry pump ∙ same) ∙ at)
    where
      rested :
          (t : List Retry) (p : Pump) → (rest_until codec screen client stream t p).retry ≡ p.retry
      rested [] p = refl
      rested (r ∷ t) p = refl

  AllSettled-keeps :
      (batch : List Fields) (s s' : Sender W)
      → ((j : String) → IsSettled j s → IsSettled j s')
      → AllSettled batch s
      → AllSettled batch s'
  AllSettled-keeps [] s s' k h = tt
  AllSettled-keeps (event ∷ events) s s' k h =
      ((λ id is_id. k id (h.0 id is_id)), AllSettled-keeps events s s' k h.1)

  kept_retry :
      (b : Bool) (p : Pump) → (if b then p else record p { position = none }).retry ≡ p.retry
  kept_retry true p = refl
  kept_retry false p = refl

  -- What `deliver` promises of its batch.
  abbrev pub IsHandled : List Fields → Result (ℕ × ℕ) × Sender W → Type 0
  IsHandled batch p = ((counts : ℕ × ℕ) × (p.0 ≡ ok counts)) × AllSettled batch p.1

  after_loop-IsHandled :
      (batch : List Fields) (s : Sender W) (r : Result (ℕ × ℕ)) (s' : Sender W)
      → HasDelivered batch s (r, s')
      → IsHandled batch (after_loop codec screen client stream r s')
  after_loop-IsHandled batch s (err e) s' d = absurd (cc (d.returned))
  after_loop-IsHandled batch s (ok (a, f)) s' d =
      let pump = if a == 0 then s'.pump else record s'.pump { position = none } in
      (
        ((a, f), refl),
        AllSettled-keeps batch s'
            (record s' { pump = rest_until codec screen client stream pump.retry pump })
            (λ j. rest_until-IsSettled j s' pump (kept_retry (a == 0) s'.pump)) d.settled,
      )

-- Where the stop event is not set and each event of the batch has an id, `deliver` returns, and every event
-- of the batch is then acknowledged in the store, or the pump has it to retry.
pub deliver-IsHandled :
    {W : Type 0} (codec : Codec) (screen : Screen) (client : Client W) (stream : String)
    (batch : List Fields) (now wall : ℕ) (s : Sender W)
    → ((o : W) → client.is_stopped o ≡ false)
    → AllNamed codec screen client stream batch
    → IsHandled codec screen client stream batch
        (deliver codec screen client stream batch now wall s)
unfolding deliver
deliver-IsHandled codec screen client stream batch now wall s runs named =
    let p = deliver_events codec screen client stream batch now wall (0, 0) s in
    let d =
      deliver_events-HasDelivered codec screen client stream batch now wall (0, 0) s runs named in
    after_loop-IsHandled codec screen client stream batch s p.0 p.1
      (record { counts = d.counts; returned = d.returned; settled = d.settled; keeps = d.keeps })
