-- ===== src/Runtime/Subscriber/Acks.antt =====
-- What holds of a message when `Subscriber.handle` acknowledges it.
use mathlib.Core.Bool.{false≢true}
use anvil_events.Base.{
  ◌≢◌, ℕ, String, Bool, true, false, Option, none, some, List, ◌≡◌, refl, sym, ◌∙◌, ap, ◌⊎◌, inl,
  inr, string_eq, option_eq, arith, Option-cases, subst,
}
use anvil_events.Result.{Result, ok, err, value_error}
use anvil_events.Exec.{Exec}
use anvil_events.Exec.Keeps.{Post}
use anvil_events.Json.{Json, Fields, Codec, object, get, as_text}
use anvil_events.Domain.V1.{validate_event}
use anvil_events.Domain.V2.Payloads.{Screen}
use anvil_events.Storage.Schema.{Db}
use anvil_events.Storage.Events.{append_journal}
use anvil_events.Storage.Events.Stored.{IsJournaled, append_journal-IsJournaled}
use anvil_events.Reconcile.Contracts.{Policy}
use anvil_events.Reconcile.Engine.Types.{Host, World, ResultState}
use anvil_events.Runtime.Processor.{Answer, process_event}
use anvil_events.Runtime.Subscriber.{
  Service, awaits_approval, has_subject, handle, journal, by_verdict, by_subject, run_processor,
  count_received, count_dropped, set_error, after_process, after_journal, count_journaled, drop,
}
use anvil_events.Runtime.Processor.Outcomes.{
  Journaled, process_event-Journaled, HasOutcome, Answered, process_event-Answered,
}

awaits_approval-state :
    (a : Answer) → awaits_approval (some a) ≡ false → a.state ≢ ResultState.awaiting_approval
awaits_approval-state a calm awaiting = absurd (false≢true (sym calm ∙ rw awaiting refl))

-- Why a message is dropped.
pub data IsRefused (codec : Codec) (screen : Screen) (allowed : Option (List String))
    (body : String) (subject : Option String) : Type 0 where
  unreadable : codec.loads body ≡ none → IsRefused codec screen allowed body subject
  invalid :
      (v : Json) (reason : String)
      → codec.loads body ≡ some v
      → validate_event codec screen allowed v ≡ err (value_error reason)
      → IsRefused codec screen allowed body subject
  elsewhere :
      (event : Fields)
      → codec.loads body ≡ some (object event)
      → has_subject subject event ≡ ok false
      → IsRefused codec screen allowed body subject

module _ {W : Type 0} (host : Host W) (screen : Screen) (node producer : String) (policy : Policy)
    (allowed : Option (List String)) (clock : String) (now : ℕ) where
  abbrev processor : Fields → String → ℕ → Exec (World W) (Option Answer)
  processor = process_event host screen node producer policy

  -- An event that is done with: it is in the journal, and a desired state was processed, does not await
  -- approval, and has its outcome in the ledger.
  pub record IsDone (event : Fields) (w : World W) : Type 0 where
    pub event_id : String
    pub has_id : as_text (get "event_id" event) ≡ some event_id
    pub journaled : IsJournaled event_id w.db
    pub answered :
        as_text (get "kind" event) ≡ some "state.desired"
        → (a : Answer) × (earlier : World W) × (processor event clock now earlier
            ≡ (ok (some a), w))
          × (a.state ≢ ResultState.awaiting_approval)
          × HasOutcome host screen node producer policy event a w

  -- The state after a message that was acknowledged.
  run-IsDone :
      (event : Fields) (new new' : Bool) (id : String) (s s' : Service W)
      → as_text (get "event_id" event) ≡ some id
      → IsJournaled id s.world.db
      → run_processor (some processor) new event clock now s ≡ (ok (true, new'), s')
      → IsDone event s'.world
  unfolding run_processor set_error Journaled
  run-IsDone event new new' id s s' has j done =
      settle (processor event clock now s.world) refl done
    where
      settle :
          (r : Result (Option Answer) × World W)
          → processor event clock now s.world ≡ r
          → after_process new r.0 (record s { world = r.1 }) ≡ (ok (true, new'), s')
          → IsDone event s'.world
      settle (err e, w) eq h = absurd (ground (arith, h))
      settle (ok o, w) eq h =
          let same : s'.world ≡ w = ground (arith, h) in
          let calm : awaits_approval o ≡ false = ground (arith, h) in
          let kept : IsJournaled id w.db =
            subst (λ (r : Result (Option Answer) × World W). IsJournaled id r.1.db) eq
              ((process_event-Journaled host screen node producer policy id event clock now).at
                s.world j) in
          let answers = subst (Post (Answered host screen node producer policy event)) eq (
            (process_event-Answered host screen node producer policy event clock now).at s.world
              tt) in
          rw same (record {
            event_id = id;
            has_id = has;
            journaled = kept;
            answered = λ desired.
                let (a, is_a) = answers.0 desired in
                (
                  a,
                  s.world,
                  eq ∙ ap (λ x. (ok x, w)) is_a,
                  awaits_approval-state a (ap awaits_approval (sym is_a) ∙ calm),
                  answers.1 a is_a,
                );
          })

  journal-IsDone :
      (event : Fields) (new : Bool) (s s' : Service W)
      → journal host.codec screen allowed (some processor) event clock now s ≡ (ok (true, new), s')
      → IsDone event s'.world
  unfolding journal set_error
  journal-IsDone event new s s' done =
      settle (append_journal host.codec screen event now s.world.db) refl done
    where
      settle :
          (r : Result Bool × Db)
          → append_journal host.codec screen event now s.world.db ≡ r
          → after_journal
              (some processor)
              event
              clock
              now
              r.0
              (record s { world = record s.world { db = r.1 } })
            ≡ (ok (true, new), s')
          → IsDone event s'.world
      settle (err e, db') eq h = absurd (ground (arith, h))
      settle (ok fresh, db') eq h =
          let (id, has, j) =
            append_journal-IsJournaled host.codec screen event now s.world.db db' fresh eq in
          let t : Service W = record s { world = record s.world { db = db' } } in
          run-IsDone event fresh new id (count_journaled fresh t) s' has (counted id fresh t j) h
        where
          counted :
              (id : String) (b : Bool) (t : Service W)
              → IsJournaled id t.world.db
              → IsJournaled id (count_journaled b t).world.db
          counted id true t j = j
          counted id false t j = j

  -- What `handle` promises of a message that it acknowledges.
  abbrev pub Promise : String → Option String → Service W → Service W → Type 0
  Promise body subject s s' =
      (IsRefused host.codec screen allowed body subject × (s'.world ≡ s.world))
      ⊎ ((event : Fields) × (host.codec.loads body ≡ some (object event)) × IsDone event s'.world)

  module _ (body : String) (subject : Option String) (new : Bool) (s s' : Service W) where
    dropped : drop (count_received s) ≡ (ok (true, new), s') → s'.world ≡ s.world
    unfolding count_received count_dropped
    dropped h = ground (arith, h)

    by_subject-Promise :
        (event : Fields) (r : Result Bool)
        → host.codec.loads body ≡ some (object event)
        → has_subject subject event ≡ r
        → by_subject host.codec screen allowed (some processor) event clock now r (count_received s)
          ≡ (ok (true, new), s')
        → Promise body subject s s'
    by_subject-Promise event (err x) e at h = absurd (cc)
    by_subject-Promise event (ok false) e at h = inl (elsewhere event e at, dropped h)
    by_subject-Promise event (ok true) e at h =
        inr (event, e, journal-IsDone event new (count_received s) s' h)

    by_verdict-Promise :
        (r : Result (Unit {0})) (v : Json)
        → host.codec.loads body ≡ some v
        → validate_event host.codec screen allowed v ≡ r
        → by_verdict host.codec screen allowed
            (some processor)
            r
            v
            subject
            clock
            now
            (count_received s)
          ≡ (ok (true, new), s')
        → Promise body subject s s'
    unfolding validate_event
    by_verdict-Promise (err (value_error reason)) v e valid h =
        inl (invalid v reason e valid, dropped h)
    by_verdict-Promise (err _) v e valid h = absurd (cc)
    by_verdict-Promise (ok u) (object event) e valid h =
        by_subject-Promise event (has_subject subject event) e refl h
    by_verdict-Promise (ok u) _ e valid h = absurd (cc)

    handle-Promise :
        handle host.codec screen allowed (some processor) body subject clock now s
          ≡ (ok (true, new), s')
        → Promise body subject s s'
    unfolding handle
    handle-Promise done = elim (Option-cases (host.codec.loads body)) [
      | inl e ↦ inl (unreadable e, dropped (rw (e, handle) at done))
      | inr (v, e) ↦
          by_verdict-Promise (validate_event host.codec screen allowed v) v e refl
            (rw (e, handle) at done)
    ]

-- Where `handle` acknowledges a message, either the message is refused (it is no JSON, no valid event, or
-- of another subject) and the node's state is as before, or its event is in the journal and, if it is a
-- desired state, the processor has answered with a state other than awaiting approval, and the outcome of
-- the answer, if it has one, is a recorded operation of the ledger.
pub handle-IsDone :
    {W : Type 0} (host : Host W) (screen : Screen) (node producer : String) (policy : Policy)
    (allowed : Option (List String)) (body : String) (subject : Option String) (clock : String)
    (now : ℕ) (new : Bool) (s s' : Service W)
    → handle host.codec screen allowed
        (some (process_event host screen node producer policy))
        body
        subject
        clock
        now
        s
      ≡ (ok (true, new), s')
    → Promise host screen node producer policy allowed clock now body subject s s'
handle-IsDone host screen node producer policy allowed body subject clock now new s s' =
    handle-Promise host screen node producer policy allowed clock now body subject new s s'
