-- ===== src/Runtime/Processor/Outcomes.antt =====
-- What the processor keeps of the journal, and what it records in the ledger.
use anvil_events.Base.{
  ℕ, String, Option, none, some, List, [], ◌∷◌, ◌≡◌, refl, ap, inl, inr, string_eq, option_eq,
  Option-cases, subst, beq_refl,
}
use anvil_events.Result.{Result, ok, err, value_error}
use anvil_events.Exec.{pure, ◌>>=◌}
use anvil_events.Exec.Keeps.{
  Keeps, Keeps-pure, Keeps-raise, keeps_rules, Post, Post-intro, Returns, Returns-pure,
  Returns-raise, Returns-then, Returns-bind, Returns-any, Returns-if,
}
use anvil_events.Json.{Json, Fields, get, as_text}
use anvil_events.Domain.V2.Payloads.{Screen}
use anvil_events.Storage.Events.Stored.{IsJournaled, Grows-IsJournaled}
use anvil_events.Storage.Operations.{record_v2}
use anvil_events.Storage.Operations.Journal.{IsRecorded, record_v2-Grows, record_v2-IsRecorded}
use anvil_events.Reconcile.Contracts.{Policy}
use anvil_events.Reconcile.Engine
use anvil_events.Reconcile.Engine.Types.{Host, World, ReconcileResult, on_db, lift}
use anvil_events.Reconcile.Engine.Events.{process-events}
use anvil_events.Runtime.Processor.{
  Answer, rejected, by_result, key_of, record_outcome, record_answer, process_state, process_event,
  outcome_key, payload_json,
}

module _ {W : Type 0} (host : Host W) (screen : Screen) (node producer : String) (policy : Policy)
    (id : String) where
  unfoldable pub Journaled : World W → Type 0
  Journaled w = IsJournaled id w.db

  lift-Journaled : {A : Type 0} (r : Result A) → Keeps Journaled (lift r)
  lift-Journaled (ok a) = Keeps-pure a
  lift-Journaled (err e) = Keeps-raise e

  engine-Journaled :
      (event : Fields) (now : ℕ) → Keeps Journaled (Engine.process host node policy event now)
  unfolding Journaled
  engine-Journaled event now = record {
    at = λ w h. let (r, at, j) = h in (r, rw (process-events host node policy event now w) at, j);
  }

  record_v2-Journaled :
      (key kind : String) (payload : Json) (correlation : Option String) (causes : List String)
      (clock : String) (now : ℕ)
      → Keeps Journaled (
          on_db (
            record_v2 host.codec screen key key producer kind node payload correlation causes clock
              now))
  unfolding Journaled on_db
  record_v2-Journaled key kind payload correlation causes clock now = record {
    at = λ w h.
        Grows-IsJournaled id w.db _
          (record_v2-Grows host.codec screen key key producer kind node payload correlation causes
            clock now w.db)
          h;
  }

  ruleset journal_rules = (keeps_rules, lift-Journaled, engine-Journaled, record_v2-Journaled)

  rejected-Journaled :
      (event : Fields) → Keeps Journaled (rejected host screen node producer policy event)
  unfolding rejected
  rejected-Journaled event = search journal_rules depth 20

  by_result-Journaled :
      (event : Fields) (r : Result ReconcileResult)
      → Keeps Journaled (by_result host screen node producer policy event r)
  by_result-Journaled event (ok r) = Keeps-pure _
  by_result-Journaled event (err (value_error s)) = rejected-Journaled event
  by_result-Journaled event (err _) = Keeps-raise _

  record_outcome-Journaled :
      (event : Fields) (kind : String) (payload : Option Fields) (clock : String) (now : ℕ)
      → Keeps Journaled
          (record_outcome host screen node producer policy event kind payload clock now)
  unfolding record_outcome
  record_outcome-Journaled event kind payload clock now = search journal_rules

  record_answer-Journaled :
      (event : Fields) (clock : String) (now : ℕ) (a : Answer)
      → Keeps Journaled (record_answer host screen node producer policy event clock now a)
  record_answer-Journaled event clock now a = elim (Option-cases a.outcome_kind) [
    | inl e ↦ rw e (Keeps-pure tt)
    | inr (kind, e) ↦ rw e (record_outcome-Journaled event kind a.payload clock now)
  ]

  process_state-Journaled :
      (event : Fields) (clock : String) (now : ℕ)
      → Keeps Journaled (process_state host screen node producer policy event clock now)
  unfolding process_state
  process_state-Journaled event clock now =
      search (journal_rules, by_result-Journaled, record_answer-Journaled)

  pub process_event-Journaled :
      (event : Fields) (clock : String) (now : ℕ)
      → Keeps Journaled (process_event host screen node producer policy event clock now)
  unfolding process_event
  process_event-Journaled event clock now = search (journal_rules, process_state-Journaled)

module _ {W : Type 0} (host : Host W) (screen : Screen) (node producer : String)
    (policy : Policy) where
  -- The outcome of the answer is recorded in the ledger, under the event's key.
  abbrev pub HasOutcome : Fields → Answer → World W → Type 0
  HasOutcome event a w =
      (event_id kind : String)
      → as_text (get "event_id" event) ≡ some event_id
      → a.outcome_kind ≡ some kind
      → IsRecorded (outcome_key host screen node producer policy event_id kind) w.db

  on_db-IsRecorded :
      (key kind : String) (payload : Json) (correlation : Option String) (causes : List String)
      (clock : String) (now : ℕ)
      → Returns
          (λ w. Unit {0})
          (on_db {W = W} (
            record_v2 host.codec screen key key producer kind node payload correlation causes clock
              now))
          (λ a w. IsRecorded key w.db)
  unfolding on_db
  on_db-IsRecorded key kind payload correlation causes clock now = record {
    at = λ w p. Post-intro _ λ a w' h.
        record_v2-IsRecorded host.codec screen key key producer kind node payload correlation causes
          clock now w.db a w'.db (ap (λ x. (x.0, x.1.db)) h);
  }

  record_outcome-HasOutcome :
      (event : Fields) (kind : String) (payload : Option Fields) (clock : String) (now : ℕ)
      (event_id : String)
      → as_text (get "event_id" event) ≡ some event_id
      → Returns
          (λ w. Unit {0})
          (record_outcome host screen node producer policy event kind payload clock now)
          (λ u w. IsRecorded (outcome_key host screen node producer policy event_id kind) w.db)
  unfolding record_outcome ◌>>=◌ pure
  record_outcome-HasOutcome event kind payload clock now event_id has =
      rw (has, record_outcome) (record { at = λ w p. recorded.at w tt })
    where
      key : String
      key = outcome_key host screen node producer policy event_id kind

      recorded :
          Returns
            (λ w. Unit {0})
            (on_db {W = W} (
                record_v2 host.codec screen key key producer kind node
                  (payload_json host screen node producer policy payload)
                  (as_text (get "correlation_id" event))
                  (event_id ∷ [])
                  clock
                  now)
              >>= λ r. pure tt)
            (λ u w. IsRecorded key w.db)
      recorded =
          Returns-bind _ _
            (on_db-IsRecorded key kind (payload_json host screen node producer policy payload)
              (as_text (get "correlation_id" event)) (event_id ∷ []) clock now)
            λ r. Returns-pure tt (λ w h. h)

  record_answer-HasOutcome :
      (event : Fields) (clock : String) (now : ℕ) (a : Answer)
      → Returns
          (λ w. Unit {0})
          (record_answer host screen node producer policy event clock now a)
          (λ u. HasOutcome event a)
  record_answer-HasOutcome event clock now a = record {
    at = λ w p.
        Post-intro {Q = λ u. HasOutcome event a} _
          λ u w' done event_id kind has some_kind. holds event_id kind has some_kind w u w' done;
  }
    where
      holds :
          (event_id kind : String)
          → as_text (get "event_id" event) ≡ some event_id
          → a.outcome_kind ≡ some kind
          → (w : World W) (u : Unit {0}) (w' : World W)
          → record_answer host screen node producer policy event clock now a w ≡ (ok u, w')
          → IsRecorded (outcome_key host screen node producer policy event_id kind) w'.db
      holds event_id kind has some_kind w u w' done =
          let recorded =
            (record_outcome-HasOutcome event kind a.payload clock now event_id has).at w tt in
          subst
            (Post (λ (v : Unit {0}) (x : World W).
              IsRecorded (outcome_key host screen node producer policy event_id kind) x.db))
            (rw some_kind at done) recorded

  -- A desired state is answered, and the outcome of an answer is recorded.
  abbrev pub Answered : Fields → Option Answer → World W → Type 0
  Answered event o w =
      (as_text (get "kind" event) ≡ some "state.desired" → (a : Answer) × (o ≡ some a))
      × ((a : Answer) → o ≡ some a → HasOutcome event a w)

  process_state-Answered :
      (event : Fields) (clock : String) (now : ℕ)
      → Returns
          (λ w. Unit {0})
          (process_state host screen node producer policy event clock now)
          (Answered event)
  unfolding process_state
  process_state-Answered event clock now = Returns-then _ _ λ result. Returns-then _ _ λ answer.
      Returns-bind _ _ (record_answer-HasOutcome event clock now answer) λ u.
        Returns-pure (some answer) (λ w h. (
          (λ desired. (answer, refl)),
          λ a same. subst (λ x. HasOutcome event x w) (inner answer a same) h,
        ))
    where
      inner : (a b : Answer) → some a ≡ some b → a ≡ b
      inner a b p = cc

  key_of-Returns :
      (key : String) (fs : Fields)
      → Returns (λ w. Unit {0}) (lift {S = World W} (key_of key fs)) (λ v w. get key fs ≡ some v)
  key_of-Returns key fs = elim (Option-cases (get key fs)) [
    | inl e ↦ rw e (Returns-raise _)
    | inr (v, e) ↦ rw e (Returns-pure v (λ w p. refl))
  ]

  pub process_event-Answered :
      (event : Fields) (clock : String) (now : ℕ)
      → Returns
          (λ w. Unit {0})
          (process_event host screen node producer policy event clock now)
          (Answered event)
  unfolding process_event
  process_event-Answered event clock now = Returns-bind _ _ (key_of-Returns "kind" event) λ kind.
      Returns-if _ _ _ (λ e. Returns-any _ (process_state-Answered event clock now))
        (λ e. Returns-pure none (λ w h. (
          (λ desired.
              absurd (cc (e, h, desired, beq_refl {A = Option String} (some "state.desired")))),
          λ a same. absurd (cc),
        )))
