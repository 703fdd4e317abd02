-- ===== src/Runtime/Subscriber.antt =====
-- runtime/subscriber.py: what `Subscriber.handle` does with a message, and when it is acknowledged.
pub mod Acks
use anvil_events.Base.{
  ℕ, ◌+◌, String, Bool, true, false, Option, none, some, List, ◌==◌, string_eq, option_eq,
  if◌then◌else◌, clip,
}
use anvil_events.Result.{Fault, Result, ok, err, value_error, message, key_error}
use anvil_events.Exec.{Exec}
use anvil_events.Json.{Json, Fields, Codec, object, text, get, as_text}
use anvil_events.Domain.V1.{validate_event}
use anvil_events.Domain.V2.Payloads.{Screen}
use anvil_events.Storage.Events.{append_journal}
use anvil_events.Reconcile.Engine.Types.{Host, World, ResultState}
use anvil_events.Runtime.Processor.{Answer}

-- The counters of runtime/stats.py that `handle` writes.
pub record Stats : Type 0 where
  pub received : ℕ
  pub journaled : ℕ
  pub dropped : ℕ
  pub last_error : Option String

pub record Service (W : Type 0) : Type 0 where
  pub world : World W
  pub stats : Stats

abbrev pub awaits_approval : Option Answer → Bool
awaits_approval none = false
awaits_approval (some a) = elim a.state [ ResultState.awaiting_approval ↦ true | _ ↦ false ]

-- broker_subject is not None and broker_subject != event["subject"]
abbrev pub has_subject : Option String → Fields → Result Bool
has_subject none event = ok true
has_subject (some subject) event = elim (get "subject" event) [
  | none ↦ err (key_error "subject")
  | some v ↦ ok (as_text (some v) == some subject)
]

-- The processor of the service, if it has one.
abbrev pub Processor : Type 0 → Type 0
Processor W = Option (Fields → String → ℕ → Exec (World W) (Option Answer))

module _ {W : Type 0} where
  unfoldable pub count_received : Service W → Service W
  count_received s = record s { stats = record s.stats { received = s.stats.received + 1 } }

  unfoldable pub count_dropped : Service W → Service W
  count_dropped s = record s { stats = record s.stats { dropped = s.stats.dropped + 1 } }

  abbrev pub count_journaled : Bool → Service W → Service W
  count_journaled true s = record s { stats = record s.stats { journaled = s.stats.journaled + 1 } }
  count_journaled false s = s

  -- self.stats.update(last_error=...)
  unfoldable pub set_error : Option String → Service W → Service W
  set_error e s = record s { stats = record s.stats { last_error = e } }

  abbrev pub drop : Exec (Service W) (Bool × Bool)
  drop s = (ok (true, false), count_dropped s)

  -- What follows the processor: an event that awaits approval is delivered again.
  abbrev pub after_process : Bool → Result (Option Answer) → Exec (Service W) (Bool × Bool)
  after_process journaled (err e) s =
      (ok (false, journaled), set_error (some (clip 300 (message e))) s)
  after_process journaled (ok outcome) s =
      (ok ((if awaits_approval outcome then false else true), journaled), set_error none s)

  unfoldable pub run_processor :
      Processor W → Bool → Fields → String → ℕ → Exec (Service W) (Bool × Bool)
  run_processor none journaled event clock now s = after_process journaled (ok none) s
  run_processor (some process) journaled event clock now s =
      let (r, w) = process event clock now s.world in
      after_process journaled r (record s { world = w })

  abbrev pub after_journal :
      Processor W → Fields → String → ℕ → Result Bool → Exec (Service W) (Bool × Bool)
  after_journal processor event clock now (err e) s =
      (ok (false, false), set_error (some (clip 300 (message e))) s)
  after_journal processor event clock now (ok journaled) s =
      run_processor processor journaled event clock now (count_journaled journaled s)

  module _ (codec : Codec) (screen : Screen) (allowed : Option (List String))
      (processor : Processor W) where
    unfoldable pub journal : Fields → String → ℕ → Exec (Service W) (Bool × Bool)
    journal event clock now s =
        let (r, db') = append_journal codec screen event now s.world.db in
        after_journal processor event clock now r (record s { world = record s.world { db = db' } })

    abbrev pub by_subject : Fields → String → ℕ → Result Bool → Exec (Service W) (Bool × Bool)
    by_subject event clock now (err e) s = (err e, s)
    by_subject event clock now (ok false) s = drop s
    by_subject event clock now (ok true) s = journal event clock now s

    abbrev pub by_verdict :
        Result (Unit {0}) → Json → Option String → String → ℕ → Exec (Service W) (Bool × Bool)
    by_verdict (err (value_error reason)) v subject clock now s = drop s
    by_verdict (err e) v subject clock now s = (err e, s)
    by_verdict (ok u) (object event) subject clock now s =
        by_subject event clock now (has_subject subject event) s
    by_verdict (ok u) v subject clock now s = drop s

    -- Whether the message is acknowledged, and whether its event is new in the journal.
    unfoldable pub handle : String → Option String → String → ℕ → Exec (Service W) (Bool × Bool)
    handle body subject clock now s = elim (codec.loads body) [
      | none ↦ drop (count_received s)
      | some v ↦
          by_verdict (validate_event codec screen allowed v) v subject clock now (count_received s)
    ]
