-- ===== src/Transport/Reader/Batches.antt =====
-- `receive` on a run of messages.
use anvil_events.Base.{
  ℕ, zero, suc, ◌+◌, ◌≤◌, String, Bool, true, false, not, Option, List, [], ◌∷◌, ◌++◌, ◌≡◌, refl,
  ltb, if◌then◌else◌, length, length-append, arith, All, Bool-cases, inl, inr,
}
use mathlib.Core.List.{append_assoc, append-nil}
use anvil_events.Result.{ok}
use anvil_events.Transport.Socket.{Message, Wire, Arrival}
use anvil_events.Transport.Socket.Stream.{stream, bytes_of, IsSteady, read_to}
use anvil_events.Transport.Reader.{Texts, receive, receive_loop, is_wanted, choose, wanted_sid}
use anvil_events.Transport.Reader.Frames.{IsAscii, IsSendable, frames_of, round-ReadsFrame}

pub where_true : (Message → Bool) → List Message → List Message
where_true p [] = []
where_true p (m ∷ ms) = let rest = where_true p ms in if p m then m ∷ rest else rest

module _ (texts : Texts) (wanted : Option ℕ) where
  -- The messages of the subscription, and the others.
  abbrev pub wanted_of : List Message → List Message
  wanted_of = where_true (is_wanted texts wanted)

  abbrev pub others_of : List Message → List Message
  others_of = where_true (λ m. not (is_wanted texts wanted m))

  choose_all :
      (room : ℕ) (ms : List Message)
      → length ms ≤ room
      → choose texts wanted room ms ≡ (wanted_of ms, others_of ms)
  unfolding choose where_true
  choose_all zero [] h = refl
  choose_all (suc room) [] h = refl
  choose_all zero (m ∷ ms) h = absurd (omega (arith, h))
  choose_all (suc room) (m ∷ ms) h = elim (Bool-cases (is_wanted texts wanted m)) [
    | inl e ↦ rw (e, choose, where_true, choose_all room ms (omega (arith, h))) refl
    | inr e ↦ rw (e, choose, where_true, choose_all (suc room) ms (omega (arith, h))) refl
  ]

  length-wanted : (ms : List Message) → length (wanted_of ms) ≤ length ms
  unfolding where_true
  length-wanted [] = omega arith
  length-wanted (m ∷ ms) = ground (arith, length-wanted ms)

  -- What the loop leaves after the messages.
  record Received (count : ℕ) (ms got : List Message) (w : Wire) (rest : List ℕ) : Type 0 where
    buffer' : List ℕ
    later : List Arrival
    runs : receive_loop texts wanted count (length ms) got w ≡ (
      ok (got ++ wanted_of ms),
      record (read_to w buffer' later) { pending_messages = w.pending_messages ++ others_of ms },
    )
    no_loss : buffer' ++ bytes_of later ≡ rest
    is_steady : IsSteady later

  loop-Received :
      (ascii : IsAscii texts) (count : ℕ) (ms got : List Message) (w : Wire) (rest : List ℕ)
      → All (IsSendable texts) ms
      → length got + length ms ≤ count
      → IsSteady w.arrivals
      → stream w ≡ frames_of ms rest
      → Received count ms got w rest
  unfolding receive_loop frames_of where_true
  loop-Received ascii count [] got w rest sendable room steady h = record {
    buffer' = w.buffer;
    later = w.arrivals;
    runs = rw (append-nil got, append-nil w.pending_messages) refl;
    no_loss = h;
    is_steady = steady;
  }
  loop-Received ascii count (m ∷ ms) got w rest (one, sendable) room steady h =
      let r = round-ReadsFrame texts ascii m one w (frames_of ms rest) steady h in
      let w' = read_to w r.buffer' r.later in
      let open_loop : ltb (length got) count ≡ true = ground (arith, room) in
      elim (Bool-cases (is_wanted texts wanted m)) [
        | inl e ↦
            let more : length (got ++ m ∷ []) + length ms ≤ count =
              omega (arith, room, length-append got (m ∷ [])) in
            let k =
              loop-Received ascii count ms (got ++ m ∷ []) w' rest sendable more r.is_steady
                r.no_loss in
            record {
              buffer' = k.buffer';
              later = k.later;
              runs =
                  rw
                    (
                      receive_loop,
                      open_loop,
                      r.runs,
                      e,
                      where_true,
                      k.runs,
                      append_assoc got (m ∷ []) (wanted_of ms),
                    )
                    refl;
              no_loss = k.no_loss;
              is_steady = k.is_steady;
            }
        | inr e ↦
            let w'' = record w' { pending_messages = w.pending_messages ++ m ∷ [] } in
            let k =
              loop-Received ascii count ms got w'' rest sendable (omega (arith, room)) r.is_steady
                r.no_loss in
            record {
              buffer' = k.buffer';
              later = k.later;
              runs =
                  rw
                    (
                      receive_loop,
                      open_loop,
                      r.runs,
                      e,
                      where_true,
                      k.runs,
                      append_assoc w.pending_messages (m ∷ []) (others_of ms),
                    )
                    refl;
              no_loss = k.no_loss;
              is_steady = k.is_steady;
            }
      ]

-- The reader is a round trip, however the bytes are cut up: where every call of recv brings bytes, at least
-- one and no more than it asked for, and none times out, where the stream of a wire is the frames of
-- messages that the server can send, and what follows, where decode is right on ASCII and at least one
-- message is asked for, and where there is room for these and the pending messages, receive returns in as
-- many rounds as there are frames: the messages of the subscription in their order, the pending ones first;
-- it keeps the others in their order, and leaves what follows in the stream.
pub receive-frames :
    (texts : Texts) (count : ℕ) (subscription : Option String) (ms : List Message) (w : Wire)
    (rest : List ℕ)
    → IsAscii texts
    → All (IsSendable texts) ms
    → 1 ≤ count
    → length w.pending_messages + length ms ≤ count
    → IsSteady w.arrivals
    → stream w ≡ frames_of ms rest
    → (w' : Wire) × (receive texts count (length ms) subscription w ≡ (
      ok (
          wanted_of texts (wanted_sid texts subscription w) w.pending_messages
          ++ wanted_of texts (wanted_sid texts subscription w) ms),
      w',
    ))
      × (w'.pending_messages
          ≡ others_of texts (wanted_sid texts subscription w) w.pending_messages
            ++ others_of texts (wanted_sid texts subscription w) ms)
      × (stream w' ≡ rest)
unfolding receive
receive-frames texts count subscription ms w rest ascii sendable positive room steady h =
    let wanted = wanted_sid texts subscription w in
    let pending = w.pending_messages in
    let few : length (wanted_of texts wanted pending) + length ms ≤ count =
      omega (arith, room, length-wanted texts wanted pending) in
    let w0 = record w { pending_messages = others_of texts wanted pending } in
    let r =
      loop-Received texts wanted ascii count ms (wanted_of texts wanted pending) w0 rest sendable
        few steady h in
    let tested : ltb count 1 ≡ false = ground (arith, positive) in
    let all_chosen : length pending ≤ count = omega (arith, room) in
    (
      record (read_to w0 r.buffer' r.later) {
        pending_messages = others_of texts wanted pending ++ others_of texts wanted ms;
      },
      rw (tested, choose_all texts wanted count pending all_chosen) r.runs,
      refl,
      r.no_loss,
    )
