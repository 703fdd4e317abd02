-- ===== src/Tests/Wire.antt =====
-- The reader of frames and the client at concrete wires.
use anvil_events.Base.{none, some, [], ◌∷◌, ◌++◌, ◌≡◌, refl, ◌||◌, ◌==◌, nat_eq, arith, length}
use anvil_events.Result.{ok, os_error}
use package.text.Mathlib.TextEquality.{eq_iff}
use anvil_events.Domain.Decimal.{decimal}
use anvil_events.Exec.{◌>>=◌}
use anvil_events.Transport.Reader.Digits.{digits, ten_to}
use anvil_events.Domain.Patterns.{codes}
use anvil_events.Transport.Socket.{Message, Wire, chunk, silence, end_of_line}
use anvil_events.Transport.Socket.Stream.{stream}
use anvil_events.Transport.Reader.{
  Texts, receive, subscribe, wanted_sid, validate_wire_subject, find_sid,
}
use anvil_events.Json.{Fields, object, end, field, text, number}
use anvil_events.Base.Int.{pos}
use anvil_events.Transport.Client.{loaded, publish_js}
use anvil_events.Transport.Client.Inbox.{publish_js-IsSubscribed}
use anvil_events.Transport.Reader.Frames.{IsSendable, frames_of, line_of}
use anvil_events.Transport.Reader.Batches.{receive-frames, wanted_of, others_of}
use anvil_events.Transport.Socket.Bounds.{Bounded}
use anvil_events.Transport.Reader.Bounds.{receive-Bounded}
use anvil_events.Transport.Reader.Timeouts.{receive-forgets}
use anvil_events.Transport.Reader.Subscriptions.{IsNumbered, Subscribed, subscribe-Subscribed}

abbrev ascii : Texts
ascii = record { decode = λ s. some s; is_space = λ c. c == 32 || (c == 13 || c == 10) }

abbrev greeting : Message
greeting = record { subject = codes "a.b"; sid = 1; reply = none; body = codes "hi" }

abbrev quiet : Wire
quiet = record {
  arrivals = [];
  verdicts = [];
  sent = [];
  buffer = [];
  subscriptions = ("a.b", 1) ∷ [];
  next_sid = 2;
  pending_messages = [];
}

-- The frame of the greeting, cut within its body.
abbrev greeted : Wire
greeted = record quiet { arrivals = chunk (codes "MSG a.b 1 2\r\nh") ∷ chunk (codes "i\r\n") ∷ [] }

greeting-IsSendable : IsSendable ascii greeting
unfolding validate_wire_subject line_of digits ten_to
greeting-IsSendable = record {
  is_printed = (refl, (refl, (refl, tt)));
  is_valid = refl;
  has_reply = tt;
  is_numbered = refl;
  sid_fits = omega arith;
  body_fits = omega arith;
  line_fits = omega arith;
}

greeted_stream : stream greeted ≡ frames_of (greeting ∷ []) []
unfolding frames_of line_of digits
greeted_stream = refl

receive-frames_example :
    (w' : Wire) × (receive ascii 3 (length (greeting ∷ [])) (some "a.b") greeted ≡ (
      ok (
          wanted_of ascii (wanted_sid ascii (some "a.b") greeted) []
          ++ wanted_of ascii (wanted_sid ascii (some "a.b") greeted) (greeting ∷ [])),
      w',
    ))
    × (w'.pending_messages
        ≡ others_of ascii (wanted_sid ascii (some "a.b") greeted) []
          ++ others_of ascii (wanted_sid ascii (some "a.b") greeted) (greeting ∷ []))
    × (stream w' ≡ [])
receive-frames_example =
    receive-frames ascii 3 (some "a.b") (greeting ∷ []) greeted [] (λ s h. refl)
      (greeting-IsSendable, tt) (omega arith) (omega arith) (tt, omega arith, (tt, omega arith, tt))
      greeted_stream

received_test : receive ascii 3 1 (some "a.b") greeted ≡ (ok (greeting ∷ []), quiet)
unfolding receive ◌>>=◌
received_test = refl

receive-Bounded_example :
    Bounded (receive ascii 3 1 none greeted).0 (receive ascii 3 1 none greeted).1
receive-Bounded_example =
    receive-Bounded ascii 3 1 none greeted
      (record { is_short = omega arith; is_limited = (omega arith, (omega arith, tt)) })

receive-forgets_example :
    receive ascii 1 3 none (record quiet {
      buffer = line_of greeting ++ (end_of_line ++ codes "h");
      arrivals = silence ∷ [];
      pending_messages = [];
    })
    ≡ (ok [], record quiet { buffer = codes "h"; pending_messages = [] })
receive-forgets_example =
    receive-forgets ascii greeting (codes "h") 1 2 none quiet greeting-IsSendable (omega arith)
      (omega arith)

quiet-IsNumbered : IsNumbered quiet
unfolding find_sid
quiet-IsNumbered = record {
  is_below = λ s n h. ground (arith, h);
  is_unique = λ s t n h k. ground (arith, h, k, eq_iff "a.b" s, eq_iff "a.b" t);
}

abbrev subscribed : Wire
subscribed = record quiet {
  subscriptions = ("a.b", 1) ∷ ("c.>", 2) ∷ [];
  next_sid = 3;
  sent = codes "SUB c.> 2\r\n" ∷ [];
}

new_subscription : subscribe "c.>" quiet ≡ (ok 2, subscribed)
unfolding subscribe ◌>>=◌ decimal
new_subscription = refl

subscribe-Subscribed_example : Subscribed "c.>" quiet 2 subscribed
subscribe-Subscribed_example =
    subscribe-Subscribed "c.>" quiet subscribed 2 quiet-IsNumbered new_subscription

-- The three frames of the request are sent, and the answer to a PING of the server is not.
abbrev cut_off : Wire
cut_off = record quiet {
  arrivals = chunk (codes "PING\r\n") ∷ [];
  verdicts = none ∷ none ∷ none ∷ some (os_error "Broken pipe") ∷ [];
}

publish_js-IsSubscribed_example :
    (publish_js ascii
      (λ bytes. loaded (object end))
      "_INBOX.anvil_events.0a"
      "a.b"
      "{}"
      "a:r:000001"
      2
      cut_off).1.subscriptions
    ≡ cut_off.subscriptions
unfolding find_sid
publish_js-IsSubscribed_example =
    publish_js-IsSubscribed ascii (λ bytes. loaded (object end)) "_INBOX.anvil_events.0a" "a.b" "{}"
      "a:r:000001" 2 cut_off refl (refl, (refl, (refl, tt)))

-- The UNSUB frame is not sent: the inbox stays subscribed.
unsent_test :
    (publish_js ascii
      (λ bytes. loaded (object end))
      "_INBOX.0a"
      "a.b"
      "{}"
      "a:r:000001"
      2
      (record quiet { verdicts = none ∷ some (os_error "Broken pipe") ∷ [] })).1.subscriptions
    ≡ ("a.b", 1) ∷ ("_INBOX.0a", 2) ∷ []
unfolding publish_js ◌>>=◌ anvil_events.Domain.Patterns.has_newline
unsent_test = refl

-- An acknowledgement comes under the number of the inbox.
abbrev acknowledged : Wire
acknowledged = record quiet { arrivals = chunk (codes "MSG _INBOX.0a 2 2\r\n{}\r\n") ∷ [] }

abbrev puback : Fields
puback = field "stream" (text "EVENTS") (field "seq" (number (pos 9)) end)

published_test :
    (publish_js ascii
      (λ bytes. loaded (object puback))
      "_INBOX.0a"
      "a.b"
      "{}"
      "a:r:000001"
      2
      acknowledged).0
    ≡ ok puback
unfolding publish_js ◌>>=◌ anvil_events.Domain.Patterns.has_newline anvil_events.Json.get
published_test = refl
