-- ===== src/Transport/Client.antt =====
-- The JetStream client of transport/client.py over a wire: publish_js where an acknowledgement is awaited, a
-- request, and ack. The name of an inbox, which secrets makes, and json.loads on bytes are parameters.
pub mod Calls
pub mod Inbox
use Prim.Native.String.{len}
use anvil_events.Base.{
  ℕ, ◌+◌, String, Bool, true, false, not, ◌&&◌, ◌||◌, Option, none, some, List, [], ◌∷◌, ◌++◌, ◌==◌,
  string_eq, nat_eq, ltb, if◌then◌else◌, any,
}
use anvil_events.Base.Int.{pos}
use anvil_events.Result.{Fault, Result, ok, err, value_error, os_error, timeout, guard}
use anvil_events.Exec.{Exec, pure, raise, attempt, ◌>>=◌, ◌>>◌}
use anvil_events.Json.{Json, Fields, null, boolean, number, text, array, object, nil, end, get}
use anvil_events.Domain.Patterns.{codes, same_codes}
use anvil_events.Domain.Decimal.{decimal}
use anvil_events.Transport.Wire.{encode_js_publish}
use anvil_events.Transport.Socket.{Message, Wire, end_of_line, starts_with}
use anvil_events.Transport.Reader.{
  Texts, lift, send_bytes, subscribe, receive, validate_subject, validate_wire_subject,
}

-- What json.loads makes of bytes: a value, JSONDecodeError, or the UnicodeDecodeError that is no such error.
pub data Loaded : Type 0 where
  loaded : Json → Loaded
  malformed : Loaded
  undecodable : Loaded

-- subscriptions.pop(subject, None)
unfoldable pub pop_sid : String → List (String × ℕ) → List (String × ℕ)
pop_sid subject [] = []
pop_sid subject ((s, sid) ∷ more) =
    let rest = pop_sid subject more in if s == subject then more else (s, sid) ∷ rest

unfoldable pub close_inbox : String → Exec Wire (Unit {0})
unfolding pop_sid
close_inbox inbox w = (ok tt, record w { subscriptions = pop_sid inbox w.subscriptions })

-- b"UNSUB " + str(sid).encode() + b" 1\r\n"
abbrev pub unsub_frame : ℕ → List ℕ
unsub_frame sid = codes "UNSUB " ++ (codes (decimal sid) ++ (codes " 1" ++ end_of_line))

unfoldable pub open_inbox : String → Exec Wire (Unit {0})
unfolding subscribe send_bytes decimal
open_inbox inbox = do sid ← subscribe inbox; send_bytes (unsub_frame sid)

-- A response that is no object, or reports an error, raises: response.get("error") is tested for truth.
abbrev pub is_truthy : Option Json → Bool
is_truthy none = false
is_truthy (some null) = false
is_truthy (some (boolean b)) = b
is_truthy (some (number (pos ℕ.zero))) = false
is_truthy (some (text String.[])) = false
is_truthy (some (array nil)) = false
is_truthy (some (object end)) = false
is_truthy (some v) = true

abbrev pub response_of : Loaded → Result Fields
response_of (loaded (object fs)) =
    if is_truthy (get "error" fs) then err (os_error "JetStream error") else ok fs
response_of (loaded v) = err (os_error "malformed response")
response_of malformed = err (os_error "malformed response")
response_of undecodable = err (value_error "invalid utf-8")

abbrev pub is_positive : Option Json → Bool
is_positive (some (number (pos n))) = ltb 0 n
is_positive _ = false

abbrev pub is_named : Option Json → Bool
is_named (some (text s)) = not (s == "")
is_named _ = false

-- The checks of an acknowledgement.
abbrev pub checked_ack : Fields → Result Fields
checked_ack ack =
    if is_positive (get "seq" ack)
    then (if is_named (get "stream" ack) then ok ack else err (os_error "invalid JetStream PubAck"))
    else err (os_error "invalid JetStream PubAck sequence")

-- "HPUB " subject inbox, the sizes, the headers and the payload
unfoldable pub hpub_frame : String → String → String → String → List ℕ
unfolding decimal
hpub_frame subject inbox headers payload =
    codes "HPUB "
    ++ (codes subject
        ++ (b' '
            ∷ (codes inbox
                ++ (b' '
                    ∷ (codes (decimal (len headers))
                        ++ (b' '
                            ∷ (codes (decimal (len headers + len payload))
                                ++ (end_of_line
                                    ++ (codes headers ++ (codes payload ++ end_of_line))))))))))

-- "PUB " subject inbox, the size and the body
unfoldable pub pub_frame : String → String → String → List ℕ
unfolding decimal
pub_frame subject inbox body =
    codes "PUB "
    ++ (codes subject
        ++ (b' '
            ∷ (codes inbox
                ++ (b' '
                    ∷ (codes (decimal (len body))
                        ++ (end_of_line ++ (codes body ++ end_of_line)))))))

-- not subject.startswith("$JS.API.") or a blank in it
abbrev pub is_api_subject : List ℕ → Bool
is_api_subject s =
    starts_with (codes "$JS.API.") s
    && not (any (λ c. c == 13 || (c == 10 || (c == 32 || c == 9))) s)

-- ack
unfoldable pub ack : Texts → String → Exec Wire (Unit {0})
unfolding same_codes validate_wire_subject send_bytes
ack texts reply = do
  lift (
      guard (starts_with (codes "$JS.ACK.") (codes reply))
        (value_error "invalid JetStream ACK subject"))
  lift (validate_wire_subject texts false (codes reply))
  send_bytes (codes "PUB " ++ (codes reply ++ (codes " 0" ++ (end_of_line ++ end_of_line))))

module _ (texts : Texts) (loads : List ℕ → Loaded) where
  abbrev pub reply_of : String → List Message → Result Fields
  reply_of late [] = err (timeout late)
  reply_of late (m ∷ ms) = response_of (loads m.body)

  -- The end of the try: the inbox is closed, whether receive returned or raised.
  abbrev pub after_receive : String → Result (List Message) → Exec Wire Fields
  after_receive late (ok messages) = lift (reply_of late messages)
  after_receive late (err e) = raise e

  unfoldable pub await_reply : String → String → ℕ → Exec Wire Fields
  unfolding receive close_inbox
  await_reply late inbox ticks = do
    received ← attempt (receive texts 1 ticks (some inbox))
    close_inbox inbox
    after_receive late received

  -- publish_js with wait_ack, on a payload that is encoded
  unfoldable pub publish_js : String → String → String → String → ℕ → Exec Wire Fields
  unfolding validate_subject encode_js_publish open_inbox hpub_frame await_reply send_bytes
  publish_js inbox subject payload msg_id ticks = do
    lift (validate_subject false (codes subject))
    encoded ← lift (encode_js_publish payload msg_id)
    open_inbox inbox
    send_bytes (hpub_frame subject inbox encoded.1 encoded.0)
    reply ← await_reply "JetStream PubAck timed out" inbox ticks
    lift (checked_ack reply)

  -- _request_json_raw on a body that is encoded, and _request_json
  unfoldable pub request_json : String → String → String → ℕ → Exec Wire Fields
  unfolding same_codes open_inbox pub_frame await_reply send_bytes
  request_json inbox subject body ticks = do
    lift (guard (is_api_subject (codes subject)) (value_error "invalid JetStream API subject"))
    open_inbox inbox
    send_bytes (pub_frame subject inbox body)
    await_reply "JetStream API request timed out" inbox ticks
