-- ===== src/Transport/Reader.antt =====
-- The reader of NATSWire in transport/protocol.py, with the checks of subjects and numbers. UTF-8 and the
-- test for white space are parameters.
pub mod Digits
pub mod Bounds
pub mod Timeouts
pub mod Subscriptions
pub mod Frames
pub mod Batches
use anvil_events.Base.{
  ℕ, ◌+◌, ◌-◌, ◌*◌, String, Bool, true, false, ◌&&◌, ◌||◌, not, Option, none, some, List, [], ◌∷◌,
  ◌++◌, ◌==◌, nat_eq, string_eq, leb, ltb, if◌then◌else◌, length, take, skip, all, any,
}
use anvil_events.Result.{Result, ok, err, Fault, value_error, os_error, timeout, or_raise, guard}
use anvil_events.Exec.{Exec, pure, raise, ◌>>=◌, ◌>>◌}
use anvil_events.Domain.Patterns.{codes, split, is_digit, is_token_char, all_some, same_codes}
use anvil_events.Domain.Decimal.{decimal}
use anvil_events.Transport.Socket.{Message, Wire, end_of_line, starts_with, readline, read_body}

-- bytes.decode() and str.isspace() of a character
pub record Texts : Type 0 where
  pub decode : List ℕ → Option (List ℕ)
  pub is_space : ℕ → Bool

abbrev pub is_empty : List ℕ → Bool
is_empty [] = true
is_empty (c ∷ s) = false

abbrev pub is_last : List (List ℕ) → Bool
is_last [] = true
is_last (t ∷ tokens) = false

-- The tokens of a subject, by the test on one that is no wildcard.
unfoldable pub are_tokens : (List ℕ → Bool) → Bool → List (List ℕ) → Bool
unfolding same_codes
are_tokens is_token allow_wildcards [] = true
are_tokens is_token allow_wildcards (t ∷ tokens) =
    (if same_codes t (codes "*")
      then allow_wildcards
      else if same_codes t (codes ">")
      then allow_wildcards && is_last tokens
      else is_token t)
    && are_tokens is_token allow_wildcards tokens

unfoldable pub check_tokens : (List ℕ → Bool) → Bool → List ℕ → Result (List ℕ)
unfolding split are_tokens
check_tokens is_token allow_wildcards subject =
    let tokens = split b'.' subject in
    if is_empty subject || any is_empty tokens
    then err (value_error "invalid subject")
    else if are_tokens is_token allow_wildcards tokens
    then ok subject
    else err (value_error "invalid subject")

unfoldable pub validate_subject : Bool → List ℕ → Result (List ℕ)
unfolding check_tokens all_some is_token_char
validate_subject = check_tokens (all_some is_token_char)

abbrev pub value_of : ℕ → List ℕ → ℕ
value_of n [] = n
value_of n (c ∷ s) = value_of (10 * n + (c - b'0')) s

-- int(token) refuses more digits than this.
abbrev pub max_digits : ℕ
max_digits = 4300

unfoldable pub parse_uint : Bool → List ℕ → Result ℕ
unfolding is_digit
parse_uint positive token =
    if is_empty token || not (all is_digit token)
    then err (os_error "malformed number")
    else if ltb max_digits (length token)
    then err (value_error "Exceeds the limit for integer string conversion")
    else if positive && value_of 0 token == 0
    then err (os_error "invalid number")
    else ok (value_of 0 token)

abbrev pub lift {ℓ} : {A : Type ℓ} → Result A → Wire → Result A × Wire
lift r w = (r, w)

-- sendall by its verdict. What a call that raises may have sent is not recorded.
abbrev pub send_as : List (Option Fault) → List ℕ → Exec Wire (Unit {0})
send_as [] bytes w = (ok tt, record w { sent = w.sent ++ bytes ∷ []; verdicts = [] })
send_as (none ∷ later) bytes w = (ok tt, record w { sent = w.sent ++ bytes ∷ []; verdicts = later })
send_as (some e ∷ later) bytes w = (err e, record w { verdicts = later })

unfoldable pub send_bytes : List ℕ → Exec Wire (Unit {0})
send_bytes bytes w = send_as w.verdicts bytes w

unfoldable pub find_sid : String → List (String × ℕ) → Option ℕ
find_sid subject [] = none
find_sid subject ((s, sid) ∷ more) = if s == subject then some sid else find_sid subject more

-- b"SUB " + subject.encode() + b" " + str(sid).encode() + b"\r\n"
unfoldable pub sub_frame : String → ℕ → List ℕ
sub_frame subject sid =
    codes "SUB " ++ (codes subject ++ (b' ' ∷ (codes (decimal sid) ++ end_of_line)))

-- The subscription is recorded before the SUB frame is sent.
abbrev pub add_subscription : String → Wire → Wire
add_subscription subject w = record w {
  next_sid = w.next_sid + 1;
  subscriptions = w.subscriptions ++ (subject, w.next_sid) ∷ [];
}

unfoldable pub subscribe_as : String → Option ℕ → Exec Wire ℕ
unfolding send_bytes sub_frame
subscribe_as subject (some sid) w = (ok sid, w)
subscribe_as subject none w =
    (send_bytes (sub_frame subject w.next_sid) >> pure w.next_sid) (add_subscription subject w)

unfoldable pub subscribe : String → Exec Wire ℕ
unfolding validate_subject find_sid subscribe_as
subscribe subject = do
  lift (validate_subject true (codes subject))
  λ w. subscribe_as subject (find_sid subject w.subscriptions) w

module _ (texts : Texts) where
  unfoldable pub is_wire_token : List ℕ → Bool
  is_wire_token t = not (any (λ c. texts.is_space c || c == b'.' || c == b'*' || c == b'>') t)

  unfoldable pub validate_wire_subject : Bool → List ℕ → Result (List ℕ)
  unfolding check_tokens is_wire_token
  validate_wire_subject = check_tokens is_wire_token

  abbrev pub decoded : List ℕ → Result (List ℕ)
  decoded bytes = or_raise (texts.decode bytes) (value_error "invalid utf-8")

  abbrev pub decoded_reply : Option (List ℕ) → Result (Option (List ℕ))
  decoded_reply none = ok none
  decoded_reply (some bytes) = elim (decoded bytes) [ ok reply ↦ ok (some reply) | err e ↦ err e ]

  abbrev pub check_reply : Option (List ℕ) → Result (List ℕ)
  check_reply none = ok []
  check_reply (some reply) = validate_wire_subject false reply

  -- The end of _decode_message, with the fields of the line.
  unfoldable pub make_message : List ℕ → List ℕ → Option (List ℕ) → List ℕ → Exec Wire Message
  unfolding validate_wire_subject parse_uint
  make_message subject_bytes sid_bytes reply body = do
    subject ← lift (decoded subject_bytes)
    lift (validate_wire_subject false subject)
    lift (check_reply reply)
    sid ← lift (parse_uint true sid_bytes)
    pure (record { subject = subject; sid = sid; reply = reply; body = body })

  -- A MSG line: its size, the body, the reply, and the rest.
  unfoldable pub decode_msg : List ℕ → List ℕ → Option (List ℕ) → List ℕ → Exec Wire Message
  unfolding make_message parse_uint read_body
  decode_msg subject_bytes sid_bytes reply_bytes size_bytes = do
    size ← lift (parse_uint false size_bytes)
    body ← read_body size
    reply ← lift (decoded_reply reply_bytes)
    make_message subject_bytes sid_bytes reply body

  -- An HMSG line: the body is what follows the headers.
  unfoldable pub decode_hmsg :
      List ℕ → List ℕ → Option (List ℕ) → List ℕ → List ℕ → Exec Wire Message
  unfolding make_message parse_uint read_body
  decode_hmsg subject_bytes sid_bytes reply_bytes header_bytes size_bytes = do
    header_size ← lift (parse_uint false header_bytes)
    total_size ← lift (parse_uint false size_bytes)
    lift (guard (leb header_size total_size) (os_error "invalid HMSG sizes"))
    block ← read_body total_size
    reply ← lift (decoded_reply reply_bytes)
    make_message subject_bytes sid_bytes reply (skip header_size block)

  abbrev pub decode_msg_parts : List (List ℕ) → Exec Wire Message
  decode_msg_parts (op ∷ subject ∷ sid ∷ size ∷ []) = decode_msg subject sid none size
  decode_msg_parts (op ∷ subject ∷ sid ∷ reply ∷ size ∷ []) =
      decode_msg subject sid (some reply) size
  decode_msg_parts _ = raise (os_error "malformed MSG")

  abbrev pub decode_hmsg_parts : List (List ℕ) → Exec Wire Message
  decode_hmsg_parts (op ∷ subject ∷ sid ∷ headers ∷ size ∷ []) =
      decode_hmsg subject sid none headers size
  decode_hmsg_parts (op ∷ subject ∷ sid ∷ reply ∷ headers ∷ size ∷ []) =
      decode_hmsg subject sid (some reply) headers size
  decode_hmsg_parts _ = raise (os_error "malformed HMSG")

  unfoldable pub decode_message : List ℕ → Exec Wire Message
  unfolding decode_msg decode_hmsg split same_codes
  decode_message line =
      if starts_with (codes "MSG ") line
      then decode_msg_parts (split b' ' line)
      else if starts_with (codes "HMSG ") line
      then decode_hmsg_parts (split b' ' line)
      else raise (os_error "unknown NATS protocol line")

  abbrev pub after_line : List ℕ → Exec Wire (Option Message)
  after_line line =
      if same_codes line (codes "PING")
      then (send_bytes (codes "PONG\r\n") >> pure none)
      else if same_codes line (codes "+OK") || starts_with (codes "INFO ") line
      then pure none
      else (decode_message line >>= λ message. pure (some message))

  -- One round of the loop of receive: a message, or a line that carries none.
  unfoldable pub round : Exec Wire (Option Message)
  unfolding readline decode_message send_bytes same_codes
  round = do line ← readline; after_line line

  abbrev pub is_wanted : Option ℕ → Message → Bool
  is_wanted none m = true
  is_wanted (some sid) m = m.sid == sid

  -- What a round means for the loop, which goes on with `next`.
  abbrev pub after_round :
      Option ℕ
      → List Message
      → (List Message → Exec Wire (List Message))
      → Result (Option Message) × Wire
      → Result (List Message) × Wire
  after_round wanted got next (ok none, w) = next got w
  after_round wanted got next (ok (some m), w) =
      if is_wanted wanted m
      then next (got ++ m ∷ []) w
      else next got (record w { pending_messages = w.pending_messages ++ m ∷ [] })
  after_round wanted got next (err (timeout s), w) = (ok got, w)
  after_round wanted got next (err e, w) = (err e, w)

  -- The loop: `ticks` is how many of its tests find the deadline ahead.
  unfoldable pub receive_loop : Option ℕ → ℕ → ℕ → List Message → Exec Wire (List Message)
  unfolding round
  receive_loop wanted count ℕ.zero got w = (ok got, w)
  receive_loop wanted count (ℕ.suc ticks) got w =
      let rest = after_round wanted got (receive_loop wanted count ticks) (round w) in
      if ltb (length got) count then rest else (ok got, w)

  -- The pending messages that are handed out, and those that stay.
  unfoldable pub choose : Option ℕ → ℕ → List Message → List Message × List Message
  choose wanted room [] = ([], [])
  choose wanted ℕ.zero (m ∷ ms) = ([], m ∷ ms)
  choose wanted (ℕ.suc room) (m ∷ ms) =
      let rest = choose wanted (if is_wanted wanted m then room else ℕ.suc room) ms in
      if is_wanted wanted m then (m ∷ rest.0, rest.1) else (rest.0, m ∷ rest.1)

  -- subscriptions.get(subscription) if subscription else None
  abbrev pub wanted_sid : Option String → Wire → Option ℕ
  wanted_sid none w = none
  wanted_sid (some subject) w = if subject == "" then none else find_sid subject w.subscriptions

  unfoldable pub receive : ℕ → ℕ → Option String → Exec Wire (List Message)
  unfolding receive_loop choose find_sid
  receive count ticks subscription w =
      if ltb count 1
      then (err (value_error "count must be positive"), w)
      else (let wanted = wanted_sid subscription w in
          let chosen = choose wanted count w.pending_messages in
          receive_loop wanted count ticks chosen.0 (record w { pending_messages = chosen.1 }))
