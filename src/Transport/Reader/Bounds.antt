-- ===== src/Transport/Reader/Bounds.antt =====
-- How long the buffer of the wire becomes in `receive`.
use anvil_events.Base.{
  ℕ, zero, suc, String, Option, none, some, List, [], ◌∷◌, ◌++◌, ltb, length, Bool-cases, inl, inr,
}
use anvil_events.Result.{Fault, Result, ok, err, timeout}
use anvil_events.Exec.{Exec, ◌>>=◌}
use anvil_events.Domain.Patterns.{same_codes}
use anvil_events.Transport.Socket.{Message, Wire, readline}
use anvil_events.Transport.Reader.{
  Texts, send_as, send_bytes, make_message, decode_msg, decode_msg_parts, decode_hmsg,
  decode_hmsg_parts, decode_message, after_line, round, after_round, is_wanted, receive_loop,
  receive, choose, wanted_sid,
}
use anvil_events.Transport.Socket.Bounds.{
  HasRoom, Bounded, raised, raised-Faulted, Caps, Caps-bind, Caps-raise, caps_rules, readline-Caps,
  read_body-Caps,
}

module _ (texts : Texts) where
  make_message-Caps :
      (subject sid : List ℕ) (reply : Option (List ℕ)) (body : List ℕ)
      → Caps (make_message texts subject sid reply body)
  unfolding make_message
  make_message-Caps subject sid reply body = search caps_rules

  decode_msg-Caps :
      (subject sid : List ℕ) (reply : Option (List ℕ)) (size : List ℕ)
      → Caps (decode_msg texts subject sid reply size)
  unfolding decode_msg
  decode_msg-Caps subject sid reply size = search (caps_rules, read_body-Caps, make_message-Caps)

  decode_hmsg-Caps :
      (subject sid : List ℕ) (reply : Option (List ℕ)) (headers size : List ℕ)
      → Caps (decode_hmsg texts subject sid reply headers size)
  unfolding decode_hmsg
  decode_hmsg-Caps subject sid reply headers size =
      search (caps_rules, read_body-Caps, make_message-Caps) depth 9

  msg_parts-Caps : (parts : List (List ℕ)) → Caps (decode_msg_parts texts parts)
  msg_parts-Caps [] = Caps-raise _
  msg_parts-Caps (a ∷ []) = Caps-raise _
  msg_parts-Caps (a ∷ b ∷ []) = Caps-raise _
  msg_parts-Caps (a ∷ b ∷ c ∷ []) = Caps-raise _
  msg_parts-Caps (a ∷ b ∷ c ∷ d ∷ []) = decode_msg-Caps b c none d
  msg_parts-Caps (a ∷ b ∷ c ∷ d ∷ e ∷ []) = decode_msg-Caps b c (some d) e
  msg_parts-Caps (a ∷ b ∷ c ∷ d ∷ e ∷ f ∷ rest) = Caps-raise _

  hmsg_parts-Caps : (parts : List (List ℕ)) → Caps (decode_hmsg_parts texts parts)
  hmsg_parts-Caps [] = Caps-raise _
  hmsg_parts-Caps (a ∷ []) = Caps-raise _
  hmsg_parts-Caps (a ∷ b ∷ []) = Caps-raise _
  hmsg_parts-Caps (a ∷ b ∷ c ∷ []) = Caps-raise _
  hmsg_parts-Caps (a ∷ b ∷ c ∷ d ∷ []) = Caps-raise _
  hmsg_parts-Caps (a ∷ b ∷ c ∷ d ∷ e ∷ []) = decode_hmsg-Caps b c none d e
  hmsg_parts-Caps (a ∷ b ∷ c ∷ d ∷ e ∷ f ∷ []) = decode_hmsg-Caps b c (some d) e f
  hmsg_parts-Caps (a ∷ b ∷ c ∷ d ∷ e ∷ f ∷ g ∷ rest) = Caps-raise _

  decode_message-Caps : (line : List ℕ) → Caps (decode_message texts line)
  unfolding decode_message
  decode_message-Caps line = search (caps_rules, msg_parts-Caps, hmsg_parts-Caps)

  sent-Bounded :
      (vs : List (Option Fault)) (bytes : List ℕ) (w : Wire)
      → HasRoom w
      → Bounded (send_as vs bytes w).0 (send_as vs bytes w).1
  sent-Bounded [] bytes w h = record { is_short = h.is_short; is_limited = h.is_limited }
  sent-Bounded (none ∷ vs) bytes w h = record { is_short = h.is_short; is_limited = h.is_limited }
  sent-Bounded (some e ∷ vs) bytes w h =
      let w' = record w { verdicts = vs } in
      raised-Faulted e w' (record { is_short = h.is_short; is_limited = h.is_limited })

  send-Caps : (bytes : List ℕ) → Caps (send_bytes bytes)
  unfolding send_bytes
  send-Caps bytes = record { at = λ w h. sent-Bounded w.verdicts bytes w h }

  after_line-Caps : (line : List ℕ) → Caps (after_line texts line)
  unfolding ◌>>=◌ same_codes
  after_line-Caps line = search (caps_rules, decode_message-Caps, send-Caps)

  round-Caps : Caps (round texts)
  unfolding round
  round-Caps = Caps-bind readline (after_line texts) readline-Caps after_line-Caps

  after_round-Bounded :
      (wanted : Option ℕ) (got : List Message) (next : List Message → Exec Wire (List Message))
      (r : Result (Option Message)) (w : Wire)
      → Bounded r w
      → ((ms : List Message) → Caps (next ms))
      → Bounded
          (after_round texts wanted got next (r, w)).0
          (after_round texts wanted got next (r, w)).1
  after_round-Bounded wanted got next (ok none) w h k = (k got).at w h
  after_round-Bounded wanted got next (ok (some m)) w h k =
      elim (Bool-cases (is_wanted texts wanted m)) [
        | inl e ↦ rw (e, after_round) ((k (got ++ m ∷ [])).at w h)
        | inr e ↦
            let w' = record w { pending_messages = w.pending_messages ++ m ∷ [] } in
            rw (e, after_round)
              ((k got).at w' (record { is_short = h.is_short; is_limited = h.is_limited }))
      ]
  after_round-Bounded wanted got next (err (timeout s)) w h k = h
  after_round-Bounded wanted got next (err _) w h k = h

  loop-Caps :
      (wanted : Option ℕ) (count ticks : ℕ) (got : List Message)
      → Caps (receive_loop texts wanted count ticks got)
  unfolding receive_loop
  loop-Caps wanted count zero got = record { at = λ w h. h }
  loop-Caps wanted count (suc ticks) got = record {
    at = λ w h. elim (Bool-cases (ltb (length got) count)) [
      | inl e ↦
          rw (e, receive_loop)
            (after_round-Bounded wanted got (receive_loop texts wanted count ticks)
              (round texts w).0 (round texts w).1 (round-Caps.at w h)
              (loop-Caps wanted count ticks))
      | inr e ↦ rw (e, receive_loop) h
    ];
  }

-- The buffer stays bounded, whatever the server sends: where it is at most twice max_body long and no call of
-- recv brings more than it was asked for, then after receive it is at most twice max_body long again, also
-- where a timeout ended the call, and where receive raises, longer by one chunk at most.
pub receive-Bounded :
    (texts : Texts) (count ticks : ℕ) (subscription : Option String) (w : Wire)
    → HasRoom w
    → Bounded
        (receive texts count ticks subscription w).0
        (receive texts count ticks subscription w).1
unfolding receive
receive-Bounded texts count ticks subscription w h = elim (Bool-cases (ltb count 1)) [
  | inl e ↦ rw (e, receive) (raised w h)
  | inr e ↦
      let wanted = wanted_sid texts subscription w in
      let chosen = choose texts wanted count w.pending_messages in
      let w' = record w { pending_messages = chosen.1 } in
      rw (e, receive)
        ((loop-Caps texts wanted count ticks chosen.0).at w'
          (record { is_short = h.is_short; is_limited = h.is_limited }))
]
