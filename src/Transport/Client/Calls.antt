-- ===== src/Transport/Client/Calls.antt =====
-- What the calls of a wire keep of its subscriptions.
use anvil_events.Base.{
  ℕ, zero, suc, String, false, Option, none, some, List, [], ◌∷◌, ◌++◌, ◌≡◌, string_eq, leb, ltb,
  length, take, skip, Bool-cases, inl, inr,
}
use anvil_events.Result.{Fault, Result, ok, err, timeout}
use anvil_events.Exec.{Exec}
use anvil_events.Exec.Keeps.{Keeps, Keeps-bind, keeps_rules}
use anvil_events.Domain.Patterns.{same_codes}
use anvil_events.Transport.Wire.{max_body}
use anvil_events.Transport.Socket.{
  end_of_line, Message, Wire, Arrival, cut_line, has_line, fill, first_line, after_fill,
  is_too_long, readline, has_frame, first_bytes, read_body,
}
use anvil_events.Transport.Reader.{
  Texts, lift, send_as, send_bytes, make_message, decode_msg, decode_msg_parts, decode_hmsg,
  decode_hmsg_parts, decode_message, after_line, round, after_round, is_wanted, receive_loop,
  receive, wanted_sid, choose,
}

module _ (subs : List (String × ℕ)) where
  pub record IsSubscribed (w : Wire) : Type 0 where
    pub same : w.subscriptions ≡ subs

  pub lift-keeps : {A : Type 0} (r : Result A) → Keeps IsSubscribed (lift r)
  lift-keeps r = record { at = λ w h. h }

  ruleset wire_rules = (keeps_rules, lift-keeps)

  first_line-keeps : (o : Option (List ℕ × List ℕ)) → Keeps IsSubscribed (first_line o)
  first_line-keeps none = record { at = λ w h. h }
  first_line-keeps (some (line, rest)) = record { at = λ w h. record { same = h.same } }

  after_fill-keeps :
      {A : Type 0} (next : Exec Wire A) (r : Result (Unit {0}) × (List ℕ × List Arrival))
      → Keeps IsSubscribed next
      → Keeps IsSubscribed (λ w. after_fill next w r)
  after_fill-keeps next (ok u, (buffer, arrivals)) k = record {
    at = λ w h. k.at (record w { buffer = buffer; arrivals = arrivals }) (record { same = h.same });
  }
  after_fill-keeps next (err e, (buffer, arrivals)) k = record {
    at = λ w h. record { same = h.same };
  }

  cut-keeps : Keeps IsSubscribed (λ w. first_line (cut_line w.buffer) w)
  cut-keeps = record { at = λ w h. (first_line-keeps (cut_line w.buffer)).at w h }

  readline-keeps : Keeps IsSubscribed readline
  unfolding readline
  readline-keeps = record {
    at = λ w h.
        (after_fill-keeps (λ w. first_line (cut_line w.buffer) w)
            (fill has_line is_too_long w.arrivals w.buffer) cut-keeps).at
          w h;
  }

  frame-keeps : (size : ℕ) → Keeps IsSubscribed (first_bytes size)
  frame-keeps size = record {
    at = λ w h. elim (Bool-cases (same_codes (take 2 (skip size w.buffer)) end_of_line)) [
      | inl e ↦ rw (e, first_bytes) (record { same = h.same })
      | inr e ↦ rw (e, first_bytes) h
    ];
  }

  read_body-keeps : (size : ℕ) → Keeps IsSubscribed (read_body size)
  unfolding read_body
  read_body-keeps size = record {
    at = λ w h.
        let filled = fill (has_frame size) (λ b. false) w.arrivals w.buffer in
        elim (Bool-cases (leb size max_body)) [
          | inl e ↦
              rw (e, read_body)
                ((after_fill-keeps (first_bytes size) filled (frame-keeps size)).at w h)
          | inr e ↦ rw (e, read_body) h
        ];
  }

  sent-IsSubscribed :
      (vs : List (Option Fault)) (bytes : List ℕ) (w : Wire)
      → IsSubscribed w
      → IsSubscribed (send_as vs bytes w).1
  sent-IsSubscribed [] bytes w h = record { same = h.same }
  sent-IsSubscribed (none ∷ vs) bytes w h = record { same = h.same }
  sent-IsSubscribed (some e ∷ vs) bytes w h = record { same = h.same }

  send-keeps : (bytes : List ℕ) → Keeps IsSubscribed (send_bytes bytes)
  unfolding send_bytes
  send-keeps bytes = record { at = λ w h. sent-IsSubscribed w.verdicts bytes w h }

  module _ (texts : Texts) where
    make_message-keeps :
        (subject sid : List ℕ) (reply : Option (List ℕ)) (body : List ℕ)
        → Keeps IsSubscribed (make_message texts subject sid reply body)
    unfolding make_message
    make_message-keeps subject sid reply body = search wire_rules

    decode_msg-keeps :
        (subject sid : List ℕ) (reply : Option (List ℕ)) (size : List ℕ)
        → Keeps IsSubscribed (decode_msg texts subject sid reply size)
    unfolding decode_msg
    decode_msg-keeps subject sid reply size =
        search (wire_rules, read_body-keeps, make_message-keeps) depth 9

    decode_hmsg-keeps :
        (subject sid : List ℕ) (reply : Option (List ℕ)) (headers size : List ℕ)
        → Keeps IsSubscribed (decode_hmsg texts subject sid reply headers size)
    unfolding decode_hmsg
    decode_hmsg-keeps subject sid reply headers size =
        search (wire_rules, read_body-keeps, make_message-keeps) depth 9

    msg_parts-keeps : (parts : List (List ℕ)) → Keeps IsSubscribed (decode_msg_parts texts parts)
    msg_parts-keeps [] = search wire_rules
    msg_parts-keeps (a ∷ []) = search wire_rules
    msg_parts-keeps (a ∷ b ∷ []) = search wire_rules
    msg_parts-keeps (a ∷ b ∷ c ∷ []) = search wire_rules
    msg_parts-keeps (a ∷ b ∷ c ∷ d ∷ []) = decode_msg-keeps b c none d
    msg_parts-keeps (a ∷ b ∷ c ∷ d ∷ e ∷ []) = decode_msg-keeps b c (some d) e
    msg_parts-keeps (a ∷ b ∷ c ∷ d ∷ e ∷ f ∷ rest) = search wire_rules

    hmsg_parts-keeps : (parts : List (List ℕ)) → Keeps IsSubscribed (decode_hmsg_parts texts parts)
    hmsg_parts-keeps [] = search wire_rules
    hmsg_parts-keeps (a ∷ []) = search wire_rules
    hmsg_parts-keeps (a ∷ b ∷ []) = search wire_rules
    hmsg_parts-keeps (a ∷ b ∷ c ∷ []) = search wire_rules
    hmsg_parts-keeps (a ∷ b ∷ c ∷ d ∷ []) = search wire_rules
    hmsg_parts-keeps (a ∷ b ∷ c ∷ d ∷ e ∷ []) = decode_hmsg-keeps b c none d e
    hmsg_parts-keeps (a ∷ b ∷ c ∷ d ∷ e ∷ f ∷ []) = decode_hmsg-keeps b c (some d) e f
    hmsg_parts-keeps (a ∷ b ∷ c ∷ d ∷ e ∷ f ∷ g ∷ rest) = search wire_rules

    decode_message-keeps : (line : List ℕ) → Keeps IsSubscribed (decode_message texts line)
    unfolding decode_message
    decode_message-keeps line = search (wire_rules, msg_parts-keeps, hmsg_parts-keeps)

    after_line-keeps : (line : List ℕ) → Keeps IsSubscribed (after_line texts line)
    unfolding same_codes
    after_line-keeps line = search (wire_rules, decode_message-keeps, send-keeps)

    round-keeps : Keeps IsSubscribed (round texts)
    unfolding round
    round-keeps = Keeps-bind readline (after_line texts) readline-keeps after_line-keeps

    after_round-keeps :
        (wanted : Option ℕ) (got : List Message) (next : List Message → Exec Wire (List Message))
        (r : Result (Option Message)) (w : Wire)
        → IsSubscribed w
        → ((ms : List Message) → Keeps IsSubscribed (next ms))
        → IsSubscribed (after_round texts wanted got next (r, w)).1
    after_round-keeps wanted got next (ok none) w h k = (k got).at w h
    after_round-keeps wanted got next (ok (some m)) w h k =
        elim (Bool-cases (is_wanted texts wanted m)) [
          | inl e ↦ rw (e, after_round) ((k (got ++ m ∷ [])).at w h)
          | inr e ↦
              rw (e, after_round)
                ((k got).at (record w { pending_messages = w.pending_messages ++ m ∷ [] })
                  (record { same = h.same }))
        ]
    after_round-keeps wanted got next (err (timeout s)) w h k = h
    after_round-keeps wanted got next (err _) w h k = h

    loop-keeps :
        (wanted : Option ℕ) (count ticks : ℕ) (got : List Message)
        → Keeps IsSubscribed (receive_loop texts wanted count ticks got)
    unfolding receive_loop
    loop-keeps wanted count zero got = record { at = λ w h. h }
    loop-keeps wanted count (suc ticks) got = record {
      at = λ w h. elim (Bool-cases (ltb (length got) count)) [
        | inl e ↦
            rw (e, receive_loop)
              (after_round-keeps wanted got (receive_loop texts wanted count ticks)
                (round texts w).0 (round texts w).1 (round-keeps.at w h)
                (loop-keeps wanted count ticks))
        | inr e ↦ rw (e, receive_loop) h
      ];
    }

    pub receive-keeps :
        (count ticks : ℕ) (subscription : Option String)
        → Keeps IsSubscribed (receive texts count ticks subscription)
    unfolding receive
    receive-keeps count ticks subscription = record {
      at = λ w h. elim (Bool-cases (ltb count 1)) [
        | inl e ↦ rw (e, receive) h
        | inr e ↦
            let wanted = wanted_sid texts subscription w in
            let chosen = choose texts wanted count w.pending_messages in
            rw (e, receive)
              ((loop-keeps wanted count ticks chosen.0).at
                (record w { pending_messages = chosen.1 }) (record { same = h.same }))
      ];
    }
