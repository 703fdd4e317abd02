-- ===== src/Transport/Reader/Timeouts.antt =====
-- `receive` where the socket falls silent within a frame.
use anvil_events.Base.{
  ℕ, suc, ◌+◌, ◌≤◌, ◌<◌, String, true, false, Option, List, [], ◌∷◌, ◌++◌, ◌≡◌, refl, leb, ltb,
  length, arith,
}
use anvil_events.Result.{ok, err, timeout}
use anvil_events.Exec.{◌>>=◌, pure}
use anvil_events.Domain.Patterns.{codes}
use anvil_events.Transport.Wire.{max_body}
use anvil_events.Transport.Socket.{
  Message, Wire, silence, end_of_line, has_line, fill, readline, read_body, has_frame, first_line,
}
use anvil_events.Transport.Socket.Stream.{cut_line_at}
use anvil_events.Transport.Reader.{
  Texts, decode_msg, decode_message, round, receive, receive_loop, choose,
}
use anvil_events.Transport.Reader.Digits.{digits, parse_uint-digits}
use anvil_events.Transport.Reader.Frames.{
  IsSendable, line_of, line-Lacks, starts_msg, plain_line, message_line, parts_decoded, split-line,
  size_fits,
}

module _ (texts : Texts) (m : Message) (h : IsSendable texts m) (part : List ℕ)
    (cut : length part < length m.body + 2) (w : Wire) where
  -- After the line, the body is still to come.
  within : Wire
  within = record w { buffer = part; arrivals = silence ∷ w.arrivals }

  -- The line has come, and of the body a part.
  before : Wire
  before = record w { buffer = line_of m ++ (end_of_line ++ part); arrivals = silence ∷ w.arrivals }

  line_read : readline before ≡ (ok (line_of m), within)
  unfolding readline has_line fill before within
  line_read =
      let whole = cut_line_at (line_of m) part (line-Lacks texts m h) in
      rw (readline, fill, whole, first_line, whole, plain_line texts m) refl

  body_cut :
      read_body (length m.body) within ≡ (err (timeout "timed out"), record w { buffer = part })
  unfolding read_body fill within
  body_cut =
      let allowed : leb (length m.body) max_body ≡ true = ground (arith, h.body_fits) in
      let short : has_frame (length m.body) part ≡ false = ground (arith, cut) in
      rw (read_body, allowed, fill, short) refl

  msg_cut :
      decode_msg texts m.subject (digits 18 m.sid) m.reply (digits 18 (length m.body)) within
      ≡ (err (timeout "timed out"), record w { buffer = part })
  unfolding decode_msg ◌>>=◌
  msg_cut =
      rw
        (
          decode_msg,
          parse_uint-digits false 18 (length m.body) (omega arith) (size_fits texts m h) refl,
          body_cut,
        )
        refl

  message_cut :
      decode_message texts (line_of m) within
      ≡ (err (timeout "timed out"), record w { buffer = part })
  unfolding decode_message
  message_cut =
      let size = digits 18 (length m.body) in
      let parts = parts_decoded texts (codes "MSG") m.subject (digits 18 m.sid) m.reply size in
      rw (decode_message, starts_msg texts m, split-line texts m h, parts) msg_cut

  round_cut : round texts before ≡ (err (timeout "timed out"), record w { buffer = part })
  unfolding round ◌>>=◌ pure
  round_cut = rw (round, line_read, message_line texts m, message_cut) refl

-- A timeout within a frame loses the message: where the line of a MSG frame and a part of its body are in the
-- buffer, no message is pending, and the socket is silent, receive returns no message as if nothing had come,
-- and leaves the part of the body in the buffer without its line, where the next call reads a protocol line.
pub receive-forgets :
    (texts : Texts) (m : Message) (part : List ℕ) (count ticks : ℕ) (subscription : Option String)
    (w : Wire)
    → IsSendable texts m
    → length part < length m.body + 2
    → 1 ≤ count
    → receive texts count (suc ticks) subscription (record w {
      buffer = line_of m ++ (end_of_line ++ part);
      arrivals = silence ∷ w.arrivals;
      pending_messages = [];
    })
      ≡ (ok [], record w { buffer = part; pending_messages = [] })
unfolding receive receive_loop choose before
receive-forgets texts m part count ticks subscription w h cut positive =
    let tested : ltb count 1 ≡ false = ground (arith, positive) in
    let open_loop : ltb 0 count ≡ true = ground (arith, positive) in
    let w' = record w { pending_messages = [] } in
    let cut_round = round_cut texts m h part cut w' in
    rw (receive, tested, receive_loop, open_loop, cut_round) refl
