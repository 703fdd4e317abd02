-- ===== src/Transport/Reader/Frames.antt =====
-- Messages as the server writes them, and the reader on their bytes.
use anvil_events.Base.{
  ℕ, ◌*◌, ◌≤◌, ◌<◌, true, false, ◌&&◌, Option, none, some, List, [], ◌∷◌, ◌++◌, ◌≡◌, refl, ap, ◌∙◌,
  ◌==◌, nat_eq, leb, length, arith, All, All-append,
}
use anvil_events.Result.{ok}
use anvil_events.Exec.{◌>>=◌, pure}
use anvil_events.Domain.Patterns.{codes, split, is_digit, same_codes}
use anvil_events.Transport.Wire.{max_body}
use anvil_events.Transport.Socket.{Message, Wire, Arrival, end_of_line, starts_with, checked_line}
use anvil_events.Transport.Socket.Stream.{
  stream, bytes_of, IsSteady, Lacks, read_to, readline-ReadsLine, ReadsBody, read_body-ReadsBody,
}
use anvil_events.Transport.Reader.{
  Texts, decoded_reply, check_reply, make_message, decode_msg, decode_msg_parts, decode_message,
  after_line, round, validate_wire_subject,
}
use anvil_events.Transport.Reader.Digits.{
  digits, ten_to, IsDigits, digits-IsDigits, parse_uint-digits,
}

-- A printed character of ASCII.
abbrev pub IsGraphic : ℕ → Type 0
IsGraphic c = (leb 33 c && leb c 126) ≡ true

-- UTF-8 writes such characters as themselves.
abbrev pub IsAscii : Texts → Type 0
IsAscii texts = (s : List ℕ) → All IsGraphic s → texts.decode s ≡ some s

abbrev pub after_sid : Option (List ℕ) → List ℕ → List ℕ
after_sid none size = size
after_sid (some reply) size = reply ++ (b' ' ∷ size)

-- MSG <subject> <sid> [reply] <size>
unfoldable pub line_of : Message → List ℕ
line_of m =
    codes "MSG "
    ++ (m.subject
        ++ (b' ' ∷ (digits 18 m.sid ++ (b' ' ∷ after_sid m.reply (digits 18 (length m.body))))))

-- The frames of the messages, and what follows them.
unfoldable pub frames_of : List Message → List ℕ → List ℕ
frames_of [] rest = rest
frames_of (m ∷ ms) rest =
    line_of m ++ (end_of_line ++ (m.body ++ (end_of_line ++ frames_of ms rest)))

lacks_space : (c sep : ℕ) → IsGraphic c → sep < 33 → (c == sep) ≡ false
lacks_space c sep h k = ground (arith, h, k)

pub graphic-Lacks : (s : List ℕ) (sep : ℕ) → sep < 33 → All IsGraphic s → Lacks sep s
graphic-Lacks [] sep k h = tt
graphic-Lacks (c ∷ s) sep k h = (lacks_space c sep h.0 k, graphic-Lacks s sep k h.1)

digit-IsGraphic : (c : ℕ) → is_digit c ≡ true → IsGraphic c
unfolding is_digit
digit-IsGraphic c h = ground (arith, h)

digits-IsGraphic : (s : List ℕ) → IsDigits s → All IsGraphic s
digits-IsGraphic [] h = tt
digits-IsGraphic (c ∷ s) h = (digit-IsGraphic c h.0, digits-IsGraphic s h.1)

pub split-sep :
    (sep : ℕ) (s t : List ℕ) → Lacks sep s → split sep (s ++ (sep ∷ t)) ≡ s ∷ split sep t
unfolding split
split-sep sep [] t h = ground arith
split-sep sep (c ∷ s) t h = rw (h.0, split-sep sep s t h.1) refl

pub split-whole : (sep : ℕ) (s : List ℕ) → Lacks sep s → split sep s ≡ s ∷ []
unfolding split
split-whole sep [] h = refl
split-whole sep (c ∷ s) h = rw (h.0, split-whole sep s h.1) refl

module _ (texts : Texts) where
  abbrev pub IsReply : Option (List ℕ) → Type 0
  IsReply none = Unit {0}
  IsReply (some reply) = All IsGraphic reply × (validate_wire_subject texts false reply ≡ ok reply)

  -- A message that the server can send in a MSG frame within the limits.
  pub record IsSendable (m : Message) : Type 0 where
    pub is_printed : All IsGraphic m.subject
    pub is_valid : validate_wire_subject texts false m.subject ≡ ok m.subject
    pub has_reply : IsReply m.reply
    pub is_numbered : (m.sid == 0) ≡ false
    pub sid_fits : m.sid < 10 * ten_to 18
    pub body_fits : length m.body ≤ max_body
    pub line_fits : length (line_of m) ≤ max_body

  pub size_fits : (m : Message) → IsSendable m → length m.body < 10 * ten_to 18
  unfolding ten_to
  size_fits m h = omega (arith, h.body_fits)

  digits_lack : (n sep : ℕ) → n < 10 * ten_to 18 → sep < 33 → Lacks sep (digits 18 n)
  digits_lack n sep h k =
      graphic-Lacks (digits 18 n) sep k (digits-IsGraphic (digits 18 n) (digits-IsDigits 18 n h))

  abbrev pub parts_after : Option (List ℕ) → List ℕ → List (List ℕ)
  parts_after none size = size ∷ []
  parts_after (some reply) size = reply ∷ size ∷ []

  split-after :
      (reply : Option (List ℕ)) (size : List ℕ)
      → IsReply reply
      → Lacks b' ' size
      → split b' ' (after_sid reply size) ≡ parts_after reply size
  split-after none size h k = split-whole b' ' size k
  split-after (some reply) size h k =
      split-sep b' ' reply size (graphic-Lacks reply b' ' (omega arith) h.0)
      ∙ ap (λ ts. reply ∷ ts) (split-whole b' ' size k)

  pub split-line :
      (m : Message)
      → IsSendable m
      → split b' ' (line_of m)
        ≡ codes "MSG"
          ∷ m.subject
          ∷ digits 18 m.sid
          ∷ parts_after m.reply (digits 18 (length m.body))
  unfolding split line_of
  split-line m h =
      rw
        (
          split-sep b' ' m.subject
              (digits 18 m.sid ++ (b' ' ∷ after_sid m.reply (digits 18 (length m.body))))
              (graphic-Lacks m.subject b' ' (omega arith) h.is_printed),
          split-sep b' ' (digits 18 m.sid) (after_sid m.reply (digits 18 (length m.body)))
              (digits_lack m.sid b' ' h.sid_fits (omega arith)),
          split-after m.reply (digits 18 (length m.body)) h.has_reply
              (digits_lack (length m.body) b' ' (size_fits m h) (omega arith)),
        )
        refl

  pub line-Lacks : (m : Message) → IsSendable m → Lacks 13 (line_of m)
  unfolding line_of
  line-Lacks m h =
      let lacks = λ (c : ℕ). (c == 13) ≡ false in
      let size = digits 18 (length m.body) in
      let sized = digits_lack (length m.body) 13 (size_fits m h) (omega arith) in
      let ended : Lacks 13 (after_sid m.reply size) = after_lacks m.reply size h.has_reply sized in
      let numbered =
        All-append lacks (digits 18 m.sid) (b' ' ∷ after_sid m.reply size)
          (digits_lack m.sid 13 h.sid_fits (omega arith)) (refl, ended) in
      let plain = graphic-Lacks m.subject 13 (omega arith) h.is_printed in
      let rest =
        All-append lacks m.subject (b' ' ∷ (digits 18 m.sid ++ (b' ' ∷ after_sid m.reply size)))
          plain (refl, numbered) in
      (refl, (refl, (refl, (refl, rest))))
    where
      after_lacks :
          (reply : Option (List ℕ)) (size : List ℕ)
          → IsReply reply
          → Lacks 13 size
          → Lacks 13 (after_sid reply size)
      after_lacks none size h k = k
      after_lacks (some reply) size h k =
          All-append (λ c. (c == 13) ≡ false) reply (b' ' ∷ size)
            (graphic-Lacks reply 13 (omega arith) h.0) (refl, k)

  pub starts_msg : (m : Message) → starts_with (codes "MSG ") (line_of m) ≡ true
  unfolding line_of same_codes
  starts_msg m = refl

  pub plain_line : (m : Message) → checked_line (line_of m) ≡ ok (line_of m)
  unfolding line_of same_codes
  plain_line m = refl

  pub message_line :
      (m : Message)
      → after_line texts (line_of m) ≡ (decode_message texts (line_of m) >>= λ n. pure (some n))
  unfolding line_of same_codes
  message_line m = refl

  pub parts_decoded :
      (op subject sid : List ℕ) (reply : Option (List ℕ)) (size : List ℕ)
      → decode_msg_parts texts (op ∷ subject ∷ sid ∷ parts_after reply size)
        ≡ decode_msg texts subject sid reply size
  parts_decoded op subject sid none size = refl
  parts_decoded op subject sid (some reply) size = refl

  module _ (ascii : IsAscii texts) (m : Message) (h : IsSendable m) where
    decoded_reply_lem :
        (reply : Option (List ℕ)) → IsReply reply → decoded_reply texts reply ≡ ok reply
    decoded_reply_lem none k = refl
    decoded_reply_lem (some reply) k = rw (decoded_reply, ascii reply k.0) refl

    check_reply_lem :
        (reply : Option (List ℕ)) → IsReply reply → (s : List ℕ) × (check_reply texts reply ≡ ok s)
    check_reply_lem none k = ([], refl)
    check_reply_lem (some reply) k = (reply, k.1)

    made : (w : Wire) → make_message texts m.subject (digits 18 m.sid) m.reply m.body w ≡ (ok m, w)
    unfolding make_message ◌>>=◌ pure
    made w =
        let (s, checked) = check_reply_lem m.reply h.has_reply in
        rw
          (
            make_message,
            ascii m.subject h.is_printed,
            h.is_valid,
            checked,
            parse_uint-digits true 18 m.sid (omega arith) h.sid_fits h.is_numbered,
          )
          refl

    msg_decoded :
        (w : Wire) (rest : List ℕ) (r : ReadsBody w m.body rest)
        → decode_msg texts m.subject (digits 18 m.sid) m.reply (digits 18 (length m.body)) w
          ≡ (ok m, read_to w r.buffer' r.later)
    unfolding decode_msg ◌>>=◌ pure
    msg_decoded w rest r =
        rw
          (
            decode_msg,
            parse_uint-digits false 18 (length m.body) (omega arith) (size_fits m h) refl,
            r.runs,
            decoded_reply_lem m.reply h.has_reply,
          )
          (made (read_to w r.buffer' r.later))

    message_decoded :
        (w : Wire) (rest : List ℕ) (r : ReadsBody w m.body rest)
        → decode_message texts (line_of m) w ≡ (ok m, read_to w r.buffer' r.later)
    unfolding decode_message same_codes
    message_decoded w rest r =
        let size = digits 18 (length m.body) in
        let parts = parts_decoded (codes "MSG") m.subject (digits 18 m.sid) m.reply size in
        rw (decode_message, starts_msg m, split-line m h, parts) (msg_decoded w rest r)

    -- One round reads the frame, whatever chunks it comes in.
    pub record ReadsFrame (w : Wire) (rest : List ℕ) : Type 0 where
      pub buffer' : List ℕ
      pub later : List Arrival
      pub runs : round texts w ≡ (ok (some m), read_to w buffer' later)
      pub no_loss : buffer' ++ bytes_of later ≡ rest
      pub is_steady : IsSteady later

    pub round-ReadsFrame :
        (w : Wire) (rest : List ℕ)
        → IsSteady w.arrivals
        → stream w ≡ line_of m ++ (end_of_line ++ (m.body ++ (end_of_line ++ rest)))
        → ReadsFrame w rest
    unfolding round ◌>>=◌ pure
    round-ReadsFrame w rest steady e =
        let a =
          readline-ReadsLine (line_of m) (m.body ++ (end_of_line ++ rest)) (line-Lacks m h) w
            h.line_fits steady e in
        let w' = read_to w a.buffer' a.later in
        let b = read_body-ReadsBody m.body rest w' h.body_fits a.is_steady a.no_loss in
        record {
          buffer' = b.buffer';
          later = b.later;
          runs = rw (round, a.runs, plain_line m, message_line m, message_decoded w' rest b) refl;
          no_loss = b.no_loss;
          is_steady = b.is_steady;
        }
