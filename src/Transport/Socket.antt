-- ===== src/Transport/Socket.antt =====
-- The buffer of NATSWire in transport/protocol.py, and what its socket answers.
pub mod Stream
pub mod Bounds
use anvil_events.Base.{
  ℕ, ◌+◌, ◌*◌, String, Bool, true, false, ◌&&◌, not, Option, none, some, List, [], ◌∷◌, ◌++◌, ◌==◌,
  nat_eq, leb, ltb, if◌then◌else◌, length, take, skip, is_some,
}
use anvil_events.Result.{Result, ok, err, Fault, value_error, os_error, timeout}
use anvil_events.Exec.{Exec}
use anvil_events.Domain.Patterns.{codes, same_codes}
use anvil_events.Transport.Wire.{max_body}

-- What a call of recv brings: bytes, of which there are none at the end, or TimeoutError.
pub data Arrival : Type 0 where
  chunk : List ℕ → Arrival
  silence : Arrival

-- The subject and the reply are code points, the body is bytes.
pub record Message : Type 0 where
  pub subject : List ℕ
  pub sid : ℕ
  pub reply : Option (List ℕ)
  pub body : List ℕ

-- The wire, with the arrivals and the verdicts to come, and what was sent. After the last arrival the connection
-- is closed. A call of sendall takes the next verdict: it succeeds, also where there is none left, or it raises.
pub record Wire : Type 0 where
  pub arrivals : List Arrival
  pub verdicts : List (Option Fault)
  pub sent : List (List ℕ)
  pub buffer : List ℕ
  pub subscriptions : List (String × ℕ)
  pub next_sid : ℕ
  pub pending_messages : List Message

abbrev pub end_of_line : List ℕ
end_of_line = 13 ∷ 10 ∷ []

abbrev pub put_front : ℕ → Option (List ℕ × List ℕ) → Option (List ℕ × List ℕ)
put_front c none = none
put_front c (some (line, rest)) = some (c ∷ line, rest)

abbrev pub starts_line : ℕ → List ℕ → Bool
starts_line c [] = false
starts_line c (d ∷ s) = c == 13 && d == 10

abbrev pub tail : List ℕ → List ℕ
tail [] = []
tail (c ∷ s) = s

-- buffer.split(b"\r\n", 1), if there is such a place
unfoldable pub cut_line : List ℕ → Option (List ℕ × List ℕ)
cut_line [] = none
cut_line (c ∷ s) =
    let rest = put_front c (cut_line s) in if starts_line c s then some ([], tail s) else rest

unfoldable pub has_line : List ℕ → Bool
unfolding cut_line
has_line buffer = is_some (cut_line buffer)

abbrev pub closed : Fault
closed = os_error "connection closed"

abbrev pub overflow : Fault
overflow = os_error "protocol buffer overflow"

-- while the buffer has not enough: buffer += recv(65536), which fails where the buffer is too long.
unfoldable pub fill :
    (List ℕ → Bool)
    → (List ℕ → Bool)
    → List Arrival
    → List ℕ
    → Result (Unit {0}) × (List ℕ × List Arrival)
fill has_enough is_overfull [] buffer =
    if has_enough buffer then (ok tt, (buffer, [])) else (err closed, (buffer, []))
fill has_enough is_overfull (silence ∷ later) buffer =
    if has_enough buffer
    then (ok tt, (buffer, silence ∷ later))
    else (err (timeout "timed out"), (buffer, later))
fill has_enough is_overfull (chunk [] ∷ later) buffer =
    if has_enough buffer then (ok tt, (buffer, chunk [] ∷ later)) else (err closed, (buffer, later))
fill has_enough is_overfull (chunk (c ∷ bytes) ∷ later) buffer =
    let rest = fill has_enough is_overfull later (buffer ++ c ∷ bytes) in
    if has_enough buffer
    then (ok tt, (buffer, chunk (c ∷ bytes) ∷ later))
    else if is_overfull (buffer ++ c ∷ bytes)
    then (err overflow, (buffer ++ c ∷ bytes, later))
    else rest

abbrev pub starts_with : List ℕ → List ℕ → Bool
starts_with prefix s = same_codes (take (length prefix) s) prefix

-- The line, unless the server reports an error in it.
abbrev pub checked_line : List ℕ → Result (List ℕ)
checked_line line = if starts_with (codes "-ERR") line then err (os_error "-ERR") else ok line

abbrev pub first_line : Option (List ℕ × List ℕ) → Exec Wire (List ℕ)
first_line none w = (err (value_error "not enough values to unpack"), w)
first_line (some (line, rest)) w = (checked_line line, record w { buffer = rest })

abbrev pub after_fill :
    {A : Type 0}
    → Exec Wire A
    → Wire
    → Result (Unit {0}) × (List ℕ × List Arrival)
    → Result A × Wire
after_fill next w (ok u, (buffer, arrivals)) =
    next (record w { buffer = buffer; arrivals = arrivals })
after_fill next w (err e, (buffer, arrivals)) =
    (err e, record w { buffer = buffer; arrivals = arrivals })

abbrev pub is_too_long : List ℕ → Bool
is_too_long buffer = ltb (2 * max_body) (length buffer)

unfoldable pub readline : Exec Wire (List ℕ)
unfolding cut_line has_line fill
readline w =
    after_fill (λ w. first_line (cut_line w.buffer) w) w
      (fill has_line is_too_long w.arrivals w.buffer)

abbrev pub has_frame : ℕ → List ℕ → Bool
has_frame size buffer = leb (size + 2) (length buffer)

abbrev pub first_bytes : ℕ → Exec Wire (List ℕ)
first_bytes size w =
    if same_codes (take 2 (skip size w.buffer)) end_of_line
    then (ok (take size w.buffer), record w { buffer = skip (size + 2) w.buffer })
    else (err (os_error "malformed message body terminator"), w)

unfoldable pub read_body : ℕ → Exec Wire (List ℕ)
unfolding fill same_codes
read_body size w =
    if leb size max_body
    then after_fill (first_bytes size) w (fill (has_frame size) (λ b. false) w.arrivals w.buffer)
    else (err (os_error "frame too large"), w)
