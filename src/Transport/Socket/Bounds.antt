-- ===== src/Transport/Socket/Bounds.antt =====
-- How long the buffer of the wire becomes in its reads.
use anvil_events.Base.{
  ℕ, zero, suc, ◌+◌, ◌*◌, ◌≤◌, Bool, true, false, some, List, [], ◌∷◌, ◌++◌, ◌≡◌, leb,
  if◌then◌else◌, length, length-append, take, skip, arith, Bool-cases, Option-cases, inl, inr,
}
use anvil_events.Result.{Fault, Result, ok, err, value_error, timeout}
use anvil_events.Exec.{Exec, pure, raise, continue, ◌>>=◌}
use anvil_events.Domain.Patterns.{codes, same_codes}
use anvil_events.Transport.Wire.{max_body}
use anvil_events.Transport.Socket.{
  Wire, Arrival, chunk, silence, end_of_line, starts_with, cut_line, starts_line, has_line, fill,
  checked_line, first_line, after_fill, is_too_long, readline, has_frame, first_bytes, read_body,
}
use anvil_events.Transport.Socket.Stream.{max_chunk}
use anvil_events.Transport.Reader.{lift}

abbrev pub buffer_limit : ℕ
buffer_limit = 2 * max_body

-- recv brings no more than it was asked for.
abbrev pub IsLimited : List Arrival → Type 0
IsLimited [] = Unit {0}
IsLimited (chunk bytes ∷ later) = (length bytes ≤ max_chunk) × IsLimited later
IsLimited (silence ∷ later) = IsLimited later

pub record HasRoom (w : Wire) : Type 0 where
  pub is_short : length w.buffer ≤ buffer_limit
  pub is_limited : IsLimited w.arrivals

-- What a read leaves. A timeout is an answer: the caller goes on.
abbrev pub Faulted : Fault → Wire → Type 0
Faulted (timeout s) w = HasRoom w
Faulted e w = (length w.buffer ≤ buffer_limit + max_chunk) × IsLimited w.arrivals

abbrev pub Bounded : {A : Type 0} → Result A → Wire → Type 0
Bounded (ok a) w = HasRoom w
Bounded (err e) w = Faulted e w

pub raised :
    (w : Wire) → HasRoom w → (length w.buffer ≤ buffer_limit + max_chunk) × IsLimited w.arrivals
raised w h = (omega (arith, h.is_short), h.is_limited)

pub raised-Faulted : (e : Fault) (w : Wire) → HasRoom w → Faulted e w
raised-Faulted (value_error s) w h = raised w h
raised-Faulted (timeout s) w h = h
raised-Faulted _ w h = raised w h

-- A step of the reader that keeps the bound.
pub record Caps {A : Type 0} (m : Exec Wire A) : Type 0 where
  pub at : (w : Wire) → HasRoom w → Bounded (m w).0 (m w).1

module _ {A B : Type 0} where
  continue-Bounded :
      (r : Result A) (w : Wire) (f : A → Exec Wire B)
      → Bounded r w
      → ((a : A) → Caps (f a))
      → Bounded (continue r f w).0 (continue r f w).1
  continue-Bounded (ok a) w f h k = (k a).at w h
  continue-Bounded (err e) w f h k = h

  pub Caps-bind :
      (m : Exec Wire A) (f : A → Exec Wire B) → Caps m → ((a : A) → Caps (f a)) → Caps (m >>= f)
  unfolding ◌>>=◌
  Caps-bind m f km kf = record { at = λ w h. continue-Bounded (m w).0 (m w).1 f (km.at w h) kf }

module _ {A : Type 0} where
  pub Caps-pure : (a : A) → Caps (pure {S = Wire} a)
  unfolding pure
  Caps-pure a = record { at = λ w h. h }

  pub Caps-raise : (e : Fault) → Caps (raise {A = A} e)
  unfolding raise
  Caps-raise e = record { at = λ w h. raised-Faulted e w h }

  pub Caps-lift : (r : Result A) → Caps (lift r)
  Caps-lift (ok a) = record { at = λ w h. h }
  Caps-lift (err e) = record { at = λ w h. raised-Faulted e w h }

  pub Caps-if : (b : Bool) (m n : Exec Wire A) → Caps m → Caps n → Caps (if b then m else n)
  Caps-if true m n km kn = km
  Caps-if false m n km kn = kn

pub ruleset caps_rules = (Caps-bind, Caps-pure, Caps-raise, Caps-lift, Caps-if)

module _ (has_enough is_overfull : List ℕ → Bool)
    (fits : (b c : List ℕ)
      → has_enough b ≡ false
      → length c ≤ max_chunk
      → is_overfull (b ++ c) ≡ false
      → length (b ++ c) ≤ buffer_limit) where
  Fills : Wire → Result (Unit {0}) × (List ℕ × List Arrival) → Type 0
  Fills w (r, (buffer, arrivals)) = Bounded r (record w { buffer = buffer; arrivals = arrivals })

  fill-Fills :
      (w : Wire) (arrivals : List Arrival) (buffer : List ℕ)
      → length buffer ≤ buffer_limit
      → IsLimited arrivals
      → Fills w (fill has_enough is_overfull arrivals buffer)
  unfolding fill Fills
  fill-Fills w [] buffer h k = elim (Bool-cases (has_enough buffer)) [
    | inl e ↦ rw (e, fill) (record { is_short = h; is_limited = k })
    | inr e ↦ rw (e, fill) (omega (arith, h), k)
  ]
  fill-Fills w (silence ∷ later) buffer h k = elim (Bool-cases (has_enough buffer)) [
    | inl e ↦ rw (e, fill) (record { is_short = h; is_limited = k })
    | inr e ↦ rw (e, fill) (record { is_short = h; is_limited = k })
  ]
  fill-Fills w (chunk [] ∷ later) buffer h k = elim (Bool-cases (has_enough buffer)) [
    | inl e ↦ rw (e, fill) (record { is_short = h; is_limited = k })
    | inr e ↦ rw (e, fill) (omega (arith, h), k.1)
  ]
  fill-Fills w (chunk (c ∷ bytes) ∷ later) buffer h k = elim (Bool-cases (has_enough buffer)) [
    | inl e ↦ rw (e, fill) (record { is_short = h; is_limited = k })
    | inr e ↦ elim (Bool-cases (is_overfull (buffer ++ c ∷ bytes))) [
      | inl f ↦ rw (e, f, fill) (omega (arith, h, k.0, length-append buffer (c ∷ bytes)), k.1)
      | inr f ↦
          rw (e, f, fill)
            (fill-Fills w later (buffer ++ c ∷ bytes) (fits buffer (c ∷ bytes) e k.0 f) k.1)
    ]
  ]

  after-Bounded :
      {A : Type 0} (next : Exec Wire A) (w : Wire) (r : Result (Unit {0}) × (List ℕ × List Arrival))
      → Fills w r
      → Caps next
      → Bounded (after_fill next w r).0 (after_fill next w r).1
  unfolding Fills
  after-Bounded next w (ok u, (buffer, arrivals)) h k =
      k.at (record w { buffer = buffer; arrivals = arrivals }) h
  after-Bounded next w (err e, (buffer, arrivals)) h k = h

shorter_buffer :
    (w : Wire) (buffer : List ℕ)
    → HasRoom w
    → length buffer ≤ length w.buffer
    → HasRoom (record w { buffer = buffer })
shorter_buffer w buffer h k = record {
  is_short = omega (arith, h.is_short, k);
  is_limited = h.is_limited;
}

length-skip-le : (n : ℕ) (s : List ℕ) → length (skip n s) ≤ length s
length-skip-le zero s = omega arith
length-skip-le (suc n) [] = omega arith
length-skip-le (suc n) (c ∷ s) = omega (arith, length-skip-le n s)

cut_line-shorter : (s line rest : List ℕ) → cut_line s ≡ some (line, rest) → length rest ≤ length s
unfolding cut_line
cut_line-shorter [] line rest h = absurd (cc h)
cut_line-shorter (c ∷ []) line rest h = absurd (cc h)
cut_line-shorter (c ∷ d ∷ s) line rest h = elim (Bool-cases (starts_line c (d ∷ s))) [
  | inl e ↦ let same : s ≡ rest = cc (rw (e, cut_line) at h) in rw (← same) (omega arith)
  | inr e ↦ elim (Option-cases (cut_line (d ∷ s))) [
    | inl f ↦ absurd (cc (rw (e, f, cut_line) at h))
    | inr ((l, r), f) ↦
        let same : r ≡ rest = cc (rw (e, f, cut_line) at h) in
        let ih = cut_line-shorter (d ∷ s) l r f in rw (← same) (omega (arith, ih))
  ]
]

checked-Bounded : (line : List ℕ) (w : Wire) → HasRoom w → Bounded (checked_line line) w
unfolding same_codes
checked-Bounded line w h = elim (Bool-cases (starts_with (codes "-ERR") line)) [
  | inl e ↦ rw (e, checked_line) (raised w h)
  | inr e ↦ rw (e, checked_line) h
]

line-Caps : Caps (λ w. first_line (cut_line w.buffer) w)
line-Caps = record {
  at = λ w h. elim (Option-cases (cut_line w.buffer)) [
    | inl e ↦ rw e (raised w h)
    | inr ((line, rest), e) ↦ rw e (
        checked-Bounded line (record w { buffer = rest })
          (shorter_buffer w rest h (cut_line-shorter w.buffer line rest e)))
  ];
}

fits_line :
    (b c : List ℕ)
    → has_line b ≡ false
    → length c ≤ max_chunk
    → is_too_long (b ++ c) ≡ false
    → length (b ++ c) ≤ buffer_limit
fits_line b c e k f = ground (arith, f)

pub readline-Caps : Caps readline
unfolding readline
readline-Caps = record {
  at = λ w h.
      after-Bounded has_line is_too_long fits_line (λ w. first_line (cut_line w.buffer) w) w
        (fill has_line is_too_long w.arrivals w.buffer)
        (fill-Fills has_line is_too_long fits_line w w.arrivals w.buffer h.is_short h.is_limited)
        line-Caps;
}

never : List ℕ → Bool
never b = false

fits_frame :
    (size : ℕ)
    → size ≤ max_body
    → (b c : List ℕ) → has_frame size b ≡ false
    → length c ≤ max_chunk
    → never (b ++ c) ≡ false
    → length (b ++ c) ≤ buffer_limit
fits_frame size small b c e k f = ground (arith, small, e, k, length-append b c)

frame-Caps : (size : ℕ) → Caps (first_bytes size)
unfolding same_codes
frame-Caps size = record {
  at = λ w h. elim (Bool-cases (same_codes (take 2 (skip size w.buffer)) end_of_line)) [
    | inl e ↦
        rw (e, first_bytes)
          (shorter_buffer w (skip (size + 2) w.buffer) h (length-skip-le (size + 2) w.buffer))
    | inr e ↦ rw (e, first_bytes) (raised w h)
  ];
}

pub read_body-Caps : (size : ℕ) → Caps (read_body size)
unfolding read_body never
read_body-Caps size = record {
  at = λ w h. elim (Bool-cases (leb size max_body)) [
    | inl e ↦
        let small : size ≤ max_body = ground (arith, e) in
        rw (e, read_body)
          (after-Bounded (has_frame size) never (fits_frame size small) (first_bytes size) w
            (fill (has_frame size) never w.arrivals w.buffer)
            (fill-Fills (has_frame size) never (fits_frame size small) w w.arrivals w.buffer
              h.is_short h.is_limited)
            (frame-Caps size))
    | inr e ↦ rw (e, read_body) (raised w h)
  ];
}
