-- ===== src/Transport/Socket/Stream.antt =====
-- What is still to be read from a wire, whatever chunks it comes in.
use anvil_events.Base.{
  ℕ, ◌+◌, ◌≤◌, suc, Bool, true, false, some, List, [], ◌∷◌, ◌++◌, ◌≡◌, refl, sym, ap, ◌∙◌, ◌==◌,
  nat_eq, leb, length, length-append, take, skip, arith, All, Bool-cases, Option-cases, inl, inr,
}
use mathlib.Core.List.{append_assoc, append-nil}
use anvil_events.Result.{ok}
use anvil_events.Domain.Patterns.{same_codes}
use anvil_events.Transport.Wire.{max_body}
use anvil_events.Transport.Socket.{
  Arrival, chunk, silence, Wire, cut_line, starts_line, has_line, fill, checked_line, is_too_long,
  readline, has_frame, read_body, end_of_line,
}

-- What recv is asked for.
abbrev pub max_chunk : ℕ
max_chunk = 65536

abbrev pub bytes_of : List Arrival → List ℕ
bytes_of [] = []
bytes_of (chunk bytes ∷ later) = bytes ++ bytes_of later
bytes_of (silence ∷ later) = bytes_of later

abbrev pub IsNonEmpty : List ℕ → Type 0
IsNonEmpty [] = ⊥
IsNonEmpty (c ∷ s) = Unit

-- Every call of recv brings bytes, no more than it asked for.
abbrev pub IsSteady : List Arrival → Type 0
IsSteady [] = Unit
IsSteady (chunk bytes ∷ later) = IsNonEmpty bytes × (length bytes ≤ max_chunk) × IsSteady later
IsSteady (silence ∷ later) = ⊥

pub cut-prefix :
    (p b x r : List ℕ)
    → b ++ x ≡ p ++ r
    → length p ≤ length b
    → (q : List ℕ) × (b ≡ p ++ q) × (q ++ x ≡ r)
cut-prefix [] b x r h n = (b, refl, h)
cut-prefix (c ∷ p) [] x r h n = absurd (omega (arith, n))
cut-prefix (c ∷ p) (d ∷ b) x r h n =
    let first : d ≡ c = cc h in
    let rest : b ++ x ≡ p ++ r = cc h in
    let (q, e, f) = cut-prefix p b x r rest (omega (arith, n)) in (q, cc (first, e), f)

module _ (has_enough is_overfull : List ℕ → Bool) (need : ℕ) (total : List ℕ)
    (enough : (b x : List ℕ) → b ++ x ≡ total → need ≤ length b → has_enough b ≡ true)
    (fits : (b : List ℕ) → length b ≤ need + max_chunk → is_overfull b ≡ false)
    (present : need ≤ length total) where
  -- The loop ends with enough in the buffer, and no byte is lost.
  pub record Filled (arrivals : List Arrival) (buffer : List ℕ) : Type 0 where
    pub buffer' : List ℕ
    pub later : List Arrival
    pub runs : fill has_enough is_overfull arrivals buffer ≡ (ok tt, (buffer', later))
    pub is_enough : has_enough buffer' ≡ true
    pub no_loss : buffer' ++ bytes_of later ≡ total
    pub is_steady : IsSteady later

  at_once :
      (arrivals : List Arrival) (buffer : List ℕ)
      → has_enough buffer ≡ true
      → IsSteady arrivals
      → buffer ++ bytes_of arrivals ≡ total
      → Filled arrivals buffer
  unfolding fill
  at_once [] buffer e s h = record {
    buffer' = buffer;
    later = [];
    runs = rw e refl;
    is_enough = e;
    no_loss = h;
    is_steady = s;
  }
  at_once (chunk (c ∷ bytes) ∷ later) buffer e s h = record {
    buffer' = buffer;
    later = chunk (c ∷ bytes) ∷ later;
    runs = rw e refl;
    is_enough = e;
    no_loss = h;
    is_steady = s;
  }
  at_once (chunk [] ∷ later) buffer e s h = absurd s.0
  at_once (silence ∷ later) buffer e s h = absurd s

  pub fill-Filled :
      (arrivals : List Arrival) (buffer : List ℕ)
      → IsSteady arrivals
      → buffer ++ bytes_of arrivals ≡ total
      → Filled arrivals buffer
  unfolding fill
  fill-Filled [] buffer s h =
      let whole : buffer ≡ total = sym (append-nil buffer) ∙ h in
      let long : need ≤ length buffer = omega (arith, present, ap length whole) in
      at_once [] buffer (enough buffer [] h long) s h
  fill-Filled (chunk [] ∷ later) buffer s h = absurd s.0
  fill-Filled (silence ∷ later) buffer s h = absurd s
  fill-Filled (chunk (c ∷ bytes) ∷ later) buffer s h = elim (Bool-cases (has_enough buffer)) [
    | inl e ↦ at_once (chunk (c ∷ bytes) ∷ later) buffer e s h
    | inr e ↦ elim (Bool-cases (leb need (length buffer))) [
      | inl f ↦
          absurd
            (cc (enough buffer (bytes_of (chunk (c ∷ bytes) ∷ later)) h (ground (arith, f)), e))
      | inr f ↦
          let longer = buffer ++ c ∷ bytes in
          let short : length longer ≤ need + max_chunk =
            ground (arith, f, s.1, length-append buffer (c ∷ bytes)) in
          let r =
            fill-Filled later longer s.2 (append_assoc buffer (c ∷ bytes) (bytes_of later) ∙ h) in
          record {
            buffer' = r.buffer';
            later = r.later;
            runs = rw (e, fits longer short) r.runs;
            is_enough = r.is_enough;
            no_loss = r.no_loss;
            is_steady = r.is_steady;
          }
    ]
  ]

-- What is still to be read.
abbrev pub stream : Wire → List ℕ
stream w = w.buffer ++ bytes_of w.arrivals

-- The wire after a read of the stream.
abbrev pub read_to : Wire → List ℕ → List Arrival → Wire
read_to w buffer later = record w { buffer = buffer; arrivals = later }

abbrev pub Lacks : ℕ → List ℕ → Type 0
Lacks sep = All (λ c. (c == sep) ≡ false)

pub cut_line-append :
    (s x line rest : List ℕ)
    → cut_line s ≡ some (line, rest)
    → cut_line (s ++ x) ≡ some (line, rest ++ x)
unfolding cut_line
cut_line-append [] x line rest h = absurd (cc h)
cut_line-append (c ∷ []) x line rest h = absurd (cc h)
cut_line-append (c ∷ d ∷ s) x line rest h = elim (Bool-cases (starts_line c (d ∷ s))) [
  | inl e ↦
      let first : [] ≡ line = cc (rw (e, cut_line) at h) in
      let second : s ≡ rest = cc (rw (e, cut_line) at h) in rw (e, cut_line, ← first, ← second) refl
  | inr e ↦ elim (Option-cases (cut_line (d ∷ s))) [
    | inl f ↦ absurd (cc (rw (e, f, cut_line) at h))
    | inr ((l, r), f) ↦
        let first : c ∷ l ≡ line = cc (rw (e, f, cut_line) at h) in
        let second : r ≡ rest = cc (rw (e, f, cut_line) at h) in
        let ih = cut_line-append (d ∷ s) x l r f in rw (e, ih, cut_line, ← first, ← second) refl
  ]
]

pub cut_line_at :
    (line rest : List ℕ)
    → Lacks 13 line
    → cut_line (line ++ (end_of_line ++ rest)) ≡ some (line, rest)
unfolding cut_line
cut_line_at [] rest h = refl
cut_line_at (c ∷ []) rest h = rw h.0 refl
cut_line_at (c ∷ d ∷ line) rest h = rw (h.0, cut_line_at (d ∷ line) rest h.1) refl

-- A line that comes in any chunks is read whole, and what follows it is left.
pub record ReadsLine (w : Wire) (line rest : List ℕ) : Type 0 where
  pub buffer' : List ℕ
  pub later : List Arrival
  pub runs : readline w ≡ (checked_line line, read_to w buffer' later)
  pub no_loss : buffer' ++ bytes_of later ≡ rest
  pub is_steady : IsSteady later

module _ (line rest : List ℕ) (lacks : Lacks 13 line) where
  ended : List ℕ
  ended = line ++ end_of_line

  total : List ℕ
  total = line ++ (end_of_line ++ rest)

  enough_line : (b x : List ℕ) → b ++ x ≡ total → length line + 2 ≤ length b → has_line b ≡ true
  unfolding has_line ended total
  enough_line b x h n =
      let long : length ended ≤ length b = omega (arith, n, length-append line end_of_line) in
      let whole : b ++ x ≡ ended ++ rest = h ∙ sym (append_assoc line end_of_line rest) in
      let (q, e, f) = cut-prefix ended b x rest whole long in
      let same : b ≡ line ++ (end_of_line ++ q) = e ∙ append_assoc line end_of_line q in
      rw (same, cut_line_at line q lacks) refl

  fits_line :
      length line ≤ max_body
      → (b : List ℕ) → length b ≤ length line + 2 + max_chunk
      → is_too_long b ≡ false
  fits_line short b n = ground (arith, short, n)

  pub readline-ReadsLine :
      (w : Wire)
      → length line ≤ max_body
      → IsSteady w.arrivals
      → stream w ≡ line ++ (end_of_line ++ rest)
      → ReadsLine w line rest
  unfolding readline has_line total
  readline-ReadsLine w short steady h =
      let present : length line + 2 ≤ length total =
        omega (arith, length-append line (end_of_line ++ rest), length-append end_of_line rest) in
      let r =
        fill-Filled has_line is_too_long (length line + 2) total enough_line (fits_line short)
          present w.arrivals w.buffer steady h in
      elim (Option-cases (cut_line r.buffer')) [
        | inl e ↦ absurd (cc (rw e at r.is_enough))
        | inr ((l, q), e) ↦
            let whole = cut_line-append r.buffer' (bytes_of r.later) l q e in
            let same = sym whole ∙ ap cut_line r.no_loss ∙ cut_line_at line rest lacks in
            let first : l ≡ line = cc same in
            let second : q ++ bytes_of r.later ≡ rest = cc same in
            record {
              buffer' = q;
              later = r.later;
              runs = rw (readline, r.runs, e, first) refl;
              no_loss = second;
              is_steady = r.is_steady;
            }
      ]

take-append : (s t : List ℕ) → take (length s) (s ++ t) ≡ s
take-append [] t = refl
take-append (c ∷ s) t = ap (λ x. c ∷ x) (take-append s t)

pub skip-append : (s t : List ℕ) → skip (length s) (s ++ t) ≡ t
skip-append [] t = refl
skip-append (c ∷ s) t = skip-append s t

drop_more-append : (s t : List ℕ) → skip (length s + 2) (s ++ t) ≡ skip 2 t
drop_more-append [] t = refl
drop_more-append (c ∷ s) t =
    let e : suc (length s) + 2 ≡ suc (length s + 2) = omega arith in rw e (drop_more-append s t)

-- A body that comes in any chunks is read whole, and what follows its end is left.
pub record ReadsBody (w : Wire) (body rest : List ℕ) : Type 0 where
  pub buffer' : List ℕ
  pub later : List Arrival
  pub runs : read_body (length body) w ≡ (ok body, read_to w buffer' later)
  pub no_loss : buffer' ++ bytes_of later ≡ rest
  pub is_steady : IsSteady later

module _ (body rest : List ℕ) where
  frame : List ℕ
  frame = body ++ (end_of_line ++ rest)

  pub read_body-ReadsBody :
      (w : Wire)
      → length body ≤ max_body
      → IsSteady w.arrivals
      → stream w ≡ body ++ (end_of_line ++ rest)
      → ReadsBody w body rest
  unfolding read_body frame same_codes
  read_body-ReadsBody w short steady h =
      let need = length body + 2 in
      let present : need ≤ length frame =
        omega (arith, length-append body (end_of_line ++ rest), length-append end_of_line rest) in
      let r =
        fill-Filled (has_frame (length body)) (λ b. false) need frame (λ b x e n. ground (arith, n))
          (λ b n. refl) present w.arrivals w.buffer steady h in
      let long : length (body ++ end_of_line) ≤ length r.buffer' =
        ground (arith, length-append body end_of_line, r.is_enough) in
      let whole : r.buffer' ++ bytes_of r.later ≡ (body ++ end_of_line) ++ rest =
        r.no_loss ∙ sym (append_assoc body end_of_line rest) in
      let (q, e, f) =
        cut-prefix (body ++ end_of_line) r.buffer' (bytes_of r.later) rest whole long in
      let same : r.buffer' ≡ body ++ (end_of_line ++ q) = e ∙ append_assoc body end_of_line q in
      let allowed : leb (length body) max_body ≡ true = ground (arith, short) in
      record {
        buffer' = q;
        later = r.later;
        runs =
            rw
              (
                read_body,
                allowed,
                r.runs,
                same,
                skip-append body (end_of_line ++ q),
                take-append body (end_of_line ++ q),
                drop_more-append body (end_of_line ++ q),
              )
              refl;
        no_loss = f;
        is_steady = r.is_steady;
      }
