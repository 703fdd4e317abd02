-- ===== src/Domain/V2/Envelopes.antt =====
-- `make_event_v2` and `validate_event_v2` of domain_v2.py, one after the other.
use anvil_events.Base.{
  ℕ, String, true, ◌&&◌, Option, some, List, [], ◌∷◌, ◌≡◌, refl, nat_eq, string_eq, option_eq, ltb,
  leb, all, arith, beq_refl,
}
use anvil_events.Result.{ok}
use anvil_events.Json.{Json, Fields, Codec, get, as_text, as_nat, as_texts, text_array}
use anvil_events.Domain.Patterns.{is_safe_token, is_producer, is_kind, is_owned_by, chars}
use anvil_events.Domain.Decimal.{event_id_of}
use anvil_events.Domain.V2.Payloads.{Screen, no_duplicates, validate_payload}
use anvil_events.Domain.V2.{
  envelope_v2, subject_of, is_correlation, is_cause, is_allowed, nullable, validate_event_v2,
  make_event_v2,
}

pub as_texts-text_array : (ss : List String) → as_texts (text_array ss) ≡ some ss
unfolding as_texts text_array
as_texts-text_array [] = refl
as_texts-text_array (s ∷ ss) = ground (arith, as_texts-text_array ss)

module _ (codec : Codec) (screen : Screen) (allowed : Option (List String))
    (producer kind node : String) (payload : Json) (seq : ℕ) (correlation : Option String)
    (causes : List String) (now : String) (event : Fields) where
  make-inversion :
      make_event_v2 codec screen producer kind node payload seq correlation causes now ≡ ok event
      → ((leb (chars producer) 256 && is_producer producer) ≡ true)
        × ((leb (chars node) 64 && is_safe_token node) ≡ true)
        × ((leb (chars kind) 128 && is_kind kind) ≡ true)
        × (is_owned_by producer node ≡ true)
        × (ltb 0 seq ≡ true)
        × (is_correlation (some (nullable correlation)) ≡ true)
        × (validate_payload codec screen kind payload ≡ ok tt)
        × (event ≡ envelope_v2 producer kind node payload seq correlation causes now)
  unfolding make_event_v2
  make-inversion h = ground arith

  envelope-validates :
      (leb (chars producer) 256 && is_producer producer) ≡ true
      → (leb (chars node) 64 && is_safe_token node) ≡ true
      → (leb (chars kind) 128 && is_kind kind) ≡ true
      → is_owned_by producer node ≡ true
      → ltb 0 seq ≡ true
      → is_correlation (some (nullable correlation)) ≡ true
      → validate_payload codec screen kind payload ≡ ok tt
      → screen.is_rfc3339 now ≡ true
      → all is_cause causes ≡ true
      → no_duplicates causes ≡ true
      → is_allowed allowed producer ≡ true
      → validate_event_v2 codec screen allowed
          (envelope_v2 producer kind node payload seq correlation causes now)
        ≡ ok tt
  unfolding validate_event_v2 envelope_v2 get as_text as_nat
  envelope-validates p n k o s c v t cs d a =
      rw
        (
          p,
          s,
          beq_refl (event_id_of producer seq),
          n,
          k,
          o,
          beq_refl (subject_of node kind),
          c,
          t,
          as_texts-text_array causes,
          cs,
          d,
          a,
        )
        v

  -- What `make_event_v2` returns, `validate_event_v2` accepts, if the clock's text is an RFC 3339 time, the
  -- causes are distinct texts of 1 to 256 characters, and the producer is allowed.
  pub make-validates :
      make_event_v2 codec screen producer kind node payload seq correlation causes now ≡ ok event
      → screen.is_rfc3339 now ≡ true
      → all is_cause causes ≡ true
      → no_duplicates causes ≡ true
      → is_allowed allowed producer ≡ true
      → validate_event_v2 codec screen allowed event ≡ ok tt
  make-validates h t cs d a =
      let f = make-inversion h in rw f.7 (envelope-validates f.0 f.1 f.2 f.3 f.4 f.5 f.6 t cs d a)
