-- ===== src/Domain/V2/Desired.antt =====
-- The payload checks of domain_v2.py and the reads that the reconciler makes of a state.desired payload.
use anvil_events.Base.{
  ℕ, ◌<◌, ◌≤◌, String, Bool, true, false, Option, none, some, List, [], ◌∷◌, ◌≡◌, ◌≢◌, refl, ap,
  ◌∙◌, subst, ◌==◌, nat_eq, string_eq, option_eq, all, is_some, arith, Option-cases, inl, inr,
  and-true, All, length, contains, beq_refl,
}
use anvil_events.Result.{guard-ok, guard-then, ok-then, ok}
use anvil_events.Json.{
  Json, Fields, Codec, null, boolean, number, text, array, object, get, as_text, as_nat, as_texts,
  text_array, Items, nil, cons,
}
use anvil_events.Domain.Patterns.{is_resource, is_sha256, is_revision, is_safe_token, chars}
use anvil_events.Domain.V2.Payloads.{
  Screen, has, check_targets, no_duplicates, is_target_list, is_bounded, text_or_absent,
  positive_or_absent, validate_payload, validate_fields, required,
}
use anvil_events.Reconcile.Desired.{Payload, payload_of, targets_of}

-- Texts of which no two are the same.
abbrev pub AreDistinct : List String → Type 0
AreDistinct [] = Unit {0}
AreDistinct (s ∷ ss) = All (λ t. s ≢ t) ss × AreDistinct ss

-- What the reconciler reads of the targets: nothing where there are none, and else the distinct node
-- tokens of a list that is not empty.
abbrev pub AreTargets : Option Json → Option (List String) → Type 0
AreTargets none read = read ≡ none
AreTargets (some v) read =
    (ss : List String) × (v ≡ array (text_array ss))
    × (read ≡ some ss)
    × (0 < length ss)
    × AreDistinct ss
    × All (λ s. is_safe_token s ≡ true) ss

-- The formats of the fields that are read of a payload.
pub record IsWellFormed (fields : Fields) (p : Payload) : Type 0 where
  pub resource : is_resource p.resource ≡ true
  pub generation : 0 < p.generation
  pub revision : is_revision p.revision ≡ true
  pub revision_fits : chars p.revision ≤ 256
  pub digest : is_sha256 p.content_sha256 ≡ true
  pub adapter : is_safe_token p.adapter ≡ true
  pub adapter_fits : chars p.adapter ≤ 256
  pub artifact : is_resource p.artifact ≡ true
  pub artifact_fits : chars p.artifact ≤ 256
  pub targets : AreTargets (get "targets" fields) p.targets

all-All : {A : Type 0} (p : A → Bool) (xs : List A) → all p xs ≡ true → All (λ x. p x ≡ true) xs
all-All p [] h = tt
all-All p (x ∷ xs) h = let (first, rest) = and-true (p x) (all p xs) h in (first, all-All p xs rest)

absent_differ : (s : String) (ss : List String) → contains s ss ≡ false → All (λ t. s ≢ t) ss
absent_differ s [] h = tt
absent_differ s (t ∷ ss) h = (
  λ same.
      let other : (t == s) ≡ false = ground (arith, h) in
      let equal : (t == s) ≡ true = ap (λ x. t == x) same ∙ beq_refl t in cc (other, equal),
  absent_differ s ss (ground (arith, h)),
)

distinct_of : (ss : List String) → no_duplicates ss ≡ true → AreDistinct ss
unfolding no_duplicates
distinct_of [] h = tt
distinct_of (s ∷ ss) h =
    (absent_differ s ss (ground (arith, h)), distinct_of ss (ground (arith, h)))

texts_of : (xs : Items) (ss : List String) → as_texts xs ≡ some ss → xs ≡ text_array ss
unfolding as_texts text_array
texts_of nil ss h = let same : [] ≡ ss = cc h in rw (← same) refl
texts_of (cons (text s) xs) ss h = elim (Option-cases (as_texts xs)) [
  | inl e ↦ absurd (cc (rw (e, as_texts) at h))
  | inr (ts, e) ↦
      let same : s ∷ ts ≡ ss = cc (rw (e, as_texts) at h) in rw (← same, ← texts_of xs ts e) refl
]
texts_of (cons null xs) ss h = absurd (cc h)
texts_of (cons (boolean b) xs) ss h = absurd (cc h)
texts_of (cons (number n) xs) ss h = absurd (cc h)
texts_of (cons (array ys) xs) ss h = absurd (cc h)
texts_of (cons (object fs) xs) ss h = absurd (cc h)

targets-AreTargets : (o : Option Json) → check_targets o ≡ ok tt → AreTargets o (targets_of o)
unfolding check_targets
targets-AreTargets none h = refl
targets-AreTargets (some (array nil)) h = absurd (cc h)
targets-AreTargets (some (array (cons x xs))) h =
    let (plain, h1) = guard-then _ _ _ h in
    let listed : is_target_list (as_texts (cons x xs)) ≡ true = guard-ok _ _ h1 in
    elim (Option-cases (as_texts (cons x xs))) [
      | inl e ↦ absurd (cc (rw e at listed))
      | inr (ss, e) ↦
          let checks : is_target_list (some ss) ≡ true = rw e at listed in
          let filled : 0 < length ss = ground (arith, checks) in
          let distinct = distinct_of ss (ground (arith, checks)) in
          let safe = all-All is_safe_token ss (ground (arith, checks)) in
          (ss, ap array (texts_of (cons x xs) ss e), e, filled, distinct, safe)
    ]
targets-AreTargets (some null) h = absurd (cc h)
targets-AreTargets (some (boolean b)) h = absurd (cc h)
targets-AreTargets (some (number n)) h = absurd (cc h)
targets-AreTargets (some (text s)) h = absurd (cc h)
targets-AreTargets (some (object fs)) h = absurd (cc h)

-- A text that is there is bounded.
bounded_text :
    (o : Option Json) (s : String)
    → as_text o ≡ some s
    → text_or_absent (is_bounded 256) o ≡ true
    → chars s ≤ 256
unfolding as_text is_bounded
bounded_text (some (text t)) s h k = let same : t ≡ s = cc h in rw (← same) (ground (arith, k))
bounded_text none s h k = absurd (cc h)
bounded_text (some null) s h k = absurd (cc h)
bounded_text (some (boolean b)) s h k = absurd (cc h)
bounded_text (some (number n)) s h k = absurd (cc h)
bounded_text (some (array xs)) s h k = absurd (cc h)
bounded_text (some (object fs)) s h k = absurd (cc h)

text_field :
    (p : String → Bool) (o : Option Json)
    → is_some o ≡ true
    → text_or_absent p o ≡ true
    → (s : String) × (as_text o ≡ some s) × (p s ≡ true)
unfolding as_text
text_field p none h k = absurd (cc)
text_field p (some (text s)) h k = (s, refl, k)
text_field p (some null) h k = absurd (cc)
text_field p (some (boolean b)) h k = absurd (cc)
text_field p (some (number n)) h k = absurd (cc)
text_field p (some (array xs)) h k = absurd (cc)
text_field p (some (object fs)) h k = absurd (cc)

positive_field :
    (o : Option Json)
    → is_some o ≡ true
    → positive_or_absent o ≡ true
    → (n : ℕ) × (as_nat o ≡ some n) × (0 < n)
positive_field none h k = absurd (cc)
positive_field (some v) h k = elim (Option-cases (as_nat (some v))) [
  | inl e ↦ absurd (ground (arith, e, k))
  | inr (n, e) ↦ (n, e, ground (arith, e, k))
]

-- The checks of a payload that passed, one by one.
fields-inversion :
    (p : Fields)
    → validate_fields p ≡ ok tt
    → (text_or_absent is_resource (get "resource" p) ≡ true)
      × (positive_or_absent (get "generation" p) ≡ true)
      × (text_or_absent is_sha256 (get "content_sha256" p) ≡ true)
      × (text_or_absent is_safe_token (get "adapter" p) ≡ true)
      × (text_or_absent is_revision (get "revision" p) ≡ true)
      × (text_or_absent is_resource (get "artifact" p) ≡ true)
      × (check_targets (get "targets" p) ≡ ok tt)
      × (text_or_absent (is_bounded 256) (get "revision" p) ≡ true)
      × (text_or_absent (is_bounded 256) (get "adapter" p) ≡ true)
      × (text_or_absent (is_bounded 256) (get "artifact" p) ≡ true)
unfolding validate_fields
fields-inversion p h =
    let (resource, h1) = guard-then _ _ _ h in
    let (generation, h2) = guard-then _ _ _ h1 in
    let (digest, h3) = guard-then _ _ _ h2 in
    let (targets, h4) = ok-then _ _ h3 in
    let (bounded, h5) = guard-then _ _ _ h4 in
    let (adapter, h6) = guard-then _ _ _ h5 in
    let (revision, h7) = guard-then _ _ _ h6 in
    let bounds = and-true _ (text_or_absent (is_bounded 300) (get "error" p)) bounded in
    let (three, bound4) =
      and-true _ (text_or_absent (is_bounded 256) (get "operation_id" p)) bounds.0 in
    let (two, bound3) = and-true _ (text_or_absent (is_bounded 256) (get "artifact" p)) three in
    let (bound1, bound2) = and-true _ _ two in
    (
      resource,
      generation,
      digest,
      adapter,
      revision,
      guard-ok _ _ h7,
      targets,
      bound1,
      bound2,
      bound3,
    )

payload-inversion :
    (codec : Codec) (screen : Screen) (v : Json)
    → validate_payload codec screen "state.desired" v ≡ ok tt
    → (p : Fields) × (v ≡ object p)
      × (all (has p) (required "state.desired") ≡ true)
      × (validate_fields p ≡ ok tt)
unfolding validate_payload
payload-inversion codec screen (object p) h = (p, refl, ground arith, ground arith)
payload-inversion codec screen null h = absurd (cc)
payload-inversion codec screen (boolean b) h = absurd (cc)
payload-inversion codec screen (number n) h = absurd (cc)
payload-inversion codec screen (text s) h = absurd (cc)
payload-inversion codec screen (array xs) h = absurd (cc)

required-has :
    (p : Fields)
    → all (has p) (required "state.desired") ≡ true
    → (has p "resource" ≡ true)
      × (has p "generation" ≡ true)
      × (has p "revision" ≡ true)
      × (has p "content_sha256" ≡ true)
      × (has p "adapter" ≡ true)
      × (has p "artifact" ≡ true)
unfolding required
required-has p h =
    let (h1, k1) = and-true (has p "resource") _ h in
    let (h2, k2) = and-true (has p "generation") _ k1 in
    let (h3, k3) = and-true (has p "revision") _ k2 in
    let (h4, k4) = and-true (has p "content_sha256") _ k3 in
    let (h5, k5) = and-true (has p "adapter") _ k4 in
    let (h6, k6) = and-true (has p "artifact") _ k5 in (h1, h2, h3, h4, h5, h6)

payload-total :
    (p : Fields)
    → all (has p) (required "state.desired") ≡ true
    → validate_fields p ≡ ok tt
    → (d : Payload) × (payload_of p ≡ some d) × IsWellFormed p d
unfolding payload_of
payload-total p h v =
    let (h1, h2, h3, h4, h5, h6) = required-has p h in
    let (v1, v2, v4, v5, v3, v6, vt, b3, b5, b6) = fields-inversion p v in
    let (resource, e1, w1) = text_field is_resource (get "resource" p) h1 v1 in
    let (generation, e2, w2) = positive_field (get "generation" p) h2 v2 in
    let (revision, e3, w3) = text_field is_revision (get "revision" p) h3 v3 in
    let (digest, e4, w4) = text_field is_sha256 (get "content_sha256" p) h4 v4 in
    let (adapter, e5, w5) = text_field is_safe_token (get "adapter" p) h5 v5 in
    let (artifact, e6, w6) = text_field is_resource (get "artifact" p) h6 v6 in
    (
      record {
        resource = resource;
        generation = generation;
        revision = revision;
        content_sha256 = digest;
        adapter = adapter;
        artifact = artifact;
        targets = targets_of (get "targets" p);
      },
      rw (e1, e2, e3, e4, e5, e6) refl,
      record {
        resource = w1;
        generation = w2;
        revision = w3;
        digest = w4;
        adapter = w5;
        artifact = w6;
        revision_fits = bounded_text (get "revision" p) revision e3 b3;
        adapter_fits = bounded_text (get "adapter" p) adapter e5 b5;
        artifact_fits = bounded_text (get "artifact" p) artifact e6 b6;
        targets = targets-AreTargets (get "targets" p) vt;
      },
    )

-- Of a state.desired payload that `validate_payload` accepts, `payload_of` returns the fields that the
-- reconciler reads: the resource, the revision, the digest, the adapter and the artifact with the formats
-- that the checks demand, the names of at most 256 characters, a positive generation, and as targets
-- nothing where the payload has none, and else all elements of its list, which are distinct node tokens
-- and at least one.
pub validated-IsReadable :
    (codec : Codec) (screen : Screen) (p : Fields)
    → validate_payload codec screen "state.desired" (object p) ≡ ok tt
    → (d : Payload) × (payload_of p ≡ some d) × IsWellFormed p d
validated-IsReadable codec screen p h =
    let (q, same, keys, fields) = payload-inversion codec screen (object p) h in
    let equal : q ≡ p = cc same in
    subst (λ (r : Fields). (d : Payload) × (payload_of r ≡ some d) × IsWellFormed r d) equal
      (payload-total q keys fields)
