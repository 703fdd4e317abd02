-- ===== src/Facts/Redact.antt =====
-- `_redact` of ingest.py, for any test on keys.
pub mod Paths
use anvil_events.Base.{
  String, Bool, false, none, ◌≡◌, refl, ap, ◌==◌, string_eq, if◌then◌else◌, arith, Bool-cases, inl,
  inr, eq_of_beq,
}
use mathlib.Core.Option
use anvil_events.Json.{
  Json, Items, Fields, null, boolean, number, text, array, object, nil, cons, end, field, get,
}

module _ (is_dropped : String → Bool) where
  unfoldable mutual
    pub redact : Json → Json
    redact (array xs) = array (redact_items xs)
    redact (object fs) = object (redact_fields fs)
    redact null = null
    redact (boolean b) = boolean b
    redact (number n) = number n
    redact (text s) = text s

    pub redact_items : Items → Items
    redact_items nil = nil
    redact_items (cons v xs) = cons (redact v) (redact_items xs)

    pub redact_fields : Fields → Fields
    redact_fields end = end
    redact_fields (field k v fs) =
        if is_dropped k then redact_fields fs else field k (redact v) (redact_fields fs)

  -- No key of an object in the value is dropped.
  unfoldable mutual
    pub IsClean : Json → Type 0
    IsClean (array xs) = IsCleanItems xs
    IsClean (object fs) = IsCleanFields fs
    IsClean _ = Unit {0}

    pub IsCleanItems : Items → Type 0
    IsCleanItems nil = Unit {0}
    IsCleanItems (cons v xs) = IsClean v × IsCleanItems xs

    pub IsCleanFields : Fields → Type 0
    IsCleanFields end = Unit {0}
    IsCleanFields (field k v fs) = (is_dropped k ≡ false) × IsClean v × IsCleanFields fs

  mutual
    unfolding redact IsClean

    redacted_value : (v : Json) → IsClean (redact v)
    redacted_value (array xs) = redacted_items xs
    redacted_value (object fs) = redacted_fields fs
    redacted_value null = tt
    redacted_value (boolean b) = tt
    redacted_value (number n) = tt
    redacted_value (text s) = tt

    redacted_items : (xs : Items) → IsCleanItems (redact_items xs)
    redacted_items nil = tt
    redacted_items (cons v xs) = (redacted_value v, redacted_items xs)

    redacted_fields : (fs : Fields) → IsCleanFields (redact_fields fs)
    redacted_fields end = tt
    redacted_fields (field k v fs) = elim (Bool-cases (is_dropped k)) [
      | inl e ↦ rw e (redacted_fields fs)
      | inr e ↦ rw e (e, redacted_value v, redacted_fields fs)
    ]

  mutual
    unfolding redact IsClean

    redact_same : (v : Json) → IsClean v → redact v ≡ v
    redact_same (array xs) h = ap array (items_same xs h)
    redact_same (object fs) h = ap object (fields_same fs h)
    redact_same null h = refl
    redact_same (boolean b) h = refl
    redact_same (number n) h = refl
    redact_same (text s) h = refl

    items_same : (xs : Items) → IsCleanItems xs → redact_items xs ≡ xs
    items_same nil h = refl
    items_same (cons v xs) h = cc (redact_same v h.0, items_same xs h.1)

    fields_same : (fs : Fields) → IsCleanFields fs → redact_fields fs ≡ fs
    fields_same end h = refl
    fields_same (field k v fs) (d, h, hs) = rw d (cc (redact_same v h, fields_same fs hs))

-- A redacted value has no key that is to be dropped, at any depth, so that a second redaction leaves it as
-- it is.
pub redact-IsClean :
    (is_dropped : String → Bool) (v : Json)
    → IsClean is_dropped (redact is_dropped v)
      × (redact is_dropped (redact is_dropped v) ≡ redact is_dropped v)
redact-IsClean is_dropped v =
    let clean = redacted_value is_dropped v in
    (clean, redact_same is_dropped (redact is_dropped v) clean)

-- Under any key a redacted object has the redacted value of the object, or nothing where the key is to be
-- dropped.
pub get-redact_fields :
    (is_dropped : String → Bool) (key : String) (fs : Fields)
    → get key (redact_fields is_dropped fs)
      ≡ (if is_dropped key then none else Option.map (redact is_dropped) (get key fs))
unfolding get redact
get-redact_fields is_dropped key end = ground arith
get-redact_fields is_dropped key (field k v fs) = elim (Bool-cases (k == key)) [
  | inl e ↦
      let same = ap is_dropped (eq_of_beq k key e) in
      ground (arith, e, same, get-redact_fields is_dropped key fs)
  | inr e ↦ ground (arith, e, get-redact_fields is_dropped key fs)
]
