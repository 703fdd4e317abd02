-- ===== src/Json.antt =====
-- JSON values, the reads that the program makes of an object, and the two standard-library modules
-- it passes them to: `json` and `hashlib`, taken as a parameter.
use anvil_events.Base.{
  ℕ, String, Bool, Option, none, some, List, [], ◌∷◌, ◌≡◌, ◌==◌, string_eq, if◌then◌else◌,
}
use anvil_events.Base.Int.{ℤ, pos}

-- Numbers with a fraction are left out: no event that the program writes holds one.
mutual
  pub data Json : Type 0 where
    null : Json
    boolean : Bool → Json
    number : ℤ → Json
    text : String → Json
    array : Items → Json
    object : Fields → Json

  pub data Items : Type 0 where
    nil : Items
    cons : Json → Items → Items

  pub data Fields : Type 0 where
    end : Fields
    field : String → Json → Fields → Fields

-- fields.get(key)
unfoldable pub get : String → Fields → Option Json
get key end = none
get key (field k v fs) = if k == key then some v else get key fs

-- isinstance(value, str), isinstance(value, int) with value >= 0, isinstance(value, dict)
unfoldable pub as_text : Option Json → Option String
as_text (some (text s)) = some s
as_text _ = none

unfoldable pub as_nat : Option Json → Option ℕ
as_nat (some (number (pos n))) = some n
as_nat _ = none

unfoldable pub as_fields : Option Json → Option Fields
as_fields (some (object fs)) = some fs
as_fields _ = none

-- A list of texts, or nothing where a member is no text.
unfoldable pub as_texts : Items → Option (List String)
as_texts nil = some []
as_texts (cons (text s) xs) = elim (as_texts xs) [ none ↦ none | some ss ↦ some (s ∷ ss) ]
as_texts (cons _ xs) = none

unfoldable pub text_array : List String → Items
text_array [] = nil
text_array (s ∷ ss) = cons (text s) (text_array ss)

-- `dumps_sorted` is json.dumps(value, sort_keys=True); `dumps` is json.dumps(value, sort_keys=True, separators=(",", ":"), allow_nan=False), `loads` is
-- json.loads, which refuses some texts; `sha256` is the hexadecimal digest of a text's bytes, and
-- `sha256_bytes` that of given bytes.
pub record Codec : Type 0 where
  pub dumps_sorted : Json → String
  pub dumps : Json → String
  pub loads : String → Option Json
  pub sha256 : String → String
  pub sha256_bytes : List ℕ → String

-- What is documented of `json`: a text that `dumps` wrote is read back, as a value that `dumps` writes
-- as the same text, and as an object where it was one. (The order of an object's keys may differ.)
pub record IsStable (codec : Codec) : Type 0 where
  pub read_back : Json → Json
  pub loads-dumps : (v : Json) → Codec.loads codec (Codec.dumps codec v) ≡ some (read_back v)
  pub dumps-read_back : (v : Json) → Codec.dumps codec (read_back v) ≡ Codec.dumps codec v
  pub read_fields : Fields → Fields
  pub read_back-object : (fs : Fields) → read_back (object fs) ≡ object (read_fields fs)
