-- ===== src/Domain/V2/Payloads.antt =====
-- validate_payload of domain_v2.py. Its search for credential-shaped keys and texts, and the date parser
-- of domain.py's `is_rfc3339` (`datetime.fromisoformat`), are a parameter.
use Prim.Native.String.{len}
use anvil_events.Base.{
  ℕ, ◌*◌, ◌-◌, String, Bool, true, false, ◌&&◌, not, Option, none, some, List, [], ◌∷◌, ◌==◌,
  nat_eq, string_eq, ltb, leb, if◌then◌else◌, all, contains, is_some, length,
}
use anvil_events.Result.{Result, ok, err, value_error, other, guard, ◌>>=◌, ◌>>◌}
use anvil_events.Json.{
  Json, Fields, Items, Codec, text, array, object, get, nil, cons, as_nat, as_texts,
}
use anvil_events.Domain.Patterns.{
  is_safe_token, is_resource, is_revision, is_sha256, has_newline, chars,
}

pub record Screen : Type 0 where
  pub contains_sensitive_key : Json → Result Bool
  pub is_rfc3339 : String → Bool

-- The required fields of the kinds in DESIRED_KINDS.
unfoldable pub required : String → List String
required kind =
    if kind == "state.desired"
    then "resource" ∷ "generation" ∷ "revision" ∷ "content_sha256" ∷ "adapter" ∷ "artifact" ∷ []
    else if kind == "reconcile.applied"
    then "resource" ∷ "generation" ∷ "revision" ∷ "content_sha256" ∷ "adapter" ∷ []
    else if kind == "reconcile.failed"
    then "resource" ∷ "generation" ∷ "revision" ∷ "adapter" ∷ "error" ∷ []
    else if kind == "reconcile.awaiting_approval"
    then "resource" ∷ "generation" ∷ "revision" ∷ "adapter" ∷ []
    else if kind == "operation.indeterminate"
    then "operation_id" ∷ "error" ∷ []
    else if kind == "delivery.degraded"
    then "event_id" ∷ "error" ∷ []
    else []

abbrev pub has : Fields → String → Bool
has p key = is_some (get key p)

-- A field that is absent passes; one that is there is a text with the property.
abbrev pub text_or_absent : (String → Bool) → Option Json → Bool
text_or_absent p none = true
text_or_absent p (some (text s)) = p s
text_or_absent p (some _) = false

abbrev pub positive_or_absent : Option Json → Bool
positive_or_absent none = true
positive_or_absent (some v) = elim (as_nat (some v)) [ none ↦ false | some n ↦ ltb 0 n ]

-- len(set(values)) == len(values)
unfoldable pub no_duplicates : List String → Bool
no_duplicates [] = true
no_duplicates (s ∷ ss) = not (contains s ss) && no_duplicates ss

abbrev pub is_target_list : Option (List String) → Bool
is_target_list none = false
is_target_list (some targets) =
    ltb 0 (length targets) && no_duplicates targets && all is_safe_token targets

-- An object or an array among the targets has no hash: `set(...)` raises a TypeError.
unfoldable pub has_unhashable : Items → Bool
has_unhashable nil = false
has_unhashable (cons (array xs) more) = true
has_unhashable (cons (object fs) more) = true
has_unhashable (cons _ more) = has_unhashable more

unfoldable pub check_targets : Option Json → Result (Unit {0})
unfolding has_unhashable no_duplicates
check_targets none = ok tt
check_targets (some (array nil)) =
    err (value_error "targets must be a non-empty array of unique node tokens")
check_targets (some (array (cons x xs))) = do
  guard (not (has_unhashable (cons x xs))) (other "unhashable type")
  guard (is_target_list (as_texts (cons x xs)))
      (value_error "targets must be a non-empty array of unique node tokens")
check_targets (some _) = err (value_error "targets must be a non-empty array of unique node tokens")

unfoldable pub is_bounded : ℕ → String → Bool
is_bounded limit s = leb 1 (chars s) && leb (chars s) limit && not (has_newline s)

abbrev pub max_payload : ℕ
max_payload = 1024 * 1024 - 4096

unfoldable pub validate_fields : Fields → Result (Unit {0})
unfolding is_bounded check_targets
validate_fields p = do
  guard (text_or_absent is_resource (get "resource" p))
      (value_error "resource must be a safe logical identifier")
  guard (positive_or_absent (get "generation" p))
      (value_error "generation must be a positive integer")
  guard (text_or_absent is_sha256 (get "content_sha256" p))
      (value_error "content_sha256 must be a lowercase SHA-256 digest")
  check_targets (get "targets" p)
  guard
      (text_or_absent (is_bounded 256) (get "revision" p)
        && text_or_absent (is_bounded 256) (get "adapter" p)
        && text_or_absent (is_bounded 256) (get "artifact" p)
        && text_or_absent (is_bounded 256) (get "operation_id" p)
        && text_or_absent (is_bounded 300) (get "error" p))
      (value_error "must be a bounded non-empty string")
  guard (text_or_absent is_safe_token (get "adapter" p))
      (value_error "adapter must be one safe token")
  guard (text_or_absent is_revision (get "revision" p))
      (value_error "revision must be one safe immutable identifier")
  guard (text_or_absent is_resource (get "artifact" p))
      (value_error "artifact must be a safe logical identifier")

unfoldable pub validate_payload : Codec → Screen → String → Json → Result (Unit {0})
unfolding validate_fields required
validate_payload codec screen kind (object p) = do
  sensitive ← screen.contains_sensitive_key (object p)
  guard (not sensitive) (value_error "payload contains a credential-shaped key or URL")
  guard (leb (len (codec.dumps (object p))) max_payload)
      (value_error "payload exceeds the v2 envelope limit")
  guard (all (has p) (required kind)) (value_error "payload missing required fields")
  validate_fields p
validate_payload codec screen kind _ = err (value_error "payload must be an object")
