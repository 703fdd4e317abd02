-- ===== src/Domain/Patterns.antt =====
-- The regular expressions of domain.py and domain_v2.py, each as a test on the characters of a text.
use Prim.Native.Char.{code}
use anvil_events.Base.{
  ℕ, String, Bool, true, false, ◌&&◌, ◌||◌, not, List, [], ◌∷◌, ◌==◌, nat_eq, ltb, leb,
  if◌then◌else◌, all, length, ◌≡◌, refl,
}

-- The code points of a text. `String` has constructors of its own.
abbrev pub codes : String → List ℕ
codes String.[] = []
codes (String.◌∷◌ c s) = code c ∷ codes s

unfoldable pub is_upper : ℕ → Bool
is_upper c = leb b'A' c && leb c b'Z'

unfoldable pub is_lower : ℕ → Bool
is_lower c = leb b'a' c && leb c b'z'

unfoldable pub is_digit : ℕ → Bool
is_digit c = leb b'0' c && leb c b'9'

unfoldable pub is_alnum : ℕ → Bool
unfolding is_upper is_lower is_digit
is_alnum c = is_upper c || is_lower c || is_digit c

-- [A-Za-z0-9_-]
unfoldable pub is_token_char : ℕ → Bool
unfolding is_alnum
is_token_char c = is_alnum c || c == b'_' || c == b'-'

push : ℕ → List (List ℕ) → List (List ℕ)
push c [] = (c ∷ []) ∷ []
push c (w ∷ ws) = (c ∷ w) ∷ ws

-- value.split(sep)
unfoldable pub split : ℕ → List ℕ → List (List ℕ)
unfolding push
split sep [] = [] ∷ []
split sep (c ∷ cs) = let rest = split sep cs in if c == sep then [] ∷ rest else push c rest

-- [...]+
unfoldable pub all_some : (ℕ → Bool) → List ℕ → Bool
all_some p [] = false
all_some p (c ∷ cs) = p c && all p cs

-- ^[A-Za-z0-9_-]+$
unfoldable pub is_safe_token : String → Bool
unfolding is_token_char all_some
is_safe_token s = all_some is_token_char (codes s)

-- [A-Za-z0-9_-]+(?::[A-Za-z0-9_-]+)*
unfoldable pub is_producer : String → Bool
unfolding is_token_char all_some split
is_producer s = all (all_some is_token_char) (split b':' (codes s))

-- [a-z][a-z0-9_-]*
unfoldable pub is_kind_word : List ℕ → Bool
unfolding is_lower is_digit
is_kind_word [] = false
is_kind_word (c ∷ cs) =
    is_lower c && all (λ d. is_lower d || is_digit d || d == b'_' || d == b'-') cs

-- ^[a-z][a-z0-9_-]*(?:\.[a-z][a-z0-9_-]*)+$
unfoldable pub is_kind : String → Bool
unfolding is_kind_word split
is_kind s = let words = split b'.' (codes s) in ltb 1 (length words) && all is_kind_word words

-- A text of at most 256 characters that begins with a letter or a digit.
bounded_name : (ℕ → Bool) → List ℕ → Bool
unfolding is_alnum
bounded_name p [] = false
bounded_name p (c ∷ cs) = is_alnum c && all p cs && leb (length cs) 255

-- segment and segment not in (".", "..") and segment[0].isalnum(), which the two names fail.
is_segment : List ℕ → Bool
unfolding is_alnum
is_segment [] = false
is_segment (c ∷ cs) = is_alnum c

-- ^[A-Za-z0-9][A-Za-z0-9_.:/-]{0,255}$, and each segment between slashes begins with a letter or digit.
unfoldable pub is_resource : String → Bool
unfolding bounded_name is_segment is_token_char split
is_resource s =
    bounded_name (λ c. is_token_char c || c == b'.' || c == b':' || c == b'/') (codes s)
    && all is_segment (split b'/' (codes s))

-- ^[A-Za-z0-9][A-Za-z0-9._-]{0,255}$
unfoldable pub is_revision : String → Bool
unfolding bounded_name is_token_char
is_revision s = bounded_name (λ c. is_token_char c || c == b'.') (codes s)

-- ^[0-9a-f]{64}$
unfoldable pub is_sha256 : String → Bool
unfolding is_digit
is_sha256 s =
    let cs = codes s in length cs == 64 && all (λ c. is_digit c || (leb b'a' c && leb c b'f')) cs

-- producer.split(":", 1)[0]
unfoldable pub first_word : List (List ℕ) → List ℕ
first_word [] = []
first_word (w ∷ ws) = w

unfoldable pub same_codes : List ℕ → List ℕ → Bool
same_codes [] [] = true
same_codes (c ∷ cs) (d ∷ ds) = c == d && same_codes cs ds
same_codes _ _ = false

unfoldable pub is_owned_by : String → String → Bool
unfolding first_word split same_codes
is_owned_by producer node = same_codes (first_word (split b':' (codes producer))) (codes node)

-- "\r" in value or "\n" in value
unfoldable pub has_newline : String → Bool
has_newline s = not (all (λ c. not (c == 13 || c == 10)) (codes s))

-- len(value)
abbrev pub chars : String → ℕ
chars s = length (codes s)

tokens_test : (is_safe_token "node-a" ≡ true) × (is_safe_token "a b" ≡ false)
unfolding is_safe_token
tokens_test = (refl, refl)

producers_test :
    (is_producer "node-a:router" ≡ true)
    × (is_producer "node-a:" ≡ false)
    × (is_owned_by "node-a:router" "node-a" ≡ true)
    × (is_owned_by "node-a:router" "node" ≡ false)
unfolding is_producer is_owned_by
producers_test = (refl, refl, refl, refl)

kinds_test :
    (is_kind "state.desired" ≡ true) × (is_kind "state" ≡ false) × (is_kind "State.x" ≡ false)
unfolding is_kind
kinds_test = (refl, refl, refl)

resources_test : (is_resource "routing/clients" ≡ true) × (is_resource "a/../b" ≡ false)
unfolding is_resource
resources_test = (refl, refl)
