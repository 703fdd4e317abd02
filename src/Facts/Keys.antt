-- ===== src/Facts/Keys.antt =====
-- `_sensitive_key` of ingest.py, on the characters of a key.
use anvil_events.Base.{
  ℕ, ◌+◌, String, Bool, true, false, ◌&&◌, ◌||◌, Option, none, some, List, [], ◌∷◌, ◌==◌, nat_eq,
  if◌then◌else◌, any, map, ◌≡◌, refl,
}
use anvil_events.Domain.Patterns.{codes, is_upper, is_lower, is_digit, is_alnum, split, same_codes}

-- re.sub(r"(?<=[a-z0-9])(?=[A-Z])", "_", key), after the given character.
unfoldable pub camel_split : Option ℕ → List ℕ → List ℕ
unfolding is_upper is_lower is_digit
camel_split before [] = []
camel_split none (c ∷ cs) = c ∷ camel_split (some c) cs
camel_split (some b) (c ∷ cs) =
    let rest = c ∷ camel_split (some c) cs in
    if (is_lower b || is_digit b) && is_upper c then b'_' ∷ rest else rest

-- re.sub(r"[^A-Za-z0-9]+", "_", text), inside a run of other characters or not.
unfoldable pub collapse : Bool → List ℕ → List ℕ
unfolding is_alnum
collapse inside [] = []
collapse inside (c ∷ cs) =
    let kept = c ∷ collapse false cs in
    let run = collapse true cs in if is_alnum c then kept else if inside then run else b'_' ∷ run

-- strip("_")
unfoldable pub lstrip : List ℕ → List ℕ
lstrip [] = []
lstrip (c ∷ cs) = let rest = lstrip cs in if c == b'_' then rest else c ∷ cs

abbrev pub end_strip : ℕ → List ℕ → List ℕ
end_strip c [] = if c == b'_' then [] else c ∷ []
end_strip c (d ∷ ds) = c ∷ d ∷ ds

unfoldable pub rstrip : List ℕ → List ℕ
rstrip [] = []
rstrip (c ∷ cs) = end_strip c (rstrip cs)

-- lower_letter(), of letters, digits and underscores
abbrev pub lower_letter : ℕ → ℕ
lower_letter c = if is_upper c then c + 32 else c

unfoldable pub normalized : String → List ℕ
unfolding camel_split collapse lstrip rstrip is_upper
normalized key = map lower_letter (rstrip (lstrip (collapse false (camel_split none (codes key)))))

-- normalized.replace("_", "")
unfoldable pub compact : List ℕ → List ℕ
compact [] = []
compact (c ∷ cs) = let rest = compact cs in if c == b'_' then rest else c ∷ rest

unfoldable pub ends_with : List ℕ → List ℕ → Bool
unfolding same_codes
ends_with suffix [] = same_codes [] suffix
ends_with suffix (c ∷ cs) = same_codes (c ∷ cs) suffix || ends_with suffix cs

abbrev pub is_one_of : List String → List ℕ → Bool
is_one_of names cs = any (λ name. same_codes (codes name) cs) names

-- _DROP_FACT_FIELDS
abbrev pub drop_fact_fields : List String
drop_fact_fields =
    "token" ∷ "password" ∷ "secret" ∷ "api_key" ∷ "apikey" ∷ "credential" ∷ "authorization"
    ∷ "cookie" ∷ []

-- The alternatives of _SENSITIVE_PARTS, each a word of the key.
abbrev pub sensitive_parts : List String
sensitive_parts =
    "token" ∷ "password" ∷ "passwd" ∷ "secret" ∷ "credential" ∷ "authorization" ∷ "cookie" ∷ []

abbrev pub sensitive_suffixes : List String
sensitive_suffixes =
    "token" ∷ "password" ∷ "passwd" ∷ "secret" ∷ "credential" ∷ "authorization" ∷ "cookie"
    ∷ "apikey" ∷ []

unfoldable pub sensitive_key : List String → String → Bool
unfolding normalized compact ends_with split same_codes
sensitive_key drop_fields key =
    let name = normalized key in
    is_one_of drop_fields name
    || is_one_of ("api_key" ∷ "apikey" ∷ []) name
    || any (is_one_of sensitive_parts) (split b'_' name)
    || any (λ suffix. ends_with (codes suffix) (compact name)) sensitive_suffixes

sensitive_keys_test :
    (sensitive_key drop_fact_fields "accessToken" ≡ true)
    × (sensitive_key drop_fact_fields "API-Key" ≡ true)
    × (sensitive_key drop_fact_fields "__Secret__name" ≡ true)
    × (sensitive_key drop_fact_fields "mytoken" ≡ true)
    × (sensitive_key drop_fact_fields "tokens" ≡ false)
    × (sensitive_key drop_fact_fields "resource" ≡ false)
unfolding sensitive_key
sensitive_keys_test = (refl, refl, refl, refl, refl, refl)
