-- ===== src/Facts/Redact/Paths.antt =====
-- What stands in a value at the end of a path, before and after `_redact`.
use anvil_events.Base.{
  ℕ, zero, suc, String, Bool, true, false, ◌||◌, Option, none, some, List, [], ◌∷◌, ◌≡◌, refl, sym,
  subst, if◌then◌else◌,
}
use mathlib.Core.Option
use anvil_events.Json.{Json, Items, null, boolean, number, text, array, object, nil, cons, end, get}
use anvil_events.Facts.Redact.{redact, redact_items, get-redact_fields}

-- A step into an object, or into an array.
pub data Step : Type 0 where
  key : String → Step
  item : ℕ → Step

abbrev pub nth : ℕ → Items → Option Json
nth i nil = none
nth zero (cons v xs) = some v
nth (suc i) (cons v xs) = nth i xs

-- A value without what it contains.
abbrev pub outline : Json → Json
outline (array xs) = array nil
outline (object fs) = object end
outline v = v

-- The outline at the end of a path.
unfoldable pub find : List Step → Option Json → Option Json
find steps none = none
find [] (some v) = some (outline v)
find (key k ∷ steps) (some (object fs)) = find steps (get k fs)
find (key k ∷ steps) (some v) = none
find (item i ∷ steps) (some (array xs)) = find steps (nth i xs)
find (item i ∷ steps) (some v) = none

module _ (is_dropped : String → Bool) where
  -- The path goes through a key that is to be dropped.
  abbrev pub is_hidden : List Step → Bool
  is_hidden [] = false
  is_hidden (key k ∷ steps) = is_dropped k || is_hidden steps
  is_hidden (item i ∷ steps) = is_hidden steps

  nth-redact :
      (i : ℕ) (xs : Items)
      → nth i (redact_items is_dropped xs) ≡ Option.map (redact is_dropped) (nth i xs)
  unfolding redact
  nth-redact i nil = refl
  nth-redact zero (cons v xs) = refl
  nth-redact (suc i) (cons v xs) = nth-redact i xs

  find-none : (steps : List Step) → find steps none ≡ none
  unfolding find
  find-none [] = refl
  find-none (s ∷ steps) = refl

  hide : (b : Bool) → ◌≡◌ {A = Option Json} none (if b then none else none)
  hide true = refl
  hide false = refl

  under :
      (b : Bool) (steps : List Step) (o r : Option Json)
      → find steps r ≡ (if is_hidden steps then none else find steps o)
      → find steps (if b then none else r) ≡ (if b || is_hidden steps then none else find steps o)
  under true steps o r h = find-none steps
  under false steps o r h = h

  found :
      (steps : List Step) (o : Option Json)
      → find steps (Option.map (redact is_dropped) o)
        ≡ (if is_hidden steps then none else find steps o)
  unfolding find redact
  found [] none = refl
  found (s ∷ steps) none = hide (is_hidden (s ∷ steps))
  found [] (some (array xs)) = refl
  found [] (some (object fs)) = refl
  found [] (some null) = refl
  found [] (some (boolean b)) = refl
  found [] (some (number n)) = refl
  found [] (some (text s)) = refl
  found (key k ∷ steps) (some (object fs)) =
      let rest = found steps (get k fs) in
      let seen = λ (o : Option Json).
        find steps o ≡ (if is_dropped k || is_hidden steps then none else find steps (get k fs)) in
      subst seen (sym (get-redact_fields is_dropped k fs))
        (under (is_dropped k) steps (get k fs) (Option.map (redact is_dropped) (get k fs)) rest)
  found (key k ∷ steps) (some (array xs)) = hide (is_hidden (key k ∷ steps))
  found (key k ∷ steps) (some null) = hide (is_hidden (key k ∷ steps))
  found (key k ∷ steps) (some (boolean b)) = hide (is_hidden (key k ∷ steps))
  found (key k ∷ steps) (some (number n)) = hide (is_hidden (key k ∷ steps))
  found (key k ∷ steps) (some (text s)) = hide (is_hidden (key k ∷ steps))
  found (item i ∷ steps) (some (array xs)) = rw (find, nth-redact i xs) (found steps (nth i xs))
  found (item i ∷ steps) (some (object fs)) = hide (is_hidden steps)
  found (item i ∷ steps) (some null) = hide (is_hidden steps)
  found (item i ∷ steps) (some (boolean b)) = hide (is_hidden steps)
  found (item i ∷ steps) (some (number n)) = hide (is_hidden steps)
  found (item i ∷ steps) (some (text s)) = hide (is_hidden steps)

-- Redaction hides what stands under a key that is to be dropped, and nothing else: at the end of a path of
-- keys and positions through a redacted value there is nothing where a key of the path is to be dropped,
-- and else what was there, which is the same number, text, truth value or null, or an array or an object.
pub find-redact :
    (is_dropped : String → Bool) (steps : List Step) (v : Json)
    → find steps (some (redact is_dropped v))
      ≡ (if is_hidden is_dropped steps then none else find steps (some v))
find-redact is_dropped steps v = found is_dropped steps (some v)
