-- ===== src/Domain/Decimal.antt =====
-- f"{n:06d}": a number in decimal, with zeros up to six digits.
use Prim.Native.String.{◌++◌ as append}
use anvil_events.Base.{ℕ, zero, suc, ◌/◌, ◌%◌, String, ◌==◌, nat_eq, ltb, if◌then◌else◌, ◌≡◌, refl}

digit : ℕ → String
digit d =
    if d == 0
    then "0"
    else if d == 1
    then "1"
    else if d == 2
    then "2"
    else if d == 3
    then "3"
    else if d == 4
    then "4"
    else if d == 5
    then "5"
    else if d == 6
    then "6"
    else if d == 7
    then "7"
    else if d == 8
    then "8"
    else "9"

-- A number has fewer digits than the fuel, its successor.
digits : ℕ → ℕ → String
unfolding digit
digits zero n = ""
digits (suc fuel) n =
    let rest = digits fuel (n / 10) in if ltb n 10 then digit n else append rest (digit (n % 10))

unfoldable pub decimal : ℕ → String
unfolding digits
decimal n = digits (suc n) n

zeros : ℕ → String
zeros n =
    if ltb n 10
    then "00000"
    else if ltb n 100
    then "0000"
    else if ltb n 1000
    then "000"
    else if ltb n 10000
    then "00"
    else if ltb n 100000
    then "0"
    else ""

unfoldable pub six_digits : ℕ → String
unfolding zeros decimal
six_digits n = append (zeros n) (decimal n)

-- f"{producer}:{seq:06d}"
unfoldable pub event_id_of : String → ℕ → String
unfolding six_digits
event_id_of producer seq = append producer (append ":" (six_digits seq))

event_ids : (event_id_of "a:r" 17 ≡ "a:r:000017") × (event_id_of "a" 1234567 ≡ "a:1234567")
unfolding event_id_of
event_ids = (refl, refl)
