-- ===== src/Transport/Reader/Digits.antt =====
-- Numbers as decimal digits, as the server writes them.
use anvil_events.Base.{
  ℕ, zero, suc, ◌+◌, ◌-◌, ◌*◌, ◌/◌, ◌%◌, ◌≤◌, ◌<◌, Bool, true, false, ◌&&◌, List, [], ◌∷◌, ◌++◌,
  ◌≡◌, refl, ◌==◌, nat_eq, ltb, if◌then◌else◌, length, length-append, arith, All, All-append, all,
  Bool-cases, inl, inr,
}
use anvil_events.Result.{ok}
use anvil_events.Domain.Patterns.{is_digit}
use anvil_events.Transport.Reader.{parse_uint, value_of, is_empty, max_digits}

unfoldable pub ten_to : ℕ → ℕ
ten_to zero = 1
ten_to (suc k) = 10 * ten_to k

-- The digits of a number that has at most so many of them and one.
unfoldable pub digits : ℕ → ℕ → List ℕ
digits zero n = (b'0' + n) ∷ []
digits (suc k) n =
    let rest = digits k (n / 10) in
    if ltb n 10 then (b'0' + n) ∷ [] else rest ++ (b'0' + n % 10) ∷ []

abbrev pub IsDigits : List ℕ → Type 0
IsDigits = All (λ c. is_digit c ≡ true)

is_digit_of : (n : ℕ) → n < 10 → is_digit (b'0' + n) ≡ true
unfolding is_digit
is_digit_of n h = ground (arith, h)

pub digits-IsDigits : (k n : ℕ) → n < 10 * ten_to k → IsDigits (digits k n)
unfolding digits ten_to
digits-IsDigits zero n h = (is_digit_of n (omega (arith, h)), tt)
digits-IsDigits (suc k) n h = elim (Bool-cases (ltb n 10)) [
  | inl e ↦ rw e (is_digit_of n (ground (arith, e)), tt)
  | inr e ↦ rw e (
      All-append (λ c. is_digit c ≡ true) (digits k (n / 10)) ((b'0' + n % 10) ∷ [])
        (digits-IsDigits k (n / 10) (omega (arith, h))) (is_digit_of (n % 10) (omega arith), tt))
]

value_of-append : (a : ℕ) (xs ys : List ℕ) → value_of a (xs ++ ys) ≡ value_of (value_of a xs) ys
value_of-append a [] ys = refl
value_of-append a (x ∷ xs) ys = value_of-append (10 * a + (x - b'0')) xs ys

pub value_of-digits : (k n : ℕ) → n < 10 * ten_to k → value_of 0 (digits k n) ≡ n
unfolding digits ten_to
value_of-digits zero n h = omega arith
value_of-digits (suc k) n h = elim (Bool-cases (ltb n 10)) [
  | inl e ↦ rw e (omega arith)
  | inr e ↦
      let ih = value_of-digits k (n / 10) (omega (arith, h)) in
      rw (e, value_of-append 0 (digits k (n / 10)) ((b'0' + n % 10) ∷ []), ih) (omega arith)
]

pub length-digits : (k n : ℕ) → length (digits k n) ≤ k + 1
unfolding digits
length-digits zero n = omega arith
length-digits (suc k) n = elim (Bool-cases (ltb n 10)) [
  | inl e ↦ rw e (omega arith)
  | inr e ↦ rw e (
      omega
        (arith, length-digits k (n / 10), length-append (digits k (n / 10)) ((b'0' + n % 10) ∷ [])))
]

digits_not_empty : (k n : ℕ) → is_empty (digits k n) ≡ false
unfolding digits
digits_not_empty zero n = refl
digits_not_empty (suc k) n = elim (Bool-cases (ltb n 10)) [
  | inl e ↦ rw e refl
  | inr e ↦ rw e (not_empty (digits k (n / 10)) (b'0' + n % 10))
]
  where
    not_empty : (s : List ℕ) (c : ℕ) → is_empty (s ++ c ∷ []) ≡ false
    not_empty [] c = refl
    not_empty (d ∷ s) c = refl

all_digits : (s : List ℕ) → IsDigits s → all is_digit s ≡ true
all_digits [] h = refl
all_digits (c ∷ s) h = rw (h.0, all_digits s h.1) refl

-- A number is read back from its digits, unless it is 0 where a positive one is wanted.
pub parse_uint-digits :
    (positive : Bool) (k n : ℕ)
    → k < max_digits
    → n < 10 * ten_to k
    → (positive && n == 0) ≡ false
    → parse_uint positive (digits k n) ≡ ok n
unfolding parse_uint
parse_uint-digits positive k n few h p =
    let short : ltb max_digits (length (digits k n)) ≡ false =
      ground (arith, few, length-digits k n) in
    rw
      (
        digits_not_empty k n,
        all_digits (digits k n) (digits-IsDigits k n h),
        short,
        value_of-digits k n h,
        p,
      )
      refl
