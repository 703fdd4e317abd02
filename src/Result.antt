-- ===== src/Result.antt =====
-- Python's exceptions by class, a result type for code that may raise, and the transactions of
-- storage/database.py.
use anvil_events.Base.{◌≡◌, refl, ◌⊎◌, inl, inr, Bool, true, false, String, Option, none, some}

-- ValueError, RuntimeError, OSError, TimeoutError, KeyError, sqlite3.IntegrityError, and the rest.
pub data Fault : Type 0 where
  value_error runtime_error os_error timeout key_error integrity_error other : String → Fault

-- str(exc)
abbrev pub message : Fault → String
message (value_error s) = s
message (runtime_error s) = s
message (os_error s) = s
message (timeout s) = s
message (key_error s) = s
message (integrity_error s) = s
message (other s) = s

pub data Result {ℓ} (A : Type ℓ) : Type ℓ where
  ok : A → Result A
  err : Fault → Result A

abbrev pub or_raise {ℓ} : {A : Type ℓ} → Option A → Fault → Result A
or_raise none e = err e
or_raise (some a) e = ok a

-- `if not b: raise e`
abbrev pub guard : Bool → Fault → Result (Unit {0})
guard true e = ok tt
guard false e = err e

infixl 5 ◌>>=◌ ◌>>◌
abbrev pub ◌>>=◌ {ℓ κ} : {A : Type ℓ} {B : Type κ} → Result A → (A → Result B) → Result B
err e >>= f = err e
ok a >>= f = f a

abbrev pub ◌>>◌ {κ} : {B : Type κ} → Result (Unit {0}) → Result B → Result B
first >> rest = first >>= λ _. rest

-- A transaction commits what its body wrote, or rolls it back where the body raises.
abbrev pub commit {ℓ} : {S A : Type ℓ} → S → Result (A × S) → Result A × S
commit s (ok (a, s')) = (ok a, s')
commit s (err e) = (err e, s)

unfoldable pub transaction {ℓ} : {S A : Type ℓ} → (S → Result (A × S)) → S → Result A × S
transaction body s = commit s (body s)

-- What holds of the state that a body hands to its transaction.
abbrev pub Writes {ℓ κ} : {S : Type ℓ} {A : Type ℓ} → (S → Type κ) → Result (A × S) → Type κ
Writes P (ok (a, s)) = P s
Writes P (err e) = Unit

-- A transaction keeps what its body keeps: where the body raises, nothing has changed.
pub transaction-Writes {ℓ κ} :
    {S A : Type ℓ} (P : S → Type κ) (body : S → Result (A × S)) (s : S)
    → P s
    → Writes P (body s)
    → P (transaction body s).1
unfolding transaction
transaction-Writes {S} {A} P body s h w = settle (body s) w
  where
    settle : (r : Result (A × S)) → Writes P r → P (commit s r).1
    settle (ok (a, s')) w = w
    settle (err e) w = h

pub Result-cases {ℓ} :
    {A : Type ℓ} (r : Result A) → ((a : A) × (r ≡ ok a)) ⊎ ((e : Fault) × (r ≡ err e))
Result-cases (ok a) = inl (a, refl)
Result-cases (err e) = inr (e, refl)

-- A chain that returned: its first step did, and so did the rest.
pub guard-then {ℓ} :
    {B : Type ℓ} (b : Bool) (e : Fault) (k : Result B) {x : B}
    → (guard b e >> k) ≡ ok x
    → (b ≡ true) × (k ≡ ok x)
guard-then true e k h = (refl, h)
guard-then false e k h = absurd (cc)

pub ok-then {ℓ} :
    {B : Type ℓ} (m : Result (Unit {0})) (k : Result B) {x : B}
    → (m >> k) ≡ ok x
    → (m ≡ ok tt) × (k ≡ ok x)
ok-then (ok u) k h = (refl, h)
ok-then (err e) k h = absurd (cc)

pub or_raise-then {ℓ κ} :
    {A : Type ℓ} {B : Type κ} (o : Option A) (e : Fault) (f : A → Result B) {x : B}
    → (or_raise o e >>= f) ≡ ok x
    → (a : A) × (o ≡ some a) × (f a ≡ ok x)
or_raise-then none e f h = absurd (cc)
or_raise-then (some a) e f h = (a, refl, h)

pub guard-ok : (b : Bool) (e : Fault) → guard b e ≡ ok tt → b ≡ true
guard-ok true e h = refl
guard-ok false e h = absurd (cc)

-- What the rest of a chain writes, whatever its first step returned.
pub Writes-bind {ℓ κ} :
    {S A B : Type ℓ} (P : S → Type κ) (m : Result A) (f : A → Result (B × S))
    → ((a : A) → m ≡ ok a → Writes P (f a))
    → Writes P (m >>= f)
Writes-bind P (ok a) f h = h a refl
Writes-bind P (err e) f h = tt

pub bind-then {ℓ κ} :
    {A : Type ℓ} {B : Type κ} (m : Result A) (f : A → Result B) {x : B}
    → (m >>= f) ≡ ok x
    → (a : A) × (m ≡ ok a) × (f a ≡ ok x)
bind-then (ok a) f h = (a, refl, h)
bind-then (err e) f h = absurd (cc)

-- What a transaction leaves, by what its body returns.
pub Writes-intro {ℓ κ} :
    {S A : Type ℓ} (P : S → Type κ) (r : Result (A × S))
    → ((a : A) (s : S) → r ≡ ok (a, s) → P s)
    → Writes P r
Writes-intro P (ok (a, s)) h = h a s refl
Writes-intro P (err e) h = tt

-- A transaction that returned: its body did, and its writes are there.
pub transaction-ok {ℓ} :
    {S A : Type ℓ} (body : S → Result (A × S)) (s : S) {a : A} {s' : S}
    → transaction body s ≡ (ok a, s')
    → body s ≡ ok (a, s')
unfolding transaction
transaction-ok {S} {A} body s {a} {s'} h = settle (body s) h
  where
    settle : (r : Result (A × S)) → commit s r ≡ (ok a, s') → r ≡ ok (a, s')
    settle (ok (b, t)) e = cc
    settle (err x) e = absurd (cc)
