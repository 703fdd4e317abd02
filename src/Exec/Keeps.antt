-- ===== src/Exec/Keeps.antt =====
-- What a method keeps of the world, and what it returns: one rule for each way to build a method.
use anvil_events.Base.{◌≡◌, refl, Bool, true, false, if◌then◌else◌}
use anvil_events.Result.{Fault, Result, ok, err}
use anvil_events.Exec.{Exec, pure, raise, attempt, continue, ◌>>=◌}

-- `m` keeps `P`, whether it returns or raises.
pub record Keeps {ℓ} {W A : Type ℓ} (P : W → Type ℓ) (m : Exec W A) : Type ℓ where
  pub at : (s : W) → P s → P (m s).1

module _ {ℓ} {W A : Type ℓ} {P : W → Type ℓ} where
  pub Keeps-raise : (e : Fault) → Keeps P (raise {A = A} e)
  unfolding raise
  Keeps-raise e = record { at = λ s h. h }

  pub Keeps-pure : (a : A) → Keeps P (pure a)
  unfolding pure
  Keeps-pure a = record { at = λ s h. h }

  pub Keeps-attempt : (m : Exec W A) → Keeps P m → Keeps P (attempt m)
  unfolding attempt
  Keeps-attempt m k = record { at = k.at }

  -- Each branch may use its test.
  pub Keeps-if :
      (b : Bool) (yes_m no_m : Exec W A)
      → (b ≡ true → Keeps P yes_m)
      → (b ≡ false → Keeps P no_m)
      → Keeps P (if b then yes_m else no_m)
  Keeps-if true m n km kn = km refl
  Keeps-if false m n km kn = kn refl

module _ {ℓ} {W A B : Type ℓ} {P : W → Type ℓ} where
  Keeps-continue :
      (r : Result A) (f : A → Exec W B) → ((a : A) → Keeps P (f a)) → Keeps P (continue r f)
  Keeps-continue (ok a) f k = k a
  Keeps-continue (err e) f k = record { at = λ s h. h }

  pub Keeps-bind :
      (m : Exec W A) (f : A → Exec W B) → Keeps P m → ((a : A) → Keeps P (f a)) → Keeps P (m >>= f)
  unfolding ◌>>=◌
  Keeps-bind m f km kf = record { at = λ s h. (Keeps-continue (m s).0 f kf).at (m s).1 (km.at s h) }

pub ruleset keeps_rules = (Keeps-pure, Keeps-raise, Keeps-attempt, Keeps-if, Keeps-bind)

-- A statement of what a method returned, and left.
abbrev pub Post {ℓ} : {S A : Type ℓ} → (A → S → Type ℓ) → Result A × S → Type ℓ
Post Q (ok a, s) = Q a s
Post Q (err e, s) = Unit

pub Post-intro {ℓ} :
    {S A : Type ℓ} {Q : A → S → Type ℓ} (r : Result A × S)
    → ((a : A) (s : S) → r ≡ (ok a, s) → Q a s)
    → Post Q r
Post-intro (ok a, s) h = h a s refl
Post-intro (err e, s) h = tt

-- From a world with `P`, what `m` returns and leaves has `Q`.
pub record Returns {ℓ} {S A : Type ℓ} (P : S → Type ℓ) (m : Exec S A) (Q : A → S → Type ℓ)
    : Type ℓ where
  pub at : (s : S) → P s → Post Q (m s)

module _ {ℓ} {S A : Type ℓ} {P : S → Type ℓ} {Q : A → S → Type ℓ} where
  pub Returns-pure : (a : A) → ((s : S) → P s → Q a s) → Returns P (pure a) Q
  unfolding pure
  Returns-pure a h = record { at = h }

  pub Returns-raise : (e : Fault) → Returns P (raise e) Q
  unfolding raise
  Returns-raise e = record { at = λ s h. tt }

  pub Returns-if :
      (b : Bool) (m n : Exec S A)
      → (b ≡ true → Returns P m Q)
      → (b ≡ false → Returns P n Q)
      → Returns P (if b then m else n) Q
  Returns-if true m n hm hn = hm refl
  Returns-if false m n hm hn = hn refl

  -- Nothing need be known of the world before.
  pub Returns-any : (m : Exec S A) → Returns (λ s. Unit) m Q → Returns P m Q
  Returns-any m h = record { at = λ s p. h.at s tt }

module _ {ℓ} {S A : Type ℓ} (P : S → Type ℓ) where
  Post-kept : (r : Result A) (s : S) → P s → Post (λ a. P) (r, s)
  Post-kept (ok a) s h = h
  Post-kept (err e) s h = tt

module _ {ℓ} {S A : Type ℓ} {P : S → Type ℓ} where
  pub Returns-attempt : (m : Exec S A) → Keeps P m → Returns P (attempt m) (λ r. P)
  unfolding attempt
  Returns-attempt m k = record { at = k.at }

  pub Returns-keeps : (m : Exec S A) → Keeps P m → Returns P m (λ a. P)
  Returns-keeps m k = record { at = λ s h. Post-kept P (m s).0 (m s).1 (k.at s h) }

module _ {ℓ} {S A B : Type ℓ} {R : A → S → Type ℓ} {Q : B → S → Type ℓ} where
  Post-continue :
      (r : Result A) (s : S) (f : A → Exec S B)
      → Post R (r, s)
      → ((a : A) → Returns (R a) (f a) Q)
      → Post Q (continue r f s)
  Post-continue (ok a) s f h k = (k a).at s h
  Post-continue (err e) s f h k = tt

module _ {ℓ} {S A B : Type ℓ} {P : S → Type ℓ} {R : A → S → Type ℓ} {Q : B → S → Type ℓ} where
  pub Returns-bind :
      (m : Exec S A) (f : A → Exec S B)
      → Returns P m R
      → ((a : A) → Returns (R a) (f a) Q)
      → Returns P (m >>= f) Q
  unfolding ◌>>=◌
  Returns-bind m f hm hf = record { at = λ s h. Post-continue (m s).0 (m s).1 f (hm.at s h) hf }

module _ {ℓ} {S A : Type ℓ} where
  Post-trivial : (r : Result A) (s : S) → Post (λ a s. Unit {ℓ}) (r, s)
  Post-trivial (ok a) s = tt
  Post-trivial (err e) s = tt

module _ {ℓ} {S A B : Type ℓ} {P : S → Type ℓ} {Q : B → S → Type ℓ} where
  -- A first step of which nothing need be known.
  pub Returns-then :
      (m : Exec S A) (f : A → Exec S B)
      → ((a : A) → Returns (λ s. Unit {ℓ}) (f a) Q)
      → Returns P (m >>= f) Q
  Returns-then m f h =
      Returns-bind {R = λ a s. Unit {ℓ}} m f (record { at = λ s p. Post-trivial (m s).0 (m s).1 }) h
