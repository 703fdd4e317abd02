-- ===== src/Table/Laws.antt =====
-- How the statements act on what a later SELECT finds.
use mathlib.Core.Option
use anvil_events.Base.{
  Bool, true, false, none, some, List, [], ◌∷◌, ◌≡◌, refl, arith, subst, if◌then◌else◌, is_some,
  or_else, All, length, Bool-cases, inl, inr, ◌⊎◌,
}
use anvil_events.Table.Defs.{select, update, delete, count, insert}

module _ {ℓ} {A : Type ℓ} where
  -- An UPDATE that leaves the test of the SELECT alone changes the row that is found, if it fits.
  pub select-update :
      (q p : A → Bool) (f : A → A)
      → ((r : A) → q (f r) ≡ q r)
      → (t : List A)
      → select q (update p f t) ≡ Option.map (λ r. if p r then f r else r) (select q t)
  unfolding select update
  select-update q p f h [] = refl
  select-update q p f h (r ∷ t) = ground (arith, h r, select-update q p f h t)

  pub select-insert :
      (q : A → Bool) (r : A) (t : List A)
      → select q (insert r t) ≡ or_else (select q t) (if q r then some r else none)
  unfolding select
  select-insert q r [] = refl
  select-insert q r (s ∷ t) = ground (arith, select-insert q r t)

  -- An UPDATE of rows that the SELECT does not look for, before it and after it.
  pub select-update_other :
      (q p : A → Bool) (f : A → A)
      → ((r : A) → q (f r) ≡ q r)
      → ((r : A) → q r ≡ true → p r ≡ false)
      → (t : List A) → select q (update p f t) ≡ select q t
  unfolding select update
  select-update_other q p f h k [] = refl
  select-update_other q p f h k (r ∷ t) = ground (arith, h r, k r, select-update_other q p f h k t)

  -- A DELETE whose rows the SELECT does not look for.
  pub select-delete_other :
      (q p : A → Bool)
      → ((r : A) → q r ≡ true → p r ≡ false)
      → (t : List A) → select q (delete p t) ≡ select q t
  unfolding select delete
  select-delete_other q p h [] = refl
  select-delete_other q p h (r ∷ t) = ground (arith, h r, select-delete_other q p h t)

  pub select-delete_self : (p : A → Bool) (t : List A) → select p (delete p t) ≡ none
  unfolding select delete
  select-delete_self p [] = refl
  select-delete_self p (r ∷ t) = ground (arith, select-delete_self p t)

  pub select-delete-none :
      (q p : A → Bool) (t : List A) → select q t ≡ none → select q (delete p t) ≡ none
  unfolding select delete
  select-delete-none q p [] h = refl
  select-delete-none q p (r ∷ t) h = ground (arith, select-delete-none q p t)

  -- Whether there is such a row does not change by an UPDATE that leaves the test alone.
  pub is_some-select-update :
      (q p : A → Bool) (f : A → A)
      → ((r : A) → q (f r) ≡ q r)
      → (t : List A) → is_some (select q (update p f t)) ≡ is_some (select q t)
  unfolding select update
  is_some-select-update q p f h [] = refl
  is_some-select-update q p f h (r ∷ t) = ground (arith, h r, is_some-select-update q p f h t)

  pub is_some-select-insert :
      (q : A → Bool) (r : A) (t : List A)
      → is_some (select q t) ≡ true
      → is_some (select q (insert r t)) ≡ true
  unfolding select
  is_some-select-insert q r [] h = cc
  is_some-select-insert q r (s ∷ t) h = ground (arith, is_some-select-insert q r t)

  -- The row that is found fits the test.
  pub select_fits : (p : A → Bool) (t : List A) {r : A} → select p t ≡ some r → p r ≡ true
  unfolding select
  select_fits p [] h = cc
  select_fits p (s ∷ t) {r} h = ground (arith, select_fits p t {r = r})

  pub count-select : (p : A → Bool) (t : List A) → (count p t ≡ 0) ⊎ (is_some (select p t) ≡ true)
  unfolding select count
  count-select p [] = inl refl
  count-select p (r ∷ t) = ground (arith, count-select p t)

  pub select-none-count : (p : A → Bool) (t : List A) → select p t ≡ none → count p t ≡ 0
  unfolding select count
  select-none-count p [] h = refl
  select-none-count p (r ∷ t) h = ground (arith, select-none-count p t)

  pub length-update : (p : A → Bool) (f : A → A) (t : List A) → length (update p f t) ≡ length t
  unfolding update
  length-update p f [] = refl
  length-update p f (r ∷ t) = ground (arith, length-update p f t)

module _ {ℓ κ} {A : Type ℓ} (P : A → Type κ) where
  pub All-update :
      (p : A → Bool) (f : A → A)
      → ((r : A) → p r ≡ true → P r → P (f r))
      → (t : List A) → All P t
      → All P (update p f t)
  unfolding update
  All-update p f h [] a = tt
  All-update p f h (r ∷ t) a = elim (Bool-cases (p r)) [
    | inl e ↦ (rw e (h r e a.0), All-update p f h t a.1)
    | inr e ↦ (rw e a.0, All-update p f h t a.1)
  ]

  -- An UPDATE that makes a predicate hold, of rows that have it otherwise.
  pub All-update_every :
      (p : A → Bool) (f : A → A)
      → ((r : A) → p r ≡ true → P (f r))
      → ((r : A) → p r ≡ false → P r)
      → (t : List A) → All P (update p f t)
  unfolding update
  All-update_every p f h k [] = tt
  All-update_every p f h k (r ∷ t) = elim (Bool-cases (p r)) [
    | inl e ↦ (rw e (h r e), All-update_every p f h k t)
    | inr e ↦ (rw e (k r e), All-update_every p f h k t)
  ]

  pub All-delete : (p : A → Bool) (t : List A) → All P t → All P (delete p t)
  unfolding delete
  All-delete p [] a = tt
  All-delete p (r ∷ t) a = elim (Bool-cases (p r)) [
    | inl e ↦ rw e (All-delete p t a.1)
    | inr e ↦ rw e (a.0, All-delete p t a.1)
  ]

  pub All-select : (p : A → Bool) (t : List A) {r : A} → All P t → select p t ≡ some r → P r
  unfolding select
  All-select p [] a h = absurd (cc)
  All-select p (s ∷ t) {r} a h = elim (Bool-cases (p s)) [
    | inl e ↦ subst P (ground arith) a.0
    | inr e ↦ All-select p t a.1 (ground arith)
  ]
