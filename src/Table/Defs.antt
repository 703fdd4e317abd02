-- ===== src/Table/Defs.antt =====
-- SELECT, INSERT, UPDATE and DELETE over one table, with a Boolean test for the WHERE clause.
use anvil_events.Base.{ℕ, suc, Bool, Option, none, some, List, [], ◌∷◌, ◌++◌, if◌then◌else◌}

module _ {ℓ} {A : Type ℓ} where
  -- SELECT ... WHERE p, then fetchone()
  unfoldable pub select : (A → Bool) → List A → Option A
  select p [] = none
  select p (r ∷ t) = if p r then some r else select p t

  -- SELECT ... WHERE p, then fetchall()
  unfoldable pub select_all : (A → Bool) → List A → List A
  select_all p [] = []
  select_all p (r ∷ t) = let rest = select_all p t in if p r then r ∷ rest else rest

  -- UPDATE ... SET f WHERE p
  unfoldable pub update : (A → Bool) → (A → A) → List A → List A
  update p f [] = []
  update p f (r ∷ t) = (if p r then f r else r) ∷ update p f t

  -- DELETE ... WHERE p
  unfoldable pub delete : (A → Bool) → List A → List A
  delete p [] = []
  delete p (r ∷ t) = let rest = delete p t in if p r then rest else r ∷ rest

  -- SELECT COUNT(*) ... WHERE p, and the rowcount of an UPDATE with that test
  unfoldable pub count : (A → Bool) → List A → ℕ
  count p [] = 0
  count p (r ∷ t) = if p r then suc (count p t) else count p t

  -- INSERT
  abbrev pub insert : A → List A → List A
  insert r t = t ++ r ∷ []
