-- ===== src/Base/Texts.antt =====
-- Text that the source slices.
use Prim.Native.Nat.{ℕ, zero, suc}
use Prim.Native.String.{String}

-- s[:n]
abbrev pub clip : ℕ → String → String
clip zero s = String.[]
clip (suc n) String.[] = String.[]
clip (suc n) (String.◌∷◌ c s) = String.◌∷◌ c (clip n s)
