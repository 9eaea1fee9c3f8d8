-- ===== src/Base/Order.antt =====
-- The order of `str`: by code points, which is the order of the bytes in UTF-8.
use mathlib.Core.Path.{◌≡◌, refl}
use mathlib.Core.Bool.{Bool, true, false}
use mathlib.Core.List.{[], ◌∷◌}
use native.Mathlib.Omega.{arith}
use neon_rs.Base.Tests.{ltb, ◌==◌, if◌then◌else◌}
use neon_rs.Base.Text.{Text}

abbrev pub before : Text → Text → Bool
before [] [] = false
before [] (y ∷ ys) = true
before (x ∷ xs) [] = false
before (x ∷ xs) (y ∷ ys) = if x == y then before xs ys else ltb x y

pub before_irrefl : (a : Text) → before a a ≡ false
before_irrefl [] = refl
before_irrefl (x ∷ a) = ground (arith, before_irrefl a)

pub before_trans : (a b c : Text) → before a b ≡ true → before b c ≡ true → before a c ≡ true
before_trans [] [] [] h k = h
before_trans [] (y ∷ b) [] h k = k
before_trans [] b (z ∷ c) h k = refl
before_trans (x ∷ a) [] c h k = cc
before_trans (x ∷ a) (y ∷ b) [] h k = cc
before_trans (x ∷ a) (y ∷ b) (z ∷ c) h k = ground (arith, before_trans a b c)

pub before_total : (a b : Text) → before a b ≡ false → before b a ≡ false → a ≡ b
before_total [] [] h k = refl
before_total [] (y ∷ b) h k = cc
before_total (x ∷ a) [] h k = cc
before_total (x ∷ a) (y ∷ b) h k = ground (arith, before_total a b)
