-- ===== src/Base/Result.antt =====
-- Results with an error, and their chains.
use mathlib.Core.Path.{◌≡◌, refl}
use mathlib.Core.Logic.{◌⊎◌, inl, inr}
use mathlib.Core.Bool.{Bool, true, false}
use mathlib.Core.Option.{Option, none, some}

pub data Result {ℓ} (E A : Type ℓ) : Type ℓ where
  ok : A → Result E A
  err : E → Result E A

module _ {ℓ} {E A B : Type ℓ} where
  infixl 5 ◌>>=◌
  abbrev pub ◌>>=◌ : Result E A → (A → Result E B) → Result E B
  err x >>= rest = err x
  ok a >>= rest = rest a

  -- A chain that succeeds: its first part does, with a value from which the rest does.
  pub bind_ok :
      {out : B} (first : Result E A) (rest : A → Result E B)
      → first >>= rest ≡ ok out
      → (a : A) × (rest a ≡ ok out) × (first ≡ ok a)
  bind_ok (err x) rest h = cc
  bind_ok (ok a) rest h = (a, h, refl)

module _ {E A : Type 0} where
  infixl 5 ◌>>◌
  abbrev pub ◌>>◌ : Result E (Unit {0}) → Result E A → Result E A
  m >> k = m >>= λ _. k

  abbrev pub ok_or : Option A → E → Result E A
  ok_or none e = err e
  ok_or (some a) e = ok a

abbrev pub ensure : {E : Type 0} → Bool → E → Result E (Unit {0})
ensure true e = ok tt
ensure false e = err e

pub Result-cases :
    {E A : Type 0} (r : Result E A) → ((a : A) × (r ≡ ok a)) ⊎ ((e : E) × (r ≡ err e))
Result-cases (ok a) = inl (a, refl)
Result-cases (err e) = inr (e, refl)
