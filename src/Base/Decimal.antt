-- ===== src/Base/Decimal.antt =====
-- `ToString` of an unsigned number: its decimal digits, and that they tell numbers apart.
use Prim.Native.Nat.{ℕ, zero, suc, ◌+◌, ◌*◌, ◌/◌, ◌%◌, ◌≤◌}
use mathlib.Core.Path.{◌≡◌, sym, ap, ◌∙◌}
use mathlib.Core.List.{[], ◌∷◌, reverse, reverse-reverse}
use native.Mathlib.Omega.{arith}
use neon_rs.Base.Tests.{ltb, if◌then◌else◌}
use neon_rs.Base.Text.{Text}

-- The digits of `n`, the last one first; `n` is fuel enough.
digits : ℕ → ℕ → Text
digits zero n = (b'0' + n % 10) ∷ []
digits (suc fuel) n =
    let rest = digits fuel (n / 10) in
    if ltb n 10 then (b'0' + n % 10) ∷ [] else (b'0' + n % 10) ∷ rest

unfoldable pub to_decimal : ℕ → Text
unfolding digits
to_decimal n = reverse (digits n n)

value : Text → ℕ
value [] = 0
value (c ∷ cs) = c % 48 + 10 * value cs

value-digits : (fuel n : ℕ) → n ≤ fuel → value (digits fuel n) ≡ n
unfolding digits value
value-digits zero n h = omega arith
value-digits (suc fuel) n h = ground (arith, value-digits fuel (n / 10))

pub to_decimal_injective : (m n : ℕ) → to_decimal m ≡ to_decimal n → m ≡ n
unfolding to_decimal
to_decimal_injective m n e =
    let d : digits m m ≡ digits n n =
      sym (reverse-reverse (digits m m)) ∙ ap reverse e ∙ reverse-reverse (digits n n) in
    sym (value-digits m m (omega arith)) ∙ ap value d ∙ value-digits n n (omega arith)
