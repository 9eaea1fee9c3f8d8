-- ===== src/Crypto/Padding/Blocks.antt =====
-- Arithmetic of whole blocks, and the scan of the last one.
use neon_rs.Base.{
  ℕ, zero, suc, ◌+◌, ◌-◌, ◌*◌, ◌/◌, ◌%◌, ◌≤◌, ◌<◌, ◌≡◌, refl, ap, ◌∙◌, false, some, [], ◌∷◌, ◌++◌,
  arith, ◌==◌, ==_iff, length, get_elem?, drop, replicate,
}
use native.Mathlib.Nat.{div-add-mod, mul-mod_right, mul-add-mod_self_left, mod-eq_of_lt, mod-lt}
use neon_rs.Crypto.Padding.{Bytes, scan}

pub padded-mod : (n m : ℕ) → 0 < m → (n + (m - n % m)) % m ≡ 0
padded-mod n m h =
    let d = div-add-mod n m in
    let l = mod-lt n h in
    let e : n + (m - n % m) ≡ m * (n / m + 1) = grind (arith, d, l) in
    ap (λ k. k % m) e ∙ mul-mod_right m (n / m + 1)

-- One block less the padding, counted from `k` blocks before it.
block-mod : (m k p : ℕ) → 1 ≤ p → p ≤ m → m - (m * k + (m - p)) % m ≡ p
block-mod m k p lo hi =
    let e : (m * k + (m - p)) % m ≡ m - p =
      mul-add-mod_self_left m k (m - p) ∙ mod-eq_of_lt (omega arith) in
    omega (arith, e)

pub unpadded-mod : (m n p : ℕ) → n % m ≡ 0 → 1 ≤ p → p ≤ m → p ≤ n → m - (n - p) % m ≡ p
unpadded-mod m n p z lo hi le = by_blocks (n / m) (div-add-mod n m)
  where
    by_blocks : (q : ℕ) → m * q + n % m ≡ n → m - (n - p) % m ≡ p
    by_blocks zero e = absurd (grind arith)
    by_blocks (suc k) e =
        let f : n - p ≡ m * k + (m - p) = grind (arith, e, z) in
        ap (λ x. m - x % m) f ∙ block-mod m k p lo hi

pub scan-drop :
    (last pad_len m i k : ℕ) (bs : Bytes)
    → k ≡ m - pad_len - i
    → scan last pad_len m i bs ≡ false
    → drop k bs ≡ replicate (length bs - k) last
unfolding scan
scan-drop last pad_len m i zero [] e h = refl
scan-drop last pad_len m i (suc k) [] e h = ground arith
scan-drop last pad_len m i zero (b ∷ bs) e h =
    let ih = scan-drop last pad_len m (suc i) zero bs (omega arith) (ground arith) in
    let same : b ≡ last = ground arith in ground (arith, ih, same)
scan-drop last pad_len m i (suc k) (b ∷ bs) e h =
    let z : suc (length bs) - suc k ≡ length bs - k = omega arith in
    rw z (scan-drop last pad_len m (suc i) k bs (omega arith) (ground arith))

replicate-head :
    (n a b : ℕ) (bs : Bytes) → b ∷ bs ≡ replicate n a → (b ≡ a) × (bs ≡ replicate (n - 1) a)
replicate-head zero a b bs e = cc
replicate-head (suc n) a b bs e = ground (arith)

pub scan_padding :
    (last pad_len m i k n : ℕ) (bs : Bytes)
    → k ≡ m - pad_len - i
    → drop k bs ≡ replicate n last
    → scan last pad_len m i bs ≡ false
unfolding scan
scan_padding last pad_len m i k n [] e h = refl
scan_padding last pad_len m i zero n (b ∷ bs) e h =
    let (same, rest) = replicate-head n last b bs h in
    let ih = scan_padding last pad_len m (suc i) zero (n - 1) bs (omega arith) rest in
    ground (arith, ih, (==_iff b last).1 same)
scan_padding last pad_len m i (suc k) n (b ∷ bs) e h =
    let ih = scan_padding last pad_len m (suc i) k n bs (omega arith) h in ground (arith, ih)

pub replicate-last :
    (xs : Bytes) (n a i : ℕ)
    → 1 ≤ n
    → i + 1 ≡ length xs + n
    → get_elem? (xs ++ replicate n a) i ≡ some a
replicate-last xs zero a i h e = absurd (omega arith)
replicate-last [] (suc n) a zero h e = refl
replicate-last [] (suc n) a (suc i) h e = replicate-last [] n a i (omega arith) (omega arith)
replicate-last (x ∷ xs) (suc n) a zero h e = absurd (omega arith)
replicate-last (x ∷ xs) (suc n) a (suc i) h e = replicate-last xs (suc n) a i h (omega arith)

pub drop-drop : (m n k : ℕ) (xs : Bytes) → k ≡ n + m → drop m (drop n xs) ≡ drop k xs
drop-drop m zero k xs e = ap (λ j. drop j xs) (omega arith)
drop-drop zero (suc n) zero [] e = refl
drop-drop zero (suc n) (suc k) [] e = refl
drop-drop (suc m) (suc n) zero [] e = refl
drop-drop (suc m) (suc n) (suc k) [] e = refl
drop-drop m (suc n) zero (x ∷ xs) e = absurd (omega arith)
drop-drop m (suc n) (suc k) (x ∷ xs) e = drop-drop m n k xs (omega arith)

pub whole-fits : (n m : ℕ) → 1 ≤ m → n % m ≡ 0 → (n == 0) ≡ false → m ≤ n
whole-fits n m h z e = by_blocks (n / m) (div-add-mod n m)
  where
    by_blocks : (q : ℕ) → m * q + n % m ≡ n → m ≤ n
    by_blocks zero f = absurd (grind arith)
    by_blocks (suc k) f = grind (arith, f, z)
