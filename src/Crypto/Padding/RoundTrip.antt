-- ===== src/Crypto/Padding/RoundTrip.antt =====
-- Unpadding accepts exactly what padding produces.
use neon_rs.Base.{
  ℕ, ◌+◌, ◌-◌, ◌%◌, ◌≤◌, ◌≡◌, refl, sym, ap, subst, ◌∙◌, true, false, not, Option, none, some, ◌++◌,
  min, max, arith, ltb, ◌==◌, inl, inr, Bool-cases, ◌&&◌, ◌||◌, length, length-append, length-take,
  length-drop, length-replicate, get_elem?, take, drop, replicate, take-append, drop-append,
  take-append-drop, ◌↔◌,
}
use native.Mathlib.Nat.{
  mod-eq_of_lt, mod-lt, mod-le, mod-eq-zero_of_dvd, dvd_of_mod-eq-zero, dvd_trans,
}
use neon_rs.Base.Result.{Result, ok}
use neon_rs.Crypto.Padding.{
  Bytes, CryptoError, block_size_ok, pkcs7_padding, pkcs7_unpadding, scan, unpad,
}
use neon_rs.Crypto.Padding.Blocks.{
  drop-drop, padded-mod, replicate-last, scan-drop, scan_padding, unpadded-mod, whole-fits,
}

ok_injective : {a b : Bytes} → Path (Result CryptoError Bytes) (ok a) (ok b) → a ≡ b
ok_injective e = cc

-- A buffer of whole blocks that ends in `pad` bytes of value `pad`.
record Padded (bytes : Bytes) (m pad : ℕ) : Type 0 where
  pub size_ok : block_size_ok m ≡ true
  pub whole : length bytes % m ≡ 0
  pub ends : get_elem? bytes (length bytes - 1) ≡ some pad
  pub pad_pos : 1 ≤ pad
  pub pad_le : pad ≤ m
  pub fits : m ≤ length bytes
  pub tail : drop (length bytes - pad) bytes ≡ replicate pad pad

Padded-unpadding :
    (bytes : Bytes) (m pad : ℕ)
    → Padded bytes m pad
    → pkcs7_unpadding bytes m ≡ ok (take (length bytes - pad) bytes)
unfolding pkcs7_unpadding unpad
Padded-unpadding bytes m pad p =
    let n = length bytes in
    let clean : scan pad pad m 0 (drop (n - m) bytes) ≡ false =
      scan_padding pad pad m 0 (m - pad) pad (drop (n - m) bytes) (omega arith)
        (drop-drop (m - pad) (n - m) (n - pad) bytes (omega (arith, p.fits, p.pad_le)) ∙ p.tail) in
    let z : min (max pad 1) m ≡ pad = omega (arith, p.pad_pos, p.pad_le) in
    rw (p.size_ok, p.ends, p.whole, z, clean) (ground (arith, p.pad_pos, p.pad_le, p.fits))

unpad-Padded :
    (bytes out : Bytes) (m : ℕ) (o : Option ℕ)
    → get_elem? bytes (length bytes - 1) ≡ o
    → block_size_ok m ≡ true
    → length bytes % m ≡ 0
    → m ≤ length bytes
    → unpad bytes m o ≡ ok out
    → (pad : ℕ) × Padded bytes m pad × (out ≡ take (length bytes - pad) bytes)
unfolding unpad
unpad-Padded bytes out m none f b z l e = cc
unpad-Padded bytes out m (some last) f b z l e =
    let n = length bytes in
    let bad = last == 0 || ltb m last || scan last (min (max last 1) m) m 0 (drop (n - m) bytes) in
    elim (Bool-cases bad) [
      | inl hit ↦ cc (rw hit at e)
      | inr miss ↦
          let range : (1 ≤ last) × (last ≤ m) = ground arith in
          let k : min (max last 1) m ≡ last = omega arith in
          let scanned : scan last (min (max last 1) m) m 0 (drop (n - m) bytes) ≡ false =
            ground arith in
          let clean : scan last last m 0 (drop (n - m) bytes) ≡ false = rw k at scanned in
          let tail = scan-drop last last m 0 (m - last) (drop (n - m) bytes) (omega arith) clean in
          let size : length (drop (n - m) bytes) - (m - last) ≡ last =
            omega (arith, length-drop (n - m) bytes) in
          (
            last,
            record {
              size_ok = b;
              whole = z;
              ends = f;
              pad_pos = range.0;
              pad_le = range.1;
              fits = l;
              tail =
                  sym (drop-drop (m - last) (n - m) (n - last) bytes (omega arith))
                  ∙ tail
                  ∙ ap (λ j. replicate j last) size;
            },
            ok_injective (sym (rw miss at e)),
          )
    ]

unpadding-Padded :
    (bytes out : Bytes) (m : ℕ)
    → pkcs7_unpadding bytes m ≡ ok out
    → (pad : ℕ) × Padded bytes m pad × (out ≡ take (length bytes - pad) bytes)
unfolding pkcs7_unpadding
unpadding-Padded bytes out m e = elim (Bool-cases (block_size_ok m)) [
  | inr miss ↦ cc (rw miss at e)
  | inl hit ↦
      let n = length bytes in
      let f = rw hit at e in
      elim (Bool-cases (n == 0 || not (n % m == 0))) [
        | inl bad ↦ cc (rw bad at f)
        | inr good ↦
            let z : n % m ≡ 0 = ground arith in
            unpad-Padded bytes out m (get_elem? bytes (n - 1)) refl hit z
              (whole-fits n m (ground arith) z (ground arith)) (rw good at f)
      ]
]

padding-Padded :
    (bytes : Bytes) (m : ℕ)
    → block_size_ok m ≡ true
    → let pad = m - length bytes % m in
      (pkcs7_padding bytes m ≡ ok (bytes ++ replicate pad pad))
      × Padded (bytes ++ replicate pad pad) m pad
unfolding pkcs7_padding
padding-Padded bytes m h =
    let n = length bytes in
    let range : (1 ≤ m) × (m ≤ 255) = ground arith in
    let below = mod-lt n {m = m} (omega arith) in
    let pad = m - n % m in
    let small : pad % 256 ≡ pad = mod-eq_of_lt (omega arith) in
    let size : length (bytes ++ replicate pad pad) ≡ n + pad =
      omega (arith, length-append bytes (replicate pad pad), length-replicate pad pad) in
    let whole = padded-mod n m (omega arith) in
    (
      rw (h, small) refl,
      record {
        size_ok = h;
        whole = rw size whole;
        ends = replicate-last bytes pad pad _ (omega arith) (omega (arith, size));
        pad_pos = omega arith;
        pad_le = omega arith;
        fits = omega (arith, size, mod-le n m);
        tail = drop-append bytes (replicate pad pad) _ (omega (arith, size));
      },
    )

refused :
    (bytes padded : Bytes) (m : ℕ)
    → block_size_ok m ≡ false
    → pkcs7_padding bytes m ≡ ok padded
    → pkcs7_unpadding padded m ≡ ok bytes
unfolding pkcs7_padding
refused bytes padded m bad e = cc (rw bad at e)

-- For every block size, unpadding a buffer yields these bytes exactly when padding these bytes
-- yields that buffer.
pub pkcs7_unpadding-pkcs7_padding :
    (bytes padded : Bytes) (block_size : ℕ)
    → (pkcs7_unpadding padded block_size ≡ ok bytes) ↔ (pkcs7_padding bytes block_size ≡ ok padded)
pkcs7_unpadding-pkcs7_padding bytes padded m = (there, back)
  where
    there : pkcs7_unpadding padded m ≡ ok bytes → pkcs7_padding bytes m ≡ ok padded
    there e =
        let (pad, p, o) = unpadding-Padded padded bytes m e in
        let size : length bytes ≡ length padded - pad =
          ap length o ∙ omega (arith, length-take (length padded - pad) padded) in
        let same : m - length bytes % m ≡ pad =
          ap (λ n. m - n % m) size
          ∙ unpadded-mod m (length padded) pad p.whole p.pad_pos p.pad_le
              (omega (arith, p.fits, p.pad_le)) in
        let made = (padding-Padded bytes m p.size_ok).0 in
        made
        ∙ ap ok (
            ap (λ j. bytes ++ replicate j j) same
            ∙ ap (λ xs. xs ++ replicate pad pad) o
            ∙ ap (λ ys. take (length padded - pad) padded ++ ys) (sym p.tail)
            ∙ take-append-drop (length padded - pad) padded)

    back : pkcs7_padding bytes m ≡ ok padded → pkcs7_unpadding padded m ≡ ok bytes
    back e = elim (Bool-cases (block_size_ok m)) [
      | inl fine ↦
          let pad = m - length bytes % m in
          let (made, p) = padding-Padded bytes m fine in
          let whole = bytes ++ replicate pad pad in
          let size : length whole - pad ≡ length bytes =
            omega (arith, length-append bytes (replicate pad pad), length-replicate pad pad) in
          subst (λ d. pkcs7_unpadding d m ≡ ok bytes) (ok_injective (sym made ∙ e))
            (Padded-unpadding whole m pad p
              ∙ ap ok (take-append bytes (replicate pad pad) (length whole - pad) size))
      | inr bad ↦ refused bytes padded m bad e
    ]

-- Padding to a multiple of 16 fills blocks of 16, too.
pub pkcs7_padding_fills :
    (bytes : Bytes) (n : ℕ)
    → (not (n == 0) && n % 16 == 0) ≡ true
    → n ≤ 255
    → (buf : Bytes) × (pkcs7_padding bytes n ≡ ok buf)
      × (length buf % n ≡ 0)
      × (length buf % 16 ≡ 0)
pkcs7_padding_fills bytes n h le =
    let pad = n - length bytes % n in
    let fine : block_size_ok n ≡ true = ground arith in
    let (made, p) = padding-Padded bytes n fine in
    let whole = bytes ++ replicate pad pad in
    let m : n % 16 ≡ 0 = ground arith in
    (
      whole,
      made,
      p.whole,
      mod-eq-zero_of_dvd 16 (dvd_trans 16 (dvd_of_mod-eq-zero 16 m) (dvd_of_mod-eq-zero n p.whole)),
    )

pub pkcs7_padding_whole :
    (bytes : Bytes) (n : ℕ)
    → block_size_ok n ≡ true
    → (buf : Bytes) × (pkcs7_padding bytes n ≡ ok buf) × (length buf % n ≡ 0)
pkcs7_padding_whole bytes n fine =
    let pad = n - length bytes % n in
    let (made, p) = padding-Padded bytes n fine in (bytes ++ replicate pad pad, made, p.whole)

-- Padding to a block size from 1 to 255 succeeds and fills whole blocks, and unpadding gives the
-- bytes back.
pub pkcs7_round_trip :
    (bytes : Bytes) (n : ℕ)
    → 1 ≤ n
    → n ≤ 255
    → (buf : Bytes) × (pkcs7_padding bytes n ≡ ok buf)
      × (length buf % n ≡ 0)
      × (pkcs7_unpadding buf n ≡ ok bytes)
pkcs7_round_trip bytes n lo hi =
    let (buf, made, whole) = pkcs7_padding_whole bytes n (ground arith) in
    (buf, made, whole, (pkcs7_unpadding-pkcs7_padding bytes buf n).1 made)
