-- ===== src/Crypto/Aes/RoundTrip.antt =====
-- What AES encrypts, it decrypts, in each mode and for each padding size that it takes.
use neon_rs.Base.{
  ℕ, ◌%◌, ◌≤◌, ◌≡◌, refl, ap, ◌∙◌, true, Option, none, some, length, ◌==◌, ==_iff, inl, inr,
  Bool-cases,
}
use neon_rs.Base.Result.{ok}
use neon_rs.Crypto.Padding.{Bytes, CipherText}
use neon_rs.Crypto.Padding.RoundTrip.{pkcs7_unpadding-pkcs7_padding, pkcs7_padding_fills}
use neon_rs.Crypto.Cipher.{Cipher, CipherLaws}
use neon_rs.Crypto.Aes.{
  key_ok, multiple_ok, pad_or_block, aes_encrypt_ecb, aes_decrypt_ecb, aes_encrypt_cbc,
  aes_decrypt_cbc, cbc_encrypt_bytes, cbc_decrypt_bytes, cbc_encrypt_pkcs7, cbc_encrypt_padded,
  cbc_decrypt_pkcs7, cbc_decrypt_padded,
}

-- A padding size that the documentation allows: a multiple of 16, and at most 255.
abbrev pub IsPadding : ℕ → Type 0
IsPadding n = (multiple_ok n ≡ true) × (n ≤ 255)

module _ (cipher : Cipher 16) (laws : CipherLaws 16 cipher) where
  -- ECB with a key of 16, 24 or 32 bytes and an allowed padding size: encryption succeeds, has no
  -- tag, and decryption with the same key and padding size gives the message back.
  pub aes_decrypt_ecb-aes_encrypt_ecb :
      (key message : Bytes) (padding_size : Option ℕ)
      → key_ok key ≡ true
      → IsPadding (pad_or_block padding_size)
      → (c : CipherText) × (aes_encrypt_ecb cipher key message padding_size ≡ ok c)
        × (c.tag_size ≡ 0)
        × (aes_decrypt_ecb cipher key c.bytes padding_size ≡ ok message)
  unfolding aes_encrypt_ecb aes_decrypt_ecb
  aes_decrypt_ecb-aes_encrypt_ecb key message padding_size k p =
      let n = pad_or_block padding_size in
      let (buf, made, whole, blocks) = pkcs7_padding_fills message n p.0 p.1 in
      let out = cipher.ecb_encrypt key buf in
      let size : (length out % n == 0) ≡ true =
        (==_iff (length out % n) 0).1 (ap (λ l. l % n) (laws.ecb_length key buf) ∙ whole) in
      let back = (pkcs7_unpadding-pkcs7_padding message buf n).1 made in
      (
        record { bytes = out; tag_size = 0 },
        simp (k, p.0, made) refl,
        refl,
        simp (k, p.0, size, laws.ecb_inverse key buf blocks) back,
      )

  pkcs7_mode :
      (key iv message : Bytes)
      → key_ok key ≡ true
      → (out : Bytes) × (cbc_encrypt_pkcs7 cipher key iv message ≡ ok out)
        × (length out % 16 ≡ 0)
        × (cbc_decrypt_pkcs7 cipher key iv out ≡ ok message)
  unfolding cbc_encrypt_pkcs7 cbc_decrypt_pkcs7
  pkcs7_mode key iv message k = (
    cipher.cbc_encrypt_padded key iv message,
    simp k refl,
    laws.padded_length key iv message,
    simp k (laws.padded_inverse key iv message),
  )

  padded_mode :
      (key iv message : Bytes) (n : ℕ)
      → key_ok key ≡ true
      → IsPadding n
      → (out : Bytes) × (cbc_encrypt_padded cipher key iv message n ≡ ok out)
        × (length out % 16 ≡ 0)
        × (cbc_decrypt_padded cipher key iv out n ≡ ok message)
  unfolding cbc_encrypt_padded cbc_decrypt_padded
  padded_mode key iv message n k p =
      let (buf, made, whole, blocks) = pkcs7_padding_fills message n p.0 p.1 in
      let out = cipher.cbc_encrypt key iv buf in
      let size : (length out % n == 0) ≡ true =
        (==_iff (length out % n) 0).1 (ap (λ l. l % n) (laws.cbc_length key iv buf) ∙ whole) in
      (
        out,
        simp (k, p.0, made) refl,
        ap (λ l. l % 16) (laws.cbc_length key iv buf) ∙ blocks,
        simp (k, p.0, size, laws.cbc_inverse key iv buf blocks)
            ((pkcs7_unpadding-pkcs7_padding message buf n).1 made),
      )

  cbc_modes :
      (key iv message : Bytes) (o : Option ℕ)
      → key_ok key ≡ true
      → IsPadding (pad_or_block o)
      → (out : Bytes) × (cbc_encrypt_bytes cipher key iv message o ≡ ok out)
        × (length out % 16 ≡ 0)
        × (cbc_decrypt_bytes cipher key iv out o ≡ ok message)
  unfolding cbc_encrypt_bytes cbc_decrypt_bytes
  cbc_modes key iv message none k p = pkcs7_mode key iv message k
  cbc_modes key iv message (some n) k p = elim (Bool-cases (n == 16)) [
    | inl same ↦ simp same (pkcs7_mode key iv message k)
    | inr other ↦ simp other (padded_mode key iv message n k p)
  ]

  -- CBC with such a key, an initialization vector of 16 bytes and an allowed padding size: the
  -- same, whichever of the two ways of padding is taken.
  pub aes_decrypt_cbc-aes_encrypt_cbc :
      (key iv message : Bytes) (padding_size : Option ℕ)
      → key_ok key ≡ true
      → (length iv == 16) ≡ true
      → IsPadding (pad_or_block padding_size)
      → (c : CipherText) × (aes_encrypt_cbc cipher key iv message padding_size ≡ ok c)
        × (c.tag_size ≡ 0)
        × (aes_decrypt_cbc cipher key iv c.bytes padding_size ≡ ok message)
  unfolding aes_encrypt_cbc aes_decrypt_cbc
  aes_decrypt_cbc-aes_encrypt_cbc key iv message padding_size k v p =
      let (out, made, blocks, back) = cbc_modes key iv message padding_size k p in
      let size : (length out % 16 == 0) ≡ true = (==_iff (length out % 16) 0).1 blocks in
      (record { bytes = out; tag_size = 0 }, simp (v, made) refl, refl, simp (v, size) back)
