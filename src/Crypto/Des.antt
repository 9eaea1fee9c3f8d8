-- ===== src/Crypto/Des.antt =====
-- crates/neon-crypto/src/des.rs: DES in CBC and ECB with PKCS#7 over the ciphers of `Cipher`.
use neon_rs.Base.{ℕ, ◌%◌, ◌≡◌, refl, ap, ◌∙◌, ◌==◌, ==_iff, true, length}
use neon_rs.Base.Result.{Result, ok, ◌>>=◌, ◌>>◌, ensure}
use neon_rs.Crypto.Padding.{
  Bytes, CryptoError, CipherText, pkcs7_padding, pkcs7_unpadding, invalid_iv_length,
  invalid_key_size, not_full_blocks,
}
use neon_rs.Crypto.Padding.RoundTrip.{pkcs7_padding_whole, pkcs7_unpadding-pkcs7_padding}
use neon_rs.Crypto.Cipher.{Cipher, CipherLaws}

abbrev pub des_block_size : ℕ
des_block_size = 8

module _ (cipher : Cipher 8) where
  -- `new_from_slice` takes a key of 8 bytes.
  unfoldable pub des_encrypt_cbc : Bytes → Bytes → Bytes → Result CryptoError CipherText
  des_encrypt_cbc key iv bytes =
      ensure (length iv == des_block_size) invalid_iv_length
      >> ensure (length key == 8) invalid_key_size
      >> ok (record { bytes = cipher.cbc_encrypt_padded key iv bytes; tag_size = 0 })

  unfoldable pub des_decrypt_cbc : Bytes → Bytes → Bytes → Result CryptoError Bytes
  des_decrypt_cbc key iv bytes =
      ensure (length iv == des_block_size) invalid_iv_length
      >> ensure (length bytes % des_block_size == 0) not_full_blocks
      >> ensure (length key == 8) invalid_key_size
      >> cipher.cbc_decrypt_padded key iv bytes

  unfoldable pub des_encrypt_ecb : Bytes → Bytes → Result CryptoError CipherText
  des_encrypt_ecb key bytes =
      ensure (length key == 8) invalid_key_size >> pkcs7_padding bytes des_block_size >>= λ buf.
      ok (record { bytes = cipher.ecb_encrypt key buf; tag_size = 0 })

  unfoldable pub des_decrypt_ecb : Bytes → Bytes → Result CryptoError Bytes
  des_decrypt_ecb key bytes =
      ensure (length bytes % des_block_size == 0) not_full_blocks
      >> ensure (length key == 8) invalid_key_size
      >> pkcs7_unpadding (cipher.ecb_decrypt key bytes) des_block_size

module _ (cipher : Cipher 8) (laws : CipherLaws 8 cipher) where
  -- DES with a key of 8 bytes: ECB, and CBC with an initialization vector of 8 bytes, encrypt any
  -- message, and decryption gives it back.
  pub des_round_trip :
      (key iv message : Bytes)
      → (length key == 8) ≡ true
      → (length iv == 8) ≡ true
      → ((c : CipherText) × (des_encrypt_ecb cipher key message ≡ ok c)
          × (des_decrypt_ecb cipher key c.bytes ≡ ok message))
        × ((c : CipherText) × (des_encrypt_cbc cipher key iv message ≡ ok c)
            × (des_decrypt_cbc cipher key iv c.bytes ≡ ok message))
  unfolding des_encrypt_ecb des_decrypt_ecb des_encrypt_cbc des_decrypt_cbc
  des_round_trip key iv message k v =
      let (buf, made, whole) = pkcs7_padding_whole message 8 refl in
      let out = cipher.ecb_encrypt key buf in
      let size : (length out % 8 == 0) ≡ true =
        (==_iff (length out % 8) 0).1 (ap (λ l. l % 8) (laws.ecb_length key buf) ∙ whole) in
      let sealed = cipher.cbc_encrypt_padded key iv message in
      let blocks : (length sealed % 8 == 0) ≡ true =
        (==_iff (length sealed % 8) 0).1 (laws.padded_length key iv message) in
      (
        (
          record { bytes = out; tag_size = 0 },
          simp (k, made) refl,
          simp (k, size, laws.ecb_inverse key buf whole)
              ((pkcs7_unpadding-pkcs7_padding message buf 8).1 made),
        ),
        (
          record { bytes = sealed; tag_size = 0 },
          simp (k, v) refl,
          simp (k, v, blocks) (laws.padded_inverse key iv message),
        ),
      )
