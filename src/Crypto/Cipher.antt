-- ===== src/Crypto/Cipher.antt =====
-- What crates/neon-crypto uses of the crates `aes`, `des`, `cbc` and `aes_gcm`: ciphers on whole
-- blocks and sealed messages, with what their documentation promises.
use neon_rs.Base.{ℕ, ◌+◌, ◌%◌, ◌≡◌, ◌≤◌, length}
use neon_rs.Base.Result.{Result, ok}
use neon_rs.Crypto.Padding.{Bytes, CryptoError}

-- A block cipher with blocks of `block` bytes, in ECB and CBC, and CBC with its own PKCS#7.
pub record Cipher (block : ℕ) : Type 0 where
  pub ecb_encrypt : Bytes → Bytes → Bytes
  pub ecb_decrypt : Bytes → Bytes → Bytes
  pub cbc_encrypt : Bytes → Bytes → Bytes → Bytes
  pub cbc_decrypt : Bytes → Bytes → Bytes → Bytes
  pub cbc_encrypt_padded : Bytes → Bytes → Bytes → Bytes
  pub cbc_decrypt_padded : Bytes → Bytes → Bytes → Result CryptoError Bytes

pub record CipherLaws (block : ℕ) (c : Cipher block) : Type 0 where
  pub ecb_inverse :
      (key d : Bytes) → length d % block ≡ 0 → c.ecb_decrypt key (c.ecb_encrypt key d) ≡ d
  pub ecb_length : (key d : Bytes) → length (c.ecb_encrypt key d) ≡ length d
  pub cbc_inverse :
      (key iv d : Bytes) → length d % block ≡ 0 → c.cbc_decrypt key iv (c.cbc_encrypt key iv d) ≡ d
  pub cbc_length : (key iv d : Bytes) → length (c.cbc_encrypt key iv d) ≡ length d
  pub padded_inverse :
      (key iv d : Bytes) → c.cbc_decrypt_padded key iv (c.cbc_encrypt_padded key iv d) ≡ ok d
  pub padded_length : (key iv d : Bytes) → length (c.cbc_encrypt_padded key iv d) % block ≡ 0

-- The types `Aes128`, `Aes192` and `Aes256`.
pub data AesSize : Type 0 where
  aes128 aes192 aes256 : AesSize

-- `AesGcm` at a cipher, a nonce size and a tag size: key, nonce, message, associated data. It is
-- called with the key that the cipher takes and a nonce of the nonce size.
pub record Aead : Type 0 where
  pub seal : AesSize → ℕ → ℕ → Bytes → Bytes → Bytes → Bytes → Result CryptoError Bytes
  pub unseal : AesSize → ℕ → ℕ → Bytes → Bytes → Bytes → Bytes → Result CryptoError Bytes

-- The documented tag sizes are 12 to 16.
pub record AeadLaws (a : Aead) : Type 0 where
  pub inverse :
      (size : AesSize) (n tag : ℕ) (key nonce d aad c : Bytes)
      → length nonce ≡ n
      → 12 ≤ tag
      → tag ≤ 16
      → a.seal size n tag key nonce d aad ≡ ok c
      → a.unseal size n tag key nonce c aad ≡ ok d
  pub tagged :
      (size : AesSize) (n tag : ℕ) (key nonce d aad c : Bytes)
      → length nonce ≡ n
      → 12 ≤ tag
      → tag ≤ 16
      → a.seal size n tag key nonce d aad ≡ ok c
      → length c ≡ length d + tag
