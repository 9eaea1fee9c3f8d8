-- ===== src/Crypto/Aes.antt =====
-- crates/neon-crypto/src/aes.rs: AES in CBC, ECB and GCM over the ciphers of `Cipher`.
pub mod RoundTrip
pub mod Gcm
use neon_rs.Base.{
  ℕ, ◌%◌, Bool, not, ◌&&◌, ◌||◌, Option, none, some, leb, ◌==◌, if◌then◌else◌, length,
}
use neon_rs.Base.Result.{Result, ok, err, ◌>>=◌, ◌>>◌, ensure}
use neon_rs.Crypto.Padding.{
  Bytes, CryptoError, CipherText, pkcs7_padding, pkcs7_unpadding, invalid_iv_length,
  invalid_key_size, invalid_padding_size, not_full_blocks, invalid_nonce_size, invalid_tag_size,
  incorrect_nonce_length,
}
use neon_rs.Crypto.Cipher.{Cipher, Aead}

abbrev pub block_size : ℕ
block_size = 16

abbrev pub key_ok : Bytes → Bool
key_ok key = length key == 16 || length key == 24 || length key == 32

abbrev pub multiple_ok : ℕ → Bool
multiple_ok pad = not (pad == 0) && pad % block_size == 0

abbrev untagged : Bytes → CipherText
untagged bytes = record { bytes = bytes; tag_size = 0 }

-- `padding_size.unwrap_or(BLOCK_SIZE)`.
abbrev pub pad_or_block : Option ℕ → ℕ
pad_or_block none = block_size
pad_or_block (some n) = n

module _ (cipher : Cipher 16) where
  cbc_encrypt_pkcs7 : Bytes → Bytes → Bytes → Result CryptoError Bytes
  cbc_encrypt_pkcs7 key iv bytes =
      if key_ok key then ok (cipher.cbc_encrypt_padded key iv bytes) else err invalid_key_size

  cbc_encrypt_padded : Bytes → Bytes → Bytes → ℕ → Result CryptoError Bytes
  cbc_encrypt_padded key iv bytes pad_size =
      ensure (multiple_ok pad_size) invalid_padding_size >> pkcs7_padding bytes pad_size >>= λ buf.
      (if key_ok key then ok (cipher.cbc_encrypt key iv buf) else err invalid_key_size)

  cbc_encrypt_bytes : Bytes → Bytes → Bytes → Option ℕ → Result CryptoError Bytes
  unfolding cbc_encrypt_pkcs7 cbc_encrypt_padded
  cbc_encrypt_bytes key iv bytes none = cbc_encrypt_pkcs7 key iv bytes
  cbc_encrypt_bytes key iv bytes (some n) =
      if n == block_size then cbc_encrypt_pkcs7 key iv bytes else cbc_encrypt_padded key iv bytes n

  unfoldable pub aes_encrypt_cbc : Bytes → Bytes → Bytes → Option ℕ → Result CryptoError CipherText
  unfolding cbc_encrypt_bytes
  aes_encrypt_cbc key iv bytes padding_size =
      ensure (length iv == block_size) invalid_iv_length
      >> cbc_encrypt_bytes key iv bytes padding_size
      >>= λ out. ok (untagged out)

  cbc_decrypt_pkcs7 : Bytes → Bytes → Bytes → Result CryptoError Bytes
  cbc_decrypt_pkcs7 key iv bytes =
      if key_ok key then cipher.cbc_decrypt_padded key iv bytes else err invalid_key_size

  cbc_decrypt_padded : Bytes → Bytes → Bytes → ℕ → Result CryptoError Bytes
  cbc_decrypt_padded key iv bytes pad_size =
      ensure (multiple_ok pad_size) invalid_padding_size
      >> ensure (length bytes % pad_size == 0) not_full_blocks
      >> ensure (key_ok key) invalid_key_size
      >> pkcs7_unpadding (cipher.cbc_decrypt key iv bytes) pad_size

  cbc_decrypt_bytes : Bytes → Bytes → Bytes → Option ℕ → Result CryptoError Bytes
  unfolding cbc_decrypt_pkcs7 cbc_decrypt_padded
  cbc_decrypt_bytes key iv bytes none = cbc_decrypt_pkcs7 key iv bytes
  cbc_decrypt_bytes key iv bytes (some n) =
      if n == block_size then cbc_decrypt_pkcs7 key iv bytes else cbc_decrypt_padded key iv bytes n

  unfoldable pub aes_decrypt_cbc : Bytes → Bytes → Bytes → Option ℕ → Result CryptoError Bytes
  unfolding cbc_decrypt_bytes
  aes_decrypt_cbc key iv bytes padding_size =
      ensure (length iv == block_size) invalid_iv_length
      >> ensure (length bytes % block_size == 0) not_full_blocks
      >> cbc_decrypt_bytes key iv bytes padding_size

  unfoldable pub aes_encrypt_ecb : Bytes → Bytes → Option ℕ → Result CryptoError CipherText
  aes_encrypt_ecb key bytes padding_size =
      let pad_size = pad_or_block padding_size in
      ensure (key_ok key) invalid_key_size
      >> ensure (multiple_ok pad_size) invalid_padding_size
      >> pkcs7_padding bytes pad_size
      >>= λ buf. ok (untagged (cipher.ecb_encrypt key buf))

  unfoldable pub aes_decrypt_ecb : Bytes → Bytes → Option ℕ → Result CryptoError Bytes
  aes_decrypt_ecb key bytes padding_size =
      let pad_size = pad_or_block padding_size in
      ensure (multiple_ok pad_size) invalid_padding_size
      >> ensure (length bytes % pad_size == 0) not_full_blocks
      >> ensure (key_ok key) invalid_key_size
      >> pkcs7_unpadding (cipher.ecb_decrypt key bytes) pad_size
