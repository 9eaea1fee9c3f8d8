-- ===== src/Crypto/Aes/Gcm.antt =====
-- crates/neon-crypto/src/aes.rs: AES-GCM: the sizes of nonce and tag, and the dispatch on them and on
-- the key, over the AEAD of `Cipher`.
pub mod Outcome
use neon_rs.Base.{
  ℕ, Bool, true, false, not, ◌&&◌, ◌||◌, Option, none, some, leb, ◌==◌, if◌then◌else◌, length,
}
use neon_rs.Base.Result.{Result, ok, err, ◌>>=◌, ◌>>◌, ensure}
use neon_rs.Crypto.Padding.{
  Bytes, CryptoError, CipherText, invalid_key_size, invalid_nonce_size, invalid_tag_size,
  incorrect_nonce_length, unsupported_nonce_size, unsupported_tag_size,
}
use neon_rs.Crypto.Cipher.{Aead, AesSize, aes128, aes192, aes256}

pub record GcmOption : Type 0 where
  pub tag_size : ℕ
  pub nonce_size : ℕ

abbrev pub gcm_nonce_size : ℕ
gcm_nonce_size = 12

abbrev pub or_default : ℕ → ℕ → ℕ
or_default n default_size = if n == 0 then default_size else n

abbrev in_gcm_range : ℕ → Bool
in_gcm_range n = leb 12 n && leb n 16

check_gcm_sizes : ℕ → ℕ → Result CryptoError (ℕ × ℕ)
check_gcm_sizes nonce_size tag_size =
    if not (in_gcm_range nonce_size)
    then err invalid_nonce_size
    else if not (in_gcm_range tag_size)
    then err invalid_tag_size
    else ok (nonce_size, tag_size)

unfoldable pub resolve_gcm_sizes : Option GcmOption → Result CryptoError (ℕ × ℕ)
unfolding check_gcm_sizes
resolve_gcm_sizes none = check_gcm_sizes gcm_nonce_size 16
resolve_gcm_sizes (some o) =
    check_gcm_sizes (or_default o.nonce_size gcm_nonce_size) (or_default o.tag_size 16)

-- `GcmCall`.
pub record GcmCall : Type 0 where
  pub key : Bytes
  pub nonce : Bytes
  pub message : Bytes
  pub aad : Bytes
  pub seal : Bool

-- The size tests of `gcm_dispatch_nonce` and of `gcm_dispatch_tag`.
abbrev pub dispatched : ℕ → Bool
dispatched n = n == 12 || n == 13 || n == 14 || n == 15 || n == 16

module _ (aead : Aead) where
  gcm_run : GcmCall → AesSize → ℕ → ℕ → Result CryptoError Bytes
  gcm_run call size nonce_size tag_size =
      ensure (length call.nonce == nonce_size) incorrect_nonce_length
      >> (if call.seal
          then aead.seal size nonce_size tag_size call.key call.nonce call.message call.aad
          else aead.unseal size nonce_size tag_size call.key call.nonce call.message call.aad)

  gcm_dispatch_tag : GcmCall → AesSize → ℕ → ℕ → Result CryptoError Bytes
  unfolding gcm_run
  gcm_dispatch_tag call size nonce_size tag_size =
      if dispatched tag_size
      then gcm_run call size nonce_size tag_size
      else err unsupported_tag_size

  gcm_dispatch_nonce : GcmCall → AesSize → ℕ → ℕ → Result CryptoError Bytes
  unfolding gcm_dispatch_tag
  gcm_dispatch_nonce call size nonce_size tag_size =
      if dispatched nonce_size
      then gcm_dispatch_tag call size nonce_size tag_size
      else err unsupported_nonce_size

  unfoldable pub gcm_op : GcmCall → ℕ → ℕ → Result CryptoError Bytes
  unfolding gcm_dispatch_nonce
  gcm_op call nonce_size tag_size =
      if length call.key == 16
      then gcm_dispatch_nonce call aes128 nonce_size tag_size
      else if length call.key == 24
      then gcm_dispatch_nonce call aes192 nonce_size tag_size
      else if length call.key == 32
      then gcm_dispatch_nonce call aes256 nonce_size tag_size
      else err invalid_key_size

  unfoldable pub aes_encrypt_gcm :
      Bytes → Bytes → Bytes → Bytes → Option GcmOption → Result CryptoError CipherText
  unfolding resolve_gcm_sizes gcm_op
  aes_encrypt_gcm key nonce bytes aad opt = resolve_gcm_sizes opt >>= λ sizes.
      gcm_op (record { key = key; nonce = nonce; message = bytes; aad = aad; seal = true }) sizes.0
        sizes.1
      >>= λ out. ok (record { bytes = out; tag_size = sizes.1 })

  unfoldable pub aes_decrypt_gcm :
      Bytes → Bytes → Bytes → Bytes → Option GcmOption → Result CryptoError Bytes
  unfolding resolve_gcm_sizes gcm_op
  aes_decrypt_gcm key nonce bytes aad opt = resolve_gcm_sizes opt >>= λ sizes.
      gcm_op (record { key = key; nonce = nonce; message = bytes; aad = aad; seal = false }) sizes.0
        sizes.1
