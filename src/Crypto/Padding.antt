-- ===== src/Crypto/Padding.antt =====
-- crates/neon-crypto/src/lib.rs: `CipherText`, `pkcs7_padding` and `pkcs7_unpadding`. A byte is a
-- number below 256. The accumulator `bad`, a byte that is only ever or-ed and compared with 0, is
-- kept as whether it is not 0; `(b ^ last) & in_pad` sets it where `b` differs inside the padding.
pub mod Blocks
pub mod RoundTrip
use neon_rs.Base.{
  ℕ, suc, ◌+◌, ◌-◌, ◌%◌, Bool, true, false, not, ◌&&◌, ◌||◌, Option, none, some, List, [], ◌∷◌,
  ◌++◌, min, max, leb, ltb, ◌==◌, if◌then◌else◌, length, get_elem?, take, drop, replicate, is_empty,
}
use neon_rs.Base.Result.{Result, ok, err}

abbrev pub Bytes : Type 0
Bytes = List ℕ

pub data CryptoError : Type 0 where
  invalid_block_size invalid_data_length invalid_padding : CryptoError
  invalid_iv_length invalid_key_size invalid_padding_size not_full_blocks : CryptoError
  invalid_nonce_size invalid_tag_size incorrect_nonce_length : CryptoError
  unsupported_nonce_size unsupported_tag_size : CryptoError
  cipher_failed : CryptoError

pub record CipherText : Type 0 where
  pub bytes : Bytes
  pub tag_size : ℕ

-- `data` and `tag`; the subtraction saturates.
abbrev pub data_part : CipherText → Bytes
data_part c = take (length c.bytes - c.tag_size) c.bytes

abbrev pub tag_part : CipherText → Bytes
tag_part c = drop (length c.bytes - c.tag_size) c.bytes

abbrev pub block_size_ok : ℕ → Bool
block_size_ok n = leb 1 n && leb n 255

unfoldable pub pkcs7_padding : Bytes → ℕ → Result CryptoError Bytes
pkcs7_padding bytes block_size =
    let pad = block_size - length bytes % block_size in
    if block_size_ok block_size
    then ok (bytes ++ replicate pad (pad % 256))
    else err invalid_block_size

-- The loop over the last block, from position `i` on.
pub scan : ℕ → ℕ → ℕ → ℕ → Bytes → Bool
scan last pad_len block_size i [] = false
scan last pad_len block_size i (b ∷ bs) =
    (leb block_size (i + pad_len) && not (b == last)) || scan last pad_len block_size (suc i) bs

-- With the last byte of a buffer that has one.
unpad : Bytes → ℕ → Option ℕ → Result CryptoError Bytes
unfolding scan
unpad bytes block_size none = err invalid_data_length
unpad bytes block_size (some last) =
    let n = length bytes in
    let pad_len = min (max last 1) block_size in
    let bad =
      last == 0
      || ltb block_size last
      || scan last pad_len block_size 0 (drop (n - block_size) bytes) in
    if bad then err invalid_padding else ok (take (n - last) bytes)

unfoldable pub pkcs7_unpadding : Bytes → ℕ → Result CryptoError Bytes
unfolding unpad
pkcs7_unpadding bytes block_size =
    let n = length bytes in
    if not (block_size_ok block_size)
    then err invalid_block_size
    else if n == 0 || not (n % block_size == 0)
    then err invalid_data_length
    else unpad bytes block_size (get_elem? bytes (n - 1))
