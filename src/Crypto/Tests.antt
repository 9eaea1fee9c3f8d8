-- ===== src/Crypto/Tests.antt =====
-- The ciphers' interfaces filled by toys, and the round trips run on them.
use neon_rs.Base.{
  ℕ, ◌-◌, ◌%◌, ◌≡◌, refl, sym, ◌↔◌, Option, some, [], ◌∷◌, ◌++◌, arith, length, length-append,
  length-replicate, take, take-append, replicate, ap, ◌∙◌,
}
use neon_rs.Base.Result.{ok, err}
use neon_rs.Crypto.Padding.{
  Bytes, CipherText, pkcs7_padding, pkcs7_unpadding, invalid_padding, invalid_tag_size,
}
use neon_rs.Crypto.Padding.RoundTrip.{pkcs7_round_trip, pkcs7_unpadding-pkcs7_padding}
use neon_rs.Crypto.Cipher.{Cipher, CipherLaws, Aead, AeadLaws}
use neon_rs.Crypto.Aes.{aes_encrypt_ecb, aes_decrypt_ecb, aes_encrypt_cbc, aes_decrypt_cbc}
use neon_rs.Crypto.Aes.Gcm.{aes_encrypt_gcm, GcmOption, resolve_gcm_sizes, gcm_op}
use neon_rs.Crypto.Aes.Gcm.Outcome.{GcmOutcome, aes_encrypt_gcm-GcmOutcome}
use neon_rs.Crypto.Aes.RoundTrip.{aes_decrypt_ecb-aes_encrypt_ecb, aes_decrypt_cbc-aes_encrypt_cbc}
use neon_rs.Crypto.Des.{
  des_encrypt_ecb, des_decrypt_ecb, des_encrypt_cbc, des_decrypt_cbc, des_round_trip,
}

-- Ciphers that change nothing, over the padding of this crate.
abbrev plain : (n : ℕ) → Cipher n
plain n = record {
  ecb_encrypt = λ key d. d;
  ecb_decrypt = λ key d. d;
  cbc_encrypt = λ key iv d. d;
  cbc_decrypt = λ key iv d. d;
  cbc_encrypt_padded = λ key iv d. d ++ replicate (n - length d % n) (n - length d % n);
  cbc_decrypt_padded = λ key iv d. pkcs7_unpadding d n;
}

plain_16-CipherLaws : CipherLaws 16 (plain 16)
unfolding pkcs7_padding
plain_16-CipherLaws = record {
  ecb_inverse = λ key d h. refl;
  ecb_length = λ key d. refl;
  cbc_inverse = λ key iv d h. refl;
  cbc_length = λ key iv d. refl;
  padded_inverse = λ key iv d.
      (pkcs7_unpadding-pkcs7_padding d _ 16).1
        (ap (λ p. ok (d ++ replicate (16 - length d % 16) p)) (omega arith));
  padded_length = λ key iv d. omega (
    arith,
    length-append d (replicate (16 - length d % 16) (16 - length d % 16)),
    length-replicate (16 - length d % 16) (16 - length d % 16),
  );
}

plain_8-CipherLaws : CipherLaws 8 (plain 8)
unfolding pkcs7_padding
plain_8-CipherLaws = record {
  ecb_inverse = λ key d h. refl;
  ecb_length = λ key d. refl;
  cbc_inverse = λ key iv d h. refl;
  cbc_length = λ key iv d. refl;
  padded_inverse = λ key iv d.
      (pkcs7_unpadding-pkcs7_padding d _ 8).1
        (ap (λ p. ok (d ++ replicate (8 - length d % 8) p)) (omega arith));
  padded_length = λ key iv d. omega (
    arith,
    length-append d (replicate (8 - length d % 8) (8 - length d % 8)),
    length-replicate (8 - length d % 8) (8 - length d % 8),
  );
}

-- A tag of zeroes, never looked at.
abbrev zero_tag : Aead
zero_tag = record {
  seal = λ size n tag key nonce d aad. ok (d ++ replicate tag 0);
  unseal = λ size n tag key nonce d aad. ok (take (length d - tag) d);
}

zero_tag-AeadLaws : AeadLaws zero_tag
zero_tag-AeadLaws = record {
  inverse = λ size n tag key nonce d aad c len lo hi e.
      let same : d ++ replicate tag 0 ≡ c = cc in
      let rest_size : length c - tag ≡ length d = omega (
        arith,
        ap length same,
        length-append d (replicate tag 0),
        length-replicate {A = ℕ} tag 0,
      ) in
      ap ok (
        ap (take (length c - tag)) (sym same)
        ∙ take-append d (replicate tag 0) (length c - tag) rest_size);
  tagged = λ size n tag key nonce d aad c len lo hi e.
      let same : d ++ replicate tag 0 ≡ c = cc in
      omega
        (arith, ap length same, length-append d (replicate tag 0), length-replicate {A = ℕ} tag 0);
}

abbrev hello : Bytes
hello = 104 ∷ 101 ∷ 108 ∷ 108 ∷ 111 ∷ []

abbrev key_16 : Bytes
key_16 = replicate 16 7

abbrev key_8 : Bytes
key_8 = replicate 8 7

bad_padding : pkcs7_unpadding (hello ++ 3 ∷ 2 ∷ 3 ∷ []) 8 ≡ err invalid_padding
unfolding pkcs7_unpadding
bad_padding = refl

pkcs7_unpadding-pkcs7_padding_example :
    (pkcs7_unpadding (hello ++ 3 ∷ 3 ∷ 3 ∷ []) 8 ≡ ok hello)
    ↔ (pkcs7_padding hello 8 ≡ ok (hello ++ 3 ∷ 3 ∷ 3 ∷ []))
pkcs7_unpadding-pkcs7_padding_example =
    pkcs7_unpadding-pkcs7_padding hello (hello ++ 3 ∷ 3 ∷ 3 ∷ []) 8

aes_decrypt_ecb-aes_encrypt_ecb_example :
    (c : CipherText) × (aes_encrypt_ecb (plain 16) key_16 hello (some 32) ≡ ok c)
    × (c.tag_size ≡ 0)
    × (aes_decrypt_ecb (plain 16) key_16 c.bytes (some 32) ≡ ok hello)
aes_decrypt_ecb-aes_encrypt_ecb_example =
    aes_decrypt_ecb-aes_encrypt_ecb (plain 16) plain_16-CipherLaws key_16 hello (some 32) refl
      (refl, omega arith)

aes_decrypt_cbc-aes_encrypt_cbc_example :
    (c : CipherText) × (aes_encrypt_cbc (plain 16) key_16 key_16 hello (some 48) ≡ ok c)
    × (c.tag_size ≡ 0)
    × (aes_decrypt_cbc (plain 16) key_16 key_16 c.bytes (some 48) ≡ ok hello)
aes_decrypt_cbc-aes_encrypt_cbc_example =
    aes_decrypt_cbc-aes_encrypt_cbc (plain 16) plain_16-CipherLaws key_16 key_16 hello (some 48)
      refl refl (refl, omega arith)

abbrev sealed_hello : CipherText
sealed_hello = record { bytes = hello ++ replicate 13 0; tag_size = 13 }

abbrev tag_13 : Option GcmOption
tag_13 = some (record { tag_size = 13; nonce_size = 0 })

seals : aes_encrypt_gcm zero_tag key_16 (replicate 12 1) hello [] tag_13 ≡ ok sealed_hello
unfolding aes_encrypt_gcm resolve_gcm_sizes gcm_op
seals = refl

tag_too_short :
    aes_encrypt_gcm zero_tag key_16
      (replicate 12 1)
      hello
      []
      (some (record { tag_size = 11; nonce_size = 12 }))
    ≡ err invalid_tag_size
unfolding aes_encrypt_gcm resolve_gcm_sizes
tag_too_short = refl

aes_encrypt_gcm-GcmOutcome_example :
    GcmOutcome zero_tag key_16
      (replicate 12 1)
      hello
      []
      tag_13
      (aes_encrypt_gcm zero_tag key_16 (replicate 12 1) hello [] tag_13)
aes_encrypt_gcm-GcmOutcome_example =
    aes_encrypt_gcm-GcmOutcome zero_tag zero_tag-AeadLaws key_16 (replicate 12 1) hello [] tag_13

des_round_trip_example :
    ((c : CipherText) × (des_encrypt_ecb (plain 8) key_8 hello ≡ ok c)
      × (des_decrypt_ecb (plain 8) key_8 c.bytes ≡ ok hello))
    × ((c : CipherText) × (des_encrypt_cbc (plain 8) key_8 key_8 hello ≡ ok c)
        × (des_decrypt_cbc (plain 8) key_8 key_8 c.bytes ≡ ok hello))
des_round_trip_example = des_round_trip (plain 8) plain_8-CipherLaws key_8 key_8 hello refl refl

pkcs7_round_trip_example :
    (buf : Bytes) × (pkcs7_padding hello 8 ≡ ok buf)
    × (length buf % 8 ≡ 0)
    × (pkcs7_unpadding buf 8 ≡ ok hello)
pkcs7_round_trip_example = pkcs7_round_trip hello 8 (omega arith) (omega arith)
