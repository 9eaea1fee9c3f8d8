-- ===== src/Crypto/Aes/Gcm/Outcome.antt =====
-- crates/neon-crypto/src/aes.rs: what AES-GCM encryption does, on every branch.
use neon_rs.Base.{
  ℕ, zero, suc, ◌-◌, ◌≡◌, ◌≢◌, ◌≤◌, ◌⊎◌, inl, inr, refl, true, false, Option, none, some, arith,
  ◌==◌, ==_iff, Bool-cases, length, length-take, length-drop,
}
use neon_rs.Base.Result.{Result, ok, err, Result-cases}
use neon_rs.Crypto.Padding.{
  Bytes, CryptoError, CipherText, data_part, tag_part, invalid_key_size, invalid_nonce_size,
  invalid_tag_size, incorrect_nonce_length,
}
use neon_rs.Crypto.Cipher.{Aead, AeadLaws, AesSize, aes128, aes192, aes256}
use neon_rs.Crypto.Aes.Gcm.{
  GcmOption, GcmCall, gcm_op, gcm_run, in_gcm_range, or_default, check_gcm_sizes, resolve_gcm_sizes,
  aes_encrypt_gcm, aes_decrypt_gcm, dispatched,
}

-- The sizes that are asked for: 0 is the default.
abbrev pub asked_size : ℕ → ℕ → ℕ
asked_size zero default_size = default_size
asked_size (suc n) default_size = suc n

abbrev pub asked_nonce : Option GcmOption → ℕ
asked_nonce none = 12
asked_nonce (some o) = asked_size o.nonce_size 12

abbrev pub asked_tag : Option GcmOption → ℕ
asked_tag none = 16
asked_tag (some o) = asked_size o.tag_size 16

abbrev pub Allowed : ℕ → Type 0
Allowed n = (12 ≤ n) × (n ≤ 16)

-- The cipher that a key is for.
pub data KeyFor (key : Bytes) : AesSize → Type 0 where
  bytes_16 : length key ≡ 16 → KeyFor key aes128
  bytes_24 : length key ≡ 24 → KeyFor key aes192
  bytes_32 : length key ≡ 32 → KeyFor key aes256

-- What encryption comes to, and what decryption makes of its result.
pub data GcmOutcome (aead : Aead) (key nonce message aad : Bytes) (opt : Option GcmOption)
    : Result CryptoError CipherText → Type 0 where
  nonce_refused :
      ¬ Allowed (asked_nonce opt)
      → GcmOutcome aead key nonce message aad opt (err invalid_nonce_size)
  tag_refused :
      Allowed (asked_nonce opt)
      → ¬ Allowed (asked_tag opt)
      → GcmOutcome aead key nonce message aad opt (err invalid_tag_size)
  key_refused :
      Allowed (asked_nonce opt)
      → Allowed (asked_tag opt)
      → length key ≢ 16
      → length key ≢ 24
      → length key ≢ 32
      → GcmOutcome aead key nonce message aad opt (err invalid_key_size)
  wrong_nonce :
      {size : AesSize}
      → Allowed (asked_nonce opt)
      → Allowed (asked_tag opt)
      → KeyFor key size
      → length nonce ≢ asked_nonce opt
      → GcmOutcome aead key nonce message aad opt (err incorrect_nonce_length)
  seal_failed :
      {size : AesSize} (e : CryptoError)
      → Allowed (asked_nonce opt)
      → Allowed (asked_tag opt)
      → KeyFor key size
      → length nonce ≡ asked_nonce opt
      → aead.seal size (asked_nonce opt) (asked_tag opt) key nonce message aad ≡ err e
      → GcmOutcome aead key nonce message aad opt (err e)
  sealed :
      {size : AesSize} (c : CipherText)
      → Allowed (asked_nonce opt)
      → Allowed (asked_tag opt)
      → KeyFor key size
      → length nonce ≡ asked_nonce opt
      → aead.seal size (asked_nonce opt) (asked_tag opt) key nonce message aad ≡ ok c.bytes
      → c.tag_size ≡ asked_tag opt
      → length (data_part c) ≡ length message
      → length (tag_part c) ≡ asked_tag opt
      → aes_decrypt_gcm aead key nonce c.bytes aad opt ≡ ok message
      → GcmOutcome aead key nonce message aad opt (ok c)

range-cases :
    (n : ℕ) → (Allowed n × (in_gcm_range n ≡ true)) ⊎ ((¬ Allowed n) × (in_gcm_range n ≡ false))
range-cases n = elim (Bool-cases (in_gcm_range n)) [
  | inl inside ↦ inl (ground arith, inside)
  | inr outside ↦ inr ((λ a. ground arith), outside)
]

or_default-asked : (n d : ℕ) → or_default n d ≡ asked_size n d
or_default-asked zero d = refl
or_default-asked (suc n) d = let nonzero : (suc n == 0) ≡ false = ground arith in rw nonzero

-- Whether these sizes are allowed, and what `resolve_gcm_sizes` says of them.
data Checked (n t : ℕ) : Result CryptoError (ℕ × ℕ) → Type 0 where
  bad_nonce : ¬ Allowed n → Checked n t (err invalid_nonce_size)
  bad_tag : Allowed n → ¬ Allowed t → Checked n t (err invalid_tag_size)
  good : Allowed n → Allowed t → Checked n t (ok (n, t))

check_gcm_sizes-Checked : (n t : ℕ) → Checked n t (check_gcm_sizes n t)
unfolding check_gcm_sizes
check_gcm_sizes-Checked n t = elim (range-cases n) [
  | inr (refused, out) ↦ rw out (bad_nonce refused)
  | inl (allowed, in_n) ↦ elim (range-cases t) [
    | inr (refused, out) ↦ rw (in_n, out) (bad_tag allowed refused)
    | inl (allowed_t, in_t) ↦ rw (in_n, in_t) (good allowed allowed_t)
  ]
]

resolve_gcm_sizes-Checked :
    (opt : Option GcmOption) → Checked (asked_nonce opt) (asked_tag opt) (resolve_gcm_sizes opt)
unfolding resolve_gcm_sizes
resolve_gcm_sizes-Checked none = check_gcm_sizes-Checked 12 16
resolve_gcm_sizes-Checked (some o) =
    rw (or_default-asked o.nonce_size 12, or_default-asked o.tag_size 16)
      (check_gcm_sizes-Checked (asked_size o.nonce_size 12) (asked_size o.tag_size 16))

Allowed-dispatched : (n : ℕ) → Allowed n → dispatched n ≡ true
Allowed-dispatched n (lo, hi) = ground arith

KeyFor-cases :
    (key : Bytes)
    → ((size : AesSize) × KeyFor key size)
      ⊎ ((length key ≢ 16) × (length key ≢ 24) × (length key ≢ 32))
KeyFor-cases key = elim (Bool-cases (length key == 16)) [
  | inl h ↦ inl (aes128, bytes_16 ((==_iff (length key) 16).0 h))
  | inr a ↦ elim (Bool-cases (length key == 24)) [
    | inl h ↦ inl (aes192, bytes_24 ((==_iff (length key) 24).0 h))
    | inr b ↦ elim (Bool-cases (length key == 32)) [
      | inl h ↦ inl (aes256, bytes_32 ((==_iff (length key) 32).0 h))
      | inr c ↦ inr (ground arith, ground arith, ground arith)
    ]
  ]
]

module _ (aead : Aead) where
  gcm_op-KeyFor :
      (call : GcmCall) (n t : ℕ) (size : AesSize)
      → Allowed n
      → Allowed t
      → KeyFor call.key size
      → gcm_op aead call n t ≡ gcm_run aead call size n t
  unfolding gcm_op
  gcm_op-KeyFor call n t size a b (bytes_16 h) =
      rw (h, Allowed-dispatched n a, Allowed-dispatched t b)
  gcm_op-KeyFor call n t size a b (bytes_24 h) =
      rw (h, Allowed-dispatched n a, Allowed-dispatched t b)
  gcm_op-KeyFor call n t size a b (bytes_32 h) =
      rw (h, Allowed-dispatched n a, Allowed-dispatched t b)

  gcm_op-no_key :
      (call : GcmCall) (n t : ℕ)
      → length call.key ≢ 16
      → length call.key ≢ 24
      → length call.key ≢ 32
      → gcm_op aead call n t ≡ err invalid_key_size
  unfolding gcm_op
  gcm_op-no_key call n t a b c =
      let a' : (length call.key == 16) ≡ false = ground (arith, a) in
      let b' : (length call.key == 24) ≡ false = ground (arith, b) in
      let c' : (length call.key == 32) ≡ false = ground (arith, c) in rw (a', b', c')

module _ (aead : Aead) (laws : AeadLaws aead) (key nonce message aad : Bytes)
    (opt : Option GcmOption) where
  abbrev encrypted_call : GcmCall
  encrypted_call = record { key = key; nonce = nonce; message = message; aad = aad; seal = true }

  -- The tag of a sealed message, and its opening.
  seal-opens :
      (size : AesSize) (out : Bytes)
      → resolve_gcm_sizes opt ≡ ok (asked_nonce opt, asked_tag opt)
      → Allowed (asked_nonce opt)
      → Allowed (asked_tag opt)
      → KeyFor key size
      → length nonce ≡ asked_nonce opt
      → aead.seal size (asked_nonce opt) (asked_tag opt) key nonce message aad ≡ ok out
      → GcmOutcome aead key nonce message aad opt
          (ok (record { bytes = out; tag_size = asked_tag opt }))
  unfolding aes_decrypt_gcm gcm_run
  seal-opens size out r a b for_key n e =
      let t = asked_tag opt in
      let c : CipherText = record { bytes = out; tag_size = t } in
      let long = laws.tagged size (asked_nonce opt) t key nonce message aad out n b.0 b.1 e in
      let fits = (==_iff (length nonce) (asked_nonce opt)).1 n in
      let call : GcmCall = record {
        key = key;
        nonce = nonce;
        message = out;
        aad = aad;
        seal = false;
      } in
      sealed c a b for_key n e refl (omega (arith, long, length-take (length out - t) out))
        (omega (arith, long, length-drop (length out - t) out))
        (rw (r, gcm_op-KeyFor aead call (asked_nonce opt) t size a b for_key, fits)
          (laws.inverse size (asked_nonce opt) t key nonce message aad out n b.0 b.1 e))

  with_key :
      (size : AesSize)
      → resolve_gcm_sizes opt ≡ ok (asked_nonce opt, asked_tag opt)
      → Allowed (asked_nonce opt)
      → Allowed (asked_tag opt)
      → KeyFor key size
      → GcmOutcome aead key nonce message aad opt (aes_encrypt_gcm aead key nonce message aad opt)
  unfolding aes_encrypt_gcm gcm_run
  with_key size r a b for_key =
      let n = asked_nonce opt in
      let t = asked_tag opt in
      let run = gcm_op-KeyFor aead encrypted_call n t size a b for_key in
      elim (Bool-cases (length nonce == n)) [
        | inr other ↦ rw (r, run, other) (wrong_nonce a b for_key (ground (arith, other)))
        | inl same ↦ elim (Result-cases (aead.seal size n t key nonce message aad)) [
          | inl (out, e) ↦
              rw (r, run, same, e)
                (seal-opens size out r a b for_key ((==_iff (length nonce) n).0 same) e)
          | inr (x, e) ↦
              rw (r, run, same, e) (seal_failed x a b for_key ((==_iff (length nonce) n).0 same) e)
        ]
      ]

  outcome_of :
      (sizes : Result CryptoError (ℕ × ℕ))
      → resolve_gcm_sizes opt ≡ sizes
      → Checked (asked_nonce opt) (asked_tag opt) sizes
      → GcmOutcome aead key nonce message aad opt (aes_encrypt_gcm aead key nonce message aad opt)
  unfolding aes_encrypt_gcm
  outcome_of sizes r (bad_nonce refused) = rw r (nonce_refused refused)
  outcome_of sizes r (bad_tag a refused) = rw r (tag_refused a refused)
  outcome_of sizes r (good a b) = elim (KeyFor-cases key) [
    | inl (size, for_key) ↦ with_key size r a b for_key
    | inr (x, y, z) ↦
        rw (r, gcm_op-no_key aead encrypted_call (asked_nonce opt) (asked_tag opt) x y z)
          (key_refused a b x y z)
  ]

  -- AES-GCM encryption, where a nonce size or a tag size of 0, or no options, ask for 12 and 16: a
  -- nonce size outside 12 to 16 is refused, then a tag size outside 12 to 16, then a key that is not
  -- of 16, 24 or 32 bytes, then a nonce of another size than asked. If none of these is so, the
  -- message is sealed by the cipher of the key at those sizes, or fails with its error; when it is
  -- sealed, the tag size is the one asked for, data and tag split the ciphertext at the length of
  -- the message, and decryption with the same key, nonce, associated data and options gives the
  -- message back, over any AEAD that opens what it seals at tag sizes of 12 to 16.
  pub aes_encrypt_gcm-GcmOutcome :
      GcmOutcome aead key nonce message aad opt (aes_encrypt_gcm aead key nonce message aad opt)
  aes_encrypt_gcm-GcmOutcome =
      outcome_of (resolve_gcm_sizes opt) refl (resolve_gcm_sizes-Checked opt)
