-- ===== src/Helper/Zip/Remote.antt =====
-- crates/neon-helper/src/httpzip.rs: `RemoteArchive::open` from the file's size on, and the ranged
-- requests. `get start end` is the client's GET of `bytes=start-end`; sums of 64-bit numbers that
-- the source does not check wrap around.
pub mod Opened
use neon_rs.Base.{
  ℕ, zero, suc, ◌+◌, ◌-◌, ◌%◌, Bool, true, false, ◌&&◌, ◌||◌, Option, none, some, List, [], ◌∷◌,
  min, leb, ltb, ◌==◌, if◌then◌else◌, length, take, drop,
}
use neon_rs.Base.Result.{Result, ok, err, ◌>>=◌, ensure, ok_or}
use neon_rs.Base.Eq.{list_beq, nat_eq}
use neon_rs.Crypto.Padding.{Bytes}
use neon_rs.Helper.Zip.{
  ArchiveEntry, ZipError, u32_at, u64_at, zip64_sentinel, parse_central_directory,
}

abbrev pub eocd_signature : Bytes
eocd_signature = 0x50 ∷ 0x4b ∷ 0x05 ∷ 0x06 ∷ []

abbrev pub zip64_locator_signature : Bytes
zip64_locator_signature = 0x50 ∷ 0x4b ∷ 0x06 ∷ 0x07 ∷ []

abbrev pub zip64_eocd_signature : Bytes
zip64_eocd_signature = 0x50 ∷ 0x4b ∷ 0x06 ∷ 0x06 ∷ []

abbrev pub tail_search_limit : ℕ
tail_search_limit = 0x1_0000

abbrev pub u64_modulus : ℕ
u64_modulus = 0x1_0000_0000_0000_0000

pub record Response (X : Type 0) : Type 0 where
  pub status : ℕ
  pub body : Result X Bytes

pub data RemoteError (X : Type 0) : Type 0 where
  request_failed body_failed : X → RemoteError X
  range_failed : ℕ → RemoteError X
  directory : ZipError → RemoteError X
  body_too_short zip_is_empty eocd_not_found eocd_too_short : RemoteError X
  locator_not_found locator_too_short invalid_eocd64 eocd64_too_short : RemoteError X
  directory_out_of_bounds range_overflow : RemoteError X

module _ {A X Y : Type 0} where
  abbrev pub map_err : (X → Y) → Result X A → Result Y A
  map_err f (ok a) = ok a
  map_err f (err x) = err (f x)

-- The last position of the signature: later positions go first.
abbrev pub or_here : Option ℕ → Bool → Option ℕ
or_here (some i) here = some (suc i)
or_here none true = some 0
or_here none false = none

unfoldable pub find_signature_tail : Bytes → Bytes → Option ℕ
find_signature_tail [] signature = none
find_signature_tail (b ∷ bs) signature =
    or_here (find_signature_tail bs signature)
      (list_beq (take (length signature) (b ∷ bs)) signature)

module _ {X : Type 0} where
  unfoldable pub accept_range : ℕ → ℕ → Response X → Result (RemoteError X) Bytes
  accept_range start end response =
      let expected = (end + u64_modulus - start + 1) % u64_modulus in
      if response.status == 206
      then map_err body_failed response.body
      else if (leb 200 response.status && ltb response.status 300) && start == 0
      then (map_err body_failed response.body >>= λ bytes.
          ensure (leb expected (length bytes)) body_too_short >>= λ u. ok (take expected bytes))
      else err (range_failed response.status)

  -- `checked_add` and `checked_sub` of the directory's range.
  unfoldable pub directory_end : ℕ → ℕ → Result (RemoteError X) ℕ
  directory_end cd_offset cd_size =
      ensure (ltb (cd_offset + cd_size) u64_modulus && leb 1 (cd_offset + cd_size)) range_overflow
      >>= λ u. ok (cd_offset + cd_size - 1)

module _ {X : Type 0} (get : ℕ → ℕ → Result X (Response X)) where
  unfoldable pub fetch_range : ℕ → ℕ → Result (RemoteError X) Bytes
  unfolding accept_range
  fetch_range start end = map_err request_failed (get start end) >>= accept_range start end

  -- The ZIP64 end record, where a 32-bit field of the end record is the sentinel.
  unfoldable pub zip64_directory : Bytes → Result (RemoteError X) (ℕ × ℕ)
  unfolding fetch_range find_signature_tail
  zip64_directory tail =
      ok_or (find_signature_tail tail zip64_locator_signature) locator_not_found >>= λ i.
      ensure (leb 16 (length (drop i tail))) locator_too_short >>= λ u.
      let at = u64_at (drop i tail) 8 in
      fetch_range at ((at + 55) % u64_modulus) >>= λ eocd.
      ensure (list_beq (take 4 eocd) zip64_eocd_signature) invalid_eocd64 >>= λ u.
      ensure (leb 56 (length eocd)) eocd64_too_short >>= λ u. ok (u64_at eocd 40, u64_at eocd 48)

  unfoldable pub directory_fields : Bytes → ℕ → ℕ → Result (RemoteError X) (ℕ × ℕ)
  unfolding zip64_directory
  directory_fields tail cd_size cd_offset =
      if cd_size == zip64_sentinel || cd_offset == zip64_sentinel
      then zip64_directory tail
      else ok (cd_size, cd_offset)

  unfoldable pub locate_central_directory : Bytes → ℕ → Result (RemoteError X) (ℕ × ℕ)
  unfolding directory_fields
  locate_central_directory tail size =
      ok_or (find_signature_tail tail eocd_signature) eocd_not_found >>= λ i.
      ensure (leb 22 (length (drop i tail))) eocd_too_short >>= λ u.
      directory_fields tail (u32_at (drop i tail) 12) (u32_at (drop i tail) 16) >>= λ d.
      ensure (leb ((d.1 + d.0) % u64_modulus) size) directory_out_of_bounds >>= λ u. ok d

  unfoldable pub fetch_directory : ℕ → ℕ → Result (RemoteError X) Bytes
  unfolding fetch_range directory_end
  fetch_directory cd_size cd_offset =
      if cd_size == 0
      then ok []
      else (directory_end cd_offset cd_size >>= λ cd_end. fetch_range cd_offset cd_end)

  -- `RemoteArchive::open`, for the file of `size` bytes.
  unfoldable pub open_archive : ℕ → Result (RemoteError X) (List ArchiveEntry)
  unfolding locate_central_directory fetch_directory
  open_archive size = ensure (leb 1 size) zip_is_empty >>= λ u.
      fetch_range (size - min size tail_search_limit) (size - 1) >>= λ tail.
      locate_central_directory tail size >>= λ d.
      fetch_directory d.0 d.1 >>= λ cd_data. map_err directory (parse_central_directory cd_data)
