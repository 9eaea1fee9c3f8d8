-- ===== src/Helper/Zip/RoundTrip.antt =====
-- crates/neon-helper/src/httpzip.rs: `parse_central_directory` reads back the entries of a central
-- directory laid out by the ZIP format.
use neon_rs.Base.{
  ℕ, zero, suc, ◌+◌, ◌<◌, ◌≤◌, ◌≡◌, refl, true, false, not, ◌||◌, List, [], ◌∷◌, ◌++◌, map, All,
  arith, leb, ltb, ◌==◌, length, length-append, take-append, drop-append, inl, inr, Bool-cases,
}
use neon_rs.Base.Result.{Result, ok, ◌>>=◌}
use neon_rs.Crypto.Padding.{Bytes}
use neon_rs.Helper.Zip.{
  u32_at, cd_header_signature, ArchiveEntry, Sizes, ZipError, is_utf8, entry_turn, entry_loop,
  parse_central_directory,
}
use neon_rs.Helper.Zip.Fields.{
  to_le_bytes, narrow, narrow_fits, extra_of, SizesFit, from_le_bytes_2, from_le_bytes_4,
  ExtraField, IsOther, real_sizes-extra_of,
}

-- An entry, with what its header holds beside it.
pub record CdRecord : Type 0 where
  pub entry : ArchiveEntry
  pub version_made : ℕ
  pub version_needed : ℕ
  pub flags : ℕ
  pub time : ℕ
  pub date : ℕ
  pub crc : ℕ
  pub disk : ℕ
  pub internal : ℕ
  pub external : ℕ
  -- The extra fields before and after the ZIP64 sizes.
  pub extra_before : List ExtraField
  pub extra_after : List ExtraField
  pub comment : Bytes

abbrev pub sizes_of : ArchiveEntry → Sizes
sizes_of e = record {
  uncompressed = e.uncompressed_size;
  compressed = e.compressed_size;
  offset = e.local_header_offset;
}

abbrev pub extra : CdRecord → Bytes
extra r = extra_of r.extra_before (sizes_of r.entry) r.extra_after

-- The 46 bytes before the name.
abbrev pub header : CdRecord → Bytes
header r =
    to_le_bytes 4 cd_header_signature
    ++ to_le_bytes 2 r.version_made
    ++ to_le_bytes 2 r.version_needed
    ++ to_le_bytes 2 r.flags
    ++ to_le_bytes 2 r.entry.compression_method
    ++ to_le_bytes 2 r.time
    ++ to_le_bytes 2 r.date
    ++ to_le_bytes 4 r.crc
    ++ to_le_bytes 4 (narrow r.entry.compressed_size)
    ++ to_le_bytes 4 (narrow r.entry.uncompressed_size)
    ++ to_le_bytes 2 (length r.entry.name)
    ++ to_le_bytes 2 (length (extra r))
    ++ to_le_bytes 2 (length r.comment)
    ++ to_le_bytes 2 r.disk
    ++ to_le_bytes 2 r.internal
    ++ to_le_bytes 4 r.external
    ++ to_le_bytes 4 (narrow r.entry.local_header_offset)

unfoldable pub body : CdRecord → Bytes → Bytes
body r rest = r.entry.name ++ (extra r ++ (r.comment ++ rest))

unfoldable pub encode : CdRecord → Bytes → Bytes
unfolding body
encode r rest = header r ++ body r rest

unfoldable pub encode_all : List CdRecord → Bytes → Bytes
unfolding encode
encode_all [] trailer = trailer
encode_all (r ∷ rs) trailer = encode r (encode_all rs trailer)

-- The fields fit their widths, the name is UTF-8, and the extra fields beside the ZIP64 sizes have
-- other ids.
pub record Fits (r : CdRecord) : Type 0 where
  pub sizes : SizesFit (sizes_of r.entry)
  pub method : r.entry.compression_method < 0x1_0000
  pub name_length : length r.entry.name < 0x1_0000
  pub name_text : is_utf8 r.entry.name ≡ true
  pub others_before : All IsOther r.extra_before
  pub others_after : All IsOther r.extra_after
  pub extra_length : length (extra r) < 0x1_0000
  pub comment_length : length r.comment < 0x1_0000

-- No header begins here: fewer than four bytes, or another signature.
abbrev pub Stops : Bytes → Type 0
Stops bytes = (ltb (length bytes) 4 || not (u32_at bytes 0 == cd_header_signature)) ≡ true

within : (a b : ℕ) → a ≤ b → leb a b ≡ true
within a b h = ground arith

length-body :
    (r : CdRecord) (rest : Bytes)
    → length (body r rest)
      ≡ length r.entry.name + (length (extra r) + (length r.comment + length rest))
unfolding body
length-body r rest = rw (
  length-append r.entry.name (extra r ++ (r.comment ++ rest)),
  length-append (extra r) (r.comment ++ rest),
  length-append r.comment rest,
)

length-encode : (r : CdRecord) (rest : Bytes) → length rest < length (encode r rest)
unfolding encode
length-encode r rest = omega (arith, length-body r rest)

entry_turn-encode :
    (next : Bytes → Result ZipError (List ArchiveEntry)) (r : CdRecord) (rest : Bytes)
    → Fits r
    → entry_turn next (encode r rest) ≡ (next rest >>= λ entries. ok (r.entry ∷ entries))
unfolding entry_turn encode
entry_turn-encode next r rest fit =
    let b = body r rest in
    let n = length r.entry.name in
    let m = length (extra r) in
    let short : ltb (length (header r ++ b)) 4 ≡ false = ground arith in
    let whole : leb 46 (length (header r ++ b)) ≡ true = ground arith in
    let inside : leb (46 + n + m) (length (header r ++ b)) ≡ true =
      within (46 + n + m) (length (header r ++ b)) (omega (arith, length-body r rest)) in
    let after_name = extra r ++ (r.comment ++ rest) in
    rw (
      short,
      whole,
      from_le_bytes_2 n fit.name_length,
      from_le_bytes_2 m fit.extra_length,
      from_le_bytes_2 (length r.comment) fit.comment_length,
      from_le_bytes_2 r.entry.compression_method fit.method,
      from_le_bytes_4 (narrow r.entry.compressed_size) (narrow_fits r.entry.compressed_size),
      from_le_bytes_4 (narrow r.entry.uncompressed_size) (narrow_fits r.entry.uncompressed_size),
      from_le_bytes_4 (narrow r.entry.local_header_offset)
          (narrow_fits r.entry.local_header_offset),
      inside,
      take-append r.entry.name after_name n refl,
      drop-append r.entry.name after_name n refl,
      take-append (extra r) (r.comment ++ rest) m refl,
      drop-append (extra r) (r.comment ++ rest) m refl,
      drop-append r.comment rest (length r.comment) refl,
      fit.name_text,
      real_sizes-extra_of r.extra_before (sizes_of r.entry) r.extra_after fit.sizes
          fit.others_before fit.others_after,
    )

entry_turn-Stops :
    (next : Bytes → Result ZipError (List ArchiveEntry)) (bytes : Bytes)
    → Stops bytes
    → entry_turn next bytes ≡ ok []
unfolding entry_turn
entry_turn-Stops next bytes stop = elim (Bool-cases (ltb (length bytes) 4)) [
  | inl short ↦ rw short
  | inr long ↦
      let other : not (u32_at bytes 0 == cd_header_signature) ≡ true = rw long at stop in
      rw (long, other)
]

length-encode_all :
    (rs : List CdRecord) (trailer : Bytes) → length rs ≤ length (encode_all rs trailer)
unfolding encode_all
length-encode_all [] trailer = omega arith
length-encode_all (r ∷ rs) trailer =
    omega (arith, length-encode_all rs trailer, length-encode r (encode_all rs trailer))

entry_loop-encode_all :
    (fuel : ℕ) (rs : List CdRecord) (trailer : Bytes)
    → length rs < fuel
    → All Fits rs
    → Stops trailer
    → entry_loop fuel (encode_all rs trailer) ≡ ok (map (λ r. r.entry) rs)
unfolding entry_loop encode_all
entry_loop-encode_all zero rs trailer h fit stop = absurd (omega arith)
entry_loop-encode_all (suc fuel) [] trailer h fit stop =
    entry_turn-Stops (entry_loop fuel) trailer stop
entry_loop-encode_all (suc fuel) (r ∷ rs) trailer h (f, fit) stop = rw (
  entry_turn-encode (entry_loop fuel) r (encode_all rs trailer) f,
  entry_loop-encode_all fuel rs trailer (omega arith) fit stop,
)

-- For records whose fields fit their widths and whose names are UTF-8, followed by bytes that begin
-- no header, `parse_central_directory` returns the records' entries, in their order.
pub parse_central_directory-encode_all :
    (rs : List CdRecord) (trailer : Bytes)
    → All Fits rs
    → Stops trailer
    → parse_central_directory (encode_all rs trailer) ≡ ok (map (λ r. r.entry) rs)
parse_central_directory-encode_all rs trailer fit stop =
    entry_loop-encode_all (suc (length (encode_all rs trailer))) rs trailer
      (omega (arith, length-encode_all rs trailer)) fit stop
