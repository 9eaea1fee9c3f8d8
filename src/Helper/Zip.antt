-- ===== src/Helper/Zip.antt =====
-- crates/neon-helper/src/httpzip.rs: the parsing of a ZIP archive's central directory. A byte is a
-- number below 256 and a string is its bytes. A position in the data is the rest of the data from
-- there on. The loops are on fuel, one more than the number of bytes, since every turn that goes on
-- leaves bytes behind; `out_of_fuel` is an error of the model alone.
pub mod Fields
pub mod RoundTrip
pub mod Remote
pub mod Entry
use neon_rs.Base.{
  ℕ, zero, suc, ◌+◌, ◌*◌, ◌-◌, Bool, true, false, not, ◌&&◌, ◌||◌, Option, none, some, List, [],
  ◌∷◌, leb, ltb, ◌==◌, if◌then◌else◌, length, take, drop,
}
use neon_rs.Base.Result.{Result, ok, err, ◌>>=◌, ensure}
use neon_rs.Crypto.Padding.{Bytes}

-- `from_le_bytes`, at every width.
abbrev pub from_le_bytes : Bytes → ℕ
from_le_bytes [] = 0
from_le_bytes (b ∷ bs) = b + 256 * from_le_bytes bs

abbrev pub u16_at : Bytes → ℕ → ℕ
u16_at bytes i = from_le_bytes (take 2 (drop i bytes))

abbrev pub u32_at : Bytes → ℕ → ℕ
u32_at bytes i = from_le_bytes (take 4 (drop i bytes))

abbrev pub u64_at : Bytes → ℕ → ℕ
u64_at bytes i = from_le_bytes (take 8 (drop i bytes))

abbrev pub cd_header_signature : ℕ
cd_header_signature = 0x0201_4b50

abbrev pub zip64_sentinel : ℕ
zip64_sentinel = 0xffff_ffff

pub data ZipError : Type 0 where
  header_truncated entry_out_of_range invalid_name extra_truncated : ZipError
  missing_uncompressed_size missing_compressed_size missing_offset out_of_fuel : ZipError

pub record ArchiveEntry : Type 0 where
  pub name : Bytes
  pub compressed_size : ℕ
  pub uncompressed_size : ℕ
  pub compression_method : ℕ
  pub local_header_offset : ℕ

pub record Sizes : Type 0 where
  pub uncompressed : ℕ
  pub compressed : ℕ
  pub offset : ℕ

-- `std::str::from_utf8`: the bytes that begin a character, how many follow one, and the bounds of
-- the next byte.
utf8_lead : ℕ → Bool
utf8_lead b = ltb b 0x80 || (leb 0xc2 b && ltb b 0xf5)

utf8_need : ℕ → ℕ
utf8_need b = if ltb b 0x80 then 0 else if ltb b 0xe0 then 1 else if ltb b 0xf0 then 2 else 3

utf8_low : ℕ → ℕ
utf8_low b = if b == 0xe0 then 0xa0 else if b == 0xf0 then 0x90 else 0x80

utf8_high : ℕ → ℕ
utf8_high b = if b == 0xed then 0x9f else if b == 0xf4 then 0x8f else 0xbf

utf8_follows : ℕ → ℕ → ℕ → Bytes → Bool
unfolding utf8_lead utf8_need utf8_low utf8_high
utf8_follows zero low high [] = true
utf8_follows (suc n) low high [] = false
utf8_follows zero low high (b ∷ bs) =
    utf8_lead b && utf8_follows (utf8_need b) (utf8_low b) (utf8_high b) bs
utf8_follows (suc n) low high (b ∷ bs) = leb low b && leb b high && utf8_follows n 0x80 0xbf bs

unfoldable pub is_utf8 : Bytes → Bool
unfolding utf8_follows
is_utf8 bytes = utf8_follows 0 0 0 bytes

-- A 64-bit field of the ZIP64 extra data, read where the 32-bit field holds the sentinel.
unfoldable pub read_field : ZipError → ℕ → Bytes → Result ZipError (ℕ × Bytes)
read_field missing value extra =
    if value == zip64_sentinel
    then (ensure (leb 8 (length extra)) missing >>= λ u. ok (u64_at extra 0, drop 8 extra))
    else ok (value, extra)

unfoldable pub read_sizes : Sizes → Bytes → Result ZipError Sizes
unfolding read_field
read_sizes s extra = read_field missing_uncompressed_size s.uncompressed extra >>= λ a.
    read_field missing_compressed_size s.compressed a.1 >>= λ b.
    read_field missing_offset s.offset b.1 >>= λ c.
    ok (record { uncompressed = a.0; compressed = b.0; offset = c.0 })

-- One turn of the loop over the extra fields.
unfoldable pub extra_turn :
    (Sizes → Bytes → Result ZipError Sizes) → Sizes → Bytes → Result ZipError Sizes
unfolding read_sizes
extra_turn next s extra =
    if ltb (length extra) 4
    then ok s
    else (let data_size = u16_at extra 2 in
        ensure (leb data_size (length (drop 4 extra))) extra_truncated >>= λ u.
        (if u16_at extra 0 == 0x0001 then read_sizes s (drop 4 extra) else ok s) >>= λ s'.
        next s' (drop data_size (drop 4 extra)))

unfoldable pub extra_loop : ℕ → Sizes → Bytes → Result ZipError Sizes
unfolding extra_turn
extra_loop zero s extra = err out_of_fuel
extra_loop (suc fuel) s extra = extra_turn (extra_loop fuel) s extra

abbrev pub parse_zip64_extra : Bytes → Sizes → Result ZipError Sizes
parse_zip64_extra extra s = extra_loop (suc (length extra)) s extra

unfoldable pub real_sizes : Bytes → Sizes → Result ZipError Sizes
real_sizes extra s =
    if s.compressed == zip64_sentinel
      || s.uncompressed == zip64_sentinel
      || s.offset == zip64_sentinel
    then parse_zip64_extra extra s
    else ok s

-- The entry whose header, name and extra data are read, and the loop's next turns.
unfoldable pub entry_turn :
    (Bytes → Result ZipError (List ArchiveEntry)) → Bytes → Result ZipError (List ArchiveEntry)
entry_turn next bytes =
    if ltb (length bytes) 4
    then ok []
    else if not (u32_at bytes 0 == cd_header_signature)
    then ok []
    else (let name_len = u16_at bytes 28 in
        let extra_len = u16_at bytes 30 in
        let comment_len = u16_at bytes 32 in
        let after_name = drop name_len (drop 46 bytes) in
        let name = take name_len (drop 46 bytes) in
        ensure (leb 46 (length bytes)) header_truncated >>= λ u.
        ensure (leb (46 + name_len + extra_len) (length bytes)) entry_out_of_range >>= λ u.
        ensure (is_utf8 name) invalid_name >>= λ u.
        real_sizes (take extra_len after_name) (record {
          uncompressed = u32_at bytes 24;
          compressed = u32_at bytes 20;
          offset = u32_at bytes 42;
        })
        >>= λ s. next (drop comment_len (drop extra_len after_name)) >>= λ entries. ok (
            record {
              name = name;
              compressed_size = s.compressed;
              uncompressed_size = s.uncompressed;
              compression_method = u16_at bytes 10;
              local_header_offset = s.offset;
            }
            ∷ entries))

unfoldable pub entry_loop : ℕ → Bytes → Result ZipError (List ArchiveEntry)
unfolding entry_turn
entry_loop zero bytes = err out_of_fuel
entry_loop (suc fuel) bytes = entry_turn (entry_loop fuel) bytes

abbrev pub parse_central_directory : Bytes → Result ZipError (List ArchiveEntry)
parse_central_directory bytes = entry_loop (suc (length bytes)) bytes
