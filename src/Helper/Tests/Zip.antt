-- ===== src/Helper/Tests/Zip.antt =====
-- A ZIP archive of two entries, one of which needs ZIP64 sizes, and the theorem on it.
use neon_rs.Base.{ℕ, ◌+◌, ◌-◌, ◌≡◌, refl, List, [], ◌∷◌, arith, length, take, drop, false}
use neon_rs.Base.Result.{Result, ok, err}
use neon_rs.Crypto.Padding.{Bytes}
use neon_rs.Helper.Zip.{
  ArchiveEntry, is_utf8, entry_loop, entry_turn, parse_central_directory, header_truncated,
}
use neon_rs.Helper.Zip.Fields.{
  ExtraField, IsOther, extra_of, extra_fields, extra_field, zip64_extra, zip64_data, wide, narrow,
  needs_zip64,
}
use neon_rs.Helper.Zip.RoundTrip.{CdRecord, Fits, encode_all}
use neon_rs.Helper.Zip.Remote.{fetch_range, Response, find_signature_tail, open_archive}
use neon_rs.Helper.Zip.Entry.{open_entry, unsupported_method}
use neon_rs.Helper.Zip.Entry.Opened.{
  Reads, LocalFile, Locates, file_with, after_header, open_entry-content,
}
use neon_rs.Helper.Zip.Remote.Opened.{EndRecord, Plain, archive, ending, open_archive-entries}

abbrev small : ArchiveEntry
small = record {
  name = 0x61 ∷ 0xc3 ∷ 0xa9 ∷ [];
  compressed_size = 50;
  uncompressed_size = 100;
  compression_method = 8;
  local_header_offset = 0;
}

abbrev large : ArchiveEntry
large = record {
  name = 0x62 ∷ [];
  compressed_size = 0x1_0000_0000;
  uncompressed_size = 0xffff_ffff;
  compression_method = 0;
  local_header_offset = 83;
}

-- An extended timestamp.
abbrev timestamp : ExtraField
timestamp = record { id = 0x5455; payload = 1 ∷ 2 ∷ 3 ∷ 4 ∷ 5 ∷ [] }

timestamp-IsOther : IsOther timestamp
timestamp-IsOther = record {
  id_fits = omega arith;
  other = omega arith;
  payload_fits = omega arith;
}

abbrev record_of : ArchiveEntry → List ExtraField → Bytes → CdRecord
record_of e others comment = record {
  entry = e;
  version_made = 45;
  version_needed = 20;
  flags = 0;
  time = 0;
  date = 0;
  crc = 7;
  disk = 0;
  internal = 0;
  external = 0;
  extra_before = others;
  extra_after = others;
  comment = comment;
}

abbrev records : List CdRecord
records = record_of small [] (1 ∷ 2 ∷ []) ∷ record_of large (timestamp ∷ []) [] ∷ []

abbrev end : EndRecord
end = record {
  disk = 0;
  directory_disk = 0;
  entries_here = 2;
  entries_total = 2;
  comment = 0x50 ∷ 0x4b ∷ [];
}

abbrev before : Bytes
before = 0x50 ∷ 0x4b ∷ 3 ∷ 4 ∷ []

small-Fits : Fits (record_of small [] (1 ∷ 2 ∷ []))
unfolding is_utf8 extra_of extra_fields extra_field zip64_extra zip64_data wide needs_zip64
small-Fits = record {
  sizes = record {
    uncompressed_fits = omega arith;
    compressed_fits = omega arith;
    offset_fits = omega arith;
  };
  method = omega arith;
  name_length = omega arith;
  name_text = refl;
  others_before = tt;
  others_after = tt;
  extra_length = omega arith;
  comment_length = omega arith;
}

large-Fits : Fits (record_of large (timestamp ∷ []) [])
unfolding is_utf8 extra_of extra_fields extra_field zip64_extra zip64_data wide needs_zip64
large-Fits = record {
  sizes = record {
    uncompressed_fits = omega arith;
    compressed_fits = omega arith;
    offset_fits = omega arith;
  };
  method = omega arith;
  name_length = omega arith;
  name_text = refl;
  others_before = (timestamp-IsOther, tt);
  others_after = (timestamp-IsOther, tt);
  extra_length = omega arith;
  comment_length = omega arith;
}

abbrev directory_bytes : Bytes
directory_bytes = encode_all records []

abbrev file : Bytes
file = archive before directory_bytes end

abbrev serve : ℕ → ℕ → Result ℕ (Response ℕ)
serve start stop =
    ok (record { status = 206; body = ok (take (stop - start + 1) (drop start file)) })

archive-Plain : Plain before directory_bytes end
unfolding ending find_signature_tail encode_all extra_of extra_fields extra_field zip64_extra
    zip64_data wide narrow needs_zip64
archive-Plain = record {
  size_fits = omega arith;
  offset_fits = omega arith;
  comment_fits = omega arith;
  last_end = refl;
}

open_archive-entries_example : open_archive serve (length file) ≡ ok (small ∷ large ∷ [])
open_archive-entries_example =
    open_archive-entries serve archive-Plain records (λ start stop h k. refl) refl
      (small-Fits, (large-Fits, tt))

abbrev local : LocalFile
local = record {
  fields = 0x0403_4b50;
  name = 0x61 ∷ [];
  extra = 5 ∷ 6 ∷ [];
  content = 1 ∷ 2 ∷ 3 ∷ [];
}

abbrev located : ArchiveEntry
located = record {
  name = 0x61 ∷ [];
  compressed_size = 3;
  uncompressed_size = 9;
  compression_method = 8;
  local_header_offset = 4;
}

abbrev local_archive : Bytes
local_archive = file_with before local (7 ∷ 7 ∷ [])

abbrev serve_local : ℕ → ℕ → Result ℕ (Response ℕ)
serve_local start stop =
    ok (record { status = 206; body = ok (take (stop - start + 1) (drop start local_archive)) })

local-Locates : Locates before local (7 ∷ 7 ∷ []) located
unfolding file_with after_header
local-Locates = record {
  offset = refl;
  size = refl;
  name_fits = omega arith;
  extra_fits = omega arith;
  file_fits = omega arith;
}

open_entry-content_example : Reads 8 (1 ∷ 2 ∷ 3 ∷ []) (open_entry serve_local located)
open_entry-content_example =
    open_entry-content serve_local before local (7 ∷ 7 ∷ []) located (λ start stop h k. refl)
      local-Locates

-- An entry with a method that is neither stored nor deflated.
other_method :
    open_entry serve_local (record located { compression_method = 12 })
    ≡ err (unsupported_method 12)
unfolding open_entry fetch_range file_with after_header
other_method = refl

-- A directory cut inside a header.
truncated_directory : parse_central_directory (take 40 directory_bytes) ≡ err header_truncated
unfolding encode_all entry_loop entry_turn extra_of extra_fields extra_field zip64_extra zip64_data
    wide narrow needs_zip64
truncated_directory = refl

not_utf8 : is_utf8 (0xed ∷ 0xa0 ∷ 0x80 ∷ []) ≡ false
unfolding is_utf8
not_utf8 = refl
