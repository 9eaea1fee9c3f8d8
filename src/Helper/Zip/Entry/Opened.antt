-- ===== src/Helper/Zip/Entry/Opened.antt =====
-- crates/neon-helper/src/httpzip.rs: reading an entry of an archive that a server holds.
use neon_rs.Base.{
  subst, ==_iff, ◌≢◌, ℕ, ◌+◌, ◌-◌, ◌%◌, ◌<◌, ◌≡◌, refl, ap, sym, ◌∙◌, true, ◌&&◌, ◌++◌, arith, leb,
  ltb, ◌==◌, length, take, drop, length-append, take-append, drop-append, inl, inr, Bool-cases,
}
use neon_rs.Base.Result.{Result, ok, err}
use neon_rs.Crypto.Padding.{Bytes}
use neon_rs.Crypto.Padding.Blocks.{drop-drop}
use neon_rs.Helper.Zip.{ArchiveEntry}
use neon_rs.Helper.Zip.Fields.{to_le_bytes, from_le_bytes_2}
use neon_rs.Helper.Zip.Remote.{u64_modulus, Response, fetch_range, accept_range}
use neon_rs.Helper.Zip.Remote.Opened.{Serves, no_bytes}
use neon_rs.Helper.Zip.Entry.{
  EntryReader, EntryError, unsupported_method, accept_stream, by_method, fetch_range_stream,
  entry_body, open_entry,
}

-- A local header with what follows it. Its first 26 bytes, which `open` does not read, are a number.
pub record LocalFile : Type 0 where
  pub fields : ℕ
  pub name : Bytes
  pub extra : Bytes
  pub content : Bytes

abbrev pub local_header : LocalFile → Bytes
local_header f =
    to_le_bytes 26 f.fields ++ to_le_bytes 2 (length f.name) ++ to_le_bytes 2 (length f.extra)

unfoldable pub after_header : LocalFile → Bytes → Bytes
after_header f after = f.name ++ (f.extra ++ (f.content ++ after))

unfoldable pub file_with : Bytes → LocalFile → Bytes → Bytes
unfolding after_header
file_with before f after = before ++ (local_header f ++ after_header f after)

-- The entry of the directory points at the header, and all fits its width.
pub record Locates (before : Bytes) (f : LocalFile) (after : Bytes) (e : ArchiveEntry)
    : Type 0 where
  pub offset : e.local_header_offset ≡ length before
  pub size : e.compressed_size ≡ length f.content
  pub name_fits : length f.name < 0x1_0000
  pub extra_fits : length f.extra < 0x1_0000
  pub file_fits : length (file_with before f after) < 0xffff_ffff_ffff_0000

module _ (before : Bytes) (f : LocalFile) (after : Bytes) where
  drop-file_with :
      drop (length before) (file_with before f after) ≡ local_header f ++ after_header f after
  unfolding file_with
  drop-file_with = drop-append before (local_header f ++ after_header f after) (length before) refl

  length-file_with :
      length (file_with before f after)
      ≡ length before + 30 + length f.name + length f.extra + length f.content + length after
  unfolding file_with after_header
  length-file_with =
      let whole : length (local_header f ++ after_header f after)
          ≡ 30 + length (after_header f after) =
        omega arith in
      rw
        (
          length-append before (local_header f ++ after_header f after),
          whole,
          length-append f.name (f.extra ++ (f.content ++ after)),
          length-append f.extra (f.content ++ after),
          length-append f.content after,
        )
        (omega arith)

  drop-content :
      drop (length before + 30 + length f.name + length f.extra) (file_with before f after)
      ≡ f.content ++ after
  unfolding after_header
  drop-content =
      let b = length before in
      let file = file_with before f after in
      sym (
        drop-drop (length f.extra) (b + 30 + length f.name)
          (b + 30 + length f.name + length f.extra) file refl)
      ∙ ap (drop (length f.extra)) (
          sym (drop-drop (length f.name) (b + 30) (b + 30 + length f.name) file refl)
          ∙ ap (drop (length f.name))
              (sym (drop-drop 30 b (b + 30) file refl) ∙ ap (drop 30) drop-file_with)
          ∙ drop-append f.name (f.extra ++ (f.content ++ after)) (length f.name) refl)
      ∙ drop-append f.extra (f.content ++ after) (length f.extra) refl

-- What reading content that was stored with a method gives.
pub data Reads {X : Type 0} (method : ℕ) (content : Bytes)
    : Result (EntryError X) (EntryReader X) → Type 0 where
  stored : method ≡ 0 → Reads method content (ok (EntryReader.stored (ok content)))
  deflated : method ≡ 8 → Reads method content (ok (EntryReader.deflated (ok content)))
  unsupported : method ≢ 0 → method ≢ 8 → Reads method content (err (unsupported_method method))

by_method-Reads :
    {X : Type 0} (method : ℕ) (content : Bytes)
    → Reads {X = X} method content (by_method method (ok content))
unfolding by_method
by_method-Reads method content = elim (Bool-cases (method == 0)) [
  | inl zero_there ↦ rw zero_there (stored ((==_iff method 0).0 zero_there))
  | inr not_zero ↦ elim (Bool-cases (method == 8)) [
    | inl eight ↦ rw (not_zero, eight) (deflated ((==_iff method 8).0 eight))
    | inr not_eight ↦ rw (not_zero, not_eight) (unsupported (ground arith) (ground arith))
  ]
]

module _ {X : Type 0} (get : ℕ → ℕ → Result X (Response X)) where
  header-Serves :
      (before : Bytes) (f : LocalFile) (after : Bytes) (file : Bytes)
      → file ≡ file_with before f after
      → Serves get file
      → length file < 0xffff_ffff_ffff_0000
      → fetch_range get (length before) ((length before + 30 + 256) % u64_modulus)
        ≡ ok (take 287 (local_header f ++ after_header f after))
  unfolding fetch_range accept_range
  header-Serves before f after file same served small =
      let b = length before in
      let size = ap length same ∙ length-file_with before f after in
      let end : (b + 30 + 256) % u64_modulus ≡ b + 286 = omega (arith, size) in
      let span : b + 286 - b + 1 ≡ 287 = omega arith in
      rw (end, served b (b + 286) (omega arith) (omega (arith, size)), span)
        (ap (λ x. ok (take 287 x)) (ap (drop b) same ∙ drop-file_with before f after))

  entry_body-content :
      (before : Bytes) (f : LocalFile) (after : Bytes) (file : Bytes)
      → file ≡ file_with before f after
      → Serves get file
      → length file < 0xffff_ffff_ffff_0000
      → entry_body get (length before + 30 + length f.name + length f.extra) (length f.content)
        ≡ ok (ok f.content)
  unfolding entry_body fetch_range_stream accept_stream
  entry_body-content before f after file same served small =
      let at = length before + 30 + length f.name + length f.extra in
      let n = length f.content in
      let size = ap length same ∙ length-file_with before f after in
      elim (Bool-cases (n == 0)) [
        | inl none_held ↦ rw (none_held, no_bytes f.content none_held)
        | inr held ↦
            let checked : (ltb (at + n) u64_modulus && leb 1 (at + n)) ≡ true =
              ground (arith, size) in
            let span : at + n - 1 - at + 1 ≡ n = ground arith in
            rw (held, checked, served at (at + n - 1) (ground arith) (ground (arith, size)), span)
              (ap (λ x. ok (ok (take n x))) (ap (drop at) same ∙ drop-content before f after)
                ∙ ap (λ x. ok (ok x)) (take-append f.content after n refl))
      ]

  open_entry-by_method :
      (before : Bytes) (f : LocalFile) (after : Bytes) (e : ArchiveEntry)
      → Serves get (file_with before f after)
      → Locates before f after e
      → open_entry get e ≡ by_method e.compression_method (ok f.content)
  unfolding open_entry
  open_entry-by_method before f after e served there =
      let header = take 287 (local_header f ++ after_header f after) in
      let long : leb 30 (length header) ≡ true = ground arith in
      let file = file_with before f after in
      let start : (length before + 30 + length f.name + length f.extra) % u64_modulus
          ≡ length before + 30 + length f.name + length f.extra =
        omega (arith, there.file_fits, length-file_with before f after) in
      rw (
        there.offset,
        there.size,
        header-Serves before f after file refl served there.file_fits,
        long,
        from_le_bytes_2 (length f.name) there.name_fits,
        from_le_bytes_2 (length f.extra) there.extra_fits,
        start,
        entry_body-content before f after file refl served there.file_fits,
      )

  -- Let a server answer the ranges of a file of fewer than 2^64 - 2^16 bytes, and the entry have the
  -- offset of a local header and the size of the content behind that header's name and extra data:
  -- then `open` reads that content, stored for method 0, deflated for method 8, and fails with the
  -- method for any other.
  pub open_entry-content :
      (before : Bytes) (f : LocalFile) (after : Bytes) (e : ArchiveEntry)
      → Serves get (file_with before f after)
      → Locates before f after e
      → Reads e.compression_method f.content (open_entry get e)
  open_entry-content before f after e served there =
      subst (Reads e.compression_method f.content)
        (sym (open_entry-by_method before f after e served there))
        (by_method-Reads e.compression_method f.content)
