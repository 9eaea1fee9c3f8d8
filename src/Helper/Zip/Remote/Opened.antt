-- ===== src/Helper/Zip/Remote/Opened.antt =====
-- crates/neon-helper/src/httpzip.rs: opening an archive that a server holds.
use neon_rs.Base.{
  ℕ, zero, suc, ◌+◌, ◌-◌, ◌%◌, ◌<◌, ◌≤◌, ◌≡◌, refl, ap, ◌∙◌, true, false, ◌&&◌, none, some, List,
  [], ◌∷◌, ◌++◌, map, All, arith, min, leb, ltb, ◌==◌, length, take, drop, length-append,
  length-drop, take-append, drop-append, inl, inr, Bool-cases,
}
use mathlib.Core.List.{append_assoc}
use neon_rs.Base.Result.{Result, ok}
use neon_rs.Crypto.Padding.{Bytes}
use neon_rs.Helper.Zip.{zip64_sentinel, parse_central_directory}
use neon_rs.Helper.Zip.Fields.{to_le_bytes, from_le_bytes_4}
use neon_rs.Helper.Zip.RoundTrip.{CdRecord, Fits, encode_all, parse_central_directory-encode_all}
use neon_rs.Helper.Zip.Remote.{
  eocd_signature, tail_search_limit, u64_modulus, Response, find_signature_tail, fetch_range,
  accept_range, directory_end, directory_fields, locate_central_directory, fetch_directory,
  open_archive, or_here,
}

-- The end record's fields beside the directory's size and offset.
pub record EndRecord : Type 0 where
  pub disk : ℕ
  pub directory_disk : ℕ
  pub entries_here : ℕ
  pub entries_total : ℕ
  pub comment : Bytes

abbrev pub end_record : EndRecord → ℕ → ℕ → Bytes
end_record r cd_size cd_offset =
    eocd_signature
    ++ to_le_bytes 2 r.disk
    ++ to_le_bytes 2 r.directory_disk
    ++ to_le_bytes 2 r.entries_here
    ++ to_le_bytes 2 r.entries_total
    ++ to_le_bytes 4 cd_size
    ++ to_le_bytes 4 cd_offset
    ++ to_le_bytes 2 (length r.comment)

unfoldable pub ending : EndRecord → ℕ → ℕ → Bytes
ending r cd_size cd_offset = end_record r cd_size cd_offset ++ r.comment

-- What stands before the directory, the directory, and the end record.
unfoldable pub archive : Bytes → Bytes → EndRecord → Bytes
unfolding ending
archive before cd r = (before ++ cd) ++ ending r (length cd) (length before)

-- A server that answers a range that starts within the file with 206 and the range's bytes, up to the
-- end of the file.
abbrev pub Serves : {X : Type 0} → (ℕ → ℕ → Result X (Response X)) → Bytes → Type 0
Serves get file =
    (start end : ℕ)
    → start ≤ end
    → start < length file
    → get start end
      ≡ ok (record { status = 206; body = ok (take (end - start + 1) (drop start file)) })

-- The archive has no ZIP64 end record, its end record lies in the searched tail, and no later bytes
-- look like one.
pub record Plain (before cd : Bytes) (r : EndRecord) : Type 0 where
  pub size_fits : length cd < zip64_sentinel
  pub offset_fits : length before < zip64_sentinel
  pub comment_fits : 22 + length r.comment ≤ tail_search_limit
  pub last_end :
      find_signature_tail (drop 1 (ending r (length cd) (length before))) eocd_signature ≡ none

drop-append_within : (n : ℕ) (xs ys : Bytes) → n ≤ length xs → drop n (xs ++ ys) ≡ drop n xs ++ ys
drop-append_within zero xs ys h = refl
drop-append_within (suc n) [] ys h = absurd (omega arith)
drop-append_within (suc n) (x ∷ xs) ys h = drop-append_within n xs ys (omega arith)

take_whole : (n : ℕ) (xs : Bytes) → length xs ≤ n → take n xs ≡ xs
take_whole zero [] h = refl
take_whole zero (x ∷ xs) h = absurd (omega arith)
take_whole (suc n) [] h = refl
take_whole (suc n) (x ∷ xs) h = rw (take_whole n xs (omega arith))

find_signature_tail-append :
    (xs ys s : Bytes) (i : ℕ)
    → find_signature_tail ys s ≡ some i
    → find_signature_tail (xs ++ ys) s ≡ some (length xs + i)
unfolding find_signature_tail
find_signature_tail-append [] ys s i h = h ∙ ap some (omega arith)
find_signature_tail-append (x ∷ xs) ys s i h =
    rw (find_signature_tail-append xs ys s i h) (ap some (omega arith))

-- The tail of an archive from position `n` on, when the end record lies in it.
drop-archive :
    (n : ℕ) (before cd : Bytes) (r : EndRecord)
    → n ≤ length before + length cd
    → drop n (archive before cd r) ≡ drop n (before ++ cd) ++ ending r (length cd) (length before)
unfolding archive
drop-archive n before cd r h =
    drop-append_within n (before ++ cd) (ending r (length cd) (length before))
      (rw (length-append before cd) h)

length-archive :
    (before cd : Bytes) (r : EndRecord)
    → length (archive before cd r) ≡ length before + length cd + 22 + length r.comment
unfolding archive ending
length-archive before cd r =
    let e = end_record r (length cd) (length before) ++ r.comment in
    let size : length e ≡ 22 + length r.comment = omega arith in
    rw (length-append (before ++ cd) e, length-append before cd) (omega arith)

pub no_bytes : (xs : Bytes) → (length xs == 0) ≡ true → xs ≡ []
no_bytes [] h = refl
no_bytes (x ∷ xs) h = absurd (ground arith)

directory_part :
    (before cd : Bytes) (r : EndRecord)
    → take (length cd) (drop (length before) (archive before cd r)) ≡ cd
unfolding archive
directory_part before cd r =
    let e = ending r (length cd) (length before) in
    rw (
      append_assoc before cd e,
      drop-append before (cd ++ e) (length before) refl,
      take-append cd e (length cd) refl,
    )

module _ {X : Type 0} (get : ℕ → ℕ → Result X (Response X)) where
  fetch_range-Serves :
      (file : Bytes) (start end : ℕ)
      → Serves get file
      → start ≤ end
      → start < length file
      → fetch_range get start end ≡ ok (take (end - start + 1) (drop start file))
  unfolding fetch_range accept_range
  fetch_range-Serves file start end served h k = rw (served start end h k)

  module _ {before cd : Bytes} {r : EndRecord} (plain : Plain before cd r) where
    ending-found :
        find_signature_tail (ending r (length cd) (length before)) eocd_signature ≡ some 0
    unfolding find_signature_tail ending
    ending-found = ap (λ o. or_here o true) plain.last_end

    -- From any tail that holds the end record, the directory's size and offset.
    locate_central_directory-ending :
        (pre : Bytes) (size : ℕ)
        → length before + length cd ≤ size
        → locate_central_directory get (pre ++ ending r (length cd) (length before)) size
          ≡ ok (length cd, length before)
    unfolding locate_central_directory directory_fields ending
    locate_central_directory-ending pre size h =
        let e = ending r (length cd) (length before) in
        let whole : leb 22 (length e) ≡ true = ground arith in
        let narrow_size : (length cd == zip64_sentinel) ≡ false = ground (arith, plain.size_fits) in
        let narrow_offset : (length before == zip64_sentinel) ≡ false =
          ground (arith, plain.offset_fits) in
        let inside : leb ((length before + length cd) % u64_modulus) size ≡ true =
          ground (arith, plain.size_fits, plain.offset_fits) in
        rw (
          find_signature_tail-append pre e eocd_signature 0 ending-found,
          drop-append pre e (length pre + 0) (omega arith),
          whole,
          from_le_bytes_4 (length cd) (omega (arith, plain.size_fits)),
          from_le_bytes_4 (length before) (omega (arith, plain.offset_fits)),
          narrow_size,
          narrow_offset,
          inside,
        )

    fetch_directory-archive :
        Serves get (archive before cd r) → fetch_directory get (length cd) (length before) ≡ ok cd
    unfolding fetch_directory directory_end
    fetch_directory-archive served =
        let stop = length before + length cd - 1 in
        elim (Bool-cases (length cd == 0)) [
          | inl none_held ↦ rw (none_held, no_bytes cd none_held)
          | inr held ↦
              let checked : (ltb (length before + length cd) u64_modulus
                    && leb 1 (length before + length cd))
                  ≡ true =
                ground (arith, plain.size_fits, plain.offset_fits) in
              let span : stop - length before + 1 ≡ length cd = ground arith in
              let file = archive before cd r in
              rw (held, checked)
                (fetch_range-Serves file (length before) stop served (ground arith)
                    (ground (arith, length-archive before cd r))
                  ∙ ap ok (
                      ap (λ n. take n (drop (length before) file)) span
                      ∙ directory_part before cd r))
        ]

    fetch_tail-archive :
        (size n : ℕ)
        → size ≡ length (archive before cd r)
        → n ≡ size - min size tail_search_limit
        → Serves get (archive before cd r)
        → fetch_range get n (size - 1)
          ≡ ok (drop n (before ++ cd) ++ ending r (length cd) (length before))
    fetch_tail-archive size n h k served =
        let file = archive before cd r in
        let tail_size = length-archive before cd r in
        let held : n ≤ length before + length cd = omega (arith, tail_size, plain.comment_fits) in
        let all : length (drop n file) ≤ size - 1 - n + 1 = omega (arith, length-drop n file) in
        fetch_range-Serves file n (size - 1) served (omega (arith, tail_size))
          (omega (arith, tail_size))
        ∙ ap ok (take_whole (size - 1 - n + 1) (drop n file) all ∙ drop-archive n before cd r held)

    -- Let a server answer the ranges of an archive with their bytes, the archive be `Plain`, and its
    -- directory hold records whose fields fit their widths and whose names are UTF-8: then `open`
    -- returns the records' entries, in their order.
    pub open_archive-entries :
        (rs : List CdRecord)
        → Serves get (archive before cd r)
        → cd ≡ encode_all rs []
        → All Fits rs
        → open_archive get (length (archive before cd r)) ≡ ok (map (λ x. x.entry) rs)
    unfolding open_archive
    open_archive-entries rs served e fit =
        let file = archive before cd r in
        let size = length file in
        let n = size - min size tail_search_limit in
        let more : leb 1 size ≡ true = ground (arith, length-archive before cd r) in
        let parsed : parse_central_directory cd ≡ ok (map (λ x. x.entry) rs) =
          rw e (parse_central_directory-encode_all rs [] fit refl) in
        rw (
          more,
          fetch_tail-archive size n refl refl served,
          locate_central_directory-ending (drop n (before ++ cd)) size
              (omega (arith, length-archive before cd r)),
          fetch_directory-archive served,
          parsed,
        )
