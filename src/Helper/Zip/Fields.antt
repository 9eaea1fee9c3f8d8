-- ===== src/Helper/Zip/Fields.antt =====
-- crates/neon-helper/src/httpzip.rs: what a writer of a ZIP archive puts in its central directory:
-- the little-endian fields, the ZIP64 extra data and a header's layout, read back.
use neon_rs.Base.{
  All, ◌∙◌, ◌+◌, ◌≢◌, drop-append, List, ℕ, zero, suc, ◌/◌, ◌%◌, ◌<◌, ◌≤◌, ◌≡◌, refl, Bool, true,
  false, ◌||◌, [], ◌∷◌, ◌++◌, min, arith, leb, ltb, ◌==◌, if◌then◌else◌, length, length-append, inl,
  inr, Bool-cases,
}
use mathlib.Core.List.{append_assoc}
use neon_rs.Base.Result.{Result, ok}
use neon_rs.Crypto.Padding.{Bytes}
use neon_rs.Helper.Zip.{
  from_le_bytes, zip64_sentinel, Sizes, ZipError, missing_uncompressed_size,
  missing_compressed_size, missing_offset, read_field, read_sizes, extra_turn, extra_loop,
  real_sizes,
}

abbrev pub to_le_bytes : ℕ → ℕ → Bytes
to_le_bytes zero n = []
to_le_bytes (suc w) n = n % 256 ∷ to_le_bytes w (n / 256)

unfoldable pub narrow : ℕ → ℕ
narrow n = min n zip64_sentinel

unfoldable pub wide : ℕ → Bytes
wide n = if leb zip64_sentinel n then to_le_bytes 8 n else []

-- The sizes that do not fit, under the header 0x0001.
unfoldable pub zip64_data : Sizes → Bytes
zip64_data s = wide s.uncompressed ++ (wide s.compressed ++ wide s.offset)

unfoldable pub zip64_extra : Sizes → Bytes → Bytes
zip64_extra s rest =
    to_le_bytes 2 0x0001 ++ (to_le_bytes 2 (length (zip64_data s)) ++ (zip64_data s ++ rest))

-- Any other extra field.
pub record ExtraField : Type 0 where
  pub id : ℕ
  pub payload : Bytes

unfoldable pub extra_field : ExtraField → Bytes → Bytes
extra_field x rest = to_le_bytes 2 x.id ++ (to_le_bytes 2 (length x.payload) ++ (x.payload ++ rest))

unfoldable pub extra_fields : List ExtraField → Bytes → Bytes
extra_fields [] rest = rest
extra_fields (x ∷ xs) rest = extra_field x (extra_fields xs rest)

pub record IsOther (x : ExtraField) : Type 0 where
  pub id_fits : x.id < 0x1_0000
  pub other : x.id ≢ 0x0001
  pub payload_fits : length x.payload < 0x1_0000

pub from_le_bytes_2 : (n : ℕ) → n < 0x1_0000 → from_le_bytes (to_le_bytes 2 n) ≡ n
from_le_bytes_2 n h = omega arith

pub from_le_bytes_4 : (n : ℕ) → n < 0x1_0000_0000 → from_le_bytes (to_le_bytes 4 n) ≡ n
from_le_bytes_4 n h = omega arith

pub from_le_bytes_8 : (n : ℕ) → n < 0x1_0000_0000_0000_0000 → from_le_bytes (to_le_bytes 8 n) ≡ n
from_le_bytes_8 n h = omega arith

abbrev pub narrowed : Sizes → Sizes
narrowed s = record {
  uncompressed = narrow s.uncompressed;
  compressed = narrow s.compressed;
  offset = narrow s.offset;
}

unfoldable pub needs_zip64 : Sizes → Bool
needs_zip64 s =
    leb zip64_sentinel s.compressed
    || leb zip64_sentinel s.uncompressed
    || leb zip64_sentinel s.offset

zip64_part : Sizes → Bytes → Bytes
zip64_part s rest = if needs_zip64 s then zip64_extra s rest else rest

-- The extra data: the ZIP64 sizes, where they are needed, among other fields.
unfoldable pub extra_of : List ExtraField → Sizes → List ExtraField → Bytes
unfolding zip64_part
extra_of xs s ys = extra_fields xs (zip64_part s (extra_fields ys []))

pub record SizesFit (s : Sizes) : Type 0 where
  pub uncompressed_fits : s.uncompressed < 0x1_0000_0000_0000_0000
  pub compressed_fits : s.compressed < 0x1_0000_0000_0000_0000
  pub offset_fits : s.offset < 0x1_0000_0000_0000_0000

narrow-sentinel : (n : ℕ) → (narrow n == zip64_sentinel) ≡ leb zip64_sentinel n
unfolding narrow
narrow-sentinel n = ground arith

pub narrow_fits : (n : ℕ) → narrow n < 0x1_0000_0000
unfolding narrow
narrow_fits n = omega arith

narrow-small : (n : ℕ) → leb zip64_sentinel n ≡ false → narrow n ≡ n
unfolding narrow
narrow-small n h = ground arith

read_field-wide :
    (e : ZipError) (n : ℕ) (rest : Bytes)
    → n < 0x1_0000_0000_0000_0000
    → read_field e (narrow n) (wide n ++ rest) ≡ ok (n, rest)
unfolding read_field wide
read_field-wide e n rest h = elim (Bool-cases (leb zip64_sentinel n)) [
  | inl big ↦
      let held : leb 8 (length (to_le_bytes 8 n ++ rest)) ≡ true = ground arith in
      rw (narrow-sentinel n, big, held, from_le_bytes_8 n h)
  | inr small ↦ let same = narrow-small n small in rw (narrow-sentinel n, small, same)
]

read_sizes-zip64_data :
    (s : Sizes) (rest : Bytes) → SizesFit s → read_sizes (narrowed s) (zip64_data s ++ rest) ≡ ok s
unfolding read_sizes zip64_data
read_sizes-zip64_data s rest fit = rw (
  append_assoc (wide s.uncompressed) (wide s.compressed ++ wide s.offset) rest,
  append_assoc (wide s.compressed) (wide s.offset) rest,
  read_field-wide missing_uncompressed_size s.uncompressed
      (wide s.compressed ++ (wide s.offset ++ rest)) fit.uncompressed_fits,
  read_field-wide missing_compressed_size s.compressed (wide s.offset ++ rest) fit.compressed_fits,
  read_field-wide missing_offset s.offset rest fit.offset_fits,
)

length-wide : (n : ℕ) → length (wide n) ≤ 8
unfolding wide
length-wide n = elim (Bool-cases (leb zip64_sentinel n)) [
  | inl big ↦ rw big (omega arith)
  | inr small ↦ rw small (omega arith)
]

length-zip64_data : (s : Sizes) → length (zip64_data s) ≤ 24
unfolding zip64_data
length-zip64_data s =
    rw
      (
        length-append (wide s.uncompressed) (wide s.compressed ++ wide s.offset),
        length-append (wide s.compressed) (wide s.offset),
      )
      (omega (arith, length-wide s.uncompressed, length-wide s.compressed, length-wide s.offset))

extra_turn-zip64_extra :
    (next : Sizes → Bytes → Result ZipError Sizes) (s : Sizes) (rest : Bytes)
    → SizesFit s
    → extra_turn next (narrowed s) (zip64_extra s rest) ≡ next s rest
unfolding extra_turn zip64_extra
extra_turn-zip64_extra next s rest fit =
    let d = zip64_data s in
    let n = length d in
    let size : from_le_bytes (to_le_bytes 2 n) ≡ n =
      from_le_bytes_2 n (omega (arith, length-zip64_data s)) in
    let fits : leb n (length (d ++ rest)) ≡ true = ground (arith, length-append d rest) in
    let long : ltb (length (zip64_extra s rest)) 4 ≡ false = ground arith in
    rw (long, size, fits, read_sizes-zip64_data s rest fit, drop-append d rest n refl)

extra_turn-IsOther :
    (next : Sizes → Bytes → Result ZipError Sizes) (s : Sizes) (x : ExtraField) (rest : Bytes)
    → IsOther x
    → extra_turn next s (extra_field x rest) ≡ next s rest
unfolding extra_turn extra_field
extra_turn-IsOther next s x rest h =
    let n = length x.payload in
    let fits : leb n (length (x.payload ++ rest)) ≡ true =
      ground (arith, length-append x.payload rest) in
    let long : ltb (length (extra_field x rest)) 4 ≡ false = ground arith in
    let no_sizes : (x.id == 0x0001) ≡ false = ground (arith, h.other) in
    rw (
      long,
      from_le_bytes_2 n h.payload_fits,
      from_le_bytes_2 x.id h.id_fits,
      fits,
      no_sizes,
      drop-append x.payload rest n refl,
    )

extra_turn-empty :
    (next : Sizes → Bytes → Result ZipError Sizes) (s : Sizes) → extra_turn next s [] ≡ ok s
unfolding extra_turn
extra_turn-empty next s = refl

extra_loop-others :
    (s : Sizes) (ys : List ExtraField) (fuel : ℕ)
    → All IsOther ys
    → length ys < fuel
    → extra_loop fuel s (extra_fields ys []) ≡ ok s
unfolding extra_loop extra_fields
extra_loop-others s ys zero h k = absurd (omega arith)
extra_loop-others s [] (suc fuel) h k = extra_turn-empty (extra_loop fuel) s
extra_loop-others s (y ∷ ys) (suc fuel) (h, hs) k =
    extra_turn-IsOther (extra_loop fuel) s y (extra_fields ys []) h
    ∙ extra_loop-others s ys fuel hs (omega arith)

extra_loop-zip64 :
    (s : Sizes) (xs ys : List ExtraField) (fuel : ℕ)
    → SizesFit s
    → All IsOther xs
    → All IsOther ys
    → length xs + length ys + 1 < fuel
    → extra_loop fuel (narrowed s) (extra_fields xs (zip64_extra s (extra_fields ys []))) ≡ ok s
unfolding extra_loop extra_fields
extra_loop-zip64 s xs ys zero fit h h' k = absurd (omega arith)
extra_loop-zip64 s [] ys (suc fuel) fit h h' k =
    extra_turn-zip64_extra (extra_loop fuel) s (extra_fields ys []) fit
    ∙ extra_loop-others s ys fuel h' (omega arith)
extra_loop-zip64 s (x ∷ xs) ys (suc fuel) fit (h, hs) h' k =
    extra_turn-IsOther (extra_loop fuel) (narrowed s) x
      (extra_fields xs (zip64_extra s (extra_fields ys []))) h
    ∙ extra_loop-zip64 s xs ys fuel fit hs h' (omega arith)

length-extra_fields :
    (xs : List ExtraField) (rest : Bytes) → length xs + length rest ≤ length (extra_fields xs rest)
unfolding extra_fields extra_field
length-extra_fields [] rest = omega arith
length-extra_fields (x ∷ xs) rest =
    omega (arith, length-extra_fields xs rest, length-append x.payload (extra_fields xs rest))

length-zip64_extra : (s : Sizes) (rest : Bytes) → length rest + 4 ≤ length (zip64_extra s rest)
unfolding zip64_extra
length-zip64_extra s rest = omega (arith, length-append (zip64_data s) rest)

needs-narrowed :
    (s : Sizes)
    → (narrow s.compressed == zip64_sentinel
        || narrow s.uncompressed == zip64_sentinel
        || narrow s.offset == zip64_sentinel)
      ≡ needs_zip64 s
unfolding needs_zip64
needs-narrowed s =
    rw (narrow-sentinel s.compressed, narrow-sentinel s.uncompressed, narrow-sentinel s.offset)

narrowed-small : (s : Sizes) → needs_zip64 s ≡ false → narrowed s ≡ s
unfolding needs_zip64
narrowed-small s h = rw (
  narrow-small s.compressed (ground arith),
  narrow-small s.uncompressed (ground arith),
  narrow-small s.offset (ground arith),
)

pub real_sizes-extra_of :
    (xs : List ExtraField) (s : Sizes) (ys : List ExtraField)
    → SizesFit s
    → All IsOther xs
    → All IsOther ys
    → real_sizes (extra_of xs s ys) (narrowed s) ≡ ok s
unfolding real_sizes extra_of
real_sizes-extra_of xs s ys fit h h' =
    let tail = extra_fields ys [] in
    elim (Bool-cases (needs_zip64 s)) [
      | inl big ↦ rw (
        needs-narrowed s,
        big,
        extra_loop-zip64 s xs ys (suc (length (extra_fields xs (zip64_extra s tail)))) fit h h' (
            omega (
              arith,
              length-extra_fields xs (zip64_extra s tail),
              length-zip64_extra s tail,
              length-extra_fields ys [],
            )),
      )
      | inr small ↦ rw (needs-narrowed s, small, narrowed-small s small)
    ]
