-- ===== src/Helper/Zip/Entry.antt =====
-- crates/neon-helper/src/httpzip.rs: `ArchiveEntry::open` and `fetch_range_stream`. A stream is the
-- bytes that it gives, or the error that it ends with; a deflated one is left to the decoder.
pub mod Opened
use neon_rs.Base.{
  ℕ, ◌+◌, ◌-◌, ◌%◌, ◌&&◌, Bool, leb, ltb, ◌==◌, if◌then◌else◌, List, [], length, take,
}
use neon_rs.Base.Result.{Result, ok, err, ◌>>=◌, ensure}
use neon_rs.Crypto.Padding.{Bytes}
use neon_rs.Helper.Zip.{ArchiveEntry, u16_at}
use neon_rs.Helper.Zip.Remote.{
  u64_modulus, Response, RemoteError, range_failed, request_failed, map_err, fetch_range,
}

pub data EntryReader (X : Type 0) : Type 0 where
  stored deflated : Result X Bytes → EntryReader X

pub data EntryError (X : Type 0) : Type 0 where
  no_range : RemoteError X → EntryError X
  unsupported_method : ℕ → EntryError X
  local_header_too_short data_range_overflow : EntryError X

module _ {X : Type 0} where
  unfoldable pub take_stream : ℕ → Result X Bytes → Result X Bytes
  take_stream n (ok bytes) = ok (take n bytes)
  take_stream n (err x) = err x

  unfoldable pub accept_stream : ℕ → ℕ → Response X → Result (RemoteError X) (Result X Bytes)
  unfolding take_stream
  accept_stream start end response =
      if response.status == 206
      then ok response.body
      else if (leb 200 response.status && ltb response.status 300) && start == 0
      then ok (take_stream ((end + u64_modulus - start + 1) % u64_modulus) response.body)
      else err (range_failed response.status)

  unfoldable pub by_method : ℕ → Result X Bytes → Result (EntryError X) (EntryReader X)
  by_method method body =
      if method == 0
      then ok (stored body)
      else if method == 8
      then ok (deflated body)
      else err (unsupported_method method)

module _ {X : Type 0} (get : ℕ → ℕ → Result X (Response X)) where
  unfoldable pub fetch_range_stream : ℕ → ℕ → Result (RemoteError X) (Result X Bytes)
  unfolding accept_stream
  fetch_range_stream start end = map_err request_failed (get start end) >>= accept_stream start end

  unfoldable pub entry_body : ℕ → ℕ → Result (EntryError X) (Result X Bytes)
  unfolding fetch_range_stream
  entry_body at size =
      if size == 0
      then ok (ok [])
      else (ensure (ltb (at + size) u64_modulus && leb 1 (at + size)) data_range_overflow >>= λ u.
          map_err no_range (fetch_range_stream at (at + size - 1)))

  unfoldable pub open_entry : ArchiveEntry → Result (EntryError X) (EntryReader X)
  unfolding entry_body by_method
  open_entry e =
      let at = e.local_header_offset in
      map_err no_range (fetch_range get at ((at + 30 + 256) % u64_modulus)) >>= λ header.
      ensure (leb 30 (length header)) local_header_too_short >>= λ u.
      entry_body ((at + 30 + u16_at header 26 + u16_at header 28) % u64_modulus) e.compressed_size
      >>= λ body. by_method e.compression_method body
