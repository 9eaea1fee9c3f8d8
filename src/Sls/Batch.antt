-- ===== src/Sls/Batch.antt =====
-- crates/neon-log/src/sls/sink.rs: `LogRecord`, its estimated size, and `Batch`. Sizes of data in
-- memory do not reach 2^64, so `+` on them does not wrap; `saturating_add` is written out.
use neon_rs.Base.{
  ℕ, ◌+◌, ◌-◌, ◌^◌, Bool, not, ◌&&◌, ◌||◌, List, [], ◌∷◌, ◌++◌, min, ltb, leb, length, is_empty,
}
use neon_rs.Base.Text.{Text, byte_len}
use neon_rs.Sls.Config.{SlsConfig}

abbrev pub log_proto_overhead_bytes : ℕ
log_proto_overhead_bytes = 32

abbrev pub content_proto_overhead_bytes : ℕ
content_proto_overhead_bytes = 16

abbrev pub log_group_proto_overhead_bytes : ℕ
log_group_proto_overhead_bytes = 256

pub record LogRecord : Type 0 where
  pub time : ℕ
  pub time_ns : ℕ
  pub fields : List (Text × Text)

-- `usize::saturating_add` on 64 bits.
abbrev pub saturating_add : ℕ → ℕ → ℕ
saturating_add a b = min (a + b) (2 ^ 64 - 1)

fields_size : List (Text × Text) → ℕ
fields_size [] = 0
fields_size ((k, v) ∷ fs) = byte_len k + byte_len v + content_proto_overhead_bytes + fields_size fs

unfoldable pub record_byte_size : LogRecord → ℕ
unfolding fields_size
record_byte_size r = log_proto_overhead_bytes + fields_size r.fields

pub record Batch : Type 0 where
  pub records : List LogRecord
  pub bytes : ℕ

abbrev pub empty : Batch
empty = record { records = []; bytes = 0 }

unfoldable pub push_sized : Batch → LogRecord → ℕ → Batch
push_sized b r n = record { records = b.records ++ r ∷ []; bytes = b.bytes + n }

unfoldable pub would_exceed_bytes : Batch → ℕ → SlsConfig → Bool
would_exceed_bytes b n config =
    not (is_empty b.records)
    && ltb config.max_batch_bytes
        (saturating_add (saturating_add b.bytes n) log_group_proto_overhead_bytes)

abbrev pub len : Batch → ℕ
len b = length b.records

-- `Batch::clear`, and what `Batch::take` leaves behind.
abbrev pub clear : Batch → Batch
clear b = empty

unfoldable pub ready : Batch → SlsConfig → Bool
ready b config = leb config.max_batch_size (len b) || leb config.max_batch_bytes b.bytes
