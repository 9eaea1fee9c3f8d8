-- ===== src/Sls/Backoff.antt =====
-- crates/neon-log/src/sls/sink.rs: `backoff_delay`, `jittered_backoff_delay` and `next_jitter_u64`.
-- The clock and the shared seed are arguments.
pub mod Bounds
use Prim.Native.Nat.{bit_xor}
use neon_rs.Base.{ℕ, ◌+◌, ◌-◌, ◌*◌, ◌/◌, ◌%◌, ◌^◌, min, leb, ◌==◌, if◌then◌else◌}
use neon_rs.Sls.Config.{SlsConfig, millis}

-- `Duration::as_millis` of a number of nanoseconds.
abbrev pub as_millis : ℕ → ℕ
as_millis d = d / 1_000_000

-- `attempt` counts from 1. The product saturates in `u128`; the result is cut to `u64`.
unfoldable pub backoff_delay : SlsConfig → ℕ → ℕ
backoff_delay config attempt =
    let shift = min (attempt - 1) 16 in
    let grown = min (as_millis config.retry_base * 2 ^ shift) (2 ^ 128 - 1) in
    millis (min grown (as_millis config.retry_max) % 2 ^ 64)

abbrev pub golden : ℕ
golden = 0x9e37_79b9_7f4a_7c15

abbrev pub rotate_left_17 : ℕ → ℕ
rotate_left_17 x = (x * 2 ^ 17) % 2 ^ 64 + x / 2 ^ 47

-- What is drawn from the seed before the draw and the clock; `next_seed` is left in the seed.
unfoldable pub next_jitter_u64 : ℕ → ℕ → ℕ → ℕ
next_jitter_u64 seed now upper_exclusive =
    let mixed = rotate_left_17 ((bit_xor seed now * 0xbf58_476d_1ce4_e5b9) % 2 ^ 64) in
    if upper_exclusive == 0 then 0 else (mixed * 0x94d0_49bb_1331_11eb) % 2 ^ 64 % upper_exclusive

unfoldable pub next_seed : ℕ → ℕ → ℕ
next_seed seed upper_exclusive = if upper_exclusive == 0 then seed else (seed + golden) % 2 ^ 64

unfoldable pub jittered_backoff_delay : ℕ → ℕ → ℕ → ℕ
unfolding next_jitter_u64
jittered_backoff_delay seed now base =
    let base_millis = as_millis base % 2 ^ 64 in
    let half = base_millis / 2 in
    if leb base_millis 1
    then base
    else millis (half + next_jitter_u64 seed now (base_millis - half + 1))
