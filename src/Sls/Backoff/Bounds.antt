-- ===== src/Sls/Backoff/Bounds.antt =====
-- How long a retry waits: growth, the cap, and the range of the jitter.
use neon_rs.Base.{ℕ, zero, suc, ◌≡◌, ◌+◌, ◌-◌, ◌*◌, ◌/◌, ◌^◌, ◌≤◌, ◌<◌, min, arith}
use native.Mathlib.Nat.{pow-le-pow_right, one-le-pow}
use native.Mathlib.Numerals.{unary_clauses}
use neon_rs.Sls.Config.{SlsConfig, millis}
use neon_rs.Sls.Config.Normal.{IsNormal}
use neon_rs.Sls.Backoff.{backoff_delay, jittered_backoff_delay, next_jitter_u64, as_millis}

next_jitter-lt : (seed now n : ℕ) → 0 < n → next_jitter_u64 seed now n < n
unfolding next_jitter_u64
next_jitter-lt seed now n h = ground arith

jittered_bounds :
    (seed now base : ℕ)
    → as_millis base < 2 ^ 64
    → (millis (as_millis base / 2) ≤ jittered_backoff_delay seed now base)
      × (jittered_backoff_delay seed now base ≤ base)
unfolding jittered_backoff_delay
jittered_bounds seed now base h =
    let m = as_millis base in ground (arith, next_jitter-lt seed now (m - m / 2 + 1))

-- Doubling `n` times, up to a cap.
abbrev pub doubled : ℕ → ℕ → ℕ → ℕ
doubled base cap zero = min base cap
doubled base cap (suc n) = min (2 * doubled base cap n) cap

module _ (c : SlsConfig) (small : as_millis c.retry_max < 2 ^ 64) where
  -- A later attempt never waits less than an earlier one, before the jitter.
  backoff_delay_mono : (a b : ℕ) → a ≤ b → backoff_delay c a ≤ backoff_delay c b
  unfolding backoff_delay
  backoff_delay_mono a b h =
      let m = as_millis c.retry_base in
      let p : 2 ^ min (a - 1) 16 ≤ 2 ^ min (b - 1) 16 =
        pow-le-pow_right (omega arith) (omega arith) in
      let q : m * 2 ^ min (a - 1) 16 ≤ m * 2 ^ min (b - 1) 16 = grind arith in omega arith

  backoff_delay_range :
      (k : ℕ)
      → c.retry_base ≤ c.retry_max
      → (backoff_delay c k ≤ millis (as_millis c.retry_max))
        × (millis (as_millis c.retry_base) ≤ backoff_delay c k)
  unfolding backoff_delay
  backoff_delay_range k h =
      let m = as_millis c.retry_base in
      let p : 1 ≤ 2 ^ min (k - 1) 16 = one-le-pow _ _ (omega arith) in
      let q : m * 1 ≤ m * 2 ^ min (k - 1) 16 = grind arith in (omega arith, omega arith)

  doubled-eq : (base cap n : ℕ) → doubled base cap n ≡ min (base * 2 ^ n) cap
  doubled-eq base cap zero = omega arith
  doubled-eq base cap (suc n) =
      let ih = doubled-eq base cap n in
      let twice : base * 2 ^ suc n ≡ 2 * (base * 2 ^ n) = simp unary_clauses (grind arith) in
      omega (arith, ih, twice)

  backoff_delay-doubled :
      (k : ℕ)
      → backoff_delay c (suc k)
        ≡ millis (doubled (as_millis c.retry_base) (as_millis c.retry_max) (min k 16))
  unfolding backoff_delay
  backoff_delay-doubled k =
      let index : suc k - 1 ≡ k = omega arith in
      rw (index, doubled-eq (as_millis c.retry_base) (as_millis c.retry_max) (min k 16))
        (omega (arith, small))

  -- The wait before the retry after `k` others, under a normal configuration whose longest wait
  -- fits 64 bits of milliseconds: the delay is the first interval, doubled `k` times, or 16 times if
  -- `k` is more, each time up to the longest one, in whole milliseconds; the wait lies between half
  -- of that delay, cut to a whole millisecond, and the delay; and the delay lies between the first
  -- interval in whole milliseconds and the longest one.
  pub retry_wait_bounds :
      (k seed now : ℕ)
      → IsNormal c
      → let d = backoff_delay c (suc k) in
        (d ≡ millis (doubled (as_millis c.retry_base) (as_millis c.retry_max) (min k 16)))
        × (millis (as_millis d / 2) ≤ jittered_backoff_delay seed now d)
        × (jittered_backoff_delay seed now d ≤ d)
        × (d ≤ c.retry_max)
        × (millis (as_millis c.retry_base) ≤ d)
  retry_wait_bounds k seed now n =
      let r = backoff_delay_range (suc k) n.base_le_max in
      let (lo, hi) = jittered_bounds seed now (backoff_delay c (suc k)) (omega arith) in
      (backoff_delay-doubled k, lo, hi, omega arith, r.1)
