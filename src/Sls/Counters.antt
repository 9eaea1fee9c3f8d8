-- ===== src/Sls/Counters.antt =====
-- crates/neon-log/src/sls/sink.rs: `DropCounters`, `DropSnapshot` and their aggregation. A counter
-- is a `u64` that wraps on `fetch_add`; the sums of a snapshot wrap as in a release build.
use neon_rs.Base.{◌∙◌, ℕ, ◌+◌, ◌%◌, ◌^◌, ◌≡◌, refl, List, [], ◌∷◌, arith, ◌==◌, if◌then◌else◌}

abbrev pub u64_mod : ℕ
u64_mod = 2 ^ 64

pub record DropCounters : Type 0 where
  pub queue_full : ℕ
  pub worker_closed : ℕ
  pub send_failed : ℕ
  pub shutdown_dropped : ℕ

abbrev pub no_drops : DropCounters
no_drops = record { queue_full = 0; worker_closed = 0; send_failed = 0; shutdown_dropped = 0 }

abbrev pub fetch_add : ℕ → ℕ → ℕ
fetch_add c n = (c + n) % u64_mod

-- `DropCounters::add` skips the write for 0.
abbrev pub add : ℕ → ℕ → ℕ
add c n = if n == 0 then c else fetch_add c n

abbrev pub inc_queue_full : DropCounters → DropCounters
inc_queue_full c = record c { queue_full = fetch_add c.queue_full 1 }

abbrev pub inc_worker_closed : DropCounters → ℕ → DropCounters
inc_worker_closed c n = record c { worker_closed = add c.worker_closed n }

abbrev pub inc_send_failed : DropCounters → ℕ → DropCounters
inc_send_failed c n = record c { send_failed = add c.send_failed n }

abbrev pub inc_shutdown_dropped : DropCounters → ℕ → DropCounters
inc_shutdown_dropped c n = record c { shutdown_dropped = add c.shutdown_dropped n }

pub record DropSnapshot : Type 0 where
  pub total : ℕ
  pub queue_full : ℕ
  pub worker_closed : ℕ
  pub send_failed : ℕ
  pub shutdown_dropped : ℕ

abbrev pub empty_snapshot : DropSnapshot
empty_snapshot = record {
  total = 0;
  queue_full = 0;
  worker_closed = 0;
  send_failed = 0;
  shutdown_dropped = 0;
}

unfoldable pub snapshot : DropCounters → DropSnapshot
snapshot c = record {
  total = (c.queue_full + c.worker_closed + c.send_failed + c.shutdown_dropped) % u64_mod;
  queue_full = c.queue_full;
  worker_closed = c.worker_closed;
  send_failed = c.send_failed;
  shutdown_dropped = c.shutdown_dropped;
}

unfoldable pub merge : DropSnapshot → DropSnapshot → DropSnapshot
merge s o = record {
  total = (s.total + o.total) % u64_mod;
  queue_full = (s.queue_full + o.queue_full) % u64_mod;
  worker_closed = (s.worker_closed + o.worker_closed) % u64_mod;
  send_failed = (s.send_failed + o.send_failed) % u64_mod;
  shutdown_dropped = (s.shutdown_dropped + o.shutdown_dropped) % u64_mod;
}

-- `aggregate_drop_snapshot`, and `SlsLayer::dropped_snapshot` over its sinks.
aggregate_onto : DropSnapshot → List DropCounters → DropSnapshot
unfolding snapshot merge
aggregate_onto agg [] = agg
aggregate_onto agg (c ∷ cs) = aggregate_onto (merge agg (snapshot c)) cs

unfoldable pub aggregate_drop_snapshot : List DropCounters → DropSnapshot
unfolding aggregate_onto
aggregate_drop_snapshot = aggregate_onto empty_snapshot

-- How many records the counters hold, all four kinds together.
abbrev pub dropped_total : DropCounters → ℕ
dropped_total c = c.queue_full + c.worker_closed + c.send_failed + c.shutdown_dropped

abbrev pub sum_total : List DropCounters → ℕ
sum_total [] = 0
sum_total (c ∷ cs) = dropped_total c + sum_total cs

abbrev pub Adds : DropSnapshot → Type 0
Adds s = s.total ≡ (s.queue_full + s.worker_closed + s.send_failed + s.shutdown_dropped) % u64_mod

aggregate_onto_total :
    (agg : DropSnapshot) (cs : List DropCounters)
    → Adds agg
    → Adds (aggregate_onto agg cs)
      × ((aggregate_onto agg cs).total ≡ (agg.total + sum_total cs) % u64_mod)
unfolding aggregate_onto
aggregate_onto_total agg [] h = (h, omega arith)
aggregate_onto_total agg (c ∷ cs) h =
    let (a, t) =
      aggregate_onto_total (merge agg (snapshot c)) cs (unfold merge snapshot in omega arith) in
    (a, t ∙ unfold merge snapshot in omega arith)

-- The aggregate of any number of sinks: its total is the sum of its four kinds and the number of
-- all the records that the sinks dropped, both modulo the width of the counters.
pub aggregate_drop_snapshot_total :
    (cs : List DropCounters)
    → Adds (aggregate_drop_snapshot cs)
      × ((aggregate_drop_snapshot cs).total ≡ sum_total cs % u64_mod)
unfolding aggregate_drop_snapshot
aggregate_drop_snapshot_total cs =
    let (a, t) = aggregate_onto_total empty_snapshot cs refl in (a, t ∙ omega arith)
