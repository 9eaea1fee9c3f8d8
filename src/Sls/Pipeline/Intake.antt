-- ===== src/Sls/Pipeline/Intake.antt =====
-- The sizes of batches as records are pushed: `push_or_drop` keeps them within the limits.
use neon_rs.Base.{
  ℕ, suc, ◌+◌, ◌≤◌, ◌<◌, ◌≡◌, ◌≢◌, refl, ◌∙◌, true, false, Option, none, some, List, [], ◌∷◌, arith,
  length, length-append, is_empty, inl, inr, Bool-cases, ltb, leb, sum_by-append,
}
use neon_rs.Sls.Config.{SlsConfig}
use neon_rs.Sls.Config.Normal.{IsNormal}
use neon_rs.Sls.Batch.{
  LogRecord, record_byte_size, push_sized, would_exceed_bytes, len, ready, saturating_add,
  log_group_proto_overhead_bytes,
}
use neon_rs.Sls.Pipeline.{
  Pipe, Outcome, granted, semaphore_closed, interrupted, Wait, FlushResult, flushed,
  deferred_for_shutdown, dropped, finish_tasks, resolve, dispatch, drop_shutdown, drop_failed,
  acquired, used_up, spawn_flush, pushed, make_room, push_or_drop, Round, drain_full, drain_one,
  after_round, drain_into_buf,
}
use neon_rs.Sls.Pipeline.Empties.{is_empty-len, spawn_flush_empties}
use neon_rs.Sls.Pipeline.Drain.{push_or_drop_kept}
use neon_rs.Sls.Pipeline.Sizes.{Sized, size_of, spawn_flush-Sized}

empty_size : (rs : List LogRecord) → length rs ≡ 0 → size_of rs ≡ 0
empty_size [] e = refl
empty_size (r ∷ rs) e = absurd (omega arith)

acquired_clears :
    (p : Pipe) (deadline : Option ℕ) (o : Outcome)
    → (acquired p deadline o).1 ≢ deferred_for_shutdown
    → len (acquired p deadline o).0.batch ≡ 0
unfolding acquired dispatch drop_shutdown drop_failed
acquired_clears p deadline granted h = refl
acquired_clears p deadline semaphore_closed h = refl
acquired_clears p (some d) interrupted h = refl
acquired_clears p none interrupted h = absurd (h refl)

-- A flush that is not deferred leaves the batch empty.
pub spawn_flush_clears :
    (config : SlsConfig) (p : Pipe) (deadline : Option ℕ) (w : Wait)
    → (spawn_flush config p deadline w).1 ≢ deferred_for_shutdown
    → len (spawn_flush config p deadline w).0.batch ≡ 0
unfolding spawn_flush drop_shutdown
spawn_flush_clears config p deadline w =
    let waited = finish_tasks config p w.finished in
    elim (Bool-cases (is_empty p.batch.records)) [
      | inl e ↦ simp e (λ h. is_empty-len p e)
      | inr e ↦ simp e (elim (Bool-cases (used_up deadline w.now)) [
        | inl u ↦ simp u (λ h. refl)
        | inr u ↦ simp u (acquired_clears waited deadline (resolve waited.permits w.outcome))
      ])
    ]

module _ (config : SlsConfig) (normal : IsNormal config) (cap : ℕ) where
  pushed-Sized :
      (p : Pipe) (r : LogRecord)
      → Sized config cap p
      → len p.batch < cap
      → p.batch.bytes + record_byte_size r + log_group_proto_overhead_bytes ≤ config.max_batch_bytes
      → Sized config cap (pushed p r)
  unfolding pushed push_sized
  pushed-Sized p r v short fits = record {
    bytes_exact =
        omega (arith, v.bytes_exact, sum_by-append record_byte_size p.batch.records (r ∷ []));
    batch_fits =
        omega (arith, v.bytes_exact, fits, sum_by-append record_byte_size p.batch.records (r ∷ []));
    batch_short = omega (arith, length-append p.batch.records (r ∷ []));
    tasks_fit = v.tasks_fit;
  }

  empty-bytes : (p : Pipe) → Sized config cap p → len p.batch ≡ 0 → p.batch.bytes ≡ 0
  empty-bytes p v e = v.bytes_exact ∙ empty_size p.batch.records e

  make_room-Sized :
      (p : Pipe) (r : LogRecord) (deadline : Option ℕ) (result : FlushResult)
      → Sized config cap p
      → 0 < cap
      → (result ≡ flushed → len p.batch ≡ 0)
      → record_byte_size r + log_group_proto_overhead_bytes ≤ config.max_batch_bytes
      → Sized config cap (make_room p r deadline result).0
  unfolding make_room
  make_room-Sized p r deadline flushed v pos e small =
      pushed-Sized p r v (omega (arith, e refl)) (omega (arith, small, empty-bytes p v (e refl)))
  make_room-Sized p r deadline deferred_for_shutdown v pos e small = v
  make_room-Sized p r (some d) dropped v pos e small = record {
    bytes_exact = v.bytes_exact;
    batch_fits = v.batch_fits;
    batch_short = v.batch_short;
    tasks_fit = v.tasks_fit;
  }
  make_room-Sized p r none dropped v pos e small = record {
    bytes_exact = v.bytes_exact;
    batch_fits = v.batch_fits;
    batch_short = v.batch_short;
    tasks_fit = v.tasks_fit;
  }

  fits-pushed-Sized :
      (p : Pipe) (r : LogRecord)
      → Sized config cap p
      → len p.batch < cap
      → record_byte_size r + log_group_proto_overhead_bytes ≤ config.max_batch_bytes
      → would_exceed_bytes p.batch (record_byte_size r) config ≡ false
      → Sized config cap (pushed p r)
  unfolding would_exceed_bytes
  fits-pushed-Sized p r v short small e =
      let empty : is_empty p.batch.records ≡ true → p.batch.bytes ≡ 0 =
        λ h. empty-bytes p v (is_empty-len p h) in
      pushed-Sized p r v short (ground (arith, normal.bytes_max))

  -- Whatever `push_or_drop` does with a record, the batch and the tasks stay within the limits.
  pub push_or_drop-Sized :
      (p : Pipe) (r : LogRecord) (deadline : Option ℕ) (w : Wait)
      → Sized config cap p
      → len p.batch < cap
      → Sized config cap (push_or_drop config p r deadline w).0
  unfolding push_or_drop
  push_or_drop-Sized p r deadline w v short =
      let k = record_byte_size r in
      elim (Bool-cases
        (ltb config.max_batch_bytes (saturating_add k log_group_proto_overhead_bytes))) [
          | inl big ↦
              rw (big, push_or_drop)
                (record {
                  bytes_exact = v.bytes_exact;
                  batch_fits = v.batch_fits;
                  batch_short = v.batch_short;
                  tasks_fit = v.tasks_fit;
                })
          | inr small ↦
              let bound : k + log_group_proto_overhead_bytes ≤ config.max_batch_bytes =
                ground (arith, normal.bytes_max) in
              rw (small, push_or_drop)
                (elim (Bool-cases (would_exceed_bytes p.batch k config)) [
                  | inl full ↦
                      rw (full, push_or_drop)
                        (make_room-Sized (spawn_flush config p deadline w).0 r deadline
                          (spawn_flush config p deadline w).1
                          (spawn_flush-Sized config normal cap p deadline w v) (omega arith)
                          (λ h. spawn_flush_clears config p deadline w (λ d. cc)) bound)
                  | inr fits ↦ rw (fits, push_or_drop) (fits-pushed-Sized p r v short bound fits)
                ])
        ]

pub ready-short :
    (config : SlsConfig) (p : Pipe)
    → ready p.batch config ≡ false
    → len p.batch < config.max_batch_size
unfolding ready
ready-short config p h = ground arith

module _ (config : SlsConfig) (normal : IsNormal config) (deadline : ℕ) where
  abbrev Draining : Pipe → Type 0
  Draining p = Sized config (config.max_batch_size + 1) p × (len p.batch ≤ config.max_batch_size)

  drain_full-Draining :
      (p : Pipe) (w : Wait)
      → Sized config (config.max_batch_size + 1) p
      → Draining (drain_full config p deadline w).0
  unfolding drain_full
  drain_full-Draining p w v = elim (Bool-cases (ready p.batch config)) [
    | inl full ↦ rw full (
      spawn_flush-Sized config normal (config.max_batch_size + 1) p (some deadline) w v,
      omega (arith, spawn_flush_empties config p deadline w),
    )
    | inr more ↦ rw more (v, omega (arith, ready-short config p more))
  ]

  drain_kept-Draining :
      (round : Round) (t : Pipe × Option LogRecord)
      → t.1 ≡ none
      → Sized config (config.max_batch_size + 1) t.0
      → Draining (drain_one config deadline round t).0
  unfolding drain_one
  drain_kept-Draining round (p, some r) e v = cc
  drain_kept-Draining round (p, none) e v = drain_full-Draining p round.full v

  after_round-Draining :
      (next : Pipe → Pipe × List LogRecord) (rest : List LogRecord) (t : Pipe × FlushResult)
      → Draining t.0
      → Draining (next t.0).0
      → Draining (after_round next rest t).0
  unfolding after_round
  after_round-Draining next rest (p, flushed) v later = later
  after_round-Draining next rest (p, deferred_for_shutdown) v later = v
  after_round-Draining next rest (p, dropped) v later = v

  -- While the queue is drained at shutdown, from a batch of at most `max_batch_size` records,
  -- every batch is within `max_batch_bytes`, and has at most one record more than
  -- `max_batch_size`. The configuration is normalized.
  pub drain_into_buf-Sized :
      (p : Pipe) (ring : List LogRecord) (rounds : ℕ → Round)
      → Sized config (config.max_batch_size + 1) p
      → len p.batch ≤ config.max_batch_size
      → let q = (drain_into_buf config p ring deadline rounds).0 in
        Sized config (config.max_batch_size + 1) q × (len q.batch ≤ config.max_batch_size)
  unfolding drain_into_buf
  drain_into_buf-Sized p [] rounds v h = (v, h)
  drain_into_buf-Sized p (r ∷ rest) rounds v h =
      let round = rounds 0 in
      let got = push_or_drop config p r (some deadline) round.room in
      let turn = drain_one config deadline round got in
      let tv = drain_kept-Draining round got (push_or_drop_kept config p r deadline round.room) (
        push_or_drop-Sized config normal (config.max_batch_size + 1) p r (some deadline) round.room
          v (omega arith)) in
      let later = drain_into_buf-Sized turn.0 rest (λ k. rounds (suc k)) tv.0 tv.1 in
      elim (Bool-cases (leb deadline round.now)) [
        | inl late ↦ rw late (v, h)
        | inr early ↦ rw early (
            after_round-Draining
              (λ p'. drain_into_buf config p' rest deadline (λ k. rounds (suc k))) rest turn tv
              later)
      ]
