-- ===== src/Sls/Pipeline/Drain.antt =====
-- The books of `drain_into_buf`: under a deadline `push_or_drop` hands no record back, so each
-- record taken from the queue is accounted for by the pipeline.
use neon_rs.Base.{
  ℕ, suc, ◌+◌, ◌^◌, ◌<◌, ◌≡◌, ◌≢◌, refl, Option, none, some, List, [], ◌∷◌, arith, length, inl, inr,
  Bool-cases, leb, ltb, is_empty,
}
use neon_rs.Sls.Config.{SlsConfig}
use neon_rs.Sls.Batch.{
  LogRecord, record_byte_size, would_exceed_bytes, saturating_add, log_group_proto_overhead_bytes,
}
use neon_rs.Sls.Pipeline.{
  Pipe, Outcome, granted, semaphore_closed, interrupted, Wait, FlushResult, flushed,
  deferred_for_shutdown, dropped, finish_tasks, resolve, acquired, used_up, spawn_flush, make_room,
  push_or_drop, Round, drain_one, after_round, drain_into_buf,
}
use neon_rs.Sls.Pipeline.Accounting.{
  Books, weight, inflight_total, HoldsBooks, push_or_drop-HoldsBooks, drain_full-Books,
}

acquired-ne-deferred :
    (p : Pipe) (d : ℕ) (o : Outcome) → (acquired p (some d) o).1 ≢ deferred_for_shutdown
unfolding acquired
acquired-ne-deferred p d granted e = cc
acquired-ne-deferred p d semaphore_closed e = cc
acquired-ne-deferred p d interrupted e = cc

pub spawn_flush-ne-deferred :
    (config : SlsConfig) (p : Pipe) (d : ℕ) (w : Wait)
    → (spawn_flush config p (some d) w).1 ≢ deferred_for_shutdown
unfolding spawn_flush
spawn_flush-ne-deferred config p d w =
    let waited = finish_tasks config p w.finished in
    let rest = acquired-ne-deferred waited d (resolve waited.permits w.outcome) in
    elim (Bool-cases (is_empty p.batch.records)) [
      | inl e ↦ simp e (λ x. cc)
      | inr e ↦ simp e (elim (Bool-cases (used_up (some d) w.now)) [
        | inl u ↦ simp u (λ x. cc)
        | inr u ↦ simp u rest
      ])
    ]

make_room_kept :
    (p : Pipe) (r : LogRecord) (deadline : Option ℕ) (result : FlushResult)
    → result ≢ deferred_for_shutdown
    → (make_room p r deadline result).1 ≡ none
unfolding make_room
make_room_kept p r deadline flushed h = refl
make_room_kept p r deadline deferred_for_shutdown h = absurd (h refl)
make_room_kept p r deadline dropped h = refl

-- Under a deadline no record is handed back.
pub push_or_drop_kept :
    (config : SlsConfig) (p : Pipe) (r : LogRecord) (d : ℕ) (w : Wait)
    → (push_or_drop config p r (some d) w).1 ≡ none
unfolding push_or_drop
push_or_drop_kept config p r d w =
    let k = record_byte_size r in
    elim (Bool-cases
      (ltb config.max_batch_bytes (saturating_add k log_group_proto_overhead_bytes))) [
        | inl big ↦ rw (big, push_or_drop)
        | inr small ↦
            rw (small, push_or_drop)
              (elim (Bool-cases (would_exceed_bytes p.batch k config)) [
                | inl full ↦
                    rw (full, push_or_drop)
                      (make_room_kept (spawn_flush config p (some d) w).0 r (some d)
                        (spawn_flush config p (some d) w).1 (spawn_flush-ne-deferred config p d w))
                | inr fits ↦ rw (fits, push_or_drop)
              ])
      ]

-- `n` counts what the queue still holds too.
abbrev pub LeavesBooks : SlsConfig → ℕ → Pipe × List LogRecord → Type 0
LeavesBooks config n (p, rest) =
    (weight p + length rest ≡ n)
    × (p.pending_records ≡ inflight_total p.inflight)
    × (p.permits + length p.inflight ≡ config.max_inflight)

module _ (config : SlsConfig) (few : config.max_retries + 1 < 2 ^ 32) (deadline : ℕ) where
  after_round-LeavesBooks :
      (m n : ℕ) (rest : List LogRecord) (next : Pipe → Pipe × List LogRecord)
      (t : Pipe × FlushResult)
      → m ≡ n + length rest
      → Books config n t.0
      → LeavesBooks config m (next t.0)
      → LeavesBooks config m (after_round next rest t)
  unfolding after_round
  after_round-LeavesBooks m n rest next (p, flushed) e b later = later
  after_round-LeavesBooks m n rest next (p, deferred_for_shutdown) e b later = ground arith
  after_round-LeavesBooks m n rest next (p, dropped) e b later = ground arith

  drain_kept-Books :
      (n : ℕ) (round : Round) (t : Pipe × Option LogRecord)
      → n < 2 ^ 64
      → t.1 ≡ none
      → HoldsBooks config n t
      → Books config n (drain_one config deadline round t).0
  unfolding drain_one
  drain_kept-Books n round (p, some r) room e h = cc
  drain_kept-Books n round (p, none) room e h =
      drain_full-Books config few n room p deadline round.full (omega arith)

  drain_one-Books :
      (n : ℕ) (p : Pipe) (r : LogRecord) (round : Round)
      → n + 1 < 2 ^ 64
      → Books config n p
      → Books config
          (n + 1)
          (drain_one config deadline round (push_or_drop config p r (some deadline) round.room)).0
  drain_one-Books n p r round room b =
      drain_kept-Books (n + 1) round (push_or_drop config p r (some deadline) round.room) room
        (push_or_drop_kept config p r deadline round.room)
        (push_or_drop-HoldsBooks config few n room p r (some deadline) round.room b)

  -- However far the loop gets, each record of the queue is still there or accounted for by the
  -- pipeline, and the pending count and the permits agree with the tasks in flight.
  pub drain_into_buf-LeavesBooks :
      (n : ℕ) (p : Pipe) (ring : List LogRecord) (rounds : ℕ → Round)
      → n + length ring < 2 ^ 64
      → Books config n p
      → LeavesBooks config (n + length ring) (drain_into_buf config p ring deadline rounds)
  unfolding drain_into_buf
  drain_into_buf-LeavesBooks n p [] rounds room b = ground arith
  drain_into_buf-LeavesBooks n p (r ∷ rest) rounds room b =
      let round = rounds 0 in
      let turn =
        drain_one config deadline round (push_or_drop config p r (some deadline) round.room) in
      let tb = drain_one-Books n p r round (omega arith) b in
      let later =
        drain_into_buf-LeavesBooks (n + 1) turn.0 rest (λ k. rounds (suc k)) (omega arith) tb in
      let e : n + length (r ∷ rest) ≡ n + 1 + length rest = omega arith in
      elim (Bool-cases (leb deadline round.now)) [
        | inl late ↦ rw late (ground arith)
        | inr early ↦ rw early (
            after_round-LeavesBooks (n + length (r ∷ rest)) (n + 1) rest
              (λ p'. drain_into_buf config p' rest deadline (λ k. rounds (suc k))) turn e tb
              (rw e later))
      ]
