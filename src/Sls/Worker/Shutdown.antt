-- ===== src/Sls/Worker/Shutdown.antt =====
-- The books of the shutdown sequence, and of a whole run from the first record to the last count.
use neon_rs.Base.{
  ℕ, ◌+◌, ◌^◌, ◌<◌, ◌≡◌, refl, ap, sym, ◌∙◌, Option, none, some, List, arith, length, inl, inr,
  Bool-cases, ltb, is_empty,
}
use neon_rs.Sls.Config.{SlsConfig}
use neon_rs.Sls.Counters.{dropped_total}
use neon_rs.Sls.Batch.{LogRecord, len, ready}
use neon_rs.Sls.Queue.{close}
use neon_rs.Sls.Pipeline.{Pipe, Wait, Finish, finish_tasks, push_or_drop, drain_into_buf}
use neon_rs.Sls.Pipeline.Accounting.{
  Books, weight, held, HoldsBooks, push_or_drop-HoldsBooks, finish_tasks-Books, spawn_flush-Books,
}
use neon_rs.Sls.Pipeline.Empties.{spawn_flush_empties, finish_tasks-batch, is_empty-len}
use neon_rs.Sls.Pipeline.Drain.{LeavesBooks, push_or_drop_kept, drain_into_buf-LeavesBooks}
use neon_rs.Sls.Worker.{
  Worker, Event, start, run_loop, Closing, flush_deferred_full, flush_deferred, flush_tail,
  count_queued, abort_inflight, finish_drained, shut_down, run_pipeline,
}
use neon_rs.Sls.Worker.Steps.{WorkerBooks, offered}
use neon_rs.Sls.Worker.Accounting.{run_loop_books}

-- Nothing is left in the batch.
abbrev Empties : SlsConfig → ℕ → Pipe → Type 0
Empties config n p = Books config n p × (len p.batch ≡ 0)

abbrev Settled : ℕ → Worker → Type 0
Settled n s = dropped_total s.pipe.dropped + s.pipe.delivered ≡ n

module _ (config : SlsConfig) (few : config.max_retries + 1 < 2 ^ 32) where
  flush_deferred_full-Books :
      (n : ℕ) (p : Pipe) (deadline : ℕ) (w : Wait)
      → n < 2 ^ 64
      → Books config n p
      → Books config n (flush_deferred_full config p deadline w)
  unfolding flush_deferred_full
  flush_deferred_full-Books n p deadline w room b = elim (Bool-cases (ready p.batch config)) [
    | inl full ↦ rw full (spawn_flush-Books config few n room p (some deadline) w b)
    | inr more ↦ rw more b
  ]

  kept-Books :
      (n : ℕ) (t : Pipe × Option LogRecord)
      → t.1 ≡ none
      → HoldsBooks config n t
      → Books config n t.0
  kept-Books n (p, some r) e h = cc
  kept-Books n (p, none) e h = record { accounted = omega arith; pending = h.1; bounded = h.2 }

  flush_deferred-Books :
      (n : ℕ) (p : Pipe) (deadline : ℕ) (c : Closing) (o : Option LogRecord)
      → n + held o < 2 ^ 64
      → Books config n p
      → Books config (n + held o) (flush_deferred config p deadline c o)
  unfolding flush_deferred
  flush_deferred-Books n p deadline c none room b = let z : n + 0 ≡ n = omega arith in rw z b
  flush_deferred-Books n p deadline c (some r) room b =
      flush_deferred_full-Books (n + 1) (push_or_drop config p r (some deadline) c.room).0 deadline
        c.full room
        (kept-Books (n + 1) (push_or_drop config p r (some deadline) c.room)
          (push_or_drop_kept config p r deadline c.room)
          (push_or_drop-HoldsBooks config few n room p r (some deadline) c.room b))

  flush_tail-Empties :
      (n : ℕ) (p : Pipe) (deadline : ℕ) (c : Closing)
      → n < 2 ^ 64
      → Books config n p
      → Empties config n (flush_tail config p deadline c)
  unfolding flush_tail
  flush_tail-Empties n p deadline c room b = elim (Bool-cases (is_empty p.batch.records)) [
    | inl e ↦ simp e (b, is_empty-len p e)
    | inr e ↦ simp e (elim (Bool-cases (ltb c.tail_now deadline)) [
      | inl early ↦ simp early (
        spawn_flush-Books config few n room p (some deadline) c.tail b,
        spawn_flush_empties config p deadline c.tail,
      )
      | inr late ↦ simp late (ground arith)
    ])
  ]

  count_queued-Empties :
      (n : ℕ) (p : Pipe) (rest : List LogRecord)
      → n + length rest < 2 ^ 64
      → Empties config n p
      → Empties config (n + length rest) (count_queued p rest)
  unfolding count_queued
  count_queued-Empties n p rest room b = ground arith

  waited-Empties :
      (n : ℕ) (p : Pipe) (fs : List Finish)
      → n < 2 ^ 64
      → Empties config n p
      → Empties config n (finish_tasks config p fs)
  waited-Empties n p fs room b =
      (finish_tasks-Books config few n room p fs b.0, ap len (finish_tasks-batch config p fs) ∙ b.1)

  abort_inflight_settles :
      (n : ℕ) (p : Pipe)
      → n < 2 ^ 64
      → Empties config n p
      → let q = abort_inflight p in dropped_total q.dropped + q.delivered ≡ n
  unfolding abort_inflight
  abort_inflight_settles n p room b = elim (Bool-cases (is_empty p.inflight)) [
    | inl e ↦ simp e (ground arith)
    | inr e ↦ simp e (ground arith)
  ]

  finish_drained_settles :
      (n : ℕ) (s : Worker) (deadline : ℕ) (c : Closing) (t : Pipe × List LogRecord)
      → n < 2 ^ 64
      → LeavesBooks config n t
      → Settled n (finish_drained config s deadline c t)
  unfolding finish_drained
  finish_drained_settles n s deadline c (p, rest) room b =
      let m = weight p in
      let tail =
        flush_tail-Empties m p deadline c (omega (arith, b.0))
          (record { accounted = refl; pending = b.1; bounded = b.2 }) in
      let counted =
        count_queued-Empties m (flush_tail config p deadline c) rest (omega (arith, b.0)) tail in
      let waited =
        waited-Empties (m + length rest) (count_queued (flush_tail config p deadline c) rest)
          c.finished (omega (arith, b.0)) counted in
      let total =
        abort_inflight_settles (m + length rest)
          (finish_tasks config (count_queued (flush_tail config p deadline c) rest) c.finished)
          (omega (arith, b.0)) waited in
      total ∙ b.0

  shut_down_settles :
      (n : ℕ) (s : Worker) (c : Closing)
      → n < 2 ^ 64
      → WorkerBooks config n s
      → Settled n (shut_down config s c)
  unfolding shut_down close
  shut_down_settles n s c room b =
      let deadline = c.now + config.shutdown_timeout in
      let m = weight s.pipe + held s.deferred_record in
      let p = flush_deferred config s.pipe deadline c s.deferred_record in
      let e : m + length s.queue.ring ≡ n = omega (arith, b.accounted) in
      let first =
        flush_deferred-Books (weight s.pipe) s.pipe deadline c s.deferred_record (omega (arith, e))
          (record { accounted = refl; pending = b.pending; bounded = b.bounded }) in
      rw (sym e) (
        finish_drained_settles (m + length s.queue.ring) s deadline c
          (drain_into_buf config p s.queue.ring deadline c.rounds) (omega (arith, e))
          (drain_into_buf-LeavesBooks config few deadline m p s.queue.ring c.rounds
            (omega (arith, e)) first))

  -- When the worker ends, each record that producers offered was either delivered or counted as
  -- dropped, once: whatever the order of events, the answers of the server, and the times read.
  -- Fewer than 2^64 records are offered, and `max_retries + 1` fits 32 bits.
  pub run_pipeline_accounts :
      (now : ℕ) (es : List Event) (c : Closing)
      → offered es < 2 ^ 64
      → let s = run_pipeline config now es c in
        dropped_total s.pipe.dropped + s.pipe.delivered ≡ offered es
  unfolding run_pipeline
  run_pipeline_accounts now es c room =
      shut_down_settles (offered es) (run_loop config (start config now) es) c room
        (run_loop_books config few now es room)
