-- ===== src/Sls/Worker/Sizes.antt =====
-- The sizes of batches over a run: in the main loop, and while the queue is drained at shutdown.
use neon_rs.Base.{
  ℕ, ◌<◌, ◌≡◌, ◌≢◌, refl, true, false, not, ◌&&◌, Option, none, some, List, [], ◌∷◌, arith, inl,
  inr, Bool-cases, ltb,
}
use neon_rs.Sls.Config.{SlsConfig}
use neon_rs.Sls.Config.Normal.{IsNormal}
use neon_rs.Sls.Batch.{LogRecord, len, ready}
use neon_rs.Sls.Queue.{Recv, received, ended, waiting, recv}
use neon_rs.Sls.Pipeline.{
  Pipe, Wait, FlushResult, flushed, deferred_for_shutdown, dropped, spawn_flush, push_or_drop,
}
use neon_rs.Sls.Pipeline.Sizes.{Sized, spawn_flush-Sized, finish_task-Sized}
use neon_rs.Sls.Pipeline.Empties.{finish_task-batch}
use neon_rs.Sls.Pipeline.Intake.{ready-short, push_or_drop-Sized, spawn_flush_clears}
use neon_rs.Sls.Worker.{
  Worker, Event, produce, shutdown_changed, take_record, tick, task_done, start, after_flush,
  flush_if_ready, after_push, after_recv, produced_by, handle, goes_on, run_loop,
}

module _ (config : SlsConfig) (normal : IsNormal config) where
  -- While the worker is in the main loop.
  record WorkerSized (s : Worker) : Type 0 where
    pub sized : Sized config config.max_batch_size s.pipe
    pub short : s.shutting_down ≡ false → len s.pipe.batch < config.max_batch_size

  after_flush-WorkerSized :
      (s : Worker) (now : ℕ) (t : Pipe × FlushResult)
      → Sized config config.max_batch_size t.0
      → (t.1 ≢ deferred_for_shutdown → len t.0.batch ≡ 0)
      → WorkerSized (after_flush config s now t)
  unfolding after_flush
  after_flush-WorkerSized s now (p, flushed) v e = record {
    sized = v;
    short = λ h. omega (arith, e (λ x. cc), normal.batch_size_pos);
  }
  after_flush-WorkerSized s now (p, deferred_for_shutdown) v e = record {
    sized = v;
    short = λ h. cc;
  }
  after_flush-WorkerSized s now (p, dropped) v e = record {
    sized = v;
    short = λ h. omega (arith, e (λ x. cc), normal.batch_size_pos);
  }

  flush-WorkerSized :
      (s : Worker) (w : Wait) (now : ℕ)
      → Sized config config.max_batch_size s.pipe
      → WorkerSized (after_flush config s now (spawn_flush config s.pipe none w))
  flush-WorkerSized s w now v =
      after_flush-WorkerSized s now (spawn_flush config s.pipe none w)
        (spawn_flush-Sized config normal config.max_batch_size s.pipe none w v)
        (spawn_flush_clears config s.pipe none w)

  after_push-WorkerSized :
      (s : Worker) (w : Wait) (now : ℕ) (t : Pipe × Option LogRecord)
      → Sized config config.max_batch_size t.0
      → WorkerSized (after_push config s w now t)
  unfolding after_push flush_if_ready
  after_push-WorkerSized s w now (p, some r) v = record { sized = v; short = λ h. cc }
  after_push-WorkerSized s w now (p, none) v = elim (Bool-cases (ready p.batch config)) [
    | inl full ↦ simp full (flush-WorkerSized (record s { pipe = p }) w now v)
    | inr more ↦ simp more (record { sized = v; short = λ h. ready-short config p more })
  ]

  after_recv-WorkerSized :
      (s : Worker) (room full : Wait) (now : ℕ) (got : Recv LogRecord)
      → WorkerSized s
      → len s.pipe.batch < config.max_batch_size
      → WorkerSized (after_recv config s room full now got)
  unfolding after_recv
  after_recv-WorkerSized s room full now waiting v h = v
  after_recv-WorkerSized s room full now ended v h = record { sized = v.sized; short = λ x. cc }
  after_recv-WorkerSized s room full now (received r q) v h =
      after_push-WorkerSized (record s { queue = q }) full now
        (push_or_drop config s.pipe r none room)
        (push_or_drop-Sized config normal config.max_batch_size s.pipe r none room v.sized h)

  handle-WorkerSized :
      (s : Worker) (e : Event)
      → (s.shutting_down && not (goes_on e)) ≡ false
      → WorkerSized s
      → WorkerSized (handle config s e)
  unfolding handle produced_by
  handle-WorkerSized s (produce r) on v = record {
    sized = record {
      bytes_exact = v.sized.bytes_exact;
      batch_fits = v.sized.batch_fits;
      batch_short = v.sized.batch_short;
      tasks_fit = v.sized.tasks_fit;
    };
    short = v.short;
  }
  handle-WorkerSized s (shutdown_changed true) on v = record { sized = v.sized; short = λ h. cc }
  handle-WorkerSized s (shutdown_changed false) on v = v
  handle-WorkerSized s (take_record room full now) on v =
      after_recv-WorkerSized s room full now (recv s.queue) v (v.short (ground arith))
  handle-WorkerSized s (tick at w now) on v = elim (Bool-cases (ltb at s.flush_deadline)) [
    | inl early ↦ rw early v
    | inr due ↦ rw due (flush-WorkerSized s w now v.sized)
  ]
  handle-WorkerSized s (task_done f) on v = record {
    sized = finish_task-Sized config normal config.max_batch_size s.pipe f v.sized;
    short = λ h. rw (finish_task-batch config s.pipe f) (v.short h);
  }

  run_loop-WorkerSized :
      (s : Worker) (es : List Event) → WorkerSized s → WorkerSized (run_loop config s es)
  unfolding run_loop
  run_loop-WorkerSized s [] v = v
  run_loop-WorkerSized s (e ∷ es) v = elim (Bool-cases (s.shutting_down && not (goes_on e))) [
    | inl skip ↦ simp skip (run_loop-WorkerSized s es v)
    | inr on ↦ simp on (run_loop-WorkerSized (handle config s e) es (handle-WorkerSized s e on v))
  ]

  -- At any moment of the main loop, under any order of events: the batch's byte count is the sum of
  -- its records' sizes; the batch and every batch in flight are within `max_batch_bytes`, overhead
  -- included, and have at most `max_batch_size` records. The configuration is normalized.
  pub run_loop-Sized :
      (now : ℕ) (es : List Event)
      → Sized config config.max_batch_size (run_loop config (start config now) es).pipe
  unfolding start
  run_loop-Sized now es =
      (run_loop-WorkerSized (start config now) es (record {
        sized = record {
          bytes_exact = refl;
          batch_fits = omega (arith, normal.bytes_min);
          batch_short = omega arith;
          tasks_fit = tt;
        };
        short = λ h. omega (arith, normal.batch_size_pos);
      })).sized
