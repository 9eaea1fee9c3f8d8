-- ===== src/Sls/Worker/Steps.antt =====
-- The books of the worker over one event: what it was offered is in the queue, in hand, in the
-- pipeline, delivered or counted.
use neon_rs.Base.{
  ℕ, suc, ◌+◌, ◌^◌, ◌<◌, ◌≡◌, refl, Bool, true, false, Option, none, some, List, [], ◌∷◌, arith,
  length, inl, inr, Bool-cases, ltb,
}
use neon_rs.Sls.Config.{SlsConfig, OverflowPolicy}
use neon_rs.Sls.Counters.{DropCounters, dropped_total}
use neon_rs.Sls.Batch.{LogRecord, ready}
use neon_rs.Sls.Queue.{SinkQueue, enqueue, recv_from}
use neon_rs.Sls.Queue.Policy.{enqueue_closed, enqueue_open, push-length}
use neon_rs.Sls.Pipeline.{
  Pipe, Finish, Wait, FlushResult, flushed, deferred_for_shutdown, dropped, spawn_flush,
  push_or_drop,
}
use neon_rs.Sls.Pipeline.Accounting.{
  Books, weight, inflight_total, held, HoldsBooks, finish_task-Books, spawn_flush-Books,
  push_or_drop-HoldsBooks,
}
use neon_rs.Sls.Worker.{
  Worker, Event, produce, shutdown_changed, tick, task_done, after_flush, flush_if_ready,
  after_push, after_recv, produced_by, handle,
}

-- The records that producers offered.
abbrev pub offered : List Event → ℕ
offered [] = 0
offered (produce r ∷ es) = suc (offered es)
offered (_ ∷ es) = offered es

abbrev pub load : Worker → ℕ
load s = weight s.pipe + length s.queue.ring + held s.deferred_record

-- `n` records have been offered, and each is accounted for.
pub record WorkerBooks (config : SlsConfig) (n : ℕ) (s : Worker) : Type 0 where
  pub accounted : load s ≡ n
  pub pending : s.pipe.pending_records ≡ inflight_total s.pipe.inflight
  pub bounded : s.pipe.permits + length s.pipe.inflight ≡ config.max_inflight
  pub quiet : s.shutting_down ≡ false → s.deferred_record ≡ none

-- What an enqueue adds up to, in the ring and in the counters.
enqueue_books :
    (policy : OverflowPolicy) (q : SinkQueue LogRecord) (c : DropCounters) (r : LogRecord)
    → dropped_total c + 1 < 2 ^ 64
    → let (q', c') = enqueue policy q c r in
      dropped_total c' + length q'.ring ≡ dropped_total c + length q.ring + 1
enqueue_books policy q c r room = elim (Bool-cases q.closed) [
  | inl shut ↦ rw (enqueue_closed policy q c r shut) (ground arith)
  | inr open_ ↦ ground (arith, enqueue_open policy q c r open_, push-length policy q r)
]

module _ (config : SlsConfig) (few : config.max_retries + 1 < 2 ^ 32) where
  after_flush-WorkerBooks :
      (n m : ℕ) (s : Worker) (now : ℕ) (t : Pipe × FlushResult)
      → Books config m t.0
      → m + length s.queue.ring + held s.deferred_record ≡ n
      → (s.shutting_down ≡ false → s.deferred_record ≡ none)
      → WorkerBooks config n (after_flush config s now t)
  unfolding after_flush
  after_flush-WorkerBooks n m s now (p, flushed) b e q = record {
    accounted = ground arith;
    pending = b.pending;
    bounded = b.bounded;
    quiet = q;
  }
  after_flush-WorkerBooks n m s now (p, deferred_for_shutdown) b e q = record {
    accounted = ground arith;
    pending = b.pending;
    bounded = b.bounded;
    quiet = λ h. cc;
  }
  after_flush-WorkerBooks n m s now (p, dropped) b e q = record {
    accounted = ground arith;
    pending = b.pending;
    bounded = b.bounded;
    quiet = q;
  }

  pipe-Books : (n : ℕ) (s : Worker) → WorkerBooks config n s → Books config (weight s.pipe) s.pipe
  pipe-Books n s b = record { accounted = refl; pending = b.pending; bounded = b.bounded }

  flush-WorkerBooks :
      (n : ℕ) (s : Worker) (w : Wait) (now : ℕ)
      → n < 2 ^ 64
      → WorkerBooks config n s
      → WorkerBooks config n (after_flush config s now (spawn_flush config s.pipe none w))
  flush-WorkerBooks n s w now room b =
      after_flush-WorkerBooks n (weight s.pipe) s now (spawn_flush config s.pipe none w)
        (spawn_flush-Books config few (weight s.pipe) (omega arith) s.pipe none w
          (pipe-Books n s b))
        b.accounted b.quiet

  flush_if_ready-WorkerBooks :
      (n : ℕ) (s : Worker) (w : Wait) (now : ℕ)
      → n < 2 ^ 64
      → WorkerBooks config n s
      → WorkerBooks config n (flush_if_ready config s w now)
  unfolding flush_if_ready
  flush_if_ready-WorkerBooks n s w now room b = elim (Bool-cases (ready s.pipe.batch config)) [
    | inl full ↦ simp full (flush-WorkerBooks n s w now room b)
    | inr more ↦ simp more b
  ]

  after_push-WorkerBooks :
      (n : ℕ) (s : Worker) (w : Wait) (now : ℕ) (t : Pipe × Option LogRecord)
      → n < 2 ^ 64
      → s.deferred_record ≡ none
      → HoldsBooks config (weight t.0 + held t.1) t
      → weight t.0 + held t.1 + length s.queue.ring ≡ n
      → WorkerBooks config n (after_push config s w now t)
  unfolding after_push
  after_push-WorkerBooks n s w now (p, some r) room d b e = record {
    accounted = omega arith;
    pending = b.1;
    bounded = b.2;
    quiet = λ h. cc;
  }
  after_push-WorkerBooks n s w now (p, none) room d b e =
      flush_if_ready-WorkerBooks n (record s { pipe = p }) w now room
        (record { accounted = ground arith; pending = b.1; bounded = b.2; quiet = λ h. d })

  pub after_recv-WorkerBooks :
      (n : ℕ) (s : Worker) (room_wait full : Wait) (now : ℕ) (ring : List LogRecord)
      → n < 2 ^ 64
      → s.deferred_record ≡ none
      → s.queue.ring ≡ ring
      → WorkerBooks config n s
      → WorkerBooks config n (after_recv config s room_wait full now (recv_from s.queue ring))
  unfolding after_recv recv_from
  after_recv-WorkerBooks n s room_wait full now [] room d e b = elim (Bool-cases s.queue.closed) [
    | inl shut ↦ simp shut (record {
      accounted = b.accounted;
      pending = b.pending;
      bounded = b.bounded;
      quiet = λ h. cc;
    })
    | inr open_ ↦ simp open_ b
  ]
  after_recv-WorkerBooks n s room_wait full now (r ∷ rest) room d e b =
      let t = push_or_drop config s.pipe r none room_wait in
      let h =
        push_or_drop-HoldsBooks config few (weight s.pipe) (ground arith) s.pipe r none room_wait
          (pipe-Books n s b) in
      after_push-WorkerBooks n (record s { queue = record s.queue { ring = rest } }) full now t room
        d (refl, h.1, h.2) (ground (arith, b.accounted, h.0))

  pub produced-WorkerBooks :
      (n : ℕ) (s : Worker) (r : LogRecord)
      → n + 1 < 2 ^ 64
      → WorkerBooks config n s
      → WorkerBooks config (n + 1) (produced_by config s r)
  unfolding produced_by
  produced-WorkerBooks n s r room b =
      let e =
        enqueue_books config.overflow_policy s.queue s.pipe.dropped r
          (omega (arith, b.accounted)) in
      record {
        accounted = omega (arith, e, b.accounted);
        pending = b.pending;
        bounded = b.bounded;
        quiet = b.quiet;
      }

  pub shutdown-WorkerBooks :
      (n : ℕ) (s : Worker) (b : Bool)
      → WorkerBooks config n s
      → WorkerBooks config n (handle config s (shutdown_changed b))
  unfolding handle
  shutdown-WorkerBooks n s true b = record {
    accounted = b.accounted;
    pending = b.pending;
    bounded = b.bounded;
    quiet = λ h. cc;
  }
  shutdown-WorkerBooks n s false b = b

  pub tick-WorkerBooks :
      (n : ℕ) (s : Worker) (at : ℕ) (w : Wait) (now : ℕ)
      → n < 2 ^ 64
      → WorkerBooks config n s
      → WorkerBooks config n (handle config s (tick at w now))
  unfolding handle
  tick-WorkerBooks n s at w now room b = elim (Bool-cases (ltb at s.flush_deadline)) [
    | inl early ↦ rw early b
    | inr due ↦ rw due (flush-WorkerBooks n s w now room b)
  ]

  pub done-WorkerBooks :
      (n : ℕ) (s : Worker) (f : Finish)
      → n < 2 ^ 64
      → WorkerBooks config n s
      → WorkerBooks config n (handle config s (task_done f))
  unfolding handle
  done-WorkerBooks n s f room b =
      let c =
        finish_task-Books config few (weight s.pipe) (omega (arith, b.accounted)) s.pipe f
          (pipe-Books n s b) in
      record {
        accounted = omega (arith, c.accounted, b.accounted);
        pending = c.pending;
        bounded = c.bounded;
        quiet = b.quiet;
      }
