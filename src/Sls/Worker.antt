-- ===== src/Sls/Worker.antt =====
-- crates/neon-log/src/sls/sink.rs: `run_pipeline`, the worker of one sink, and `run_sink`. The main
-- loop takes one event at a time, in any order that the environment chooses; what the tokio
-- runtime interleaves inside a handler is given with the handler's waits.
pub mod Steps
pub mod Accounting
pub mod Shutdown
pub mod Sizes
use neon_rs.Base.{
  ℕ, suc, ◌+◌, ◌-◌, Bool, true, false, not, ◌&&◌, Option, none, some, List, [], ◌∷◌, ltb, leb, ◌==◌,
  if◌then◌else◌, length, is_empty,
}
use neon_rs.Sls.Config.{SlsConfig}
use neon_rs.Sls.Counters.{DropCounters, no_drops, inc_shutdown_dropped, inc_worker_closed}
use neon_rs.Sls.Batch.{LogRecord, empty, len, clear, ready}
use neon_rs.Sls.Queue.{SinkQueue, Recv, received, ended, waiting, enqueue, recv, close}
use neon_rs.Sls.Queue
use neon_rs.Sls.Pipeline.{
  Pipe, Finish, Wait, FlushResult, flushed, deferred_for_shutdown, dropped, Round, spawn_flush,
  push_or_drop, drain_into_buf, finish_task, finish_tasks,
}

-- A sink at work. `queue`'s producers are in the events.
pub record Worker : Type 0 where
  pub queue : SinkQueue LogRecord
  pub pipe : Pipe
  pub shutting_down : Bool
  pub deferred_record : Option LogRecord
  pub flush_deadline : ℕ

pub data Event : Type 0 where
  -- A producer calls `SlsSink::enqueue`.
  produce : LogRecord → Event
  -- `shutdown_rx.changed()`, with whether it asks for shutdown.
  shutdown_changed : Bool → Event
  -- `queue.recv()`, with the waits of its flushes and the time read after them.
  take_record : Wait → Wait → ℕ → Event
  -- The flush timer at this time, with the wait of its flush and the time read after it.
  tick : ℕ → Wait → ℕ → Event
  -- A task makes its way to its end.
  task_done : Finish → Event

unfoldable pub start : SlsConfig → ℕ → Worker
start config now = record {
  queue = Queue.new config.queue_capacity;
  pipe = record {
    dropped = no_drops;
    batch = empty;
    inflight = [];
    pending_records = 0;
    permits = config.max_inflight;
    delivered = 0;
  };
  shutting_down = false;
  deferred_record = none;
  flush_deadline = now + config.flush_interval;
}

-- After a flush in the main loop: the timer starts again, or the worker shuts down.
after_flush : SlsConfig → Worker → ℕ → Pipe × FlushResult → Worker
after_flush config s now (p, deferred_for_shutdown) = record s { pipe = p; shutting_down = true }
after_flush config s now (p, _) = record s {
  pipe = p;
  flush_deadline = now + config.flush_interval;
}

flush_if_ready : SlsConfig → Worker → Wait → ℕ → Worker
unfolding after_flush
flush_if_ready config s w now =
    if ready s.pipe.batch config
    then after_flush config s now (spawn_flush config s.pipe none w)
    else s

after_push : SlsConfig → Worker → Wait → ℕ → Pipe × Option LogRecord → Worker
unfolding flush_if_ready
after_push config s w now (p, some r) = record s {
  pipe = p;
  deferred_record = some r;
  shutting_down = true;
}
after_push config s w now (p, none) = flush_if_ready config (record s { pipe = p }) w now

pub after_recv : SlsConfig → Worker → Wait → Wait → ℕ → Recv LogRecord → Worker
unfolding after_push
after_recv config s room full now waiting = s
after_recv config s room full now ended = record s { shutting_down = true }
after_recv config s room full now (received r q) =
    after_push config (record s { queue = q }) full now (push_or_drop config s.pipe r none room)

pub produced_by : SlsConfig → Worker → LogRecord → Worker
produced_by config s r =
    let (q, c) = enqueue config.overflow_policy s.queue s.pipe.dropped r in
    record s { queue = q; pipe = record s.pipe { dropped = c } }

unfoldable pub handle : SlsConfig → Worker → Event → Worker
unfolding after_recv after_flush produced_by
handle config s (produce r) = produced_by config s r
handle config s (shutdown_changed b) = if b then record s { shutting_down = true } else s
handle config s (take_record room full now) = after_recv config s room full now (recv s.queue)
handle config s (tick at w now) =
    if ltb at s.flush_deadline
    then s
    else after_flush config s now (spawn_flush config s.pipe none w)
handle config s (task_done f) = record s { pipe = finish_task config s.pipe f }

-- Producers and tasks go on while the worker leaves the loop; it takes no other event by then.
abbrev pub goes_on : Event → Bool
goes_on (produce r) = true
goes_on (task_done f) = true
goes_on _ = false

unfoldable pub run_loop : SlsConfig → Worker → List Event → Worker
run_loop config s [] = s
run_loop config s (e ∷ es) =
    let next = run_loop config (handle config s e) es in
    if s.shutting_down && not (goes_on e) then run_loop config s es else next

-- The environment of the shutdown sequence.
pub record Closing : Type 0 where
  pub now : ℕ
  pub room : Wait
  pub full : Wait
  pub rounds : ℕ → Round
  pub tail_now : ℕ
  pub tail : Wait
  -- The tasks that end before the worker stops waiting for them.
  pub finished : List Finish

flush_deferred_full : SlsConfig → Pipe → ℕ → Wait → Pipe
flush_deferred_full config p deadline w =
    if ready p.batch config then (spawn_flush config p (some deadline) w).0 else p

flush_deferred : SlsConfig → Pipe → ℕ → Closing → Option LogRecord → Pipe
unfolding flush_deferred_full
flush_deferred config p deadline c none = p
flush_deferred config p deadline c (some r) =
    flush_deferred_full config (push_or_drop config p r (some deadline) c.room).0 deadline c.full

flush_tail : SlsConfig → Pipe → ℕ → Closing → Pipe
flush_tail config p deadline c =
    if is_empty p.batch.records
    then p
    else if ltb c.tail_now deadline
    then (spawn_flush config p (some deadline) c.tail).0
    else record p { dropped = inc_shutdown_dropped p.dropped (len p.batch); batch = clear p.batch }

-- What is left in the queue is counted, as is what is still pending; those tasks are aborted.
count_queued : Pipe → List LogRecord → Pipe
count_queued p rest = record p { dropped = inc_shutdown_dropped p.dropped (length rest) }

abort_inflight : Pipe → Pipe
abort_inflight p = record p {
  dropped =
      if is_empty p.inflight then p.dropped else inc_shutdown_dropped p.dropped p.pending_records;
  inflight = [];
}

finish_drained : SlsConfig → Worker → ℕ → Closing → Pipe × List LogRecord → Worker
unfolding flush_tail count_queued abort_inflight
finish_drained config s deadline c (p, rest) =
    let counted = count_queued (flush_tail config p deadline c) rest in
    let waited = finish_tasks config counted c.finished in
    record s {
      queue = record s.queue { ring = rest; closed = true };
      deferred_record = none;
      pipe = abort_inflight waited;
    }

unfoldable pub shut_down : SlsConfig → Worker → Closing → Worker
unfolding flush_deferred finish_drained
shut_down config s c =
    let deadline = c.now + config.shutdown_timeout in
    let q = close s.queue in
    let p = flush_deferred config s.pipe deadline c s.deferred_record in
    finish_drained config s deadline c (drain_into_buf config p q.ring deadline c.rounds)

-- `run_pipeline`: the main loop, then the shutdown sequence.
unfoldable pub run_pipeline : SlsConfig → ℕ → List Event → Closing → Worker
unfolding shut_down
run_pipeline config now es c = shut_down config (run_loop config (start config now) es) c
