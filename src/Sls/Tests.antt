-- ===== src/Sls/Tests.antt =====
-- Runs of the sink's model on concrete inputs: the theorems at work, and outcomes by computation.
use neon_rs.Base.{
  ◌⊎◌, ◌↔◌, ℕ, ◌+◌, ◌/◌, ◌≤◌, ◌≡◌, ◌≢◌, refl, true, none, List, [], ◌∷◌, arith, drop, length, map,
}
use neon_rs.Base.Text.{Text}
use neon_rs.Base.Result.{Result, ok}
use neon_rs.Sls.Config.{
  SlsConfig, SlsCredentials, drop_newest, drop_oldest, Setter, new, set_all, normalized, millis,
  secs,
}
use neon_rs.Sls.Config.Normal.{IsNormal, normalized-set_all}
use neon_rs.Sls.Counters.{
  no_drops, dropped_total, Adds, aggregate_drop_snapshot, aggregate_drop_snapshot_total,
}
use neon_rs.Sls.Batch.{LogRecord, record_byte_size, len, ready, would_exceed_bytes, push_sized}
use neon_rs.Sls.Backoff.{backoff_delay, jittered_backoff_delay, next_jitter_u64, as_millis}
use neon_rs.Sls.Backoff.Bounds.{retry_wait_bounds}
use neon_rs.Sls.Send.{
  Attempt, replied, refused, server, running, send_with_retry, await_put_logs, is_no_retry_error,
  sleep_backoff, turn,
}
use neon_rs.Sls.Send.Accounting.{Ends, send_with_retry-Ends, send_with_retry_ends}
use neon_rs.Sls.Queue.{SinkQueue, enqueue_all, enqueue, enter, push, recv, recv_from, close}
use neon_rs.Sls.Queue
use neon_rs.Sls.Queue.Policy.{enqueue_all-new}
use neon_rs.Sls.Queue.Close.{
  State, starting, before, flagged, returned, outside, here, next, Reach, flags, returns, produces,
  advance,
}
use neon_rs.Sls.Queue.Close.Barrier.{close_is_barrier, active_enqueues_counts}
use neon_rs.Sls.Pipeline.{
  Task, Pipe, Wait, granted, interrupted, drain_into_buf, spawn_flush, push_or_drop, finish_task,
  finish_tasks,
}
use neon_rs.Sls.Pipeline.Sizes.{Sized}
use neon_rs.Sls.Pipeline.Intake.{drain_into_buf-Sized}
use neon_rs.Sls.Worker.{
  Event, produce, shutdown_changed, take_record, task_done, start, run_loop, Closing, run_pipeline,
  handle,
}
use neon_rs.Sls.Worker.Steps.{WorkerBooks}
use neon_rs.Sls.Worker.Accounting.{run_loop_books}
use neon_rs.Sls.Worker.Shutdown.{run_pipeline_accounts}
use neon_rs.Sls.Worker.Sizes.{run_loop-Sized}

abbrev keys : SlsCredentials
keys = record {
  access_key_id = 107 ∷ [];
  access_key_secret = 115 ∷ [];
  security_token = [];
  expire_time = none;
}

abbrev provider : ℕ → Result Text SlsCredentials
provider k = ok keys

abbrev sample : SlsConfig
sample = record {
  endpoint = 101 ∷ [];
  project = 112 ∷ [];
  logstore = 108 ∷ [];
  topic = none;
  source = none;
  max_batch_size = 2;
  max_batch_bytes = 1024;
  flush_interval = secs 2;
  queue_capacity = 2;
  max_inflight = 1;
  max_retries = 1;
  retry_base = millis 200;
  retry_max = secs 10;
  no_retry_status = 400 ∷ 404 ∷ [];
  request_timeout = secs 30;
  shutdown_timeout = secs 15;
  credentials_provider = provider;
  credentials_refresh_interval = none;
  credentials_refresh_ahead = secs 300;
  overflow_policy = drop_newest;
}

sample-IsNormal : IsNormal sample
sample-IsNormal = record {
  batch_size_pos = omega arith;
  capacity_pos = omega arith;
  inflight_pos = omega arith;
  flush_pos = omega arith;
  base_pos = omega arith;
  base_le_max = omega arith;
  request_pos = omega arith;
  shutdown_pos = omega arith;
  bytes_min = omega arith;
  bytes_max = omega arith;
  refresh_fits = tt;
  topic_set = tt;
  source_set = tt;
}

abbrev entry : ℕ → LogRecord
entry n = record { time = n; time_ns = 0; fields = (109 ∷ [], 120 ∷ []) ∷ [] }

abbrev at_once : Wait
at_once = record { now = 1; finished = []; outcome = granted }

abbrev no_room : Wait
no_room = record { now = 1; finished = []; outcome = interrupted }

abbrev answered : Attempt
answered = record {
  now = 1;
  encoded = true;
  events = replied ∷ [];
  seed = 7;
  jitter_clock = 9;
  sleep_now = 2;
  sleep_changed = none;
}

abbrev failing : Attempt
failing = record answered { events = refused (server 500) ∷ [] }

-- Two records fill a batch that goes out, a third overflows the ring, and shutdown begins.
abbrev busy : List Event
busy =
    produce (entry 1)
    ∷ produce (entry 2)
    ∷ produce (entry 3)
    ∷ take_record at_once at_once 5
    ∷ take_record at_once at_once 6
    ∷ task_done (record { index = 0; script = answered ∷ [] })
    ∷ produce (entry 4)
    ∷ shutdown_changed true
    ∷ []

abbrev closing : Closing
closing = record {
  now = 10;
  room = at_once;
  full = at_once;
  rounds = λ k. record { now = 11; room = at_once; full = at_once };
  tail_now = 12;
  tail = at_once;
  finished = record { index = 0; script = failing ∷ failing ∷ [] } ∷ [];
}

busy_run :
    let p = (run_pipeline sample 0 busy closing).pipe in
    (p.delivered ≡ 2) × (p.dropped ≡ record no_drops { queue_full = 1; send_failed = 1 })
unfolding run_pipeline run_loop start handle spawn_flush push_or_drop drain_into_buf finish_task
    finish_tasks send_with_retry enqueue enter push recv recv_from ready would_exceed_bytes
    push_sized record_byte_size await_put_logs is_no_retry_error close sleep_backoff turn
    jittered_backoff_delay next_jitter_u64 backoff_delay Queue.new
busy_run = (refl, refl)

run_pipeline_accounts_example :
    let s = run_pipeline sample 0 busy closing in
    dropped_total s.pipe.dropped + s.pipe.delivered ≡ 4
run_pipeline_accounts_example =
    run_pipeline_accounts sample (omega arith) 0 busy closing (omega arith)

run_loop_books_example : WorkerBooks sample 4 (run_loop sample (start sample 0) busy)
run_loop_books_example = run_loop_books sample (omega arith) 0 busy (omega arith)

run_loop-Sized_example : Sized sample 2 (run_loop sample (start sample 0) busy).pipe
run_loop-Sized_example = run_loop-Sized sample sample-IsNormal 0 busy

send_with_retry-Ends_example :
    Ends sample 3 no_drops (send_with_retry sample 3 no_drops (failing ∷ failing ∷ []) none)
send_with_retry-Ends_example =
    send_with_retry-Ends sample 3 no_drops (omega arith) (omega arith) (failing ∷ failing ∷ []) none

send_with_retry_ends_example :
    (send_with_retry sample 3 no_drops (failing ∷ failing ∷ []) none).ending ≢ running
send_with_retry_ends_example =
    send_with_retry_ends sample 3 no_drops (omega arith) (failing ∷ failing ∷ []) none (omega arith)
      (refl, (refl, tt))

enqueue_all-new_example :
    let (q, c) = enqueue_all {A = ℕ} drop_oldest (Queue.new 2) no_drops (5 ∷ 6 ∷ 7 ∷ []) in
    (q.ring ≡ 6 ∷ 7 ∷ []) × (c.queue_full ≡ 1) × (c.worker_closed ≡ 0)
enqueue_all-new_example = enqueue_all-new drop_oldest 2 no_drops (5 ∷ 6 ∷ 7 ∷ []) (omega arith)

abbrev plans : List (List LogRecord)
plans = (entry 1 ∷ []) ∷ []

retry_wait_bounds_example :
    let d = backoff_delay sample 3 in
    (d ≡ millis 800)
    × (millis (as_millis d / 2) ≤ jittered_backoff_delay 7 9 d)
    × (jittered_backoff_delay 7 9 d ≤ d)
    × (d ≤ secs 10)
    × (millis (as_millis (millis 200)) ≤ d)
retry_wait_bounds_example = retry_wait_bounds sample (omega arith) 2 7 9 sample-IsNormal

normalized-set_all_example :
    let c = set_all (new [] [] [] provider) (Setter.max_batch_size 0 ∷ Setter.topic [] ∷ []) in
    IsNormal (normalized c)
    × (normalized (normalized c) ≡ normalized c)
    × (IsNormal c ↔ (normalized c ≡ c))
normalized-set_all_example =
    normalized-set_all [] [] [] provider (Setter.max_batch_size 0 ∷ Setter.topic [] ∷ [])

abbrev map_len : List Task → List ℕ
map_len ts = map (λ t. length t.records) ts

abbrev fresh : State
fresh = starting 2 plans

abbrev closing_down : State
closing_down = record fresh { queue = record fresh.queue { closed = true }; closer = flagged }

abbrev closed_down : State
closed_down = record closing_down { closer = returned }

abbrev afterwards : State
afterwards = record closed_down {
  producers = outside [] ∷ [];
  dropped = record no_drops { worker_closed = 1 };
}

closes : Reach drop_newest fresh closed_down
unfolding starting Queue.new
closes = next (next here (flags fresh refl)) (returns closing_down refl refl)

close_is_barrier_example : (k : ℕ) × (afterwards.queue.ring ≡ drop k closed_down.queue.ring)
unfolding starting Queue.new advance
close_is_barrier_example =
    close_is_barrier drop_newest 2 plans closes refl
      (next here (produces closed_down 0 (outside (entry 1 ∷ [])) refl))

active_enqueues_counts_example :
    (closed_down.queue.active_enqueues ≡ 0)
    × ((closed_down.closer ≡ before) ⊎ (closed_down.queue.closed ≡ true))
unfolding starting
active_enqueues_counts_example = active_enqueues_counts drop_newest 2 plans closes

abbrev full_pipe : Pipe
full_pipe = record {
  dropped = no_drops;
  batch = record { records = entry 1 ∷ entry 2 ∷ []; bytes = 100 };
  inflight = [];
  pending_records = 0;
  permits = 1;
  delivered = 0;
}

full_pipe-Sized : Sized sample 3 full_pipe
unfolding record_byte_size
full_pipe-Sized = record {
  bytes_exact = refl;
  batch_fits = omega arith;
  batch_short = omega arith;
  tasks_fit = tt;
}

drain_into_buf-Sized_example :
    let q = (drain_into_buf sample full_pipe (entry 3 ∷ []) 50 closing.rounds).0 in
    Sized sample 3 q × (len q.batch ≤ 2)
drain_into_buf-Sized_example =
    drain_into_buf-Sized sample sample-IsNormal 50 full_pipe (entry 3 ∷ []) closing.rounds
      full_pipe-Sized (omega arith)

-- A full batch left by the main loop takes one record more at shutdown.
one_too_many :
    map_len (drain_into_buf sample full_pipe (entry 3 ∷ []) 50 closing.rounds).0.inflight ≡ 3 ∷ []
unfolding drain_into_buf push_or_drop spawn_flush finish_tasks ready would_exceed_bytes push_sized
    record_byte_size
one_too_many = refl

aggregate_drop_snapshot_total_example :
    Adds (aggregate_drop_snapshot (no_drops ∷ record no_drops { send_failed = 3 } ∷ []))
    × ((aggregate_drop_snapshot (no_drops ∷ record no_drops { send_failed = 3 } ∷ [])).total ≡ 3)
aggregate_drop_snapshot_total_example =
    aggregate_drop_snapshot_total (no_drops ∷ record no_drops { send_failed = 3 } ∷ [])
