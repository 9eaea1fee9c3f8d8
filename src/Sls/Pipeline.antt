-- ===== src/Sls/Pipeline.antt =====
-- crates/neon-log/src/sls/sink.rs: `Pipeline` with `spawn_flush`, `push_or_drop` and
-- `drain_into_buf`, `PendingBatch`, and the sending tasks that are in flight. The state keeps what
-- the handles of the source share; `delivered` is not in the source and counts the records of
-- the batches that the server took. A wait for a permit is answered by the environment: the time
-- read before it, the tasks that end while it lasts, and how it is resolved.
pub mod Accounting
pub mod Drain
pub mod Empties
pub mod Intake
pub mod Sizes
use neon_rs.Base.{
  ℕ, zero, suc, ◌+◌, ◌-◌, ◌%◌, ◌^◌, Bool, true, false, Option, none, some, List, [], ◌∷◌, ◌++◌, leb,
  ltb, ◌==◌, if◌then◌else◌, length, get_elem?, is_empty,
}
use neon_rs.Sls.Config.{SlsConfig}
use neon_rs.Sls.Counters.{DropCounters, u64_mod, fetch_add, inc_send_failed, inc_shutdown_dropped}
use neon_rs.Sls.Batch.{
  LogRecord, Batch, record_byte_size, push_sized, would_exceed_bytes, len, clear, ready,
  saturating_add, log_group_proto_overhead_bytes,
}
use neon_rs.Sls.Send.{Attempt, Ending, running, delivered, lost, Report, send_with_retry}

-- A dispatched batch, with the deadline that its task was given.
pub record Task : Type 0 where
  pub records : List LogRecord
  pub deadline : Option ℕ

pub record Pipe : Type 0 where
  pub dropped : DropCounters
  pub batch : Batch
  pub inflight : List Task
  pub pending_records : ℕ
  pub permits : ℕ
  pub delivered : ℕ

-- The task at `index` runs through `script`.
pub record Finish : Type 0 where
  pub index : ℕ
  pub script : List Attempt

-- How the wait for a permit is resolved: by a permit, by a closed semaphore, or by what it races
-- against, the timeout under a deadline and the shutdown signal without one.
pub data Outcome : Type 0 where
  granted semaphore_closed interrupted : Outcome

pub record Wait : Type 0 where
  pub now : ℕ
  pub finished : List Finish
  pub outcome : Outcome

pub data FlushResult : Type 0 where
  flushed deferred_for_shutdown dropped : FlushResult

abbrev pub remove_at {ℓ} : {A : Type ℓ} → ℕ → List A → List A
remove_at n [] = []
remove_at zero (x ∷ xs) = xs
remove_at (suc n) (x ∷ xs) = x ∷ remove_at n xs

abbrev pub fetch_sub : ℕ → ℕ → ℕ
fetch_sub c n = (c + u64_mod - n) % u64_mod

abbrev pub count_of : Ending → ℕ → ℕ
count_of delivered n = n
count_of _ n = 0

-- A task that ends leaves the counters to its report, and gives back its permit and its share of
-- the pending records.
settle_task : Pipe → ℕ → ℕ → Ending → DropCounters → Pipe
settle_task p index count running counters = p
settle_task p index count ending counters = record p {
  dropped = counters;
  inflight = remove_at index p.inflight;
  pending_records = fetch_sub p.pending_records count;
  permits = p.permits + 1;
  delivered = p.delivered + count_of ending count;
}

run_task : SlsConfig → Pipe → ℕ → List Attempt → Option Task → Pipe
unfolding settle_task
run_task config p index script none = p
run_task config p index script (some t) =
    let r = send_with_retry config (length t.records) p.dropped script t.deadline in
    settle_task p index (length t.records) r.ending r.dropped

unfoldable pub finish_task : SlsConfig → Pipe → Finish → Pipe
unfolding run_task
finish_task config p f = run_task config p f.index f.script (get_elem? p.inflight f.index)

unfoldable pub finish_tasks : SlsConfig → Pipe → List Finish → Pipe
finish_tasks config p [] = p
finish_tasks config p (f ∷ fs) = finish_tasks config (finish_task config p f) fs

-- The semaphore grants a permit only while it has one.
abbrev pub resolve : ℕ → Outcome → Outcome
resolve permits granted = if permits == 0 then interrupted else granted
resolve permits semaphore_closed = semaphore_closed
resolve permits interrupted = interrupted

-- Take the whole batch and start its task.
dispatch : Pipe → Option ℕ → Pipe
dispatch p deadline = record p {
  batch = clear p.batch;
  inflight = p.inflight ++ (record { records = p.batch.records; deadline = deadline }) ∷ [];
  pending_records = fetch_add p.pending_records (len p.batch);
  permits = p.permits - 1;
}

drop_shutdown : Pipe → Pipe
drop_shutdown p = record p {
  dropped = inc_shutdown_dropped p.dropped (len p.batch);
  batch = clear p.batch;
}

drop_failed : Pipe → Pipe
drop_failed p = record p {
  dropped = inc_send_failed p.dropped (len p.batch);
  batch = clear p.batch;
}

acquired : Pipe → Option ℕ → Outcome → Pipe × FlushResult
unfolding dispatch drop_shutdown drop_failed
acquired p deadline granted = (dispatch p deadline, flushed)
acquired p deadline semaphore_closed = (drop_failed p, dropped)
acquired p (some d) interrupted = (drop_shutdown p, dropped)
acquired p none interrupted = (p, deferred_for_shutdown)

-- Whether a deadline leaves no time to wait.
abbrev pub used_up : Option ℕ → ℕ → Bool
used_up none now = false
used_up (some d) now = d - now == 0

unfoldable pub spawn_flush : SlsConfig → Pipe → Option ℕ → Wait → Pipe × FlushResult
unfolding acquired
spawn_flush config p deadline w =
    let waited = finish_tasks config p w.finished in
    if is_empty p.batch.records
    then (p, flushed)
    else if used_up deadline w.now
    then (drop_shutdown p, dropped)
    else acquired waited deadline (resolve waited.permits w.outcome)

abbrev pub is_some {ℓ} : {A : Type ℓ} → Option A → Bool
is_some none = false
is_some (some a) = true

pushed : Pipe → LogRecord → Pipe
pushed p r = record p { batch = push_sized p.batch r (record_byte_size r) }

drop_one : Pipe → Option ℕ → Pipe
drop_one p (some d) = record p { dropped = inc_shutdown_dropped p.dropped 1 }
drop_one p none = record p { dropped = inc_send_failed p.dropped 1 }

-- After the flush that makes room for `r`.
make_room : Pipe → LogRecord → Option ℕ → FlushResult → Pipe × Option LogRecord
unfolding pushed drop_one
make_room p r deadline flushed = (pushed p r, none)
make_room p r deadline deferred_for_shutdown = (p, some r)
make_room p r deadline dropped = (drop_one p deadline, none)

unfoldable pub push_or_drop :
    SlsConfig → Pipe → LogRecord → Option ℕ → Wait → Pipe × Option LogRecord
unfolding make_room
push_or_drop config p r deadline w =
    let n = record_byte_size r in
    let (p', result) = spawn_flush config p deadline w in
    if ltb config.max_batch_bytes (saturating_add n log_group_proto_overhead_bytes)
    then (record p { dropped = inc_send_failed p.dropped 1 }, none)
    else if would_exceed_bytes p.batch n config
    then make_room p' r deadline result
    else (pushed p r, none)

-- One round of `drain_into_buf`: the time read, and the waits of its two flushes.
pub record Round : Type 0 where
  pub now : ℕ
  pub room : Wait
  pub full : Wait

-- What a round leaves, and whether the loop goes on.
pub drain_full : SlsConfig → Pipe → ℕ → Wait → Pipe × FlushResult
drain_full config p deadline w =
    if ready p.batch config then spawn_flush config p (some deadline) w else (p, flushed)

drain_one : SlsConfig → ℕ → Round → Pipe × Option LogRecord → Pipe × FlushResult
unfolding drain_full
drain_one config deadline round (p, some r) = (p, dropped)
drain_one config deadline round (p, none) = drain_full config p deadline round.full

after_round :
    (Pipe → Pipe × List LogRecord) → List LogRecord → Pipe × FlushResult → Pipe × List LogRecord
after_round next rest (p, flushed) = next p
after_round next rest (p, deferred_for_shutdown) = (p, rest)
after_round next rest (p, dropped) = (p, rest)

-- The queue is closed by now and only this loop takes from it. Returns what it leaves there.
unfoldable pub drain_into_buf :
    SlsConfig → Pipe → List LogRecord → ℕ → (ℕ → Round) → Pipe × List LogRecord
unfolding drain_one after_round
drain_into_buf config p [] deadline rounds = (p, [])
drain_into_buf config p (r ∷ rest) deadline rounds =
    let round = rounds 0 in
    let turn =
      drain_one config deadline round (push_or_drop config p r (some deadline) round.room) in
    if leb deadline round.now
    then (p, r ∷ rest)
    else after_round (λ p'. drain_into_buf config p' rest deadline (λ k. rounds (suc k))) rest turn
