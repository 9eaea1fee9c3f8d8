-- ===== src/Sls/Pipeline/Sizes.antt =====
-- The sizes of batches: what is in the batch and in each task in flight, in bytes and in records.
use neon_rs.Base.{
  ℕ, zero, suc, ◌+◌, ◌≤◌, ◌≡◌, refl, Option, none, some, List, [], ◌∷◌, arith, length, is_empty,
  inl, inr, Bool-cases, All, All-append, sum_by,
}
use neon_rs.Sls.Config.{SlsConfig}
use neon_rs.Sls.Config.Normal.{IsNormal}
use neon_rs.Sls.Counters.{DropCounters}
use neon_rs.Sls.Batch.{LogRecord, record_byte_size, len, log_group_proto_overhead_bytes}
use neon_rs.Sls.Send.{Attempt, Ending, running, delivered, lost, send_with_retry}
use neon_rs.Sls.Pipeline.{
  Task, Pipe, Finish, Outcome, granted, semaphore_closed, interrupted, Wait, remove_at, settle_task,
  run_task, finish_task, finish_tasks, resolve, dispatch, drop_shutdown, drop_failed, acquired,
  used_up, spawn_flush,
}

abbrev pub size_of : List LogRecord → ℕ
size_of rs = sum_by record_byte_size rs

-- Within the byte limit, with the overhead of the log group.
abbrev pub Fits : SlsConfig → List LogRecord → Type 0
Fits config rs = size_of rs + log_group_proto_overhead_bytes ≤ config.max_batch_bytes

abbrev pub TaskFits : SlsConfig → ℕ → Task → Type 0
TaskFits config cap t = Fits config t.records × (length t.records ≤ cap)

-- `cap` bounds the records of a batch.
pub record Sized (config : SlsConfig) (cap : ℕ) (p : Pipe) : Type 0 where
  pub bytes_exact : p.batch.bytes ≡ size_of p.batch.records
  pub batch_fits : Fits config p.batch.records
  pub batch_short : len p.batch ≤ cap
  pub tasks_fit : All (TaskFits config cap) p.inflight

All-remove_at : (P : Task → Type 0) (i : ℕ) (ts : List Task) → All P ts → All P (remove_at i ts)
All-remove_at P i [] h = h
All-remove_at P zero (t ∷ ts) h = h.1
All-remove_at P (suc i) (t ∷ ts) h = (h.0, All-remove_at P i ts h.1)

module _ (config : SlsConfig) (normal : IsNormal config) (cap : ℕ) where
  settle_task-Sized :
      (p : Pipe) (i n : ℕ) (ending : Ending) (d : DropCounters)
      → Sized config cap p
      → Sized config cap (settle_task p i n ending d)
  unfolding settle_task
  settle_task-Sized p i n running d v = v
  settle_task-Sized p i n delivered d v = record {
    bytes_exact = v.bytes_exact;
    batch_fits = v.batch_fits;
    batch_short = v.batch_short;
    tasks_fit = All-remove_at (TaskFits config cap) i p.inflight v.tasks_fit;
  }
  settle_task-Sized p i n lost d v = record {
    bytes_exact = v.bytes_exact;
    batch_fits = v.batch_fits;
    batch_short = v.batch_short;
    tasks_fit = All-remove_at (TaskFits config cap) i p.inflight v.tasks_fit;
  }

  run_task-Sized :
      (p : Pipe) (i : ℕ) (script : List Attempt) (o : Option Task)
      → Sized config cap p
      → Sized config cap (run_task config p i script o)
  unfolding run_task
  run_task-Sized p i script none v = v
  run_task-Sized p i script (some t) v =
      let r = send_with_retry config (length t.records) p.dropped script t.deadline in
      settle_task-Sized p i (length t.records) r.ending r.dropped v

  pub finish_task-Sized :
      (p : Pipe) (f : Finish) → Sized config cap p → Sized config cap (finish_task config p f)
  unfolding finish_task
  finish_task-Sized p f v = run_task-Sized p f.index f.script _ v

  pub finish_tasks-Sized :
      (p : Pipe) (fs : List Finish)
      → Sized config cap p
      → Sized config cap (finish_tasks config p fs)
  unfolding finish_tasks
  finish_tasks-Sized p [] v = v
  finish_tasks-Sized p (f ∷ fs) v =
      finish_tasks-Sized (finish_task config p f) fs (finish_task-Sized p f v)

  acquired-Sized :
      (p : Pipe) (deadline : Option ℕ) (o : Outcome)
      → Sized config cap p
      → Sized config cap (acquired p deadline o).0
  unfolding acquired dispatch drop_shutdown drop_failed
  acquired-Sized p deadline granted v = record {
    bytes_exact = refl;
    batch_fits = omega (arith, normal.bytes_min);
    batch_short = omega arith;
    tasks_fit =
        All-append (TaskFits config cap) p.inflight _ v.tasks_fit
          ((v.batch_fits, v.batch_short), tt);
  }
  acquired-Sized p deadline semaphore_closed v = record {
    bytes_exact = refl;
    batch_fits = omega (arith, normal.bytes_min);
    batch_short = omega arith;
    tasks_fit = v.tasks_fit;
  }
  acquired-Sized p (some d) interrupted v = record {
    bytes_exact = refl;
    batch_fits = omega (arith, normal.bytes_min);
    batch_short = omega arith;
    tasks_fit = v.tasks_fit;
  }
  acquired-Sized p none interrupted v = v

  -- A flush dispatches a batch that fits, or none.
  pub spawn_flush-Sized :
      (p : Pipe) (deadline : Option ℕ) (w : Wait)
      → Sized config cap p
      → Sized config cap (spawn_flush config p deadline w).0
  unfolding spawn_flush drop_shutdown
  spawn_flush-Sized p deadline w v =
      let waited = finish_tasks config p w.finished in
      elim (Bool-cases (is_empty p.batch.records)) [
        | inl e ↦ simp e v
        | inr e ↦ simp e (elim (Bool-cases (used_up deadline w.now)) [
          | inl u ↦ simp u (record {
            bytes_exact = refl;
            batch_fits = omega (arith, normal.bytes_min);
            batch_short = omega arith;
            tasks_fit = v.tasks_fit;
          })
          | inr u ↦ simp u (
              acquired-Sized waited deadline (resolve waited.permits w.outcome)
                (finish_tasks-Sized p w.finished v))
        ])
      ]
