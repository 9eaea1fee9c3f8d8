-- ===== src/Sls/Pipeline/Accounting.antt =====
-- The books of the pipeline: each record that it was given is delivered, counted as dropped, in
-- the batch, or in flight; the pending count and the permits agree with the tasks in flight.
use neon_rs.Base.{
  ℕ, zero, suc, ◌+◌, ◌^◌, ◌<◌, ◌≡◌, refl, Option, none, some, List, [], ◌∷◌, ◌++◌, arith, length,
  length-append, get_elem?, is_empty, inl, inr, Bool-cases, ltb, ◌==◌,
}
use neon_rs.Sls.Config.{SlsConfig}
use neon_rs.Sls.Counters.{DropCounters, dropped_total}
use neon_rs.Sls.Batch.{
  LogRecord, record_byte_size, push_sized, would_exceed_bytes, len, ready, saturating_add,
  log_group_proto_overhead_bytes,
}
use neon_rs.Sls.Send.{Attempt, Ending, running, delivered, lost}
use neon_rs.Sls.Send.Accounting.{Tally, send_with_retry-Ends}
use neon_rs.Sls.Pipeline.{
  Task, Pipe, Finish, Outcome, granted, semaphore_closed, interrupted, Wait, FlushResult, flushed,
  deferred_for_shutdown, dropped, remove_at, settle_task, run_task, finish_task, finish_tasks,
  resolve, dispatch, drop_shutdown, drop_failed, acquired, used_up, spawn_flush, pushed, make_room,
  push_or_drop, drain_full,
}

abbrev pub inflight_total : List Task → ℕ
inflight_total [] = 0
inflight_total (t ∷ ts) = length t.records + inflight_total ts

-- The records that the pipeline answers for.
abbrev pub weight : Pipe → ℕ
weight p = dropped_total p.dropped + p.delivered + len p.batch + inflight_total p.inflight

pub record Books (config : SlsConfig) (n : ℕ) (p : Pipe) : Type 0 where
  pub accounted : weight p ≡ n
  pub pending : p.pending_records ≡ inflight_total p.inflight
  pub bounded : p.permits + length p.inflight ≡ config.max_inflight

inflight_total-append :
    (xs ys : List Task) → inflight_total (xs ++ ys) ≡ inflight_total xs + inflight_total ys
inflight_total-append [] ys = omega arith
inflight_total-append (t ∷ xs) ys = omega (arith, inflight_total-append xs ys)

remove_at_total :
    (i : ℕ) (ts : List Task) {t : Task}
    → get_elem? ts i ≡ some t
    → (inflight_total ts ≡ length t.records + inflight_total (remove_at i ts))
      × (length ts ≡ suc (length (remove_at i ts)))
remove_at_total i [] e = cc
remove_at_total zero (x ∷ ts) e = ground arith
remove_at_total (suc i) (x ∷ ts) e = omega (arith, remove_at_total i ts e)

module _ (config : SlsConfig) (few : config.max_retries + 1 < 2 ^ 32) (n : ℕ)
    (room : n < 2 ^ 64) where
  settle_task-Books :
      (p : Pipe) (i : ℕ) (t : Task) (ending : Ending) (d : DropCounters)
      → Books config n p
      → get_elem? p.inflight i ≡ some t
      → Tally ending (length t.records) p.dropped d
      → Books config n (settle_task p i (length t.records) ending d)
  unfolding settle_task
  settle_task-Books p i t running d b e y = b
  settle_task-Books p i t delivered d b e y = ground (arith, remove_at_total i p.inflight e)
  settle_task-Books p i t lost d b e y = ground (arith, remove_at_total i p.inflight e)

  run_task-Books :
      (p : Pipe) (i : ℕ) (script : List Attempt) (o : Option Task)
      → Books config n p
      → get_elem? p.inflight i ≡ o
      → Books config n (run_task config p i script o)
  unfolding run_task
  run_task-Books p i script none b e = b
  run_task-Books p i script (some t) b e =
      let (total, _) = remove_at_total i p.inflight e in
      let ends =
        send_with_retry-Ends config (length t.records) p.dropped (omega arith) few script
          t.deadline in
      settle_task-Books p i t _ _ b e ends.0

  pub finish_task-Books :
      (p : Pipe) (f : Finish) → Books config n p → Books config n (finish_task config p f)
  unfolding finish_task
  finish_task-Books p f b = run_task-Books p f.index f.script (get_elem? p.inflight f.index) b refl

  pub finish_tasks-Books :
      (p : Pipe) (fs : List Finish) → Books config n p → Books config n (finish_tasks config p fs)
  unfolding finish_tasks
  finish_tasks-Books p [] b = b
  finish_tasks-Books p (f ∷ fs) b =
      finish_tasks-Books (finish_task config p f) fs (finish_task-Books p f b)

  dispatch-Books :
      (p : Pipe) (deadline : Option ℕ)
      → Books config n p
      → 0 < p.permits
      → Books config n (dispatch p deadline)
  unfolding dispatch
  dispatch-Books p deadline b h =
      let t : Task = record { records = p.batch.records; deadline = deadline } in
      ground (arith, inflight_total-append p.inflight (t ∷ []), length-append p.inflight (t ∷ []))

  drop_shutdown-Books : (p : Pipe) → Books config n p → Books config n (drop_shutdown p)
  unfolding drop_shutdown
  drop_shutdown-Books p b = ground arith

  drop_failed-Books : (p : Pipe) → Books config n p → Books config n (drop_failed p)
  unfolding drop_failed
  drop_failed-Books p b = ground arith

  interrupted-Books :
      (p : Pipe) (deadline : Option ℕ)
      → Books config n p
      → Books config n (acquired p deadline interrupted).0
  unfolding acquired
  interrupted-Books p (some d) b = drop_shutdown-Books p b
  interrupted-Books p none b = b

  acquired-Books :
      (p : Pipe) (deadline : Option ℕ) (o : Outcome)
      → Books config n p
      → Books config n (acquired p deadline (resolve p.permits o)).0
  unfolding acquired
  acquired-Books p deadline interrupted b = interrupted-Books p deadline b
  acquired-Books p deadline semaphore_closed b = drop_failed-Books p b
  acquired-Books p deadline granted b = elim (Bool-cases (p.permits == 0)) [
    | inl e ↦ rw e (interrupted-Books p deadline b)
    | inr e ↦ rw e (dispatch-Books p deadline b (ground arith))
  ]

  -- Every way out of `spawn_flush` keeps the books.
  pub spawn_flush-Books :
      (p : Pipe) (deadline : Option ℕ) (w : Wait)
      → Books config n p
      → Books config n (spawn_flush config p deadline w).0
  unfolding spawn_flush
  spawn_flush-Books p deadline w b = elim (Bool-cases (is_empty p.batch.records)) [
    | inl e ↦ simp e b
    | inr e ↦ simp e (elim (Bool-cases (used_up deadline w.now)) [
      | inl u ↦ simp u (drop_shutdown-Books p b)
      | inr u ↦ simp u (
          acquired-Books (finish_tasks config p w.finished) deadline w.outcome
            (finish_tasks-Books p w.finished b))
    ])
  ]

abbrev pub held : Option LogRecord → ℕ
held none = 0
held (some r) = 1

-- `n` counts the record in hand too.
abbrev pub HoldsBooks : SlsConfig → ℕ → Pipe × Option LogRecord → Type 0
HoldsBooks config n (p, o) =
    (weight p + held o ≡ n)
    × (p.pending_records ≡ inflight_total p.inflight)
    × (p.permits + length p.inflight ≡ config.max_inflight)

module _ (config : SlsConfig) (few : config.max_retries + 1 < 2 ^ 32) (n : ℕ)
    (room : n + 1 < 2 ^ 64) where
  pushed-Books : (p : Pipe) (r : LogRecord) → Books config n p → Books config (n + 1) (pushed p r)
  unfolding pushed push_sized
  pushed-Books p r b = ground (arith, length-append p.batch.records (r ∷ []))

  make_room-HoldsBooks :
      (p : Pipe) (r : LogRecord) (deadline : Option ℕ) (result : FlushResult)
      → Books config n p
      → HoldsBooks config (n + 1) (make_room p r deadline result)
  unfolding make_room
  make_room-HoldsBooks p r deadline flushed b = let c = pushed-Books p r b in ground arith
  make_room-HoldsBooks p r deadline deferred_for_shutdown b = ground arith
  make_room-HoldsBooks p r (some d) dropped b = ground arith
  make_room-HoldsBooks p r none dropped b = ground arith

  -- The record that `push_or_drop` is given is in the batch, in flight, counted, or handed back.
  pub push_or_drop-HoldsBooks :
      (p : Pipe) (r : LogRecord) (deadline : Option ℕ) (w : Wait)
      → Books config n p
      → HoldsBooks config (n + 1) (push_or_drop config p r deadline w)
  unfolding push_or_drop
  push_or_drop-HoldsBooks p r deadline w b =
      let k = record_byte_size r in
      elim (Bool-cases
        (ltb config.max_batch_bytes (saturating_add k log_group_proto_overhead_bytes))) [
          | inl big ↦ rw (big, push_or_drop) (ground arith)
          | inr small ↦
              rw (small, push_or_drop)
                (elim (Bool-cases (would_exceed_bytes p.batch k config)) [
                  | inl full ↦
                      rw (full, push_or_drop)
                        (make_room-HoldsBooks (spawn_flush config p deadline w).0 r deadline
                          (spawn_flush config p deadline w).1
                          (spawn_flush-Books config few n (omega arith) p deadline w b))
                  | inr fits ↦ rw (fits, push_or_drop) (let c = pushed-Books p r b in ground arith)
                ])
        ]

module _ (config : SlsConfig) (few : config.max_retries + 1 < 2 ^ 32) (n : ℕ)
    (room : n < 2 ^ 64) where
  pub drain_full-Books :
      (p : Pipe) (deadline : ℕ) (w : Wait)
      → Books config n p
      → Books config n (drain_full config p deadline w).0
  unfolding drain_full
  drain_full-Books p deadline w b = elim (Bool-cases (ready p.batch config)) [
    | inl full ↦ rw full (spawn_flush-Books config few n room p (some deadline) w b)
    | inr more ↦ rw more b
  ]
