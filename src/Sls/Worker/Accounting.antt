-- ===== src/Sls/Worker/Accounting.antt =====
-- The books of a whole run of the worker: from the first record to the last drop counter.
use neon_rs.Base.{
  ℕ, ◌+◌, ◌^◌, ◌<◌, ◌≡◌, refl, ap, Bool, ◌∙◌, true, false, not, ◌&&◌, List, [], ◌∷◌, arith, inl,
  inr, Bool-cases,
}
use neon_rs.Sls.Config.{SlsConfig}
use neon_rs.Sls.Queue.{SinkQueue, enqueue, recv, recv_from, close}
use neon_rs.Sls.Worker.{
  Worker, Event, produce, shutdown_changed, take_record, tick, task_done, start, handle, goes_on,
  run_loop,
}
use neon_rs.Sls.Worker.Steps.{
  offered, WorkerBooks, after_recv-WorkerBooks, produced-WorkerBooks, shutdown-WorkerBooks,
  tick-WorkerBooks, done-WorkerBooks,
}

module _ (config : SlsConfig) (few : config.max_retries + 1 < 2 ^ 32) where
  handle-WorkerBooks :
      (n m : ℕ) (s : Worker) (e : Event)
      → m ≡ n + offered (e ∷ [])
      → m < 2 ^ 64
      → (s.shutting_down && not (goes_on e)) ≡ false
      → WorkerBooks config n s
      → WorkerBooks config m (handle config s e)
  unfolding handle recv recv_from
  handle-WorkerBooks n m s (produce r) k room on b =
      rw k (produced-WorkerBooks config few n s r (omega arith) b)
  handle-WorkerBooks n m s (shutdown_changed b') k room on b =
      let z : m ≡ n = omega arith in rw z (shutdown-WorkerBooks config few n s b' b)
  handle-WorkerBooks n m s (take_record room_wait full now) k room on b =
      let z : m ≡ n = omega arith in
      rw z (
        after_recv-WorkerBooks config few n s room_wait full now s.queue.ring (omega arith)
          (b.quiet (ground arith)) refl b)
  handle-WorkerBooks n m s (tick at w now) k room on b =
      let z : m ≡ n = omega arith in rw z (tick-WorkerBooks config few n s at w now (omega arith) b)
  handle-WorkerBooks n m s (task_done f) k room on b =
      let z : m ≡ n = omega arith in rw z (done-WorkerBooks config few n s f (omega arith) b)

  offered-cons : (e : Event) (es : List Event) → offered (e ∷ es) ≡ offered (e ∷ []) + offered es
  offered-cons (produce r) es = omega arith
  offered-cons _ es = omega arith

  offered_skipped :
      (e : Event) (es : List Event) (b : Bool)
      → (b && not (goes_on e)) ≡ true
      → offered (e ∷ es) ≡ offered es
  offered_skipped (produce r) es b h = ground arith
  offered_skipped (task_done f) es b h = ground arith
  offered_skipped _ es b h = refl

  run_loop-WorkerBooks :
      (n m : ℕ) (s : Worker) (es : List Event)
      → m ≡ n + offered es
      → m < 2 ^ 64
      → WorkerBooks config n s
      → WorkerBooks config m (run_loop config s es)
  unfolding run_loop
  run_loop-WorkerBooks n m s [] k room b = let z : m ≡ n = omega arith in rw z b
  run_loop-WorkerBooks n m s (e ∷ es) k room b =
      elim (Bool-cases (s.shutting_down && not (goes_on e))) [
        | inl skip ↦ simp skip (
            run_loop-WorkerBooks n m s es
              (k ∙ ap (◌+◌ n) (offered_skipped e es s.shutting_down skip)) room b)
        | inr on ↦ simp on (
            run_loop-WorkerBooks (n + offered (e ∷ [])) m (handle config s e) es
              (omega (arith, offered-cons e es)) room
              (handle-WorkerBooks n (n + offered (e ∷ [])) s e refl
                (omega (arith, offered-cons e es)) on b))
      ]

  -- At any moment of the main loop, under any order of events, each record that was offered is
  -- in the ring, in hand, in the batch, in flight, delivered, or counted as dropped; the pending
  -- count is the number of records in flight, and the tasks in flight and the free permits add
  -- up to `max_inflight`. Fewer than 2^64 records are offered, and `max_retries + 1` fits 32 bits.
  pub run_loop_books :
      (now : ℕ) (es : List Event)
      → offered es < 2 ^ 64
      → WorkerBooks config (offered es) (run_loop config (start config now) es)
  unfolding start neon_rs.Sls.Queue.new
  run_loop_books now es room =
      run_loop-WorkerBooks 0 (offered es) (start config now) es (omega arith) room
        (record { accounted = refl; pending = refl; bounded = omega arith; quiet = λ h. refl })
