-- ===== src/Sls/Send/Accounting.antt =====
-- What a sending task does to the drop counters, how often it asks the server, and that it ends.
use neon_rs.Base.{
  ℕ, ◌+◌, ◌^◌, ◌≤◌, ◌<◌, ◌≡◌, ◌≢◌, refl, Option, none, some, List, [], ◌∷◌, arith, length, All, inl,
  inr, Bool-cases, true, false, Bool,
}
use neon_rs.Sls.Config.{SlsConfig}
use neon_rs.Sls.Counters.{DropCounters, dropped_total}
use neon_rs.Sls.Send.{
  Attempt, Event, replied, refused, timer, changed, SendError, PutLogsOutcome, sent,
  deadline_exceeded, failed, failed_turn, settle, Ending, running, delivered, lost, Turn, stop,
  again, Report, turn, send_loop, after_turn, send_with_retry, await_put_logs, is_no_retry_error,
  deadline_expired,
}

-- The counters after a task of `count` records: all of them counted as lost, or none.
abbrev pub Tally : Ending → ℕ → DropCounters → DropCounters → Type 0
Tally lost count d d' =
    (dropped_total d' ≡ dropped_total d + count)
    × (d'.queue_full ≡ d.queue_full)
    × (d'.worker_closed ≡ d.worker_closed)
Tally running count d d' = d' ≡ d
Tally delivered count d d' = d' ≡ d

module _ (config : SlsConfig) (count : ℕ) (d : DropCounters) where
  abbrev pub Ends : Report → Type 0
  Ends r = Tally r.ending count d r.dropped × (r.requests ≤ config.max_retries + 1)

  abbrev TurnFits : ℕ → Turn → Type 0
  TurnFits attempt (stop r) = Ends r
  TurnFits attempt (again next deadline) = (next ≡ attempt + 1) × (next ≤ config.max_retries)

  module _ (room : dropped_total d + count < 2 ^ 64) (few : config.max_retries + 1 < 2 ^ 32) where
    failed_turn-TurnFits :
        (attempt : ℕ) (a : Attempt) (e : SendError) (deadline : Option ℕ)
        → attempt ≤ config.max_retries
        → TurnFits attempt (failed_turn config count d (attempt + 1) attempt a e deadline)
    unfolding failed_turn
    failed_turn-TurnFits attempt a e deadline h =
        elim (Bool-cases (is_no_retry_error e config.no_retry_status)) [
          | inl hit ↦ rw (hit, failed_turn) (ground arith)
          | inr miss ↦ rw (miss, failed_turn) (ground arith)
        ]

    settle-TurnFits :
        (attempt : ℕ) (a : Attempt) (o : Option (PutLogsOutcome × Option ℕ))
        → attempt ≤ config.max_retries
        → TurnFits attempt (settle config count d (attempt + 1) attempt a o)
    unfolding settle
    settle-TurnFits attempt a none h = (refl, omega arith)
    settle-TurnFits attempt a (some (sent, deadline)) h = (refl, omega arith)
    settle-TurnFits attempt a (some (deadline_exceeded, deadline)) h = ground arith
    settle-TurnFits attempt a (some (failed e, deadline)) h =
        failed_turn-TurnFits attempt a e deadline h

    turn-TurnFits :
        (attempt : ℕ) (a : Attempt) (deadline : Option ℕ)
        → attempt ≤ config.max_retries
        → TurnFits attempt (turn config count d attempt attempt a deadline)
    unfolding turn
    turn-TurnFits attempt a deadline h = elim (Bool-cases (deadline_expired deadline a.now)) [
      | inl late ↦ rw late (ground arith)
      | inr early ↦ rw early (
          ground (
            arith,
            settle-TurnFits attempt a (await_put_logs a.events deadline config.shutdown_timeout) h,
          ))
    ]

    after_turn-Ends :
        (t : Turn) (attempt : ℕ) (next : ℕ → Option ℕ → Report)
        → TurnFits attempt t
        → ((deadline : Option ℕ)
            → attempt + 1 ≤ config.max_retries
            → Ends (next (attempt + 1) deadline))
        → Ends (after_turn t next)
    unfolding after_turn
    after_turn-Ends (stop r) attempt next f later = f
    after_turn-Ends (again n deadline) attempt next f later = rw f.0 (later deadline (omega arith))

    send_loop-Ends :
        (script : List Attempt) (attempt : ℕ) (deadline : Option ℕ)
        → attempt ≤ config.max_retries
        → Ends (send_loop config count d script attempt attempt deadline)
    unfolding send_loop
    send_loop-Ends [] attempt deadline h = (refl, omega arith)
    send_loop-Ends (a ∷ rest) attempt deadline h =
        after_turn-Ends (turn config count d attempt attempt a deadline) attempt
          (send_loop config count d rest (attempt + 1)) (turn-TurnFits attempt a deadline h)
          (send_loop-Ends rest (attempt + 1))

    -- Whatever the clock, the server and the shutdown channel do: a task that delivers its batch
    -- leaves the counters alone, one that loses it counts each of its records exactly once and
    -- never as `queue_full` or `worker_closed`, and no task makes more than `max_retries + 1`
    -- requests. The counters must have room for the batch, and `max_retries + 1` fit in 32 bits.
    pub send_with_retry-Ends :
        (script : List Attempt) (deadline : Option ℕ)
        → Ends (send_with_retry config count d script deadline)
    unfolding send_with_retry
    send_with_retry-Ends script deadline = send_loop-Ends script 0 deadline (omega arith)

-- The server answers, well or badly, among the events.
abbrev pub answers : List Event → Bool
answers [] = false
answers (replied ∷ es) = true
answers (refused e ∷ es) = true
answers (timer ∷ es) = answers es
answers (changed b now ∷ es) = answers es

await_answered :
    (es : List Event) (deadline : Option ℕ) (timeout : ℕ)
    → answers es ≡ true
    → await_put_logs es deadline timeout ≢ none
unfolding await_put_logs
await_answered [] deadline timeout h = cc
await_answered (replied ∷ es) deadline timeout h = λ e. cc
await_answered (refused x ∷ es) deadline timeout h = λ e. cc
await_answered (timer ∷ es) (some d) timeout h = λ e. cc
await_answered (timer ∷ es) none timeout h = await_answered es none timeout h
await_answered (changed b now ∷ es) (some d) timeout h = await_answered es (some d) timeout h
await_answered (changed true now ∷ es) none timeout h =
    await_answered es (some (now + timeout)) timeout h
await_answered (changed false now ∷ es) none timeout h = await_answered es none timeout h

module _ (config : SlsConfig) (count : ℕ) (d : DropCounters) where
  abbrev Goes : ℕ → Turn → Type 0
  Goes attempt (stop r) = r.ending ≢ running
  Goes attempt (again next deadline) = (next ≡ attempt + 1) × (next ≤ config.max_retries)

  module _ (few : config.max_retries + 1 < 2 ^ 32) where
    failed_turn-Goes :
        (attempt n : ℕ) (a : Attempt) (e : SendError) (deadline : Option ℕ)
        → attempt ≤ config.max_retries
        → Goes attempt (failed_turn config count d n attempt a e deadline)
    unfolding failed_turn
    failed_turn-Goes attempt n a e deadline h =
        elim (Bool-cases (is_no_retry_error e config.no_retry_status)) [
          | inl hit ↦ rw (hit, failed_turn) (λ x. cc)
          | inr miss ↦ rw (miss, failed_turn) (ground arith)
        ]

    settle-Goes :
        (attempt n : ℕ) (a : Attempt) (o : Option (PutLogsOutcome × Option ℕ))
        → attempt ≤ config.max_retries
        → o ≢ none
        → Goes attempt (settle config count d n attempt a o)
    unfolding settle
    settle-Goes attempt n a none h ne = absurd (ne refl)
    settle-Goes attempt n a (some (sent, deadline)) h ne = λ x. cc
    settle-Goes attempt n a (some (deadline_exceeded, deadline)) h ne = λ x. cc
    settle-Goes attempt n a (some (failed e, deadline)) h ne =
        failed_turn-Goes attempt n a e deadline h

    turn-Goes :
        (attempt : ℕ) (a : Attempt) (deadline : Option ℕ)
        → attempt ≤ config.max_retries
        → answers a.events ≡ true
        → Goes attempt (turn config count d attempt attempt a deadline)
    unfolding turn
    turn-Goes attempt a deadline h w =
        let settled =
          settle-Goes attempt (attempt + 1) a
            (await_put_logs a.events deadline config.shutdown_timeout) h
            (await_answered a.events deadline config.shutdown_timeout w) in
        elim (Bool-cases (deadline_expired deadline a.now)) [
          | inl late ↦ rw late (λ x. cc)
          | inr early ↦
              rw early
                (elim (Bool-cases a.encoded) [ inl e ↦ simp e settled | inr e ↦ simp e (λ x. cc) ])
        ]

    after_turn_ends :
        (t : Turn) (attempt : ℕ) (next : ℕ → Option ℕ → Report)
        → Goes attempt t
        → ((deadline : Option ℕ)
            → attempt + 1 ≤ config.max_retries
            → (next (attempt + 1) deadline).ending ≢ running)
        → (after_turn t next).ending ≢ running
    unfolding after_turn
    after_turn_ends (stop r) attempt next g later = g
    after_turn_ends (again n deadline) attempt next g later = rw g.0 (later deadline (omega arith))

    send_loop_ends :
        (script : List Attempt) (attempt : ℕ) (deadline : Option ℕ)
        → attempt ≤ config.max_retries
        → config.max_retries < attempt + length script
        → All (λ a. answers a.events ≡ true) script
        → (send_loop config count d script attempt attempt deadline).ending ≢ running
    unfolding send_loop
    send_loop_ends [] attempt deadline h long w = absurd (omega arith)
    send_loop_ends (a ∷ rest) attempt deadline h long w =
        after_turn_ends (turn config count d attempt attempt a deadline) attempt
          (send_loop config count d rest (attempt + 1)) (turn-Goes attempt a deadline h w.0)
          (λ deadline' h'. send_loop_ends rest (attempt + 1) deadline' h' (omega arith) w.1)

    -- A task ends: when the server answers each of `max_retries + 1` attempts, be it with errors
    -- only, the task is not running any more, with or without a deadline. `max_retries + 1` fits in
    -- 32 bits.
    pub send_with_retry_ends :
        (script : List Attempt) (deadline : Option ℕ)
        → config.max_retries < length script
        → All (λ a. answers a.events ≡ true) script
        → (send_with_retry config count d script deadline).ending ≢ running
    unfolding send_with_retry
    send_with_retry_ends script deadline long w =
        send_loop_ends script 0 deadline (omega arith) (omega arith) w
