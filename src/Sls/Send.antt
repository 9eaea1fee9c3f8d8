-- ===== src/Sls/Send.antt =====
-- crates/neon-log/src/sls/sink.rs: `send_with_retry` with `await_put_logs` and `sleep_backoff`.
-- What the clock, the SLS client and the shutdown channel do is a script: one `Attempt` for each
-- turn of the loop, with the events that the awaited future sees. A script that ends early leaves
-- the task running. `build_log_group` and the SDK are not modelled: an attempt only says whether
-- the encoding task came back.
pub mod Accounting
use neon_rs.Base.{
  ℕ, ◌+◌, ◌-◌, ◌%◌, ◌^◌, Bool, true, false, not, ◌&&◌, ◌||◌, Option, none, some, List, [], ◌∷◌, min,
  leb, ltb, ◌==◌, if◌then◌else◌, is_empty,
}
use neon_rs.Base.Eq.{contains, nat_eq}
use neon_rs.Sls.Config.{SlsConfig}
use neon_rs.Sls.Counters.{DropCounters, inc_send_failed, inc_shutdown_dropped}
use neon_rs.Sls.Backoff.{backoff_delay, jittered_backoff_delay}

-- `SlsError::Server` with its HTTP status, or any other error.
pub data SendError : Type 0 where
  server : ℕ → SendError
  other : SendError

-- What wakes a wait: the reply, the deadline's timer, or `shutdown_rx.changed()` with whether it
-- asks for shutdown (`changed.is_err() || *shutdown_rx.borrow()`) and the time that is then read.
pub data Event : Type 0 where
  replied : Event
  refused : SendError → Event
  timer : Event
  changed : Bool → ℕ → Event

pub data PutLogsOutcome : Type 0 where
  sent : PutLogsOutcome
  deadline_exceeded : PutLogsOutcome
  failed : SendError → PutLogsOutcome

abbrev pub saturating_since : ℕ → ℕ → ℕ
saturating_since d now = d - now

abbrev pub deadline_expired : Option ℕ → ℕ → Bool
deadline_expired none now = false
deadline_expired (some d) now = leb d now

-- The outcome, if the events settle it, and the deadline that holds then. Under a deadline the
-- shutdown channel is not listened to, and without one there is no timer.
unfoldable pub await_put_logs : List Event → Option ℕ → ℕ → Option (PutLogsOutcome × Option ℕ)
await_put_logs [] deadline timeout = none
await_put_logs (replied ∷ es) deadline timeout = some (sent, deadline)
await_put_logs (refused e ∷ es) deadline timeout = some (failed e, deadline)
await_put_logs (timer ∷ es) (some d) timeout = some (deadline_exceeded, some d)
await_put_logs (timer ∷ es) none timeout = await_put_logs es none timeout
await_put_logs (changed b now ∷ es) (some d) timeout = await_put_logs es (some d) timeout
await_put_logs (changed true now ∷ es) none timeout =
    await_put_logs es (some (now + timeout)) timeout
await_put_logs (changed false now ∷ es) none timeout = await_put_logs es none timeout

unfoldable pub is_no_retry_error : SendError → List ℕ → Bool
is_no_retry_error (server status) codes = not (is_empty codes) && contains codes status
is_no_retry_error other codes = false

-- The environment of one turn of the loop.
pub record Attempt : Type 0 where
  pub now : ℕ
  pub encoded : Bool
  pub events : List Event
  -- Around `sleep_backoff`: the jitter's seed and clock, the time read before the sleep, and the
  -- change of the shutdown channel that ends the sleep early, if one does.
  pub seed : ℕ
  pub jitter_clock : ℕ
  pub sleep_now : ℕ
  pub sleep_changed : Option (Bool × ℕ)

-- The deadline after the sleep and how long it may last; `none` when the time is used up.
unfoldable pub sleep_backoff : SlsConfig → ℕ → Attempt → Option ℕ → Option (Option ℕ × ℕ)
sleep_backoff config attempt a (some d) =
    let backoff = jittered_backoff_delay a.seed a.jitter_clock (backoff_delay config attempt) in
    let remaining = saturating_since d a.sleep_now in
    if remaining == 0 then none else some (some d, min backoff remaining)
sleep_backoff config attempt a none =
    let backoff = jittered_backoff_delay a.seed a.jitter_clock (backoff_delay config attempt) in
    some (
      elim a.sleep_changed [
        | some (b, now) ↦ if b then some (now + config.shutdown_timeout) else none
        | none ↦ none
      ],
      backoff,
    )

pub data Ending : Type 0 where
  running delivered lost : Ending

-- How a task ended, the counters then, and how many PutLogs requests it made.
pub record Report : Type 0 where
  pub ending : Ending
  pub dropped : DropCounters
  pub requests : ℕ

abbrev drop_shutdown_batch : ℕ → DropCounters → ℕ → Report
drop_shutdown_batch count dropped requests = record {
  ending = lost;
  dropped = inc_shutdown_dropped dropped count;
  requests = requests;
}

abbrev drop_failed : ℕ → DropCounters → ℕ → Report
drop_failed count dropped requests = record {
  ending = lost;
  dropped = inc_send_failed dropped count;
  requests = requests;
}

-- What one turn does: it ends the task, or goes on with a new attempt number and deadline.
pub data Turn : Type 0 where
  stop : Report → Turn
  again : ℕ → Option ℕ → Turn

-- The branch `Failed(e)`; `attempt` is a `u32`.
failed_turn : SlsConfig → ℕ → DropCounters → ℕ → ℕ → Attempt → SendError → Option ℕ → Turn
failed_turn config count dropped requests attempt a e deadline =
    let next = (attempt + 1) % 2 ^ 32 in
    if is_no_retry_error e config.no_retry_status
    then stop (drop_failed count dropped requests)
    else if ltb config.max_retries next
    then stop (drop_failed count dropped requests)
    else elim (sleep_backoff config next a deadline) [
      | none ↦ stop (drop_shutdown_batch count dropped requests)
      | some (deadline', slept) ↦ again next deadline'
    ]

settle : SlsConfig → ℕ → DropCounters → ℕ → ℕ → Attempt → Option (PutLogsOutcome × Option ℕ) → Turn
unfolding failed_turn
settle config count dropped requests attempt a none =
    stop (record { ending = running; dropped = dropped; requests = requests })
settle config count dropped requests attempt a (some (sent, deadline)) =
    stop (record { ending = delivered; dropped = dropped; requests = requests })
settle config count dropped requests attempt a (some (deadline_exceeded, deadline)) =
    stop (drop_shutdown_batch count dropped requests)
settle config count dropped requests attempt a (some (failed e, deadline)) =
    failed_turn config count dropped requests attempt a e deadline

-- One turn of the loop; `requests` counts those made before it.
unfoldable pub turn : SlsConfig → ℕ → DropCounters → ℕ → ℕ → Attempt → Option ℕ → Turn
unfolding settle
turn config count dropped requests attempt a deadline =
    if deadline_expired deadline a.now
    then stop (drop_shutdown_batch count dropped requests)
    else if not a.encoded
    then stop (drop_failed count dropped requests)
    else settle config count dropped (requests + 1) attempt a
        (await_put_logs a.events deadline config.shutdown_timeout)

-- The loop goes on by `next`, with the new attempt number and deadline.
after_turn : Turn → (ℕ → Option ℕ → Report) → Report
after_turn (stop report) next = report
after_turn (again attempt deadline) next = next attempt deadline

send_loop : SlsConfig → ℕ → DropCounters → List Attempt → ℕ → ℕ → Option ℕ → Report
unfolding after_turn
send_loop config count dropped [] requests attempt deadline = record {
  ending = running;
  dropped = dropped;
  requests = requests;
}
send_loop config count dropped (a ∷ rest) requests attempt deadline =
    after_turn (turn config count dropped requests attempt a deadline)
      (send_loop config count dropped rest (requests + 1))

unfoldable pub send_with_retry : SlsConfig → ℕ → DropCounters → List Attempt → Option ℕ → Report
unfolding send_loop turn
send_with_retry config count dropped script deadline =
    send_loop config count dropped script 0 0 deadline
