-- ===== src/Sls/Queue/Close.antt =====
-- crates/neon-log/src/sls/sink.rs: producers in `SlsSink::enqueue`, the worker that takes records,
-- and `SinkQueue::close`, one atomic operation at a time in any interleaving. The operations on
-- `closed` and `active_enqueues` that the argument rests on are sequentially consistent in the
-- source, so the steps are taken in one global order.
pub mod Barrier
use neon_rs.Base.{
  ℕ, ◌≡◌, true, false, Option, some, List, [], ◌∷◌, get_elem?, map, set, zero, suc, if◌then◌else◌,
}
use neon_rs.Sls.Config.{OverflowPolicy}
use neon_rs.Sls.Counters.{DropCounters, no_drops, inc_queue_full, inc_worker_closed}
use neon_rs.Sls.Batch.{LogRecord}
use neon_rs.Sls.Queue.{SinkQueue, new, register, leave, push}

-- A producer between two atomic operations, with the records it has yet to offer.
pub data Producer : Type 0 where
  -- Outside of `enqueue`.
  outside : List LogRecord → Producer
  -- Past the first look at `closed`.
  checked : LogRecord → List LogRecord → Producer
  -- Registered in `active_enqueues`.
  registered : LogRecord → List LogRecord → Producer
  -- Past the second look, refused, and about to leave.
  refused : List LogRecord → Producer
  -- Past the second look, and about to push.
  entered : LogRecord → List LogRecord → Producer
  -- Pushed, and about to leave.
  pushed : List LogRecord → Producer

pub data Closer : Type 0 where
  -- `close` has not begun, has stored `closed`, or has returned.
  before flagged returned : Closer

pub record State : Type 0 where
  pub queue : SinkQueue LogRecord
  pub dropped : DropCounters
  pub producers : List Producer
  pub closer : Closer

abbrev pub Local : Type 0
Local = SinkQueue LogRecord × DropCounters × Producer

-- The next atomic operation of a producer.
unfoldable pub advance : OverflowPolicy → SinkQueue LogRecord → DropCounters → Producer → Local
advance policy q c (outside []) = (q, c, outside [])
advance policy q c (outside (r ∷ rest)) =
    if q.closed then (q, inc_worker_closed c 1, outside rest) else (q, c, checked r rest)
advance policy q c (checked r rest) = (register q, c, registered r rest)
advance policy q c (registered r rest) =
    if q.closed then (q, c, refused rest) else (q, c, entered r rest)
advance policy q c (refused rest) = (leave q, inc_worker_closed c 1, outside rest)
advance policy q c (entered r rest) =
    let (q', lost) = push policy q r in (q', if lost then inc_queue_full c else c, pushed rest)
advance policy q c (pushed rest) = (leave q, c, outside rest)

abbrev pub after : State → ℕ → Local → State
after s i (q, c, p) = record s { queue = q; dropped = c; producers = set s.producers i p }

-- Producers with these records to offer, and a new queue.
unfoldable pub starting : ℕ → List (List LogRecord) → State
starting capacity plans = record {
  queue = new capacity;
  dropped = no_drops;
  producers = map outside plans;
  closer = before;
}

pub data Step (policy : OverflowPolicy) : State → State → Type 0 where
  produces :
      (s : State) (i : ℕ) (p : Producer)
      → get_elem? s.producers i ≡ some p
      → Step policy s (after s i (advance policy s.queue s.dropped p))
  takes :
      (s : State) (r : LogRecord) (rest : List LogRecord)
      → s.queue.ring ≡ r ∷ rest
      → Step policy s (record s { queue = record s.queue { ring = rest } })
  flags :
      (s : State)
      → s.closer ≡ before
      → Step policy s (record s { queue = record s.queue { closed = true }; closer = flagged })
  returns :
      (s : State)
      → s.closer ≡ flagged
      → s.queue.active_enqueues ≡ 0
      → Step policy s (record s { closer = returned })

pub data Reach (policy : OverflowPolicy) (s : State) : State → Type 0 where
  here : Reach policy s s
  next : {t u : State} → Reach policy s t → Step policy t u → Reach policy s u
