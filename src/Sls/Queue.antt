-- ===== src/Sls/Queue.antt =====
-- crates/neon-log/src/sls/sink.rs: `SinkQueue`, `ActiveEnqueue` and `SlsSink::enqueue`. The ring
-- is crossbeam's `ArrayQueue`, read as a list, oldest first, of at most `capacity` items; wake-ups
-- carry no data and are left out. `enqueue` is built from the atomic steps that `Close` interleaves.
pub mod Policy
pub mod Close
use neon_rs.Base.{
  ℕ, ◌+◌, ◌-◌, Bool, true, false, Option, none, some, List, [], ◌∷◌, ◌++◌, max, ltb, if◌then◌else◌,
  length,
}
use neon_rs.Sls.Config.{OverflowPolicy, drop_newest, drop_oldest}
use neon_rs.Sls.Counters.{DropCounters, inc_queue_full, inc_worker_closed}

pub record SinkQueue {ℓ} (A : Type ℓ) : Type ℓ where
  pub ring : List A
  pub capacity : ℕ
  pub active_enqueues : ℕ
  pub closed : Bool

-- What `recv` gives when it is polled: a record, the end, or nothing yet.
pub data Recv {ℓ} (A : Type ℓ) : Type ℓ where
  received : A → SinkQueue A → Recv A
  ended : Recv A
  waiting : Recv A

module _ {ℓ} {A : Type ℓ} where
  unfoldable pub new : ℕ → SinkQueue A
  new capacity = record {
    ring = [];
    capacity = max capacity 1;
    active_enqueues = 0;
    closed = false;
  }

  -- The two atomic writes of `ActiveEnqueue`.
  abbrev pub register : SinkQueue A → SinkQueue A
  register q = record q { active_enqueues = q.active_enqueues + 1 }

  abbrev pub leave : SinkQueue A → SinkQueue A
  leave q = record q { active_enqueues = q.active_enqueues - 1 }

  -- `ActiveEnqueue::enter`: whether the producer may go on.
  unfoldable pub enter : SinkQueue A → SinkQueue A × Bool
  enter q =
      if q.closed
      then (q, false)
      else if (register q).closed
      then (leave (register q), false)
      else (register q, true)

  -- `push` and `force_push`, and whether a record was lost to a full ring.
  force_push : List A → ℕ → A → List A × Bool
  force_push [] capacity a = (a ∷ [], false)
  force_push (x ∷ xs) capacity a =
      if ltb (length (x ∷ xs)) capacity then (x ∷ (xs ++ a ∷ []), false) else (xs ++ a ∷ [], true)

  unfoldable pub push : OverflowPolicy → SinkQueue A → A → SinkQueue A × Bool
  unfolding force_push
  push drop_newest q a =
      if ltb (length q.ring) q.capacity
      then (record q { ring = q.ring ++ a ∷ [] }, false)
      else (q, true)
  push drop_oldest q a =
      let (ring', lost) = force_push q.ring q.capacity a in (record q { ring = ring' }, lost)

  enqueue_in : OverflowPolicy → SinkQueue A × Bool → DropCounters → A → SinkQueue A × DropCounters
  enqueue_in policy (q, false) c a = (q, inc_worker_closed c 1)
  enqueue_in policy (q, true) c a =
      let (q', lost) = push policy q a in (leave q', if lost then inc_queue_full c else c)

  -- `SlsSink::enqueue`.
  unfoldable pub enqueue :
      OverflowPolicy → SinkQueue A → DropCounters → A → SinkQueue A × DropCounters
  unfolding enqueue_in enter
  enqueue policy q c a = enqueue_in policy (enter q) c a

  unfoldable pub enqueue_all :
      OverflowPolicy → SinkQueue A → DropCounters → List A → SinkQueue A × DropCounters
  enqueue_all policy q c [] = (q, c)
  enqueue_all policy q c (a ∷ rest) =
      let (q', c') = enqueue policy q c a in enqueue_all policy q' c' rest

  unfoldable pub recv_from : SinkQueue A → List A → Recv A
  recv_from q (a ∷ rest) = received a (record q { ring = rest })
  recv_from q [] = if q.closed then ended else waiting

  unfoldable pub recv : SinkQueue A → Recv A
  unfolding recv_from
  recv q = recv_from q q.ring

  -- `close`, once the producers that got in have left.
  unfoldable pub close : SinkQueue A → SinkQueue A
  close q = record q { closed = true }
