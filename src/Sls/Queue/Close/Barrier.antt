-- ===== src/Sls/Queue/Close/Barrier.antt =====
-- `close` as a barrier: once it has returned, no record enters the ring any more.
use neon_rs.Base.{
  ℕ, zero, suc, ◌+◌, ◌≤◌, ◌≡◌, ◌≢◌, ◌⊎◌, refl, sym, ◌∙◌, true, some, List, [], ◌∷◌, arith,
  get_elem?, map, sum_by, sum_by-set, drop, inl, inr,
}
use neon_rs.Sls.Config.{OverflowPolicy, drop_newest, drop_oldest}
use neon_rs.Sls.Counters.{DropCounters}
use neon_rs.Sls.Batch.{LogRecord}
use neon_rs.Sls.Queue.{SinkQueue, push, new}
use neon_rs.Sls.Queue.Policy.{drop-tail}
use neon_rs.Sls.Queue.Close.{
  flagged, Closer, Producer, outside, checked, registered, refused, entered, pushed, starting,
  before, returned, State, advance, after, Step, produces, takes, flags, returns, Reach, here, next,
}

-- Whether a producer is counted in `active_enqueues`, and whether it was let in.
abbrev pub inside : Producer → ℕ
inside (outside rest) = 0
inside (checked r rest) = 0
inside _ = 1

abbrev pub let_in : Producer → ℕ
let_in (entered r rest) = 1
let_in (pushed rest) = 1
let_in _ = 0

pub record Inv (s : State) : Type 0 where
  pub counted : s.queue.active_enqueues ≡ sum_by inside s.producers
  pub shut : s.closer ≢ before → s.queue.closed ≡ true
  pub settled : s.closer ≡ returned → sum_by let_in s.producers ≡ 0

let_in-inside : (p : Producer) → let_in p ≤ inside p
let_in-inside (outside rest) = omega arith
let_in-inside (checked r rest) = omega arith
let_in-inside _ = omega arith

sum_by-let_in : (ps : List Producer) → sum_by let_in ps ≤ sum_by inside ps
sum_by-let_in [] = omega arith
sum_by-let_in (p ∷ ps) = omega (arith, sum_by-let_in ps, let_in-inside p)

inside_below :
    (ps : List Producer) (i : ℕ) (p : Producer)
    → get_elem? ps i ≡ some p
    → (inside p ≤ sum_by inside ps) × (let_in p ≤ sum_by let_in ps)
inside_below [] i p e = cc
inside_below (x ∷ ps) zero p e = ground arith
inside_below (x ∷ ps) (suc i) p e = omega (arith, inside_below ps i p e)

push_keeps :
    (policy : OverflowPolicy) (q : SinkQueue LogRecord) (r : LogRecord)
    → ((push policy q r).0.active_enqueues ≡ q.active_enqueues)
      × ((push policy q r).0.closed ≡ q.closed)
unfolding push
push_keeps drop_newest q r = ground arith
push_keeps drop_oldest q r = ground arith

module _ (policy : OverflowPolicy) (q : SinkQueue LogRecord) (c : DropCounters) where
  advance-active :
      (p : Producer)
      → inside p ≤ q.active_enqueues
      → (advance policy q c p).0.active_enqueues + inside p
        ≡ q.active_enqueues + inside (advance policy q c p).2
  unfolding advance
  advance-active (outside []) h = omega arith
  advance-active (outside (r ∷ rest)) h = ground arith
  advance-active (checked r rest) h = omega arith
  advance-active (registered r rest) h = ground arith
  advance-active (refused rest) h = omega arith
  advance-active (entered r rest) h = omega (arith, push_keeps policy q r)
  advance-active (pushed rest) h = omega arith

  advance-closed : (p : Producer) → (advance policy q c p).0.closed ≡ q.closed
  unfolding advance
  advance-closed (outside []) = refl
  advance-closed (outside (r ∷ rest)) = ground arith
  advance-closed (checked r rest) = refl
  advance-closed (registered r rest) = ground arith
  advance-closed (refused rest) = refl
  advance-closed (entered r rest) = (push_keeps policy q r).1
  advance-closed (pushed rest) = refl

  advance-let_in : (p : Producer) → q.closed ≡ true → let_in (advance policy q c p).2 ≤ let_in p
  unfolding advance
  advance-let_in (outside []) h = omega arith
  advance-let_in (outside (r ∷ rest)) h = ground arith
  advance-let_in (checked r rest) h = omega arith
  advance-let_in (registered r rest) h = ground arith
  advance-let_in (refused rest) h = omega arith
  advance-let_in (entered r rest) h = omega arith
  advance-let_in (pushed rest) h = omega arith

  advance-ring : (p : Producer) → let_in p ≡ 0 → (advance policy q c p).0.ring ≡ q.ring
  unfolding advance
  advance-ring (outside []) e = refl
  advance-ring (outside (r ∷ rest)) e = ground arith
  advance-ring (checked r rest) e = refl
  advance-ring (registered r rest) e = ground arith
  advance-ring (refused rest) e = refl
  advance-ring (entered r rest) e = absurd (omega arith)
  advance-ring (pushed rest) e = absurd (omega arith)

module _ (policy : OverflowPolicy) where
  produces-Inv :
      (s : State) (i : ℕ) (p : Producer)
      → get_elem? s.producers i ≡ some p
      → Inv s
      → Inv (after s i (advance policy s.queue s.dropped p))
  produces-Inv s i p e v =
      let (low, _) = inside_below s.producers i p e in
      let t = advance policy s.queue s.dropped p in
      record {
        counted = omega (
          arith,
          v.counted,
          low,
          advance-active policy s.queue s.dropped p (omega (arith, v.counted, low)),
          sum_by-set inside s.producers i p t.2 e,
        );
        shut = λ h. advance-closed policy s.queue s.dropped p ∙ v.shut h;
        settled = λ h.
            let shut = v.shut (λ x. cc) in
            omega (
              arith,
              v.settled h,
              advance-let_in policy s.queue s.dropped p shut,
              sum_by-set let_in s.producers i p t.2 e,
            );
      }

  Step-Inv : {s t : State} → Step policy s t → Inv s → Inv t
  Step-Inv (produces s i p e) v = produces-Inv s i p e v
  Step-Inv (takes s r rest e) v = record { counted = v.counted; shut = v.shut; settled = v.settled }
  Step-Inv (flags s e) v = record { counted = v.counted; shut = λ h. refl; settled = λ h. cc }
  Step-Inv (returns s e z) v = record {
    counted = v.counted;
    shut = λ h. v.shut (λ x. cc);
    settled = λ h. omega (arith, z, v.counted, sum_by-let_in s.producers);
  }

  Reach-Inv : {s t : State} → Reach policy s t → Inv s → Inv t
  Reach-Inv here v = v
  Reach-Inv (next r st) v = Step-Inv st (Reach-Inv r v)

  takes_from_front :
      {s t : State} (ring : List LogRecord)
      → Step policy s t
      → Inv s
      → s.closer ≡ returned
      → ((k : ℕ) × (s.queue.ring ≡ drop k ring))
      → (t.closer ≡ returned) × ((k : ℕ) × (t.queue.ring ≡ drop k ring))
  takes_from_front ring (produces s i p e) v h (k, f) =
      let (_, low) = inside_below s.producers i p e in
      let kept = advance-ring policy s.queue s.dropped p (omega (arith, v.settled h, low)) in
      (h, (k, kept ∙ f))
  takes_from_front ring (takes s r rest e) v h (k, f) =
      (h, (suc k, sym (drop-tail k ring r rest (sym f ∙ e))))
  takes_from_front ring (flags s e) v h f = cc
  takes_from_front ring (returns s e z) v h f = cc

  returned_for_good :
      {s t : State}
      → Inv s
      → s.closer ≡ returned
      → Reach policy s t
      → (t.closer ≡ returned) × ((k : ℕ) × (t.queue.ring ≡ drop k s.queue.ring))
  returned_for_good v h here = (h, (0, refl))
  returned_for_good v h (next r st) =
      let (h', f) = returned_for_good v h r in takes_from_front _ st (Reach-Inv r v) h' f

  outside_only : (plans : List (List LogRecord)) → sum_by inside (map outside plans) ≡ 0
  outside_only [] = refl
  outside_only (plan ∷ plans) = omega (arith, outside_only plans)

  starting-Inv : (capacity : ℕ) (plans : List (List LogRecord)) → Inv (starting capacity plans)
  unfolding starting new
  starting-Inv capacity plans = record {
    counted = sym (outside_only plans);
    shut = λ h. absurd (h refl);
    settled = λ h. cc;
  }

  -- Once `close` has returned, whatever the producers and the worker do next, the ring is what it
  -- was then, less what the worker has taken from its front: no producer adds to it any more.
  -- Holds for any number of producers, in any interleaving of their atomic operations.
  pub close_is_barrier :
      (capacity : ℕ) (plans : List (List LogRecord)) {s t : State}
      → Reach policy (starting capacity plans) s
      → s.closer ≡ returned
      → Reach policy s t
      → (k : ℕ) × (t.queue.ring ≡ drop k s.queue.ring)
  close_is_barrier capacity plans r h later =
      (returned_for_good (Reach-Inv r (starting-Inv capacity plans)) h later).1

  closed_or_before :
      (c : Closer) (q : SinkQueue LogRecord)
      → (c ≢ before → q.closed ≡ true)
      → (c ≡ before) ⊎ (q.closed ≡ true)
  closed_or_before before q h = inl refl
  closed_or_before flagged q h = inr (h (λ e. cc))
  closed_or_before returned q h = inr (h (λ e. cc))

  -- In any interleaving, `active_enqueues` counts the producers that have registered and not left,
  -- and from the moment that `close` has stored its flag, `closed` is set.
  pub active_enqueues_counts :
      (capacity : ℕ) (plans : List (List LogRecord)) {s : State}
      → Reach policy (starting capacity plans) s
      → (s.queue.active_enqueues ≡ sum_by inside s.producers)
        × ((s.closer ≡ before) ⊎ (s.queue.closed ≡ true))
  active_enqueues_counts capacity plans {s} r =
      let v = Reach-Inv r (starting-Inv capacity plans) in
      (v.counted, closed_or_before s.closer s.queue v.shut)
