-- ===== src/Sls/Queue/Policy.antt =====
-- The overflow policies: what one `enqueue` does, and what a sequence of them leaves in the ring
-- and in the counters.
use neon_rs.Base.{
  ℕ, zero, suc, ◌+◌, ◌-◌, ◌^◌, max, ◌≤◌, ◌<◌, ◌≡◌, refl, sym, ap, ◌∙◌, true, false, List, [], ◌∷◌,
  ◌++◌, arith, length, length-append, take, drop, length-take, length-drop, inl, inr, Bool-cases,
  ltb, if◌then◌else◌,
}
use mathlib.Core.List.{append_assoc, append-nil}
use neon_rs.Sls.Config.{OverflowPolicy, drop_newest, drop_oldest}
use neon_rs.Sls.Counters.{DropCounters, inc_queue_full, inc_worker_closed}
use neon_rs.Sls.Queue.{SinkQueue, new, push, enqueue, enqueue_all, force_push}

-- What a bounded buffer keeps of everything it was offered.
abbrev pub kept {ℓ} : {A : Type ℓ} → OverflowPolicy → ℕ → List A → List A
kept drop_newest capacity xs = take capacity xs
kept drop_oldest capacity xs = drop (length xs - capacity) xs

module _ {A : Type 0} where
  pub enqueue_closed :
      (policy : OverflowPolicy) (q : SinkQueue A) (c : DropCounters) (a : A)
      → q.closed ≡ true
      → enqueue policy q c a ≡ (q, inc_worker_closed c 1)
  unfolding enqueue
  enqueue_closed policy q c a h = rw (h, enqueue) refl

  pub enqueue_open :
      (policy : OverflowPolicy) (q : SinkQueue A) (c : DropCounters) (a : A)
      → q.closed ≡ false
      → (((enqueue policy q c a).0).ring ≡ (push policy q a).0.ring)
        × ((enqueue policy q c a).0.capacity ≡ q.capacity)
        × ((enqueue policy q c a).0.active_enqueues ≡ q.active_enqueues)
        × ((enqueue policy q c a).0.closed ≡ false)
        × ((enqueue policy q c a).1 ≡ (if (push policy q a).1 then inc_queue_full c else c))
  unfolding enqueue push
  enqueue_open drop_newest q c a h = ground arith
  enqueue_open drop_oldest q c a h = ground arith

  force_push-length :
      (xs : List A) (n : ℕ) (a : A)
      → length (force_push xs n a).0 + (if (force_push xs n a).1 then 1 else 0) ≡ length xs + 1
  unfolding force_push
  force_push-length [] n a = refl
  force_push-length (x ∷ xs) n a = ground (arith, length-append xs (a ∷ []))

  pub push-length :
      (policy : OverflowPolicy) (q : SinkQueue A) (a : A)
      → length (push policy q a).0.ring + (if (push policy q a).1 then 1 else 0) ≡ length q.ring + 1
  unfolding push
  push-length drop_newest q a = ground (arith, length-append q.ring (a ∷ []))
  push-length drop_oldest q a = force_push-length q.ring q.capacity a

  take_all : (n : ℕ) (xs : List A) → length xs ≤ n → take n xs ≡ xs
  take_all zero [] h = refl
  take_all zero (x ∷ xs) h = absurd (omega arith)
  take_all (suc n) [] h = refl
  take_all (suc n) (x ∷ xs) h = ap (◌∷◌ x) (take_all n xs (omega arith))

  take_full : (n : ℕ) (xs ys : List A) → n ≤ length xs → take n (xs ++ ys) ≡ take n xs
  take_full zero xs ys h = refl
  take_full (suc n) [] ys h = absurd (omega arith)
  take_full (suc n) (x ∷ xs) ys h = ap (◌∷◌ x) (take_full n xs ys (omega arith))

  drop_full : (n : ℕ) (xs ys : List A) → n ≤ length xs → drop n (xs ++ ys) ≡ drop n xs ++ ys
  drop_full zero xs ys h = refl
  drop_full (suc n) [] ys h = absurd (omega arith)
  drop_full (suc n) (x ∷ xs) ys h = drop_full n xs ys (omega arith)

  pub drop-tail :
      (n : ℕ) (xs : List A) (y : A) (ys : List A) → drop n xs ≡ y ∷ ys → drop (suc n) xs ≡ ys
  drop-tail zero [] y ys e = cc
  drop-tail zero (x ∷ xs) y ys e = cc
  drop-tail (suc n) [] y ys e = cc
  drop-tail (suc n) (x ∷ xs) y ys e = drop-tail n xs y ys e

  force_push_room :
      (n : ℕ) (xs : List A) (a : A) → length xs < n → force_push xs n a ≡ (xs ++ a ∷ [], false)
  unfolding force_push
  force_push_room n [] a h = refl
  force_push_room n (x ∷ xs) a h = ground arith

  -- In a full ring the oldest item makes way.
  force_push_full :
      (n k : ℕ) (xs ys : List A) (a : A)
      → 0 < n
      → length ys ≡ n
      → drop k xs ≡ ys
      → k ≤ length xs
      → force_push ys n a ≡ (drop (suc k) (xs ++ a ∷ []), true)
  unfolding force_push
  force_push_full n k xs [] a h e d b = absurd (omega arith)
  force_push_full n k xs (y ∷ ys) a h e d b =
      let f = drop_full k xs (a ∷ []) b ∙ ap (λ zs. zs ++ a ∷ []) d in
      let g = drop-tail k (xs ++ a ∷ []) y (ys ++ a ∷ []) f in rw g (ground arith)

  force_push-kept :
      (n : ℕ) (xs : List A) (a : A)
      → 0 < n
      → force_push (drop (length xs - n) xs) n a ≡ (
        drop (length (xs ++ a ∷ []) - n) (xs ++ a ∷ []),
        if ltb (length xs) n then false else true,
      )
  force_push-kept n xs a h =
      let l = length-append xs (a ∷ []) in
      elim (Bool-cases (ltb (length xs) n)) [
        | inl room ↦
            let z : length xs - n ≡ 0 = ground arith in
            let z' : length (xs ++ a ∷ []) - n ≡ 0 = ground arith in
            rw (z, z', room) (force_push_room n xs a (ground arith))
        | inr full ↦
            let z' : length (xs ++ a ∷ []) - n ≡ suc (length xs - n) = ground arith in
            rw (z', full)
              (force_push_full n (length xs - n) xs (drop (length xs - n) xs) a h
                (length-drop (length xs - n) xs ∙ ground arith) refl (omega arith))
      ]

  take-kept :
      (n : ℕ) (xs : List A) (a : A)
      → (length xs < n → take n (xs ++ a ∷ []) ≡ take n xs ++ a ∷ [])
        × (n ≤ length xs → take n (xs ++ a ∷ []) ≡ take n xs)
  take-kept n xs a = (
    λ h.
        take_all n (xs ++ a ∷ []) (omega (arith, length-append xs (a ∷ [])))
        ∙ ap (λ zs. zs ++ a ∷ []) (sym (take_all n xs (omega arith))),
    take_full n xs (a ∷ []),
  )

  push-kept :
      (policy : OverflowPolicy) (q : SinkQueue A) (xs : List A) (a : A)
      → 0 < q.capacity
      → q.ring ≡ kept policy q.capacity xs
      → ((push policy q a).0.ring ≡ kept policy q.capacity (xs ++ a ∷ []))
        × ((push policy q a).1 ≡ (if ltb (length xs) q.capacity then false else true))
  unfolding push
  push-kept drop_newest q xs a h e =
      let k = take-kept q.capacity xs a in
      ground (arith, length-take q.capacity xs, ap length e, k.0, k.1)
  push-kept drop_oldest q xs a h e =
      let f = force_push-kept q.capacity xs a h in rw e (ap (λ r. r.0) f, ap (λ r. r.1) f)

  enqueue_all-kept :
      (policy : OverflowPolicy) (q : SinkQueue A) (c : DropCounters) (xs rest : List A)
      → 0 < q.capacity
      → q.closed ≡ false
      → q.ring ≡ kept policy q.capacity xs
      → c.queue_full + length rest < 2 ^ 64
      → let (q', c') = enqueue_all policy q c rest in
        (q'.ring ≡ kept policy q.capacity (xs ++ rest))
        × (c'.queue_full + (length xs - q.capacity)
            ≡ c.queue_full + (length xs + length rest - q.capacity))
        × (c'.worker_closed ≡ c.worker_closed)
  unfolding enqueue_all
  enqueue_all-kept policy q c xs [] h o e room = (rw append-nil e, omega arith, refl)
  enqueue_all-kept policy q c xs (a ∷ rest) h o e room =
      let (q', c') = enqueue policy q c a in
      let p = push-kept policy q xs a h e in
      let n = enqueue_open policy q c a o in
      let capacity : q'.capacity ≡ q.capacity = n.1 in
      let e' : q'.ring ≡ kept policy q'.capacity (xs ++ a ∷ []) = rw capacity (n.0 ∙ p.0) in
      let counted : (c'.queue_full ≡ c.queue_full + (if ltb (length xs) q.capacity then 0 else 1))
          × (c'.worker_closed ≡ c.worker_closed) =
        ground (arith, n.4, p.1) in
      let ih =
        enqueue_all-kept policy q' c' (xs ++ a ∷ []) rest (rw capacity h) n.3 e'
          (ground (arith, counted)) in
      (
        ih.0 ∙ rw capacity (ap (kept policy q.capacity) (append_assoc xs (a ∷ []) rest)),
        ground (arith, ih.1, capacity, counted, length-append xs (a ∷ [])),
        ih.2 ∙ counted.1,
      )

  -- A fresh queue that nobody reads, offered any sequence of records: under `DropNewest` it holds
  -- the first `capacity` of them, under `DropOldest` the last, in order of arrival, and exactly
  -- the records beyond the capacity are counted, as `queue_full`; a capacity of 0 acts as 1. The
  -- counter must have room for them.
  pub enqueue_all-new :
      (policy : OverflowPolicy) (capacity : ℕ) (c : DropCounters) (records : List A)
      → c.queue_full + length records < 2 ^ 64
      → let (q, c') = enqueue_all policy (new capacity) c records in
        (q.ring ≡ kept policy (max capacity 1) records)
        × (c'.queue_full ≡ c.queue_full + (length records - max capacity 1))
        × (c'.worker_closed ≡ c.worker_closed)
  unfolding new
  enqueue_all-new policy capacity c records room =
      let r =
        enqueue_all-kept policy (new capacity) c [] records (omega arith) refl (empty policy)
          room in
      (r.0, omega arith, r.2)
    where
      empty : (p : OverflowPolicy) → [] ≡ kept {A = A} p (max capacity 1) []
      empty drop_newest = sym (take_all (max capacity 1) [] (omega arith))
      empty drop_oldest = ground arith
