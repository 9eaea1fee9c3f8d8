-- ===== src/Nacos/Worker/Settles.antt =====
-- The worker never sleeps on an update, and is done with what arrived after a bounded number of
-- steps.
use neon_rs.Base.{
  ℕ, zero, suc, ◌+◌, ◌*◌, ◌≤◌, ◌<◌, ◌≡◌, ◌⊎◌, refl, ap, subst, Bool, true, false, Option, none,
  some, List, [], ◌∷◌, arith, is_empty, inl, inr, Bool-cases,
}
use neon_rs.Base.Text.{Text}
use neon_rs.Base.Result.{Result}
use neon_rs.Nacos.Reload.{ConfigEntry, Entries, ConfigResponse, Settings, accept, stage, new_shared}
use neon_rs.Nacos.Reload.Batch.{apply_batch_keeps}
use neon_rs.Nacos.Worker.{
  Phase, waiting, draining, applying, System, arrive, arrive_as, announce, start, work, work_in,
  runnable_in, runnable, Step, announces, works, Steps, stay, more, Reach, here, arrives, steps,
}

abbrev bit : Bool → ℕ
bit true = 1
bit false = 0

abbrev filled : Entries → ℕ
filled [] = 0
filled (_ ∷ _) = 1

abbrev busy : Phase → ℕ
busy waiting = 0
busy draining = 1
busy (applying batch) = 2

filled-cases : (m : Entries) → (m ≡ []) ⊎ ((u : Text × ConfigEntry) × (us : Entries) × (m ≡ u ∷ us))
filled-cases [] = inl refl
filled-cases (u ∷ us) = inr (u, us, refl)

small : (b : Bool) (m : Entries) (p : Phase) → 2 * bit b + 2 * filled m + busy p ≤ 6
small b m p = ground arith

module _ {Config : Type 0} where
  -- What is left to do, at most.
  abbrev pub to_do_in : System Config → Phase → ℕ
  to_do_in s p =
      3 * s.unannounced + 2 * bit s.shared.permit + 2 * filled s.shared.pending_updates + busy p

  abbrev pub to_do : System Config → ℕ
  to_do s = to_do_in s s.phase

  -- A batch in hand is no empty one; a worker that waits beside an update has a permit, or a call
  -- of `notify_one` is due.
  abbrev pub AwakeIn : System Config → Phase → Type 0
  AwakeIn s waiting = 0 < filled s.shared.pending_updates → 0 < bit s.shared.permit + s.unannounced
  AwakeIn s draining = Unit
  AwakeIn s (applying batch) = is_empty batch ≡ false

  abbrev pub Awake : System Config → Type 0
  Awake s = AwakeIn s s.phase

-- The worker waits, and there is nothing for it to do.
pub record Quiet {Config : Type 0} (s : System Config) : Type 0 where
  pub asleep : s.phase ≡ waiting
  pub nothing_pending : s.shared.pending_updates ≡ []
  pub no_permit : s.shared.permit ≡ false
  pub all_announced : s.unannounced ≡ 0

not_runnable :
    (permit : Bool) (p : Phase) → runnable_in permit p ≡ false → (p ≡ waiting) × (permit ≡ false)
not_runnable false waiting n = (refl, refl)
not_runnable true waiting n = cc
not_runnable permit draining n = cc
not_runnable permit (applying batch) n = cc

empty_of : (m : Entries) → (0 < filled m → 0 < 0) → m ≡ []
empty_of [] h = refl
empty_of (u ∷ us) h = absurd (omega (arith, h (omega arith)))

ℕ-cases : (n : ℕ) → (n ≡ 0) ⊎ ((m : ℕ) × (n ≡ suc m))
ℕ-cases zero = inl refl
ℕ-cases (suc m) = inr (m, refl)

module _ {Config X : Type 0} (build : List ConfigEntry → Result X Config) (order : List Text) where
  work_in-to_do :
      (s : System Config) (p : Phase)
      → AwakeIn s p
      → runnable_in s.shared.permit p ≡ true
      → to_do (work_in build order s p) < to_do_in s p
  unfolding work_in
  work_in-to_do s waiting a h = ground arith
  work_in-to_do s draining a h = elim (filled-cases s.shared.pending_updates) [
    | inl e ↦ rw e (ground arith)
    | inr (u, us, e) ↦ rw e (ground arith)
  ]
  work_in-to_do s (applying batch) a h =
      ground (arith, apply_batch_keeps build order s.shared batch a)

  work_in-Awake :
      (s : System Config) (p : Phase)
      → runnable_in s.shared.permit p ≡ true
      → Awake (work_in build order s p)
  unfolding work_in
  work_in-Awake s waiting h = rw h tt
  work_in-Awake s draining h = elim (filled-cases s.shared.pending_updates) [
    | inl e ↦ rw e (λ h. absurd (omega arith))
    | inr (u, us, e) ↦ rw e refl
  ]
  work_in-Awake s (applying batch) h = tt

  announce-Awake : (s : System Config) (n : ℕ) (p : Phase) → AwakeIn s p → AwakeIn (announce s n) p
  unfolding announce
  announce-Awake s n waiting a = λ h. omega arith
  announce-Awake s n draining a = tt
  announce-Awake s n (applying batch) a = a

  Step-to_do : {s t : System Config} → Awake s → Step build order s t → to_do t < to_do s
  unfolding announce work
  Step-to_do {s} a (announces n e) = ground arith
  Step-to_do {s} a (works h) = work_in-to_do s s.phase a h

  pub Step-Awake : {s t : System Config} → Awake s → Step build order s t → Awake t
  unfolding work announce
  Step-Awake {s} a (announces n e) = announce-Awake s n s.phase a
  Step-Awake {s} a (works h) = work_in-Awake s s.phase h

  Steps-to_do :
      {s t : System Config} {n : ℕ}
      → Awake s
      → Steps build order s n t
      → (n + to_do t ≤ to_do s) × Awake t
  Steps-to_do a stay = (omega arith, a)
  Steps-to_do a (more run st) =
      let (fewer, a') = Steps-to_do a run in (omega (arith, Step-to_do a' st), Step-Awake a' st)

  -- There is a next step, or nothing to do.
  progress : (s : System Config) → Awake s → Quiet s ⊎ ((t : System Config) × Step build order s t)
  progress s a = elim (Bool-cases (runnable s)) [
    | inl ready ↦ inr (_, works ready)
    | inr idle ↦ elim (ℕ-cases s.unannounced) [
      | inr (n, due) ↦ inr (_, announces n due)
      | inl announced ↦
          let (asleep, off) = not_runnable s.shared.permit s.phase idle in
          inl (record {
            asleep = asleep;
            nothing_pending = empty_of s.shared.pending_updates (λ h.
                let due = subst (AwakeIn s) asleep a h in
                omega (arith, ap bit off, announced, due));
            no_permit = off;
            all_announced = announced;
          })
    ]
  ]

module _ {Config X : Type 0} (build : List ConfigEntry → Result X Config) (o : Settings) where
  stage-Awake :
      (s : System Config) (id : Text) (entry : ConfigEntry) (p : Phase)
      → AwakeIn s p
      → AwakeIn (record s { shared = stage s.shared id entry; unannounced = suc s.unannounced }) p
  stage-Awake s id entry waiting a = λ h. omega arith
  stage-Awake s id entry draining a = tt
  stage-Awake s id entry (applying batch) a = a

  arrive_as-Awake :
      (s : System Config) (u : Option (Text × ConfigEntry)) → Awake s → Awake (arrive_as s u)
  unfolding arrive_as
  arrive_as-Awake s none a = a
  arrive_as-Awake s (some (id, entry)) a = stage-Awake s id entry s.phase a

  pub Reach-Awake :
      {s t : System Config} {rs : List ConfigResponse} → Awake s → Reach build o s rs t → Awake t
  unfolding arrive
  Reach-Awake a here = a
  Reach-Awake a (arrives run r) = arrive_as-Awake _ (accept o r) (Reach-Awake a run)
  Reach-Awake a (steps run st) = Step-Awake build o.data_id_order (Reach-Awake a run) st

  -- After any responses, in any interleaving, the worker and the calls of `notify_one` that are due
  -- take at most three steps for each call due and six more, and at each moment there is a next step
  -- or the worker waits, no update is pending, no permit is left and no call is due.
  pub settles :
      (entries : Entries) (c : Config) (rs : List ConfigResponse) (s t : System Config) (n : ℕ)
      → Reach build o (start o.data_id_order entries c) rs s
      → Steps build o.data_id_order s n t
      → (n ≤ 3 * s.unannounced + 6)
        × (Quiet t ⊎ ((u : System Config) × Step build o.data_id_order t u))
  unfolding start new_shared
  settles entries c rs s t n r run =
      let a = Reach-Awake (λ h. absurd (omega arith)) r in
      let (few, a') = Steps-to_do build o.data_id_order a run in
      (
        omega (arith, small s.shared.permit s.shared.pending_updates s.phase),
        progress build o.data_id_order t a',
      )
