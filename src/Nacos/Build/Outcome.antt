-- ===== src/Nacos/Build/Outcome.antt =====
-- Registering the listener for each data id, and its way back.
use neon_rs.Base.{ℕ, suc, ◌-◌, ◌≡◌, refl, sym, subst, false, none, List, [], ◌∷◌, ◌++◌, arith, All}
use mathlib.Core.List.{append-nil, append_assoc}
use neon_rs.Base.Eq.{contains, Distinct}
use neon_rs.Base.Text.{Text, text_eq}
use neon_rs.Base.Result.{Result, ok, err}
use neon_rs.Nacos.Source.{NacosSource, ConfigError, add_listener}
use neon_rs.Nacos.Build.{
  World, Backend, without, cleanup_registered_listeners, after_add, register, remove_all,
  with_startup_timeout,
}

abbrev pub Absent : List Text → List Text → Type 0
Absent base ids = All (λ id. contains base id ≡ false) ids

without_absent : (id : Text) (xs : List Text) → contains xs id ≡ false → without id xs ≡ xs
unfolding without
without_absent id [] h = refl
without_absent id (x ∷ xs) h = ground (arith, without_absent id xs)

without_first :
    (id : Text) (base rest : List Text)
    → contains base id ≡ false
    → contains rest id ≡ false
    → without id (base ++ id ∷ rest) ≡ base ++ rest
unfolding without
without_first id [] rest h k = rw ((text_eq.beq_iff id id).1 refl) (without_absent id rest k)
without_first id (x ∷ base) rest h k = ground (arith, without_first id base rest)

module _ {X : Type 0} where
  -- Every call of `remove_listener` succeeds.
  abbrev pub Removes : World X → Type 0
  Removes w = (id : Text) → w.removed id ≡ none

  cleanup_lem :
      (w : World X) (ids base : List Text) (n : ℕ)
      → Removes w
      → Distinct ids
      → Absent base ids
      → cleanup_registered_listeners w ids (record { listeners = base ++ ids; workers = n })
        ≡ record { listeners = base; workers = n }
  unfolding cleanup_registered_listeners
  cleanup_lem w [] base n r d a = rw append-nil refl
  cleanup_lem w (id ∷ ids) base n r d a =
      rw (r id, without_first id base ids a.0 d.0) (cleanup_lem w ids base n r d.1 a.1)

  pub remove_all_lem :
      (w : World X) (ids base : List Text) (n : ℕ)
      → Removes w
      → Distinct ids
      → Absent base ids
      → remove_all w ids (record { listeners = base ++ ids; workers = n }) none
        ≡ (record { listeners = base; workers = n }, none)
  unfolding remove_all
  remove_all_lem w [] base n r d a = rw append-nil refl
  remove_all_lem w (id ∷ ids) base n r d a =
      rw (r id, without_first id base ids a.0 d.0) (remove_all_lem w ids base n r d.1 a.1)

Distinct-prefix : (xs ys : List Text) → Distinct (xs ++ ys) → Distinct xs
Distinct-prefix [] ys d = tt
Distinct-prefix (x ∷ xs) ys d = (contains-prefix xs ys x d.0, Distinct-prefix xs ys d.1)
  where
    contains-prefix :
        (xs ys : List Text) (x : Text) → contains (xs ++ ys) x ≡ false → contains xs x ≡ false
    contains-prefix [] ys x h = refl
    contains-prefix (z ∷ xs) ys x h = ground (arith, contains-prefix xs ys x)

Absent-prefix : (base xs ys : List Text) → Absent base (xs ++ ys) → Absent base xs
Absent-prefix base [] ys a = tt
Absent-prefix base (x ∷ xs) ys a = (a.0, Absent-prefix base xs ys a.1)

module _ {X : Type 0} (s : NacosSource) (w : World X) (base : List Text) (n : ℕ) where
  -- Either all data ids are registered, or the backend is as it was before the worker was spawned.
  pub data Registered (all : List Text) (r : Backend × Result (ConfigError X) (Unit {0}))
      : Type 0 where
    done : r ≡ (record { listeners = base ++ all; workers = suc n }, ok tt) → Registered all r
    undone :
        (e : ConfigError X)
        → r ≡ (record { listeners = base; workers = n }, err e)
        → Registered all r

  after_add-Registered :
      (registered ids : List Text) (id : Text) (answer : Result (ConfigError X) (Unit {0}))
      (rest : Backend × Result (ConfigError X) (Unit {0}))
      → Removes w
      → w.added_anyway id ≡ false
      → Distinct registered
      → Absent base registered
      → Registered (registered ++ id ∷ ids) rest
      → Registered (registered ++ id ∷ ids) (
          after_add w registered id
            (record { listeners = base ++ registered; workers = suc n })
            answer
            rest)
  unfolding after_add
  after_add-Registered registered ids id (ok u) rest r f d a h = h
  after_add-Registered registered ids id (err e) rest r f d a h =
      let before : suc n - 1 ≡ n = omega arith in
      undone e (rw (f, cleanup_lem w registered base (suc n) r d a, before) refl)

  pub register-Registered :
      (registered ids : List Text)
      → Removes w
      → ((id : Text) → w.added_anyway id ≡ false)
      → Distinct (registered ++ ids)
      → Absent base (registered ++ ids)
      → Registered
          (registered ++ ids)
          (register s w registered ids (record { listeners = base ++ registered; workers = suc n }))
  unfolding register
  register-Registered registered [] r f d a = done (rw append-nil refl)
  register-Registered registered (id ∷ ids) r f d a =
      after_add-Registered registered ids id
        (with_startup_timeout s.startup_timeout add_listener (w.added id))
        (register s w (registered ++ id ∷ []) ids
          (record { listeners = (base ++ registered) ++ id ∷ []; workers = suc n }))
        r (f id) (Distinct-prefix registered (id ∷ ids) d)
        (Absent-prefix base registered (id ∷ ids) a)
        (subst
          (λ l.
            Registered (registered ++ id ∷ ids) (
              register s w (registered ++ id ∷ []) ids (record { listeners = l; workers = suc n })))
          (sym (append_assoc base registered (id ∷ [])))
          (subst
            (λ l.
              Distinct l
              → Absent base l
              → Registered l (
                  register s w (registered ++ id ∷ []) ids
                    (record { listeners = base ++ (registered ++ id ∷ []); workers = suc n })))
            (append_assoc registered (id ∷ []) ids)
            (register-Registered (registered ++ id ∷ []) ids r f) d a))
