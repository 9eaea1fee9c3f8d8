-- ===== src/Helper/Tree/Grouped.antt =====
-- `group` puts each record under its parent, in order.
use neon_rs.Base.{
  ℕ, ◌+◌, ◌≡◌, inl, inr, refl, sym, List, [], ◌∷◌, ◌++◌, arith, if◌then◌else◌, All, sum_by,
  sum_by-append, Bool-cases,
}
use mathlib.Core.List.{append-nil, append_assoc}
use neon_rs.Base.Eq.{Eq}
use neon_rs.Base.Assoc.{insert, get-insert, Keyed, insert-Keyed}
use neon_rs.Helper.Tree.{ByParent, nodes_of, push, group}
use neon_rs.Helper.Tree.Built.{weigh_map}

-- The records whose parent is `p`, in order.
abbrev pub children_of : {T E : Type 0} ⦃e : Eq E⦄ → (T → E) → E → List T → List T
children_of pid p [] = []
children_of ⦃e⦄ pid p (x ∷ xs) =
    let rest = children_of ⦃e = e⦄ pid p xs in if e.beq (pid x) p then x ∷ rest else rest

module _ {T E : Type 0} ⦃e : Eq E⦄ (pid : T → E) where
  nodes_of-push :
      (j k : E) (x : T) (m : ByParent T E)
      → nodes_of k (push j x m) ≡ (if e.beq j k then nodes_of k m ++ x ∷ [] else nodes_of k m)
  unfolding push
  nodes_of-push j k x m = ground (arith, get-insert j k (nodes_of j m ++ x ∷ []) m, e.beq_iff j k)

  pub nodes_of-group :
      (xs : List T) (k : E) (m : ByParent T E)
      → nodes_of k (group pid xs m) ≡ nodes_of k m ++ children_of pid k xs
  unfolding group
  nodes_of-group [] k m = sym (append-nil (nodes_of k m))
  nodes_of-group (x ∷ xs) k m = elim (Bool-cases (e.beq (pid x) k)) [
    | inl under ↦
        rw (nodes_of-group xs k (push (pid x) x m), nodes_of-push (pid x) k x m, under)
          (append_assoc (nodes_of k m) (x ∷ []) (children_of pid k xs))
    | inr apart ↦
        rw (nodes_of-group xs k (push (pid x) x m), nodes_of-push (pid x) k x m, apart) refl
  ]

  pub group-Keyed : (xs : List T) (m : ByParent T E) → Keyed m → Keyed (group pid xs m)
  unfolding group push
  group-Keyed [] m h = h
  group-Keyed (x ∷ xs) m h =
      group-Keyed xs (push (pid x) x m) (insert-Keyed (pid x) (nodes_of (pid x) m ++ x ∷ []) m h)

  weigh-insert :
      (f : T → ℕ) (k : E) (xs : List T) (m : ByParent T E)
      → Keyed m
      → weigh_map f (insert k xs m) + sum_by f (nodes_of k m) ≡ weigh_map f m + sum_by f xs
  unfolding insert
  weigh-insert f k xs [] h = omega arith
  weigh-insert f k xs ((j, ys) ∷ m) h = ground (arith, weigh-insert f k xs m h.1, e.beq_iff j k)

  pub weigh-group :
      (f : T → ℕ) (xs : List T) (m : ByParent T E)
      → Keyed m
      → weigh_map f (group pid xs m) ≡ weigh_map f m + sum_by f xs
  unfolding group push
  weigh-group f [] m h = omega arith
  weigh-group f (x ∷ xs) m h = omega (
    arith,
    weigh-group f xs (push (pid x) x m) (insert-Keyed (pid x) (nodes_of (pid x) m ++ x ∷ []) m h),
    weigh-insert f (pid x) (nodes_of (pid x) m ++ x ∷ []) m h,
    sum_by-append f (nodes_of (pid x) m) (x ∷ []),
  )

  pub children_of-All : (k : E) (xs : List T) → All (λ x. pid x ≡ k) (children_of pid k xs)
  children_of-All k [] = tt
  children_of-All k (x ∷ xs) = ground (arith, children_of-All k xs, e.beq_iff (pid x) k)
