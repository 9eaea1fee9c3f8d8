-- ===== src/Helper/Tree/Reachable.antt =====
-- `new_tree` ends, and holds just what hangs on the root.
use neon_rs.Base.{
  ℕ, suc, ◌+◌, ◌≡◌, ◌≢◌, inl, inr, refl, sym, ap, subst, ◌∙◌, Bool, none, some, List, [], ◌∷◌, ◌++◌,
  arith, length, if◌then◌else◌, All, All-append, All-map, sum_by, sum_by-append, Bool-cases,
}
use neon_rs.Base.Eq.{Eq}
use neon_rs.Base.Assoc.{get, remove, Keyed}
use neon_rs.Helper.Tree.{Forest, ByParent, nodes_of, or_empty, group, new_tree, forest_of}
use neon_rs.Helper.Tree.Built.{
  roots, weigh, AllNodes, AllNodes-map, Hangs, weigh_map, weigh-remove, Sub-trans, Sub-remove,
  Sub-none, Proper, Proper-Sub, removed,
}
use neon_rs.Helper.Tree.Grown.{build_tree-Builds}
use neon_rs.Helper.Tree.Grouped.{
  children_of, children_of-All, nodes_of-group, group-Keyed, weigh-group,
}

-- The records left in a map, and those of a forest.
flat : {T E : Type 0} → ByParent T E → List T
flat [] = []
flat ((k, xs) ∷ m) = xs ++ flat m

module _ {T E : Type 0} ⦃e : Eq E⦄ (pid : T → E) where
  sum_by-flat : (f : T → ℕ) (m : ByParent T E) → sum_by f (flat m) ≡ weigh_map f m
  unfolding flat
  sum_by-flat f [] = refl
  sum_by-flat f ((k, xs) ∷ m) = omega (arith, sum_by-append f xs (flat m), sum_by-flat f m)

  Proper-tail :
      (j : E) (ys : List T) (m : ByParent T E)
      → get j m ≡ none
      → Proper pid ((j, ys) ∷ m)
      → Proper pid m
  Proper-tail j ys m lost p k = elim (Bool-cases (e.beq j k)) [
    | inl same ↦
        let gone : get k m ≡ none = subst (λ i. get i m ≡ none) ((e.beq_iff j k).0 same) lost in
        rw gone tt
    | inr apart ↦
        subst (λ (b : Bool). All (λ x. pid x ≡ k) (or_empty (if b then some ys else get k m))) apart
          (p k)
  ]

  own : (j : E) (ys : List T) (m : ByParent T E) → nodes_of j ((j, ys) ∷ m) ≡ ys
  own j ys m = ground (arith, e.beq_iff j j)

  at_head :
      (x : T) (j : E) (ys : List T) (m : ByParent T E)
      → pid x ≡ j
      → get (pid x) ((j, ys) ∷ m) ≢ none
  at_head x j ys m h = ground (arith, e.beq_iff j (pid x))

  in_tail :
      (x : T) (j : E) (ys : List T) (m : ByParent T E)
      → get (pid x) m ≢ none
      → get (pid x) ((j, ys) ∷ m) ≢ none
  in_tail x j ys m h = ground (arith, e.beq_iff j (pid x))

  flat-All : (m : ByParent T E) → Keyed m → Proper pid m → All (λ x. get (pid x) m ≢ none) (flat m)
  unfolding flat
  flat-All [] h p = tt
  flat-All ((j, ys) ∷ m) h p =
      All-append _ ys (flat m)
        (All-map _ _ ys (λ x. at_head x j ys m) (subst (All (λ x. pid x ≡ j)) (own j ys m) (p j)))
        (All-map _ _ (flat m) (λ x. in_tail x j ys m) (flat-All m h.1 (Proper-tail j ys m h.0 p)))

module _ {T E : Type 0} ⦃e : Eq E⦄ (id pid : T → E) (records : List T) (root : E) where
  -- The forest holds just what hangs on the root: the records under the root in their order, each
  -- record under its parent, no record more often than it was given, and of the records that are
  -- left none has the root or a record of the forest for its parent.
  pub record IsTreeOf (ts : Forest T) : Type 0 where
    pub top : roots ts ≡ children_of pid root records
    pub hangs : Hangs id pid root ts
    pub left : List T
    pub split : (f : T → ℕ) → weigh f ts + sum_by f left ≡ sum_by f records
    pub apart : All (λ x. (pid x ≢ root) × AllNodes (λ y. pid x ≢ id y) ts) left

  apart_from :
      (m : ByParent T E) (ts : Forest T) (x : T)
      → get root m ≡ none
      → AllNodes (λ y. get (id y) m ≡ none) ts
      → get (pid x) m ≢ none
      → (pid x ≢ root) × AllNodes (λ y. pid x ≢ id y) ts
  apart_from m ts x r c h = (
    λ same. h (subst (λ k. get k m ≡ none) (sym same) r),
    AllNodes-map _ _ ts (λ y gone same. h (subst (λ k. get k m ≡ none) (sym same) gone)) c,
  )

  -- `new_tree` always returns a forest, also where records are each other's parents or an id stands
  -- twice, and the forest holds just what hangs on the root.
  pub new_tree-IsTreeOf : (ts : Forest T) × (new_tree id pid records root ≡ some ts) × IsTreeOf ts
  unfolding new_tree
  new_tree-IsTreeOf =
      let m = group pid records [] in
      let keyed = group-Keyed pid records [] tt in
      let proper = λ (k : E).
        subst (All (λ x. pid x ≡ k)) (sym (nodes_of-group pid records k []))
          (children_of-All pid k records) in
      let b = build_tree-Builds id pid (suc (length m)) m root (omega arith) keyed proper in
      let g = b.grown in
      let left_map = b.out.1 in
      let sub = Sub-trans m (remove root m) left_map (Sub-remove root m) g.sub in
      let present = flat-All pid left_map g.keyed (Proper-Sub pid m left_map sub proper) in
      let no_root = Sub-none (remove root m) left_map root g.sub (removed root m) in
      (
        b.out.0,
        ap forest_of b.done,
        record {
          top = g.top ∙ nodes_of-group pid records root [];
          hangs = g.hangs;
          left = flat left_map;
          split = λ f. omega (
            arith,
            g.weight f,
            sum_by-flat pid f left_map,
            weigh-remove f root m keyed,
            weigh-group pid f records [] tt,
          );
          apart =
              All-map _ _ (flat left_map) (λ x. apart_from left_map b.out.0 x no_root g.closed)
                present;
        },
      )
