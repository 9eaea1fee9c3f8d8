-- ===== src/Helper/Tree/Grown.antt =====
-- `build_tree` ends with fuel for each parent, and what it takes out of the map hangs on the parent.
use neon_rs.Base.{
  ℕ, zero, suc, ◌+◌, ◌≤◌, ◌<◌, ◌≡◌, inl, inr, refl, sym, ap, subst, ◌∙◌, Option, none, some, List,
  [], ◌∷◌, arith, length, All, sum_by, Option-cases,
}
use neon_rs.Base.Eq.{Eq}
use neon_rs.Base.Assoc.{get, remove, Keyed}
use neon_rs.Helper.Tree.{
  node, Forest, nil, cons, ByParent, nodes_of, or_empty, then_rest, then_kids, build_nodes,
  build_tree,
}
use neon_rs.Helper.Tree.Built.{
  roots, weigh, AllNodes, AllNodes-map, Hangs, weigh_map, weigh-remove, length-remove,
  length-remove_lt, remove-Keyed, Sub, Sub-trans, Sub-remove, Sub-none, Proper, Proper-Sub, removed,
}

module _ {T E : Type 0} ⦃e : Eq E⦄ (id pid : T → E) where
  -- A forest of these records under a parent, and what is left of a map.
  pub record Grown (m : ByParent T E) (p : E) (tops : List T) (out : Forest T × ByParent T E)
      : Type 0 where
    pub top : roots out.0 ≡ tops
    pub hangs : Hangs id pid p out.0
    pub weight : (f : T → ℕ) → weigh f out.0 + weigh_map f out.1 ≡ sum_by f tops + weigh_map f m
    pub closed : AllNodes (λ x. get (id x) out.1 ≡ none) out.0
    pub sub : Sub m out.1
    pub keyed : Keyed out.1
    pub fewer : length out.1 ≤ length m

  pub record Builds (m : ByParent T E) (p : E) (built : Option (Forest T × ByParent T E))
      : Type 0 where
    pub out : Forest T × ByParent T E
    pub done : built ≡ some out
    pub grown : Grown (remove p m) p (nodes_of p m) out

  record BuildsNodes (m : ByParent T E) (p : E) (tops : List T)
      (built : Option (Forest T × ByParent T E)) : Type 0 where
    pub out : Forest T × ByParent T E
    pub done : built ≡ some out
    pub grown : Grown m p tops out

  grow :
      (m m1 m2 : ByParent T E) (p : E) (x : T) (xs : List T) (kids rest : Forest T)
      → Keyed m
      → pid x ≡ p
      → Grown (remove (id x) m) (id x) (nodes_of (id x) m) (kids, m1)
      → Grown m1 p xs (rest, m2)
      → Grown m p (x ∷ xs) (cons (node x kids) rest, m2)
  grow m m1 m2 p x xs kids rest k under g h = record {
    top = ap (◌∷◌ x) h.top;
    hangs = ((under, g.hangs), h.hangs);
    weight = λ f. omega (arith, g.weight f, h.weight f, weigh-remove f (id x) m k);
    closed = (
      (
        Sub-none (remove (id x) m) m2 (id x) (Sub-trans (remove (id x) m) m1 m2 g.sub h.sub)
            (removed (id x) m),
        AllNodes-map _ _ kids (λ y. Sub-none m1 m2 (id y) h.sub) g.closed,
      ),
      h.closed,
    );
    sub = Sub-trans m m1 m2 (Sub-trans m (remove (id x) m) m1 (Sub-remove (id x) m) g.sub) h.sub;
    keyed = h.keyed;
    fewer = omega (arith, h.fewer, g.fewer, length-remove (id x) m);
  }

  bare : (m : ByParent T E) (p : E) → Keyed m → Grown m p [] (nil, m)
  bare m p k = record {
    top = refl;
    hangs = tt;
    weight = λ f. refl;
    closed = tt;
    sub = λ j. inr refl;
    keyed = k;
    fewer = omega arith;
  }

  build_nodes-Builds :
      (build : ByParent T E → E → Option (Forest T × ByParent T E)) (bound : ℕ) (m : ByParent T E)
      (p : E) (xs : List T)
      → ((n : ByParent T E) (q : E)
          → length n < bound
          → Keyed n
          → Proper pid n
          → Builds n q (build n q))
      → length m < bound
      → Keyed m
      → Proper pid m
      → All (λ x. pid x ≡ p) xs
      → BuildsNodes m p xs (build_nodes id build m xs)
  unfolding build_nodes
  build_nodes-Builds build bound m p [] builds small k r all = record {
    out = (nil, m);
    done = refl;
    grown = bare m p k;
  }
  build_nodes-Builds build bound m p (x ∷ xs) builds small k r all =
      let b = builds m (id x) small k r in
      let sub1 = Sub-trans m (remove (id x) m) b.out.1 (Sub-remove (id x) m) b.grown.sub in
      let h =
        build_nodes-Builds build bound b.out.1 p xs builds
          (omega (arith, b.grown.fewer, length-remove (id x) m)) b.grown.keyed
          (Proper-Sub pid m b.out.1 sub1 r) all.1 in
      record {
        out = (cons (node x b.out.0) h.out.0, h.out.1);
        done =
            ap (λ o. then_kids x o (λ m'. build_nodes id build m' xs)) b.done
            ∙ ap (then_rest x b.out.0) h.done;
        grown = grow m b.out.1 h.out.1 p x xs b.out.0 h.out.0 k all.0 b.grown h.grown;
      }

  pub build_tree-Builds :
      (fuel : ℕ) (m : ByParent T E) (p : E)
      → length m < fuel
      → Keyed m
      → Proper pid m
      → Builds m p (build_tree fuel id m p)
  unfolding build_tree
  build_tree-Builds zero m p h k r = absurd (omega arith)
  build_tree-Builds (suc fuel) m p h k r = elim (Option-cases (get p m)) [
    | inl none_there ↦
        let empty : nodes_of p m ≡ [] = ap or_empty none_there in
        record {
          out = (nil, remove p m);
          done = ap (build_nodes id (build_tree fuel id) (remove p m)) empty;
          grown =
              subst (λ tops. Grown (remove p m) p tops (nil, remove p m)) (sym empty)
                (bare (remove p m) p (remove-Keyed p m k));
        }
    | inr (xs, there) ↦
        let b =
          build_nodes-Builds (build_tree fuel id) fuel (remove p m) p (nodes_of p m)
            (build_tree-Builds fuel) (omega (arith, length-remove_lt p m xs there))
            (remove-Keyed p m k) (Proper-Sub pid m (remove p m) (Sub-remove p m) r) (r p) in
        record { out = b.out; done = b.done; grown = b.grown }
  ]
