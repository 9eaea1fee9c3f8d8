-- ===== src/Helper/Tree/Built.antt =====
-- What `build_tree` makes of a map, and what it leaves in it.
use neon_rs.Base.{
  ℕ, ◌+◌, ◌≤◌, ◌<◌, ◌≡◌, ◌⊎◌, inl, inr, refl, none, some, List, [], ◌∷◌, arith, length, All, sum_by,
}
use neon_rs.Base.Eq.{Eq}
use neon_rs.Base.Assoc.{get, remove, get-remove, Keyed}
use neon_rs.Helper.Tree.{TreeNode, node, Forest, nil, cons, ByParent, nodes_of}

-- The records at the top of a forest, and a sum over all of its records.
module _ {T : Type 0} where
  abbrev pub root_of : TreeNode T → T
  root_of (node x kids) = x

  abbrev pub roots : Forest T → List T
  roots nil = []
  roots (cons t ts) = root_of t ∷ roots ts

abbrev mutual
  pub weigh : {T : Type 0} → (T → ℕ) → Forest T → ℕ
  weigh f nil = 0
  weigh f (cons t ts) = weigh_node f t + weigh f ts

  weigh_node : {T : Type 0} → (T → ℕ) → TreeNode T → ℕ
  weigh_node f (node x kids) = f x + weigh f kids

-- A property of every record of a forest.
abbrev mutual
  pub AllNodes : {T : Type 0} → (T → Type 0) → Forest T → Type 0
  AllNodes P nil = Unit
  AllNodes P (cons t ts) = AllNode P t × AllNodes P ts

  AllNode : {T : Type 0} → (T → Type 0) → TreeNode T → Type 0
  AllNode P (node x kids) = P x × AllNodes P kids

-- Each record stands under its parent.
abbrev mutual
  pub Hangs : {T E : Type 0} → (T → E) → (T → E) → E → Forest T → Type 0
  Hangs id pid p nil = Unit
  Hangs id pid p (cons t ts) = HangsNode id pid p t × Hangs id pid p ts

  HangsNode : {T E : Type 0} → (T → E) → (T → E) → E → TreeNode T → Type 0
  HangsNode id pid p (node x kids) = (pid x ≡ p) × Hangs id pid (id x) kids

mutual
  pub AllNodes-map :
      {T : Type 0} (P Q : T → Type 0) (ts : Forest T)
      → ((x : T) → P x → Q x)
      → AllNodes P ts
      → AllNodes Q ts
  AllNodes-map P Q nil h a = tt
  AllNodes-map P Q (cons t ts) h a = (AllNode-map P Q t h a.0, AllNodes-map P Q ts h a.1)

  AllNode-map :
      {T : Type 0} (P Q : T → Type 0) (t : TreeNode T)
      → ((x : T) → P x → Q x)
      → AllNode P t
      → AllNode Q t
  AllNode-map P Q (node x kids) h a = (h x a.0, AllNodes-map P Q kids h a.1)

module _ {T E : Type 0} ⦃e : Eq E⦄ where
  abbrev pub weigh_map : (T → ℕ) → ByParent T E → ℕ
  weigh_map f m = sum_by (λ kxs. sum_by f (kxs.1)) m

  pub weigh-remove :
      (f : T → ℕ) (k : E) (m : ByParent T E)
      → Keyed m
      → weigh_map f (remove k m) + sum_by f (nodes_of k m) ≡ weigh_map f m
  unfolding remove
  weigh-remove f k [] h = refl
  weigh-remove f k ((j, xs) ∷ m) h = ground (arith, weigh-remove f k m h.1, e.beq_iff j k)

  pub length-remove : (k : E) (m : ByParent T E) → length (remove k m) ≤ length m
  unfolding remove
  length-remove k [] = omega arith
  length-remove k ((j, xs) ∷ m) = ground (arith, length-remove k m)

  pub length-remove_lt :
      (k : E) (m : ByParent T E) (xs : List T) → get k m ≡ some xs → length (remove k m) < length m
  unfolding remove
  length-remove_lt k [] xs h = cc
  length-remove_lt k ((j, ys) ∷ m) xs h = ground (arith, length-remove_lt k m xs, length-remove k m)

  pub remove-Keyed : (k : E) (m : ByParent T E) → Keyed m → Keyed (remove k m)
  unfolding remove
  remove-Keyed k [] h = tt
  remove-Keyed k ((j, xs) ∷ m) h = ground (arith, remove-Keyed k m h.1, get-remove k j m)

  -- What a map keeps of another.
  abbrev pub Sub : ByParent T E → ByParent T E → Type 0
  Sub m out = (k : E) → (get k out ≡ none) ⊎ (get k out ≡ get k m)

  pub Sub-trans : (l m n : ByParent T E) → Sub l m → Sub m n → Sub l n
  Sub-trans l m n h g k = ground (arith, h k, g k)

  pub Sub-remove : (j : E) (m : ByParent T E) → Sub m (remove j m)
  Sub-remove j m k = ground (arith, get-remove j k m)

  pub Sub-none : (m n : ByParent T E) (k : E) → Sub m n → get k m ≡ none → get k n ≡ none
  Sub-none m n k h g = ground (arith, h k)

  -- Each list stands under the parent of its records.
  abbrev pub Proper : (T → E) → ByParent T E → Type 0
  Proper pid m = (k : E) → All (λ x. pid x ≡ k) (nodes_of k m)

  pub Proper-Sub : (pid : T → E) (m n : ByParent T E) → Sub m n → Proper pid m → Proper pid n
  Proper-Sub pid m n h p k = elim (h k) [ inl gone ↦ rw gone tt | inr same ↦ rw same (p k) ]

  pub removed : (k : E) (m : ByParent T E) → get k (remove k m) ≡ none
  removed k m = ground (arith, get-remove k k m, e.beq_iff k k)
