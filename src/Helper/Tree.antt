-- ===== src/Helper/Tree.antt =====
-- crates/neon-helper/src/tree.rs: `new_tree` builds a forest from flat records by their parents'
-- ids. The recursion of `build_tree` is on fuel, one more than the number of parents.
pub mod Built
pub mod Grown
pub mod Grouped
pub mod Reachable
use neon_rs.Base.{
  ℕ, zero, suc, ◌+◌, ◌≡◌, refl, Bool, true, false, Option, none, some, List, [], ◌∷◌, ◌++◌, length,
  if◌then◌else◌,
}
use neon_rs.Base.Eq.{Eq, nat_eq}
use neon_rs.Base.Assoc.{get, insert, remove}

mutual
  pub data TreeNode (T : Type 0) : Type 0 where
    node : T → Forest T → TreeNode T

  -- `Vec<TreeNode<T>>`.
  pub data Forest (T : Type 0) : Type 0 where
    nil : Forest T
    cons : TreeNode T → Forest T → Forest T

module _ {A : Type 0} where
  abbrev pub or_empty : Option (List A) → List A
  or_empty none = []
  or_empty (some xs) = xs

abbrev pub ByParent : Type 0 → Type 0 → Type 0
ByParent T E = List (E × List T)

module _ {T E : Type 0} ⦃e : Eq E⦄ where
  abbrev pub nodes_of : E → ByParent T E → List T
  nodes_of k m = or_empty (get k m)

  -- `entry(pid).or_default().push(node)`.
  push : E → T → ByParent T E → ByParent T E
  push k x m = insert k (nodes_of k m ++ x ∷ []) m

  unfoldable pub group : (T → E) → List T → ByParent T E → ByParent T E
  unfolding push
  group pid [] m = m
  group pid (x ∷ xs) m = group pid xs (push (pid x) x m)

  abbrev then_rest :
      T → Forest T → Option (Forest T × ByParent T E) → Option (Forest T × ByParent T E)
  then_rest x kids none = none
  then_rest x kids (some (rest, m)) = some (cons (node x kids) rest, m)

  abbrev then_kids :
      T
      → Option (Forest T × ByParent T E)
      → (ByParent T E → Option (Forest T × ByParent T E))
      → Option (Forest T × ByParent T E)
  then_kids x none rest = none
  then_kids x (some (kids, m)) rest = then_rest x kids (rest m)

  -- The loop over the nodes of one parent, with the recursive call `build`.
  build_nodes :
      (T → E)
      → (ByParent T E → E → Option (Forest T × ByParent T E))
      → ByParent T E
      → List T
      → Option (Forest T × ByParent T E)
  build_nodes id build m [] = some (nil, m)
  build_nodes id build m (x ∷ xs) = then_kids x (build m (id x)) (λ m'. build_nodes id build m' xs)

  unfoldable pub build_tree : ℕ → (T → E) → ByParent T E → E → Option (Forest T × ByParent T E)
  unfolding build_nodes
  build_tree zero id m parent = none
  build_tree (suc fuel) id m parent =
      build_nodes id (build_tree fuel id) (remove parent m) (nodes_of parent m)

  abbrev forest_of : Option (Forest T × ByParent T E) → Option (Forest T)
  forest_of none = none
  forest_of (some (ts, m)) = some ts

  unfoldable pub new_tree : (T → E) → (T → E) → List T → E → Option (Forest T)
  unfolding group build_tree
  new_tree id pid records root =
      let by_parent = group pid records [] in
      forest_of (build_tree (suc (length by_parent)) id by_parent root)
