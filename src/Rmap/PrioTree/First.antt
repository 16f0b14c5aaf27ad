-- ===== src/Rmap/PrioTree/First.antt =====
-- The first node that the walk of the priority search tree in rmap.c answers.
use linux_project.Base.{Bool, ℕ, zero, suc, ◌+◌, ◌*◌, ◌<◌, ◌≡◌, refl, [], if_either, ltb, arith}
use linux_project.Rmap.PrioTree.{
  prio_tree_next_user, Pst, leaf, node, PrioTreeRoot, Cursor, PrioTreeIter, get_index_user, size,
  Step, down, stay, bug, prio_tree_left_user, prio_tree_right_user, Next, ended, bug_on, first_loop,
  prio_tree_first_user, going_left,
}
use linux_project.Rmap.PrioTree.Zipper.{
  whole, potential, Seeks, IsBelow, IsHit, prio_tree_next_user_lem, left-IsBelow, right-IsBelow,
  overlap-IsHit,
}

module _ (raw : Bool) (tree : Pst) (from upto : ℕ) where
  -- After a step down the loop goes on from there, and otherwise as `other` says.
  step-IsHit :
      (n w : ℕ) (other : Next)
      → w < suc n
      → ((it : PrioTreeIter) (c : Cursor) (r h : ℕ)
          → whole c ≡ tree
          → Seeks raw tree from upto it
          → get_index_user raw c.this ≡ (r, h)
          → potential going_left c < n
          → IsHit raw tree from upto (first_loop n raw it c r h))
      → IsHit raw tree from upto other
      → (s : Step) → IsBelow raw tree from upto w s
      → IsHit raw tree from upto (elim s [
        | down it' c' r' h' ↦ first_loop n raw it' c' r' h'
        | bug ↦ bug_on
        | stay ↦ other
      ])
  step-IsHit n w other few ih rest (down it c r h) (place, seeks, index, less) =
      ih it c r h place seeks index (omega arith)
  step-IsHit n w other few ih rest stay b = rest
  step-IsHit n w other few ih rest bug b = tt

  first_loop-IsHit :
      (n : ℕ) (it : PrioTreeIter) (c : Cursor) (r h : ℕ)
      → whole c ≡ tree
      → Seeks raw tree from upto it
      → get_index_user raw c.this ≡ (r, h)
      → potential going_left c < n
      → IsHit raw tree from upto (first_loop n raw it c r h)
  unfolding first_loop
  first_loop-IsHit zero it c r h place seeks index few = absurd (omega arith)
  first_loop-IsHit (suc n) it c r h place seeks index few =
      let on_right =
        step-IsHit n _ ended (omega arith) (first_loop-IsHit n) tt (prio_tree_right_user raw it c)
          (right-IsBelow raw tree from upto it c.left c.this c.right c.above place seeks) in
      overlap-IsHit raw tree from upto it c r h _ (place, seeks, index)
        (step-IsHit n _ _ few (first_loop-IsHit n) on_right (prio_tree_left_user raw it c)
          (left-IsBelow raw tree from upto it c.left c.this c.right c.above place seeks))

pub prio_tree_first_user_lem :
    (raw : Bool) (index_bits : ℕ) (tree : Pst) (from upto : ℕ)
    → let root : PrioTreeRoot = record { raw = raw; index_bits = index_bits; tree = tree } in
      IsHit raw tree from upto (prio_tree_first_user (4 * size tree + 1) root from upto)
unfolding prio_tree_first_user
prio_tree_first_user_lem raw index_bits leaf from upto = tt
prio_tree_first_user_lem raw index_bits (node l n r) from upto =
    if_either (IsHit raw (node l n r) from upto) (ltb (get_index_user raw n).1 from) tt (
      first_loop-IsHit raw (node l n r) from upto (4 * size (node l n r) + 1) _
        (record { left = l; this = n; right = r; above = [] }) _ _ refl (refl, refl) refl
        (omega arith))

-- The search for the first node, and from any place of the tree the search for the next one, end within
-- four rounds for each node of the tree and one more. Where they answer a node, the cursor stands in the
-- same tree, the iterator looks for the same range, and the node overlaps it.
pub prio_tree_walk :
    (root : PrioTreeRoot) (from upto : ℕ)
    → IsHit root.raw root.tree from upto
        (prio_tree_first_user (4 * size root.tree + 1) root from upto)
      × ((it : PrioTreeIter) (c : Cursor)
          → whole c ≡ root.tree
          → Seeks root.raw root.tree from upto it
          → IsHit root.raw root.tree from upto
              (prio_tree_next_user (4 * size root.tree + 1) root.raw it c))
prio_tree_walk root from upto = (
  prio_tree_first_user_lem root.raw root.index_bits root.tree from upto,
  prio_tree_next_user_lem root.raw root.tree from upto,
)
