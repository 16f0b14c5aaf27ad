-- ===== src/Rmap/PrioTree/Zipper.antt =====
-- The walk of the priority search tree in rmap.c never leaves the tree: what it answers is a place in the
-- tree, and a mapping that overlaps the range.
use Prim.Native.Nat.{bit_or}
use linux_project.Base.{
  ap, ℕ, zero, suc, ◌+◌, ◌/◌, ◌≡◌, refl, Bool, true, false, ◌&&◌, List, [], ◌∷◌, ◌==◌, leb, ltb,
  if◌then◌else◌, Bool-cases, if_either, inl, inr, ◌<◌, ◌≤◌, ◌*◌, arith,
}
use linux_project.Rmap.PrioTree.{
  PrioNode, Pst, leaf, node, Above, from_left, from_right, Cursor, PrioTreeIter, get_index_user,
  is_empty, size, Step, down, stay, bug, enter, prio_tree_left_user, prio_tree_right_user,
  prio_tree_parent_user, overlap_user, Next, found, ended, bug_on, unfinished, Phase, going_left,
  going_right, climbing, next_loop, prio_tree_next_user,
}

-- The tree that a cursor stands in.
abbrev pub plug : Pst → List Above → Pst
plug t [] = t
plug t (from_left p r ∷ above) = plug (node t p r) above
plug t (from_right l p ∷ above) = plug (node l p t) above

abbrev pub whole : Cursor → Pst
whole c = plug (node c.left c.this c.right) c.above

-- What is still to come on the way up.
abbrev pub to_come : List Above → ℕ
to_come [] = 0
to_come (from_left p r ∷ above) = 4 * size r + to_come above + 2
to_come (from_right l p ∷ above) = to_come above + 2

-- It falls in every round of the loop.
abbrev pub potential : Phase → Cursor → ℕ
potential going_left c = 4 * (size c.left + size c.right) + to_come c.above + 2
potential going_right c = 4 * size c.right + to_come c.above + 1
potential climbing c = to_come c.above

size_plug : (t : Pst) (above : List Above) → 4 * size t + to_come above ≤ 4 * size (plug t above)
size_plug t [] = omega arith
size_plug t (from_left p r ∷ above) = omega (arith, size_plug (node t p r) above)
size_plug t (from_right l p ∷ above) = omega (arith, size_plug (node l p t) above)

module _ (raw : Bool) (tree : Pst) (from upto : ℕ) where
  -- The iterator looks for that range.
  abbrev pub Seeks : PrioTreeIter → Type 0
  Seeks it = (it.r_index ≡ from) × (it.h_index ≡ upto)

  -- A step down stays in the tree, and gives the indices of the node that it comes to.
  abbrev pub IsBelow : ℕ → Step → Type 0
  IsBelow w (down it c r h) =
      (whole c ≡ tree)
      × Seeks it
      × (get_index_user raw c.this ≡ (r, h))
      × (potential going_left c < w)
  IsBelow w stay = Unit
  IsBelow w bug = Unit

  enter-IsBelow :
      (w : ℕ) (it : PrioTreeIter) (c : Cursor)
      → whole c ≡ tree
      → Seeks it
      → potential going_left c < w
      → IsBelow w (enter it c (get_index_user raw c.this).0 (get_index_user raw c.this).1)
  unfolding enter
  enter-IsBelow w it c place seeks less =
      let fine : (whole c ≡ tree)
          × Seeks it
          × (get_index_user raw c.this
              ≡ ((get_index_user raw c.this).0, (get_index_user raw c.this).1))
          × (potential going_left c < w) =
        (place, seeks, refl, less) in
      if_either (IsBelow w) (it.mask / 2 == 0)
        (if_either (IsBelow w) (it.size_level == 0) fine
          (if_either (IsBelow w) (is_empty c.left && is_empty c.right) fine tt))
        (if_either (IsBelow w) (it.size_level == 0) fine fine)

  pub left-IsBelow :
      (it : PrioTreeIter) (l : Pst) (n : PrioNode) (r : Pst) (above : List Above)
      → whole (record { left = l; this = n; right = r; above = above }) ≡ tree
      → Seeks it
      → IsBelow
          (potential going_left (record { left = l; this = n; right = r; above = above }))
          (prio_tree_left_user raw it (record { left = l; this = n; right = r; above = above }))
  unfolding prio_tree_left_user
  left-IsBelow it leaf n r above place seeks = tt
  left-IsBelow it (node ll m lr) n r above place seeks =
      if_either
        (IsBelow (
          potential going_left
            (record { left = node ll m lr; this = n; right = r; above = above })))
        (leb it.r_index (get_index_user raw m).1)
        (enter-IsBelow _ it
          (record { left = ll; this = m; right = lr; above = from_left n r ∷ above }) place seeks
          (omega arith))
        tt

  pub right-IsBelow :
      (it : PrioTreeIter) (l : Pst) (n : PrioNode) (r : Pst) (above : List Above)
      → whole (record { left = l; this = n; right = r; above = above }) ≡ tree
      → Seeks it
      → IsBelow
          (potential going_right (record { left = l; this = n; right = r; above = above }))
          (prio_tree_right_user raw it (record { left = l; this = n; right = r; above = above }))
  unfolding prio_tree_right_user
  right-IsBelow it l n leaf above place seeks = tt
  right-IsBelow it l n (node rl m rr) above place seeks =
      let w : ℕ =
        potential going_right
          (record { left = l; this = n; right = node rl m rr; above = above }) in
      let value : ℕ = if it.size_level == 0 then bit_or it.value it.mask else it.value in
      if_either (IsBelow w) (ltb it.h_index value) tt (
        if_either (IsBelow w) (leb it.r_index (get_index_user raw m).1)
          (enter-IsBelow w (record it { value = value })
            (record { left = rl; this = m; right = rr; above = from_right l n ∷ above }) place seeks
            (omega arith))
          tt)

  -- What is found is a place in the tree, and its mapping overlaps the range.
  abbrev pub IsHit : Next → Type 0
  IsHit (found it c) =
      (whole c ≡ tree)
      × Seeks it
      × (let (r, h) = get_index_user raw c.this in (leb r upto && leb from h) ≡ true)
  IsHit ended = Unit
  IsHit bug_on = Unit
  IsHit unfinished = ⊥

  pub overlap-IsHit :
      (it : PrioTreeIter) (c : Cursor) (r h : ℕ) (other : Next)
      → (whole c ≡ tree) × Seeks it × (get_index_user raw c.this ≡ (r, h))
      → IsHit other
      → IsHit (elim (overlap_user it r h) [ true ↦ found it c | false ↦ other ])
  unfolding overlap_user
  overlap-IsHit it c r h other (place, (lo, hi), index) rest =
      elim (Bool-cases (leb r it.h_index && leb it.r_index h)) [
        | inl e ↦ rw e (place, (lo, hi), rw (index, ← lo, ← hi) e)
        | inr e ↦ rw e rest
      ]

  -- After a step down the walk goes on from there, and otherwise as `other` says.
  step-IsHit :
      (n w : ℕ) (other : Next)
      → w < suc n
      → ((it : PrioTreeIter) (c : Cursor)
          → whole c ≡ tree
          → Seeks it
          → potential going_left c < n
          → IsHit (next_loop n going_left raw it c))
      → IsHit other
      → (s : Step) → IsBelow w s
      → IsHit (elim s [
        | down it' c' r h ↦ elim (overlap_user it' r h) [
          | true ↦ found it' c'
          | false ↦ next_loop n going_left raw it' c'
        ]
        | bug ↦ bug_on
        | stay ↦ other
      ])
  step-IsHit n w other few ih rest (down it' c' r h) (place, seeks, index, less) =
      overlap-IsHit it' c' r h (next_loop n going_left raw it' c') (place, seeks, index)
        (ih it' c' place seeks (omega arith))
  step-IsHit n w other few ih rest stay b = rest
  step-IsHit n w other few ih rest bug b = tt

  climb-IsHit :
      (n : ℕ) (it : PrioTreeIter) (l : Pst) (m : PrioNode) (r : Pst) (above : List Above)
      → ((phase : Phase) (it : PrioTreeIter) (c : Cursor)
          → whole c ≡ tree
          → Seeks it
          → potential phase c < n
          → IsHit (next_loop n phase raw it c))
      → whole (record { left = l; this = m; right = r; above = above }) ≡ tree
      → Seeks it
      → to_come above < suc n
      → IsHit (
          next_loop
            (suc n)
            climbing
            raw
            it
            (record { left = l; this = m; right = r; above = above }))
  unfolding next_loop prio_tree_parent_user
  climb-IsHit n it l m r [] ih place seeks few = tt
  climb-IsHit n it l m r (from_left p pr ∷ above) ih place seeks few =
      ih going_right _ _ place seeks (omega arith)
  climb-IsHit n it l m r (from_right pl p ∷ above) ih place seeks few =
      ih climbing _ _ place seeks (omega arith)

  next_loop-IsHit :
      (n : ℕ) (phase : Phase) (it : PrioTreeIter) (c : Cursor)
      → whole c ≡ tree
      → Seeks it
      → potential phase c < n
      → IsHit (next_loop n phase raw it c)
  unfolding next_loop
  next_loop-IsHit zero phase it c place seeks few = absurd (omega arith)
  next_loop-IsHit (suc n) going_left it c place seeks few =
      step-IsHit n (potential going_left c) (next_loop n going_right raw it c) few
        (next_loop-IsHit n going_left)
        (next_loop-IsHit n going_right it c place seeks (omega arith))
        (prio_tree_left_user raw it c) (left-IsBelow it c.left c.this c.right c.above place seeks)
  next_loop-IsHit (suc n) going_right it c place seeks few =
      step-IsHit n (potential going_right c) (next_loop n climbing raw it c) few
        (next_loop-IsHit n going_left) (next_loop-IsHit n climbing it c place seeks (omega arith))
        (prio_tree_right_user raw it c) (right-IsBelow it c.left c.this c.right c.above place seeks)
  next_loop-IsHit (suc n) climbing it c place seeks few =
      climb-IsHit n it c.left c.this c.right c.above (next_loop-IsHit n) place seeks few

pub prio_tree_next_user_lem :
    (raw : Bool) (tree : Pst) (from upto : ℕ) (it : PrioTreeIter) (c : Cursor)
    → whole c ≡ tree
    → Seeks raw tree from upto it
    → IsHit raw tree from upto (prio_tree_next_user (4 * size tree + 1) raw it c)
unfolding prio_tree_next_user
prio_tree_next_user_lem raw tree from upto it c place seeks =
    let room = size_plug (node c.left c.this c.right) c.above in
    let same = ap size place in
    next_loop-IsHit raw tree from upto (4 * size tree + 1) going_left it c place seeks
      (omega (arith, room, same))
