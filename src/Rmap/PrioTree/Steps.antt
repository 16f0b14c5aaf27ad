-- ===== src/Rmap/PrioTree/Steps.antt =====
-- One step of the walk of the priority search tree in rmap.c, in a tree in order: down to the left, down
-- to the right, and up.
use mathlib.Core.Bool.{false≢true}
use linux_project.Base.{
  ℕ, zero, suc, ◌≤◌, ◌<◌, ◌≡◌, refl, Bool, true, false, List, ◌∷◌, leb, ltb, arith,
}
use linux_project.Rmap.PrioTree.{
  Pst, leaf, node, PrioNode, Above, from_left, from_right, Cursor, down, stay, prio_tree_left_user,
  prio_tree_right_user,
}
use linux_project.Rmap.PrioTree.Level.{
  Level, keyed, overflow, next, right_value, iter_at, Fits, Open, AtEnd, enter_lem, right_value_lem,
}
use linux_project.Rmap.PrioTree.Order.{radix, heap, IsPst}

abbrev pub place : Pst → PrioNode → Pst → List Above → Cursor
place l n r above = record { left = l; this = n; right = r; above = above }

-- There is a level below each node that has a node below it.
module _ (raw : Bool) where
  pub left-Open :
      (lvl : Level) (v : ℕ) (ll : Pst) (m : PrioNode) (lr : Pst) (n : PrioNode) (r : Pst)
      → IsPst raw lvl v (node (node ll m lr) n r)
      → Open lvl
  left-Open (keyed k) v ll m lr n r h = tt
  left-Open (overflow zero) v ll m lr n r (here, ul, ur, last, hl, hr) = false≢true last.0
  left-Open (overflow (suc s)) v ll m lr n r h = tt

  pub right-Open :
      (lvl : Level) (v : ℕ) (l : Pst) (n : PrioNode) (rl : Pst) (m : PrioNode) (rr : Pst)
      → IsPst raw lvl v (node l n (node rl m rr))
      → Open lvl
  right-Open (keyed k) v l n rl m rr h = tt
  right-Open (overflow zero) v l n rl m rr (here, ul, ur, last, hl, hr) = false≢true last.1
  right-Open (overflow (suc s)) v l n rl m rr h = tt

module _ (raw : Bool) (from upto : ℕ) (lvl : Level) (v : ℕ) (fits : Fits lvl v) where
  IsPst-AtEnd :
      (w : ℕ) (l : Pst) (n : PrioNode) (r : Pst)
      → IsPst raw (next lvl) w (node l n r)
      → AtEnd (next lvl) l r
  IsPst-AtEnd w l n r (here, ul, ur, last, hl, hr) = last

  pub left_down :
      (ll : Pst) (m : PrioNode) (lr : Pst) (n : PrioNode) (r : Pst) (above : List Above)
      → IsPst raw lvl v (node (node ll m lr) n r)
      → from ≤ heap raw m
      → prio_tree_left_user raw (iter_at lvl v from upto) (place (node ll m lr) n r above)
        ≡ down
            (iter_at (next lvl) v from upto)
            (place ll m lr (from_left n r ∷ above))
            (radix raw m)
            (heap raw m)
  unfolding prio_tree_left_user
  left_down ll m lr n r above pst early =
      let (here, ul, ur, last, hl, hr) = pst in
      let yes : leb from (heap raw m) ≡ true = ground (arith, early) in
      rw (yes) (
        enter_lem lvl v v from upto (place ll m lr (from_left n r ∷ above)) _ _ fits
          (left-Open raw lvl v ll m lr n r pst) (IsPst-AtEnd v ll m lr hl))

  pub left_stay :
      (ll : Pst) (m : PrioNode) (lr : Pst) (n : PrioNode) (r : Pst) (above : List Above)
      → heap raw m < from
      → prio_tree_left_user raw (iter_at lvl v from upto) (place (node ll m lr) n r above) ≡ stay
  unfolding prio_tree_left_user
  left_stay ll m lr n r above early =
      let no : leb from (heap raw m) ≡ false = ground (arith, early) in rw (no) refl

  pub right_down :
      (l : Pst) (n : PrioNode) (rl : Pst) (m : PrioNode) (rr : Pst) (above : List Above)
      → IsPst raw lvl v (node l n (node rl m rr))
      → right_value lvl v ≤ upto
      → from ≤ heap raw m
      → prio_tree_right_user raw (iter_at lvl v from upto) (place l n (node rl m rr) above)
        ≡ down
            (iter_at (next lvl) (right_value lvl v) from upto)
            (place rl m rr (from_right l n ∷ above))
            (radix raw m)
            (heap raw m)
  unfolding prio_tree_right_user
  right_down l n rl m rr above pst late early =
      let (here, ul, ur, last, hl, hr) = pst in
      let yes : leb from (heap raw m) ≡ true = ground (arith, early) in
      let no : ltb upto (right_value lvl v) ≡ false = ground (arith, late) in
      rw (right_value_lem lvl v fits, no, yes)
        (enter_lem lvl v (right_value lvl v) from upto (place rl m rr (from_right l n ∷ above)) _ _
          fits (right-Open raw lvl v l n rl m rr pst) (IsPst-AtEnd (right_value lvl v) rl m rr hr))

  pub right_stay_late :
      (l : Pst) (n : PrioNode) (r : Pst) (above : List Above)
      → upto < right_value lvl v
      → prio_tree_right_user raw (iter_at lvl v from upto) (place l n r above) ≡ stay
  unfolding prio_tree_right_user
  right_stay_late l n leaf above late = refl
  right_stay_late l n (node rl m rr) above late =
      let yes : ltb upto (right_value lvl v) ≡ true = ground (arith, late) in
      rw (right_value_lem lvl v fits, yes) refl

  pub right_stay_early :
      (l : Pst) (n : PrioNode) (rl : Pst) (m : PrioNode) (rr : Pst) (above : List Above)
      → right_value lvl v ≤ upto
      → heap raw m < from
      → prio_tree_right_user raw (iter_at lvl v from upto) (place l n (node rl m rr) above) ≡ stay
  unfolding prio_tree_right_user
  right_stay_early l n rl m rr above late early =
      let no : ltb upto (right_value lvl v) ≡ false = ground (arith, late) in
      let none : leb from (heap raw m) ≡ false = ground (arith, early) in
      rw (right_value_lem lvl v fits, no, none) refl
