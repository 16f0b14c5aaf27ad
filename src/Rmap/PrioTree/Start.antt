-- ===== src/Rmap/PrioTree/Start.antt =====
-- What `prio_tree_first_user` in rmap.c answers in a tree in order, and what the calls after it answer.
use linux_project.Base.{
  ℕ, suc, ◌≤◌, ◌≡◌, refl, sym, Bool, true, Bool-cases, inl, inr, List, [], ◌∷◌, ◌++◌, append-nil,
  le-or-lt, arith, subst,
}
use linux_project.Rmap.PrioTree.{
  Pst, leaf, node, PrioNode, Above, from_left, from_right, Cursor, PrioTreeIter, Next, found, ended,
  bug_on, going_left, going_right, climbing, next_loop, first_loop, overlap_user, Step, down, stay,
  bug, prio_tree_left_user, prio_tree_right_user,
}
use linux_project.Rmap.PrioTree.Level.{
  Level, next, right_value, Fits, Fits-next, parent_left, parent_right,
}
use linux_project.Rmap.PrioTree.Order.{
  radix, heap, IsPst, overlaps, hits, hits-here, overlapping-append, nodes, hits-early, hits-late,
  InRange-left,
}
use linux_project.Rmap.PrioTree.Steps.{
  place, left-Open, right-Open, left_down, left_stay, right_down, right_stay_late, right_stay_early,
}
use linux_project.Rmap.PrioTree.Sees.{at, Sees, Sees-silent, Sees-tree}

module _ (raw : Bool) (from upto : ℕ) where
  abbrev it : Level → ℕ → PrioTreeIter
  it = at raw from upto

  -- The answer is the first of these nodes, and the calls after it find the others.
  abbrev pub Answers : Next → List PrioNode → Type 0
  Answers a [] = a ≡ ended
  Answers a (x ∷ xs) =
      (it' : PrioTreeIter) × (c' : Cursor) × (a ≡ found it' c')
      × (c'.this ≡ x)
      × Sees raw from upto going_left it' c' xs

  -- The loop that begins at a node.
  abbrev pub FromHere : Pst → Type 0
  FromHere leaf = Unit
  FromHere (node l n r) =
      (lvl : Level) (v : ℕ) (above : List Above)
      → Fits lvl v
      → IsPst raw lvl v (node l n r)
      → from ≤ heap raw n
      → Sees raw from upto climbing (it lvl v) (place l n r above) []
      → (k : ℕ) × Answers
          (first_loop k raw (it lvl v) (place l n r above) (radix raw n) (heap raw n))
          (hits raw from upto (node l n r))

  abbrev then : ℕ → Step → Next → Next
  then k s other = elim s [
    | down it' c' r h ↦ first_loop k raw it' c' r h
    | bug ↦ bug_on
    | stay ↦ other
  ]

  on_right :
      (r : Pst)
      → FromHere r
      → (lvl : Level) (v : ℕ) (l : Pst) (n : PrioNode) (above : List Above) → Fits lvl v
      → IsPst raw lvl v (node l n r)
      → Sees raw from upto climbing (it lvl v) (place l n r above) []
      → (k : ℕ) × Answers
          (then k (prio_tree_right_user raw (it lvl v) (place l n r above)) ended)
          (hits raw from upto r)
  unfolding prio_tree_right_user next_loop
  on_right leaf ih lvl v l n above fits pst k = (0, refl)
  on_right (node rl m rr) ih lvl v l n above fits pst k =
      let (here, ul, ur, last, hl, hr) = pst in
      let w : ℕ = right_value lvl v in
      let c : Cursor = place l n (node rl m rr) above in
      let in_right : List Above = from_right l n ∷ above in
      elim (le-or-lt w upto) [
        | inr late ↦
            let step = right_stay_late raw from upto lvl v fits l n (node rl m rr) above late in
            let none_there = hits-late raw from upto (next lvl) w (node rl m rr) hr late in
            (0, rw (none_there, step) refl)
        | inl late ↦ elim (le-or-lt from (heap raw m)) [
          | inr e ↦
              let step = right_stay_early raw from upto lvl v fits l n rl m rr above late e in
              let none_there = hits-early raw from upto (next lvl) w rl m rr hr e in
              (0, rw (none_there, step) refl)
          | inl e ↦
              let step = right_down raw from upto lvl v fits l n rl m rr above pst late e in
              let up = parent_right lvl v from upto fits (right-Open raw lvl v l n rl m rr pst) in
              let (j, a) = ih (next lvl) w in_right (Fits-next lvl v fits).1 hr e (
                Sees-silent raw from upto climbing climbing (it (next lvl) w) (it lvl v)
                  (place rl m rr in_right) c [] (λ i. rw (next_loop, up) refl) k) in
              (j, rw (step) a)
        ]
      ]

  -- What is on the right, for a walk that comes back to the node from the left.
  later_on_right :
      (lvl : Level) (v : ℕ) (l : Pst) (n : PrioNode) (r : Pst) (above : List Above)
      → Fits lvl v
      → IsPst raw lvl v (node l n r)
      → Sees raw from upto climbing (it lvl v) (place l n r above) []
      → Sees raw from upto going_right (it lvl v) (place l n r above) (hits raw from upto r)
  later_on_right lvl v l n r above fits pst k =
      subst (Sees raw from upto going_right (it lvl v) (place l n r above))
        (append-nil (hits raw from upto r))
        ((Sees-tree raw from upto r).1 lvl v l n above [] fits pst k)

  -- A node that overlaps is the answer.
  first_found :
      (lvl : Level) (v : ℕ) (l : Pst) (n : PrioNode) (r : Pst) (above : List Above)
      (more : List PrioNode)
      → overlaps raw from upto n ≡ true
      → Fits lvl v
      → IsPst raw lvl v (node l n r)
      → Sees raw from upto climbing (it lvl v) (place l n r above) more
      → (k : ℕ) × Answers
          (first_loop k raw (it lvl v) (place l n r above) (radix raw n) (heap raw n))
          (hits raw from upto (node l n r) ++ more)
  unfolding first_loop overlap_user
  first_found lvl v l n r above more e fits pst k =
      let below =
        (Sees-tree raw from upto l).0 lvl v n r above _ fits pst
          ((Sees-tree raw from upto r).1 lvl v l n above more fits pst k) in
      let there : first_loop 1 raw (it lvl v) (place l n r above) (radix raw n) (heap raw n)
          ≡ found (it lvl v) (place l n r above) =
        rw (first_loop, e) refl in
      (
        1,
        subst (Answers _) (sym (hits-here raw from upto l n r more e))
            (it lvl v, place l n r above, there, refl, below),
      )

  on_left :
      (l r : Pst)
      → FromHere l
      → FromHere r
      → (lvl : Level) (v : ℕ) (n : PrioNode) (above : List Above) → Fits lvl v
      → IsPst raw lvl v (node l n r)
      → Sees raw from upto climbing (it lvl v) (place l n r above) []
      → (k : ℕ) × Answers
          (then k
            (prio_tree_left_user raw (it lvl v) (place l n r above))
            (then k (prio_tree_right_user raw (it lvl v) (place l n r above)) ended))
          (hits raw from upto l ++ hits raw from upto r)
  unfolding prio_tree_left_user next_loop first_loop overlap_user
  on_left leaf r ihl ihr lvl v n above fits pst k = on_right r ihr lvl v leaf n above fits pst k
  on_left (node ll m lr) r ihl ihr lvl v n above fits pst k =
      let (here, ul, ur, last, hl, hr) = pst in
      let c : Cursor = place (node ll m lr) n r above in
      let in_left : List Above = from_left n r ∷ above in
      let below = (Fits-next lvl v fits).0 in
      let up = parent_left lvl v from upto fits (left-Open raw lvl v ll m lr n r pst) in
      let climb = λ (more : List PrioNode).
        Sees-silent raw from upto climbing going_right (it (next lvl) v) (it lvl v)
          (place ll m lr in_left) c more (λ i. rw (next_loop, up) refl) in
      elim (le-or-lt from (heap raw m)) [
        | inr e ↦
            let step = left_stay raw from upto lvl v fits ll m lr n r above e in
            let none_there = hits-early raw from upto (next lvl) v ll m lr hl e in
            let (j, a) = on_right r ihr lvl v (node ll m lr) n above fits pst k in
            (j, rw (none_there, step) a)
        | inl e ↦
            let step = left_down raw from upto lvl v fits ll m lr n r above pst e in
            elim (le-or-lt (right_value lvl v) upto) [
              | inr late ↦
                  let none_there =
                    hits-late raw from upto (next lvl) (right_value lvl v) r hr late in
                  let k' =
                    subst (Sees raw from upto going_right (it lvl v) c) none_there
                      (later_on_right lvl v (node ll m lr) n r above fits pst k) in
                  let (j, a) = ihl (next lvl) v in_left below hl e (climb [] k') in
                  (j, rw (none_there, append-nil (hits raw from upto (node ll m lr)), step) a)
              | inl late ↦
                  let reached = InRange-left raw lvl v m hl.0 in
                  let hit : overlaps raw from upto m ≡ true = ground (arith, reached, late, e) in
                  let k' = later_on_right lvl v (node ll m lr) n r above fits pst k in
                  let (j, a) =
                    first_found (next lvl) v ll m lr in_left (hits raw from upto r) hit below hl
                      (climb (hits raw from upto r) k') in
                  (j, rw (step) a)
            ]
      ]

  pub first_tree : (t : Pst) → FromHere t
  unfolding first_loop overlap_user
  first_tree leaf = tt
  first_tree (node l n r) = λ lvl v above fits pst early k.
      elim (Bool-cases (overlaps raw from upto n)) [
        | inl e ↦
            let none = append-nil (hits raw from upto (node l n r)) in
            let (j, a) = first_found lvl v l n r above [] e fits pst k in
            (j, subst (Answers _) none a)
        | inr e ↦
            let (j, a) = on_left l r (first_tree l) (first_tree r) lvl v n above fits pst k in
            let both = overlapping-append raw from upto (nodes l) (nodes r) in
            (suc j, rw (first_loop, e, both) a)
      ]
