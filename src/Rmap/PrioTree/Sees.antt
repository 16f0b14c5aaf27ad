-- ===== src/Rmap/PrioTree/Sees.antt =====
-- What `prio_tree_next_user` in rmap.c answers, call after call, below one node of a tree in order.
use linux_project.Base.{
  ℕ, suc, ◌≡◌, refl, sym, ◌∙◌, Bool, true, false, Bool-cases, inl, inr, List, [], ◌∷◌, ◌++◌,
  le-or-lt, subst,
}
use linux_project.Rmap.PrioTree.{
  Pst, leaf, node, PrioNode, Above, from_left, from_right, Cursor, PrioTreeIter, found, ended,
  Phase, going_left, going_right, climbing, next_loop, overlap_user, prio_tree_left_user,
  prio_tree_right_user,
}
use linux_project.Rmap.PrioTree.Level.{
  Level, next, right_value, iter_at, Fits, Fits-next, parent_left, parent_right,
}
use linux_project.Rmap.PrioTree.Order.{
  heap, IsPst, overlaps, hits, hits-here, hits-below, hits-early, hits-late,
}
use linux_project.Rmap.PrioTree.Steps.{
  place, left-Open, right-Open, left_down, left_stay, right_down, right_stay_late, right_stay_early,
}

module _ (raw : Bool) (from upto : ℕ) where
  abbrev pub at : Level → ℕ → PrioTreeIter
  at lvl v = iter_at lvl v from upto

  -- The calls find these nodes, in this order, and no other, each in a number of rounds.
  abbrev pub Sees : Phase → PrioTreeIter → Cursor → List PrioNode → Type 0
  Sees phase it c [] = (n : ℕ) × (next_loop n phase raw it c ≡ ended)
  Sees phase it c (x ∷ xs) =
      (n : ℕ) × (it' : PrioTreeIter) × (c' : Cursor) × (next_loop n phase raw it c ≡ found it' c')
      × (c'.this ≡ x)
      × Sees going_left it' c' xs

  -- A round that goes on.
  pub Sees-silent :
      (phase phase' : Phase) (it it' : PrioTreeIter) (c c' : Cursor) (xs : List PrioNode)
      → ((n : ℕ) → next_loop (suc n) phase raw it c ≡ next_loop n phase' raw it' c')
      → Sees phase' it' c' xs
      → Sees phase it c xs
  Sees-silent phase phase' it it' c c' [] go (n, e) = (suc n, go n ∙ e)
  Sees-silent phase phase' it it' c c' (x ∷ xs) go (n, it2, c2, e, same, rest) =
      (suc n, it2, c2, go n ∙ e, same, rest)

  -- A round that goes down to a node.
  Sees-down :
      (phase : Phase) (it : PrioTreeIter) (c : Cursor) (lvl : Level) (v : ℕ) (l : Pst)
      (m : PrioNode) (r : Pst) (above : List Above) (more : List PrioNode)
      → ((n : ℕ)
          → next_loop (suc n) phase raw it c ≡ elim (overlaps raw from upto m) [
            | true ↦ found (at lvl v) (place l m r above)
            | false ↦ next_loop n going_left raw (at lvl v) (place l m r above)
          ])
      → Sees going_left
          (at lvl v)
          (place l m r above)
          (hits raw from upto l ++ (hits raw from upto r ++ more))
      → Sees phase it c (hits raw from upto (node l m r) ++ more)
  Sees-down phase it c lvl v l m r above more go k = elim (Bool-cases (overlaps raw from upto m)) [
    | inl e ↦
        subst (Sees phase it c) (sym (hits-here raw from upto l m r more e))
          (1, at lvl v, place l m r above, go 0 ∙ rw (e) refl, refl, k)
    | inr e ↦ subst (Sees phase it c) (sym (hits-below raw from upto l m r more e)) (
        Sees-silent phase going_left it (at lvl v) c (place l m r above) _ (λ n. go n ∙ rw (e) refl)
          k)
  ]

  -- A node on the left, and what is below it.
  abbrev pub InLeft : Pst → Type 0
  InLeft t =
      (lvl : Level) (v : ℕ) (n : PrioNode) (r : Pst) (above : List Above) (more : List PrioNode)
      → Fits lvl v
      → IsPst raw lvl v (node t n r)
      → Sees going_right (at lvl v) (place t n r above) more
      → Sees going_left (at lvl v) (place t n r above) (hits raw from upto t ++ more)

  abbrev pub InRight : Pst → Type 0
  InRight t =
      (lvl : Level) (v : ℕ) (l : Pst) (n : PrioNode) (above : List Above) (more : List PrioNode)
      → Fits lvl v
      → IsPst raw lvl v (node l n t)
      → Sees climbing (at lvl v) (place l n t above) more
      → Sees going_right (at lvl v) (place l n t above) (hits raw from upto t ++ more)

  left-InLeft :
      (ll : Pst) (m : PrioNode) (lr : Pst) → InLeft ll → InRight lr → InLeft (node ll m lr)
  unfolding next_loop overlap_user
  left-InLeft ll m lr on_left on_right lvl v n r above more fits pst k =
      let (here, ul, ur, last, hl, hr) = pst in
      let below = Fits-next lvl v fits in
      let up = parent_left lvl v from upto fits (left-Open raw lvl v ll m lr n r pst) in
      let c : Cursor = place (node ll m lr) n r above in
      let in_left : List Above = from_left n r ∷ above in
      elim (le-or-lt from (heap raw m)) [
        | inl e ↦
            let step = left_down raw from upto lvl v fits ll m lr n r above pst e in
            Sees-down going_left (at lvl v) c (next lvl) v ll m lr in_left more
              (λ n. rw (next_loop, step) refl)
              (on_left (next lvl) v m lr in_left _ below.0 hl (
                on_right (next lvl) v ll m in_left more below.0 hl (
                  Sees-silent climbing going_right (at (next lvl) v) (at lvl v)
                    (place ll m lr in_left) c more (λ n. rw (up) refl) k)))
        | inr e ↦
            let step = left_stay raw from upto lvl v fits ll m lr n r above e in
            let none_there = hits-early raw from upto (next lvl) v ll m lr hl e in
            rw (none_there) (
              Sees-silent going_left going_right (at lvl v) (at lvl v) c c more
                (λ n. rw (next_loop, step) refl) k)
      ]

  right-InRight :
      (rl : Pst) (m : PrioNode) (rr : Pst) → InLeft rl → InRight rr → InRight (node rl m rr)
  unfolding next_loop overlap_user
  right-InRight rl m rr on_left on_right lvl v l n above more fits pst k =
      let (here, ul, ur, last, hl, hr) = pst in
      let below = Fits-next lvl v fits in
      let w : ℕ = right_value lvl v in
      let up = parent_right lvl v from upto fits (right-Open raw lvl v l n rl m rr pst) in
      let c : Cursor = place l n (node rl m rr) above in
      let in_right : List Above = from_right l n ∷ above in
      let skip = Sees-silent going_right climbing (at lvl v) (at lvl v) c c more in
      elim (le-or-lt w upto) [
        | inr late ↦
            let step = right_stay_late raw from upto lvl v fits l n (node rl m rr) above late in
            let none_there = hits-late raw from upto (next lvl) w (node rl m rr) hr late in
            rw (none_there) (skip (λ n. rw (next_loop, step) refl) k)
        | inl late ↦ elim (le-or-lt from (heap raw m)) [
          | inr e ↦
              let step = right_stay_early raw from upto lvl v fits l n rl m rr above late e in
              let none_there = hits-early raw from upto (next lvl) w rl m rr hr e in
              rw (none_there) (skip (λ n. rw (next_loop, step) refl) k)
          | inl e ↦
              let step = right_down raw from upto lvl v fits l n rl m rr above pst late e in
              Sees-down going_right (at lvl v) c (next lvl) w rl m rr in_right more
                (λ n. rw (next_loop, step) refl)
                (on_left (next lvl) w m rr in_right _ below.1 hr (
                  on_right (next lvl) w rl m in_right more below.1 hr (
                    Sees-silent climbing climbing (at (next lvl) w) (at lvl v)
                      (place rl m rr in_right) c more (λ n. rw (up) refl) k)))
        ]
      ]

  pub Sees-tree : (t : Pst) → InLeft t × InRight t
  unfolding next_loop prio_tree_left_user prio_tree_right_user
  Sees-tree leaf = (
    λ lvl v n r above more fits pst k.
        let c : Cursor = place leaf n r above in
        Sees-silent going_left going_right (at lvl v) (at lvl v) c c more (λ n. refl) k,
    λ lvl v l n above more fits pst k.
        let c : Cursor = place l n leaf above in
        Sees-silent going_right climbing (at lvl v) (at lvl v) c c more (λ n. refl) k,
  )
  Sees-tree (node l m r) = (
    left-InLeft l m r (Sees-tree l).0 (Sees-tree r).1,
    right-InRight l m r (Sees-tree l).0 (Sees-tree r).1,
  )
