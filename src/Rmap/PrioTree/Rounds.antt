-- ===== src/Rmap/PrioTree/Rounds.antt =====
-- The loops of the walk in rmap.c answer the same in every number of rounds in which they come to an end.
use linux_project.Base.{Bool, true, false, ℕ, zero, suc, List, ◌≡◌, refl, [], ◌∷◌}
use linux_project.Rmap.PrioTree.{
  PrioNode, Pst, Above, from_left, from_right, Cursor, PrioTreeIter, Step, down, stay, bug, Next,
  found, ended, bug_on, unfinished, Phase, going_left, going_right, climbing, next_loop, first_loop,
  overlap_user, prio_tree_left_user, prio_tree_right_user,
}

abbrev pub IsDone : Next → Type 0
IsDone (found it c) = Unit
IsDone ended = Unit
IsDone bug_on = Unit
IsDone unfinished = ⊥

-- Two answers that are the same, if both are one.
abbrev Agree : Next → Next → Type 0
Agree a b = IsDone a → IsDone b → a ≡ b

module _ (raw : Bool) where
  test-Agree :
      (b : Bool) (it : PrioTreeIter) (c : Cursor) (x y : Next)
      → Agree x y
      → Agree (elim b [ true ↦ found it c | false ↦ x ]) (elim b [ true ↦ found it c | false ↦ y ])
  test-Agree true it c x y same p q = refl
  test-Agree false it c x y same p q = same p q

  step-Agree :
      (x y : PrioTreeIter → Cursor → (r h : ℕ) → Next) (x' y' : Next)
      → ((it : PrioTreeIter) (c : Cursor) (r h : ℕ) → Agree (x it c r h) (y it c r h))
      → Agree x' y'
      → (s : Step)
      → Agree
          (elim s [ down it c r h ↦ x it c r h | bug ↦ bug_on | stay ↦ x' ])
          (elim s [ down it c r h ↦ y it c r h | bug ↦ bug_on | stay ↦ y' ])
  step-Agree x y x' y' there other (down it c r h) p q = there it c r h p q
  step-Agree x y x' y' there other bug p q = refl
  step-Agree x y x' y' there other stay p q = other p q

  pub first_loop-Agree :
      (n m : ℕ) (it : PrioTreeIter) (c : Cursor) (r h : ℕ)
      → Agree (first_loop n raw it c r h) (first_loop m raw it c r h)
  unfolding first_loop
  first_loop-Agree zero m it c r h = λ p q. absurd p
  first_loop-Agree (suc n) zero it c r h = λ p q. absurd q
  first_loop-Agree (suc n) (suc m) it c r h = test-Agree (overlap_user it r h) it c _ _ (
      step-Agree (first_loop n raw) (first_loop m raw) _ _ (first_loop-Agree n m)
        (step-Agree (first_loop n raw) (first_loop m raw) _ _ (first_loop-Agree n m) (λ p q. refl)
          (prio_tree_right_user raw it c))
        (prio_tree_left_user raw it c))

  abbrev arrive : ℕ → PrioTreeIter → Cursor → (r h : ℕ) → Next
  arrive n it c r h = elim (overlap_user it r h) [
    | true ↦ found it c
    | false ↦ next_loop n going_left raw it c
  ]

  climb-Agree :
      (n m : ℕ)
      → ((phase : Phase) (it : PrioTreeIter) (c : Cursor)
          → Agree (next_loop n phase raw it c) (next_loop m phase raw it c))
      → (it : PrioTreeIter) (l : Pst) (x : PrioNode) (r : Pst) (above : List Above)
      → let c : Cursor = record { left = l; this = x; right = r; above = above } in
        Agree (next_loop (suc n) climbing raw it c) (next_loop (suc m) climbing raw it c)
  unfolding next_loop
  climb-Agree n m ih it l x r [] = λ p q. refl
  climb-Agree n m ih it l x r (from_left a b ∷ above) = ih going_right _ _
  climb-Agree n m ih it l x r (from_right a b ∷ above) = ih climbing _ _

  pub next_loop-Agree :
      (n m : ℕ) (phase : Phase) (it : PrioTreeIter) (c : Cursor)
      → Agree (next_loop n phase raw it c) (next_loop m phase raw it c)
  unfolding next_loop
  next_loop-Agree zero m phase it c = λ p q. absurd p
  next_loop-Agree (suc n) zero phase it c = λ p q. absurd q
  next_loop-Agree (suc n) (suc m) going_left it c =
      step-Agree (arrive n) (arrive m) _ _
        (λ it' c' r h.
          test-Agree (overlap_user it' r h) it' c' _ _ (next_loop-Agree n m going_left it' c'))
        (next_loop-Agree n m going_right it c) (prio_tree_left_user raw it c)
  next_loop-Agree (suc n) (suc m) going_right it c =
      step-Agree (arrive n) (arrive m) _ _
        (λ it' c' r h.
          test-Agree (overlap_user it' r h) it' c' _ _ (next_loop-Agree n m going_left it' c'))
        (next_loop-Agree n m climbing it c) (prio_tree_right_user raw it c)
  next_loop-Agree (suc n) (suc m) climbing it c =
      climb-Agree n m (next_loop-Agree n m) it c.left c.this c.right c.above
