-- ===== src/Rmap/PrioTree/Foreach.antt =====
-- The loop `vma_prio_tree_foreach_user` of rmap.c as a whole.
use linux_project.Base.{
  ℕ, zero, suc, ◌+◌, ◌*◌, ◌-◌, ◌≤◌, ◌≡◌, refl, ap, sym, ◌∙◌, Bool, true, false, Bool-cases, inl,
  inr, Option, none, some, List, [], ◌∷◌, ◌++◌, le-or-lt, ltb, arith, subst, if◌then◌else◌,
}
use linux_project.Rmap.PrioTree.{
  Vma, Pst, leaf, node, PrioNode, PrioTreeRoot, Cursor, PrioTreeIter, Next, found, ended, bug_on,
  unfinished, size, going_left, next_loop, prio_tree_first_user, prio_tree_next_user,
}
use linux_project.Rmap.PrioTree.Vmas.{
  Place, NextVma, next_vma, no_vma, broken, at_node, vma_prio_tree_next_user,
  vma_prio_tree_foreach_user,
}
use linux_project.Rmap.PrioTree.Zipper.{whole, Seeks, IsHit, prio_tree_next_user_lem}
use linux_project.Rmap.PrioTree.First.{prio_tree_first_user_lem}
use linux_project.Rmap.PrioTree.Level.{keyed, root-Fits}
use linux_project.Rmap.PrioTree.Order.{heap, IsPst, nodes, overlaps, overlapping, hits, hits-early}
use linux_project.Rmap.PrioTree.Steps.{place}
use linux_project.Rmap.PrioTree.Sees.{Sees}
use linux_project.Rmap.PrioTree.Start.{Answers, first_tree}
use linux_project.Rmap.PrioTree.Rounds.{IsDone, next_loop-Agree, first_loop-Agree}
use linux_project.Rmap.{rounds, all_vmas}

-- The mappings at these nodes, and in the lists behind them.
abbrev pub vmas_of : List PrioNode → List Vma
vmas_of [] = []
vmas_of (n ∷ ns) = n.vma ∷ (n.vm_set ++ vmas_of ns)

-- How many there are.
abbrev weight : List PrioNode → ℕ
weight [] = 0
weight (n ∷ ns) = rounds n.vm_set + weight ns

weight-append : (xs ys : List PrioNode) → weight (xs ++ ys) ≡ weight xs + weight ys
weight-append [] ys = omega arith
weight-append (x ∷ xs) ys = omega (arith, weight-append xs ys)

weight-nodes : (t : Pst) → weight (nodes t) ≡ all_vmas t
weight-nodes leaf = refl
weight-nodes (node l n r) =
    omega (arith, weight-append (nodes l) (nodes r), weight-nodes l, weight-nodes r)

weight-overlapping :
    (raw : Bool) (from upto : ℕ) (ns : List PrioNode)
    → weight (overlapping raw from upto ns) ≤ weight ns
weight-overlapping raw from upto [] = omega arith
weight-overlapping raw from upto (n ∷ ns) =
    let rest = weight-overlapping raw from upto ns in
    elim (Bool-cases (overlaps raw from upto n)) [
      | inl e ↦ rw (e) (omega (arith, rest))
      | inr e ↦ rw (e) (omega (arith, rest))
    ]

IsHit-IsDone :
    (raw : Bool) (tree : Pst) (from upto : ℕ) (a : Next) → IsHit raw tree from upto a → IsDone a
IsHit-IsDone raw tree from upto (found it c) h = tt
IsHit-IsDone raw tree from upto ended h = tt
IsHit-IsDone raw tree from upto bug_on h = tt
IsHit-IsDone raw tree from upto unfinished h = h

module _ (root : PrioTreeRoot) (from upto : ℕ) where
  abbrev fuel : ℕ
  fuel = 4 * size root.tree + 1

  abbrev each : ℕ → Option Place → Option (List Vma)
  each n p = vma_prio_tree_foreach_user n fuel root from upto p

  -- What a call answers from a cursor in the tree, whatever number of rounds it takes.
  next_answers :
      (it : PrioTreeIter) (c : Cursor) (xs : List PrioNode)
      → whole c ≡ root.tree
      → Seeks root.raw root.tree from upto it
      → Sees root.raw from upto going_left it c xs
      → Answers root.raw from upto (prio_tree_next_user fuel root.raw it c) xs
  unfolding prio_tree_next_user
  next_answers it c [] place seeks (n, e) =
      let hit = prio_tree_next_user_lem root.raw root.tree from upto it c place seeks in
      let same =
        next_loop-Agree root.raw n fuel going_left it c (subst IsDone (sym e) tt)
          (IsHit-IsDone root.raw root.tree from upto _ hit) in
      sym same ∙ e
  next_answers it c (x ∷ xs) place seeks (n, it', c', e, here, rest) =
      let hit = prio_tree_next_user_lem root.raw root.tree from upto it c place seeks in
      let same =
        next_loop-Agree root.raw n fuel going_left it c (subst IsDone (sym e) tt)
          (IsHit-IsDone root.raw root.tree from upto _ hit) in
      (it', c', sym same ∙ e, here, rest)

  abbrev go_on : ℕ → NextVma → Option (List Vma)
  go_on n a = elim a [
    | no_vma ↦ some []
    | broken ↦ none
    | next_vma v p' ↦ elim (each n (some p')) [ none ↦ none | some vs ↦ some (v ∷ vs) ]
  ]

  -- From a place on, `n` rounds are enough for what is still to come.
  abbrev Enough : ℕ → Type 0
  Enough n =
      (it : PrioTreeIter) (c : Cursor) (pending : List Vma) (xs : List PrioNode)
      → whole c ≡ root.tree
      → Seeks root.raw root.tree from upto it
      → Sees root.raw from upto going_left it c xs
      → rounds pending + weight xs ≤ n
      → each n (some (record { iter = it; cur = c; pending = pending }))
        ≡ some (pending ++ vmas_of xs)

  go_on_lem :
      (n : ℕ) (a : Next) (xs : List PrioNode)
      → Enough n
      → Answers root.raw from upto a xs
      → IsHit root.raw root.tree from upto a
      → weight xs ≤ n
      → go_on n (at_node a) ≡ some (vmas_of xs)
  go_on_lem n a [] ih e hit few = ap (λ b. go_on n (at_node b)) e
  go_on_lem n a (x ∷ xs) ih (it, c, e, same, later) hit few =
      let (there, seeks, over) = subst (IsHit root.raw root.tree from upto) e hit in
      let as_many = ap (λ y. rounds y.vm_set) same in
      let rest = ih it c c.this.vm_set xs there seeks later (omega (arith, few, as_many)) in
      ap (λ b. go_on n (at_node b)) e
      ∙ ap {A = Option (List Vma)} (λ o. elim o [ none ↦ none | some vs ↦ some (c.this.vma ∷ vs) ])
          rest
      ∙ ap (λ (y : PrioNode). some (vmas_of (y ∷ xs))) same

  foreach-Enough : (n : ℕ) → Enough n
  unfolding vma_prio_tree_foreach_user vma_prio_tree_next_user
  foreach-Enough zero it c [] xs there seeks sees few = absurd (omega (arith, few))
  foreach-Enough zero it c (v ∷ vs) xs there seeks sees few = absurd (omega (arith, few))
  foreach-Enough (suc n) it c (v ∷ vs) xs there seeks sees few =
      let rest = foreach-Enough n it c vs xs there seeks sees (omega (arith, few)) in
      rw (vma_prio_tree_foreach_user, rest) refl
  foreach-Enough (suc n) it c [] xs there seeks sees few =
      go_on_lem n _ xs (foreach-Enough n) (next_answers it c xs there seeks sees)
        (prio_tree_next_user_lem root.raw root.tree from upto it c there seeks) (omega (arith, few))

first_answers :
    (raw : Bool) (index_bits : ℕ) (tree : Pst) (from upto : ℕ)
    → index_bits ≤ 64
    → IsPst raw (keyed (index_bits - 1)) 0 tree
    → let root : PrioTreeRoot = record { raw = raw; index_bits = index_bits; tree = tree } in
      (k : ℕ) × Answers raw from upto
        (prio_tree_first_user k root from upto)
        (hits raw from upto tree)
unfolding prio_tree_first_user next_loop
first_answers raw index_bits leaf from upto small pst = (0, refl)
first_answers raw index_bits (node l n r) from upto small pst =
    let fits = root-Fits (index_bits - 1) (omega (arith, small)) in
    elim (le-or-lt from (heap raw n)) [
      | inr e ↦
          let none_there = hits-early raw from upto (keyed (index_bits - 1)) 0 l n r pst e in
          let yes : ltb (heap raw n) from ≡ true = ground (arith, e) in
          (0, rw (none_there, yes) refl)
      | inl e ↦
          let no : ltb (heap raw n) from ≡ false = ground (arith, e) in
          let (k, a) =
            first_tree raw from upto (node l n r) (keyed (index_bits - 1)) 0 [] fits pst e
              (1, refl) in
          (k, rw (no) a)
    ]

if_agree :
    (b : Bool) (x y : Next)
    → (IsDone x → IsDone y → x ≡ y)
    → IsDone (if b then ended else x)
    → IsDone (if b then ended else y)
    → (if b then ended else x) ≡ (if b then ended else y)
if_agree true x y same p q = refl
if_agree false x y same p q = same p q

prio_tree_first_user_agree :
    (n m : ℕ) (raw : Bool) (index_bits : ℕ) (tree : Pst) (from upto : ℕ)
    → let root : PrioTreeRoot = record { raw = raw; index_bits = index_bits; tree = tree } in
      IsDone (prio_tree_first_user n root from upto)
      → IsDone (prio_tree_first_user m root from upto)
      → prio_tree_first_user n root from upto ≡ prio_tree_first_user m root from upto
unfolding prio_tree_first_user
prio_tree_first_user_agree n m raw index_bits leaf from upto p q = refl
prio_tree_first_user_agree n m raw index_bits (node l x r) from upto p q =
    if_agree (ltb (heap raw x) from) _ _ (first_loop-Agree raw n m _ _ _ _) p q

Answers-IsDone :
    (raw : Bool) (from upto : ℕ) (a : Next) (xs : List PrioNode)
    → Answers raw from upto a xs
    → IsDone a
Answers-IsDone raw from upto a [] e = subst IsDone (sym e) tt
Answers-IsDone raw from upto a (x ∷ xs) (it, c, e, same, rest) = subst IsDone (sym e) tt

-- In a tree in order whose indices have at most 64 bits, `vma_prio_tree_foreach_user` goes through the
-- mappings whose ranges overlap the range asked for, each node's before those below it and the left
-- ones before the right ones, each once, and through no other, and then ends; four steps of the search
-- for each node and one more are enough for each call, and as many calls as there are mappings and one
-- more for all.
pub vma_prio_tree_foreach_user-overlapping :
    (root : PrioTreeRoot) (from upto : ℕ)
    → root.index_bits ≤ 64
    → IsPst root.raw (keyed (root.index_bits - 1)) 0 root.tree
    → vma_prio_tree_foreach_user
        (all_vmas root.tree + 1)
        (4 * size root.tree + 1)
        root
        from
        upto
        none
      ≡ some (vmas_of (overlapping root.raw from upto (nodes root.tree)))
unfolding vma_prio_tree_foreach_user vma_prio_tree_next_user
vma_prio_tree_foreach_user-overlapping root from upto small pst =
    let f : ℕ = 4 * size root.tree + 1 in
    let (k, a) = first_answers root.raw root.index_bits root.tree from upto small pst in
    let hit = prio_tree_first_user_lem root.raw root.index_bits root.tree from upto in
    let same =
      prio_tree_first_user_agree k f root.raw root.index_bits root.tree from upto
        (Answers-IsDone root.raw from upto _ _ a)
        (IsHit-IsDone root.raw root.tree from upto _ hit) in
    let few = weight-overlapping root.raw from upto (nodes root.tree) in
    let all = weight-nodes root.tree in
    let found_all =
      go_on_lem root from upto (all_vmas root.tree) _ _
        (foreach-Enough root from upto (all_vmas root.tree))
        (subst (λ b. Answers root.raw from upto b (hits root.raw from upto root.tree)) same a) hit
        (omega (arith, few, all)) in
    let one_more : all_vmas root.tree + 1 ≡ suc (all_vmas root.tree) = omega arith in
    ap (λ n. vma_prio_tree_foreach_user n f root from upto none) one_more ∙ found_all
