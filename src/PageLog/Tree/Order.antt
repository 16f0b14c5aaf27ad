-- ===== src/PageLog/Tree/Order.antt =====
-- The invariant of the tree in huawei_log_page.c, and that entering a block keeps it.
use linux_project.Base.{
  ◌≤◌, ◌<◌, ◌⊎◌, inl, inr, List, [], ◌∷◌, ◌++◌, leb, All, All-append, All-drop, All-take, All-map,
  Pairs, Bool-cases, arith,
}
use linux_project.PageLog.Tree.{LogPage, Tree, leaf, node, inorder, link}

abbrev pub Before : LogPage → LogPage → Type 0
Before x y = x.end_page ≤ y.start_page

abbrev pub IsProper : LogPage → Type 0
IsProper x = x.start_page < x.end_page

-- No block is empty, and from left to right they do not overlap.
abbrev pub IsOrdered : List LogPage → Type 0
IsOrdered xs = Pairs Before xs × All IsProper xs

-- The same for a tree, along its shape.
abbrev pub IsSearch : Tree → Type 0
IsSearch leaf = Unit
IsSearch (node l x r) =
    (IsSearch l × IsSearch r)
    × IsProper x
    × All (λ y. Before y x) (inorder l)
    × All (Before x) (inorder r)

pub Pairs-middle :
    (xs : List LogPage) (y : LogPage) (ys : List LogPage)
    → Pairs Before (xs ++ y ∷ ys)
    → Pairs Before xs × Pairs Before ys × All (λ x. Before x y) xs × All (Before y) ys
Pairs-middle [] y ys h = (tt, h.1, tt, h.0)
Pairs-middle (x ∷ xs) y ys h =
    let rest = Pairs-middle xs y ys h.1 in
    (
      (All-take (Before x) xs (y ∷ ys) h.0, rest.0),
      rest.1,
      ((All-drop (Before x) xs (y ∷ ys) h.0).0, rest.2),
      rest.3,
    )

pub middle-Pairs :
    (xs : List LogPage) (y : LogPage) (ys : List LogPage)
    → Pairs Before xs
    → Pairs Before ys
    → All (λ x. Before x y) xs
    → All (Before y) ys
    → IsProper y
    → Pairs Before (xs ++ y ∷ ys)
middle-Pairs [] y ys hx hy before after proper = (after, hy)
middle-Pairs (x ∷ xs) y ys hx hy before after proper = (
  All-append (Before x) xs (y ∷ ys) hx.0
      (before.0, All-map ys (λ z b. omega (arith, before.0, proper, b)) after),
  middle-Pairs xs y ys hx.1 hy before.1 after proper,
)

pub inorder-IsSearch : (t : Tree) → IsOrdered (inorder t) → IsSearch t
inorder-IsSearch leaf h = tt
inorder-IsSearch (node l x r) h =
    let split = Pairs-middle (inorder l) x (inorder r) h.0 in
    let proper = All-drop IsProper (inorder l) (x ∷ inorder r) h.1 in
    (
      (
        inorder-IsSearch l (split.0, All-take IsProper (inorder l) (x ∷ inorder r) h.1),
        inorder-IsSearch r (split.1, proper.1),
      ),
      proper.0,
      split.2,
      split.3,
    )

pub inorder-IsOrdered : (t : Tree) → IsSearch t → IsOrdered (inorder t)
inorder-IsOrdered leaf h = (tt, tt)
inorder-IsOrdered (node l x r) h =
    let left = inorder-IsOrdered l h.0.0 in
    let right = inorder-IsOrdered r h.0.1 in
    (
      middle-Pairs (inorder l) x (inorder r) left.0 right.0 h.2 h.3 h.1,
      All-append IsProper (inorder l) (x ∷ inorder r) left.1 (h.1, right.1),
    )

-- The block overlaps none of the entry.
abbrev pub Clear : LogPage → LogPage → Type 0
Clear lp y = Before lp y ⊎ Before y lp

All-link :
    (P : LogPage → Type 0) (lp : LogPage) (t : Tree)
    → P lp
    → All P (inorder t)
    → All P (inorder (link lp t))
unfolding link
All-link P lp leaf p h = (p, tt)
All-link P lp (node l x r) p h = elim (Bool-cases (leb lp.end_page x.start_page)) [
  | inl e ↦ rw e (
      All-append P (inorder (link lp l)) (x ∷ inorder r)
        (All-link P lp l p (All-take P (inorder l) (x ∷ inorder r) h))
        (All-drop P (inorder l) (x ∷ inorder r) h))
  | inr e ↦ rw e (
      let rest = All-drop P (inorder l) (x ∷ inorder r) h in
      All-append P (inorder l) (x ∷ inorder (link lp r)) (All-take P (inorder l) (x ∷ inorder r) h)
        (rest.0, All-link P lp r p rest.1))
]

-- A block that overlaps none of the entries is entered in its place.
pub link-IsSearch :
    (lp : LogPage) (t : Tree)
    → IsProper lp
    → IsSearch t
    → All (Clear lp) (inorder t)
    → IsSearch (link lp t)
unfolding link
link-IsSearch lp leaf proper h clear = ((tt, tt), proper, tt, tt)
link-IsSearch lp (node l x r) proper h clear =
    let clear_left = All-take (Clear lp) (inorder l) (x ∷ inorder r) clear in
    let clear_rest = All-drop (Clear lp) (inorder l) (x ∷ inorder r) clear in
    elim (Bool-cases (leb lp.end_page x.start_page)) [
      | inl e ↦ rw e (
        (link-IsSearch lp l proper h.0.0 clear_left, h.0.1),
        h.1,
        All-link (λ y. Before y x) lp l (ground arith) h.2,
        h.3,
      )
      | inr e ↦ rw e (
        (h.0.0, link-IsSearch lp r proper h.0.1 clear_rest.1),
        h.1,
        h.2,
        All-link (Before x) lp r (ground (arith, clear_rest.0)) h.3,
      )
    ]
