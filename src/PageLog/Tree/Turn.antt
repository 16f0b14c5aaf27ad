-- ===== src/PageLog/Tree/Turn.antt =====
-- A simple stand-in for lib/rbtree.c, at which what the module does to its tree can be run: balancing
-- turns the tree to the left at its root.
use linux_project.Base.{
  ℕ, ◌≡◌, refl, sym, append_assoc, List, [], ◌∷◌, ◌++◌, ◌==◌, if◌then◌else◌, Bool-cases, inl, inr,
}
use linux_project.PageLog.Tree.{LogPage, Tree, RbTree, leaf, node, inorder, without}

abbrev pub turn : Tree → Tree
turn (node l x (node m y r)) = node (node l x m) y r
turn t = t

pub inorder-turn : (t : Tree) → inorder (turn t) ≡ inorder t
inorder-turn leaf = refl
inorder-turn (node l x leaf) = refl
inorder-turn (node l x (node m y r)) = append_assoc (inorder l) (x ∷ inorder m) (y ∷ inorder r)

-- Taking an entry out: the right subtree is hung to the end of the left one.
abbrev pub beside : Tree → Tree → Tree
beside leaf r = r
beside (node l x m) r = node l x (beside m r)

abbrev pub erase : ℕ → Tree → Tree
erase i leaf = leaf
erase i (node l x r) =
    let on_left = erase i l in
    let on_right = erase i r in
    if x.index == i then beside on_left on_right else node on_left x on_right

inorder-beside : (l r : Tree) → inorder (beside l r) ≡ inorder l ++ inorder r
inorder-beside leaf r = refl
inorder-beside (node l x m) r =
    rw (inorder-beside m r) (sym (append_assoc (inorder l) (x ∷ inorder m) (inorder r)))

without-append :
    (i : ℕ) (xs ys : List LogPage) → without i (xs ++ ys) ≡ without i xs ++ without i ys
without-append i [] ys = refl
without-append i (x ∷ xs) ys = elim (Bool-cases (x.index == i)) [
  | inl e ↦ rw e (without-append i xs ys)
  | inr e ↦ rw (e, without-append i xs ys) refl
]

pub inorder-erase : (i : ℕ) (t : Tree) → inorder (erase i t) ≡ without i (inorder t)
inorder-erase i leaf = refl
inorder-erase i (node l x r) = elim (Bool-cases (x.index == i)) [
  | inl e ↦
      rw
        (
          without-append i (inorder l) (x ∷ inorder r),
          e,
          inorder-beside (erase i l) (erase i r),
          inorder-erase i l,
          inorder-erase i r,
        )
        refl
  | inr e ↦
      rw (without-append i (inorder l) (x ∷ inorder r), e, inorder-erase i l, inorder-erase i r)
        refl
]

abbrev pub turning : RbTree
turning = record {
  rb_insert_color = turn;
  rb_erase = erase;
  inorder-rb_insert_color = inorder-turn;
  inorder-rb_erase = inorder-erase;
}
