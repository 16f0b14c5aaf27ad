-- ===== src/PageLog/Tree.antt =====
-- The tree of recorded memory blocks in huawei_log_page.c: the descents of `find_lp` and of
-- `log_page_insert`. A page frame is its index. Rebalancing (`rb_insert_color`) is the kernel's.
pub mod Order
pub mod Found
pub mod Edit
pub mod Turn
use linux_project.Base.{
  ℕ, ◌≡◌, Option, none, some, List, [], ◌∷◌, ◌++◌, ◌==◌, leb, ltb, if◌then◌else◌,
}
use linux_project.Kernel.{Addr}

-- `struct log_page_struct` in use: its index in the pool, the order that was asked for, the frames
-- from `start_page` on up to, but not with, `end_page`, and the call stack with its modules.
pub record LogPage : Type 0 where
  pub index : ℕ
  pub order : ℕ
  pub start_page : ℕ
  pub end_page : ℕ
  pub entries : ℕ → ℕ
  pub modules : List Addr

pub data Tree : Type 0 where
  leaf : Tree
  node : Tree → LogPage → Tree → Tree

-- The entries from left to right, which rebalancing keeps.
abbrev pub inorder : Tree → List LogPage
inorder leaf = []
inorder (node l x r) = inorder l ++ x ∷ inorder r

unfoldable pub find_lp : ℕ → Tree → Option LogPage
find_lp start leaf = none
find_lp start (node l lp r) =
    let on_left = find_lp start l in
    let on_right = find_lp start r in
    if ltb start lp.start_page then on_left else if leb lp.end_page start then on_right else some lp

-- `rb_link_node` at the place that the loop ends at.
unfoldable pub link : LogPage → Tree → Tree
link lp leaf = node leaf lp leaf
link lp (node l this r) =
    let on_left = link lp l in
    let on_right = link lp r in
    if leb lp.end_page this.start_page then node on_left this r else node l this on_right

-- A write into the entry with that index, which stays where it is in the tree.
unfoldable pub alter : ℕ → (LogPage → LogPage) → Tree → Tree
alter i f leaf = leaf
alter i f (node l x r) = node (alter i f l) (if x.index == i then f x else x) (alter i f r)

-- The entries but the one with that index.
abbrev pub without : ℕ → List LogPage → List LogPage
without i [] = []
without i (x ∷ xs) = if x.index == i then without i xs else x ∷ without i xs

-- The kernel's red-black trees (lib/rbtree.c), as far as the module relies on them: rebalancing keeps
-- the entries in their order, and so does taking one out.
pub record RbTree : Type 0 where
  pub rb_insert_color : Tree → Tree
  pub rb_erase : ℕ → Tree → Tree
  pub inorder-rb_insert_color : (t : Tree) → inorder (rb_insert_color t) ≡ inorder t
  pub inorder-rb_erase : (i : ℕ) (t : Tree) → inorder (rb_erase i t) ≡ without i (inorder t)

unfoldable pub log_page_insert : RbTree → LogPage → Tree → Tree
log_page_insert rb lp t = rb.rb_insert_color (link lp t)
