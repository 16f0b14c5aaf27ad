-- ===== src/Rmap/PrioTree/Vmas.antt =====
-- The mappings behind the nodes of the priority search tree in rmap.c: `vma_prio_tree_next_user` and the
-- loop `vma_prio_tree_foreach_user`.
use linux_project.Base.{ℕ, zero, suc, Option, none, some, List, [], ◌∷◌}
use linux_project.Rmap.PrioTree.{
  Vma, PrioTreeRoot, Cursor, PrioTreeIter, Next, found, ended, bug_on, unfinished,
  prio_tree_first_user, prio_tree_next_user,
}

-- Where `vma_prio_tree_next_user` stands: in the tree, and in the list behind the node.
pub record Place : Type 0 where
  pub iter : PrioTreeIter
  pub cur : Cursor
  pub pending : List Vma

pub data NextVma : Type 0 where
  next_vma : Vma → Place → NextVma
  no_vma broken : NextVma

abbrev pub at_node : Next → NextVma
at_node (found it c) =
    next_vma (c.this.vma) (record { iter = it; cur = c; pending = c.this.vm_set })
at_node ended = no_vma
at_node bug_on = broken
at_node unfinished = broken

-- None is the first call, with a null `vma`.
unfoldable pub vma_prio_tree_next_user :
    ℕ → PrioTreeRoot → (r_index h_index : ℕ) → Option Place → NextVma
vma_prio_tree_next_user fuel root r_index h_index none =
    at_node (prio_tree_first_user fuel root r_index h_index)
vma_prio_tree_next_user fuel root r_index h_index (some p) = elim p.pending [
  | v ∷ vs ↦ next_vma v (record p { pending = vs })
  | [] ↦ at_node (prio_tree_next_user fuel root.raw p.iter p.cur)
]

-- The mappings that `vma_prio_tree_foreach_user` goes through; none is a `BUG_ON`, or that there were too
-- few rounds.
unfoldable pub vma_prio_tree_foreach_user :
    (n fuel : ℕ) → PrioTreeRoot → (r_index h_index : ℕ) → Option Place → Option (List Vma)
vma_prio_tree_foreach_user zero fuel root r_index h_index p = none
vma_prio_tree_foreach_user (suc n) fuel root r_index h_index p =
    elim (vma_prio_tree_next_user fuel root r_index h_index p) [
      | no_vma ↦ some []
      | broken ↦ none
      | next_vma v p' ↦ elim (vma_prio_tree_foreach_user n fuel root r_index h_index (some p')) [
        | none ↦ none
        | some vs ↦ some (v ∷ vs)
      ]
    ]
