-- ===== src/Rmap/Examples.antt =====
-- The theorem on rmap.c at a page that two processes map, and runs of its array of pids.
use linux_project.Base.{ℕ, ◌≡◌, refl, true, none, [], ◌∷◌, arith, some, ◌+◌, ◌*◌}
use linux_project.Rmap.PrioTree.{
  Vma, PrioNode, PrioTreeRoot, leaf, node, prio_tree_first_user, prio_tree_next_user, first_loop,
  next_loop, prio_tree_left_user, prio_tree_right_user, prio_tree_parent_user, enter, overlap_user,
  get_index_user,
}
use linux_project.Rmap.PrioTree.Vmas.{vma_prio_tree_foreach_user, vma_prio_tree_next_user}
use linux_project.Rmap.PrioTree.Foreach.{vmas_of, vma_prio_tree_foreach_user-overlapping}
use linux_project.Rmap.PrioTree.Order.{nodes, overlapping, IsPst}
use linux_project.Rmap.{
  file_vmas, Machine, on_file, related, process, State, use_after_free, get_process_info,
}
use linux_project.Rmap.Mapped.{get_process_info-mapped_by}
use linux_project.Rmap.PrioTree.Level.{keyed}
use linux_project.Rmap.PrioTree.{Vma}
use linux_project.Rmap.Pids.{init_pid_arr, check_exist, insert_arr, replicate, vm_num}

abbrev shell : Vma
shell = record { pid = 17; comm = 1 }

abbrev editor : Vma
editor = record { pid = 21; comm = 2 }

-- Four mappings of a file, of its pages 0 to 9, 0 to 3, 6 to 7 and 9.
abbrev maps : ℕ → ℕ → Vma → PrioNode
maps from upto v = record {
  start = 0;
  last = 0;
  vm_pgoff = from;
  vm_start = 4096 * from;
  vm_end = 4096 * (upto + 1);
  vma = v;
  vm_set = [];
}

abbrev library : PrioTreeRoot
library = record {
  raw = true;
  index_bits = 4;
  tree =
      node (node (node leaf (maps 0 3 editor) leaf) (maps 6 7 shell) leaf) (maps 0 9 shell)
        (node leaf (maps 9 9 editor) leaf);
}

-- The page 7 is in two of them.
file_vmas_run : file_vmas library 7 ≡ some (shell ∷ shell ∷ [])
unfolding vma_prio_tree_foreach_user vma_prio_tree_next_user prio_tree_first_user
    prio_tree_next_user first_loop next_loop prio_tree_left_user prio_tree_right_user
    prio_tree_parent_user enter overlap_user get_index_user
file_vmas_run = refl

library-IsPst : IsPst true (keyed 3) 0 library.tree
unfolding get_index_user
library-IsPst = ground arith

-- The tree is in order, and three of the mappings overlap the pages 5 to 9.
vma_prio_tree_foreach_user-overlapping_example :
    vma_prio_tree_foreach_user 5 17 library 5 9 none
    ≡ some (vmas_of (overlapping true 5 9 (nodes library.tree)))
vma_prio_tree_foreach_user-overlapping_example =
    vma_prio_tree_foreach_user-overlapping library 5 9 (omega arith) library-IsPst

abbrev shared : Machine
shared = record {
  pfn_to_page = λ pfn. record { mapping = 4097; mapped = true; index = 0 };
  anon_vma_head = λ a. shell ∷ editor ∷ [];
  i_mmap = λ a. library;
  vmallocs = 8192 ∷ 12288 ∷ [];
}

abbrev start : State
start = record { task_head = none; infos = λ a. none; pid_arr = []; log = []; rcu = 0; locks = [] }

-- The last page of the file, which both processes map.
abbrev filed : Machine
filed = record shared { pfn_to_page = λ pfn. record { mapping = 4096; mapped = true; index = 9 } }

get_process_info-mapped_by_example :
    (s' : State) × (get_process_info filed 4096 start ≡ use_after_free s')
    × (s'.log ≡ on_file ∷ related ∷ process 21 2 ∷ [])
unfolding get_index_user
get_process_info-mapped_by_example =
    get_process_info-mapped_by filed 4096 start (omega arith, library-IsPst)
      (omega arith, (omega arith, tt)) refl

-- A pid that has not been entered is said to exist as long as a place is free.
check_exist_run : check_exist 7 init_pid_arr ≡ 1
unfolding check_exist init_pid_arr
check_exist_run = refl

insert_arr_run : insert_arr 7 (replicate vm_num 3) ≡ none
unfolding insert_arr
insert_arr_run = refl
