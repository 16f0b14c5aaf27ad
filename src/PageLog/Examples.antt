-- ===== src/PageLog/Examples.antt =====
-- The theorems on huawei_log_page.c at concrete inputs.
use linux_project.Base.{
  List, inl, inr, ℕ, ◌≡◌, ◌<◌, refl, true, false, some, [], ◌∷◌, ◌==◌, if◌then◌else◌, arith,
}
use linux_project.PageLog.{Pool, Module, free_pages_ok, free_hot_cold_page, alloc_pages_nodemask}
use linux_project.PageLog.Hooks.{
  Loading, huawei_log_page_init, huawei_log_page_exit, init_undone, load_and_unload,
}
use linux_project.PageLog.Pools.{
  alloc_record, count_frames, count_zones, free_all, free_record, get_nr_pages, minus_one,
}
use linux_project.PageLog.Trace.{get_lp_call_stack, get_lp_call_stack_lem}
use linux_project.PageLog.Tree.{LogPage, Tree, leaf, node, inorder, find_lp, log_page_insert}
use linux_project.PageLog.Tree.Order.{IsOrdered}
use linux_project.PageLog.Tree.Turn.{turning}
use linux_project.PageLog.Tree.Found.{holds, find_lp-lookup, find_lp-log_page_insert}
use linux_project.PageLog.Pools.Supply.{started, took, alloc_record-Uses, count}

abbrev no_pool : Pool
no_pool = record { nr = 0; pool = 0; free = [] }

abbrev blank : Module
blank = record { lp_pool = no_pool; st_pool = no_pool; held = []; probes = []; log = [] }

abbrev grants : Loading
grants = record {
  pfn_valid = λ pfn. true;
  nodes = record { node_start_pfn = 10; spanned_pages = 3 ∷ [] } ∷ [];
  config_preempt = true;
  nr_cpus = 2;
  lp_addr = 4096;
  st_addr = 8192;
  accepts = λ p. true;
}

-- The kernel refuses the last of the three probes.
abbrev refuses : Loading
refuses = record grants {
  accepts = λ p. elim p [
    | free_pages_ok ↦ true
    | free_hot_cold_page ↦ true
    | alloc_pages_nodemask ↦ false
  ];
}

init_undone_example :
    ((huawei_log_page_init refuses blank).0 ≡ minus_one)
    × ((huawei_log_page_init refuses blank).1.held ≡ [])
    × ((huawei_log_page_init refuses blank).1.probes ≡ [])
init_undone_example = init_undone refuses blank refl

load_and_unload_example : (huawei_log_page_exit (huawei_log_page_init grants blank).1).1.probes ≡ []
load_and_unload_example = (load_and_unload grants blank refl).6

-- Two of three records are in use, and the third is left.
abbrev last_one : Pool
last_one = record { nr = 3; pool = 4096; free = 0 ∷ [] }

alloc_record-Uses_example :
    (i : ℕ) × (q : Pool) × (alloc_record last_one ≡ some (i, q))
    × (i < 3)
    × (count i (1 ∷ 2 ∷ []) ≡ 0)
unfolding alloc_record free_all free_record
alloc_record-Uses_example =
    alloc_record-Uses 3 4096 (took 1 (took 2 started refl) refl) (omega arith)

-- A node of two zones of two frames each, in which the frame 11 is a hole.
get_nr_pages_run :
    get_nr_pages
      (λ pfn. if pfn == 11 then false else true)
      (record { node_start_pfn = 10; spanned_pages = 2 ∷ 2 ∷ [] } ∷ [])
    ≡ 3
unfolding get_nr_pages count_zones count_frames
get_nr_pages_run = refl

-- Two blocks are recorded, and a third one, between them, is entered.
abbrev block : ℕ → ℕ → ℕ → LogPage
block i from upto = record {
  index = i;
  order = 0;
  start_page = from;
  end_page = upto;
  entries = λ _. 0;
  modules = [];
}

abbrev two : Tree
two = node leaf (block 0 4 8) (node leaf (block 1 10 12) leaf)

two-IsOrdered : IsOrdered (inorder two)
two-IsOrdered = (((omega arith, tt), (tt, tt)), (omega arith, (omega arith, tt)))

find_lp-lookup_example : find_lp 11 two ≡ some (block 1 10 12)
find_lp-lookup_example = find_lp-lookup 11 two two-IsOrdered

find_lp-log_page_insert_example :
    let u : Tree = log_page_insert turning (block 2 8 9) two in
    IsOrdered (inorder u)
    × ((p : ℕ)
        → find_lp p u ≡ (if holds (block 2 8 9) p then some (block 2 8 9) else find_lp p two))
find_lp-log_page_insert_example =
    find_lp-log_page_insert turning (block 2 8 9) two (omega arith) two-IsOrdered
      (inr (omega arith), (inl (omega arith), tt))

-- Ten addresses, and all of them in the module at 500.
abbrev stack : List ℕ
stack = 1 ∷ 2 ∷ 3 ∷ 4 ∷ 5 ∷ 6 ∷ 7 ∷ 8 ∷ 91 ∷ 92 ∷ []

get_lp_call_stack_lem_example : (get_lp_call_stack (λ a. 500) stack (λ i. 0)).0 1 ≡ 92
get_lp_call_stack_lem_example = (get_lp_call_stack_lem (λ a. 500) stack (λ i. 0)).0 1 (omega arith)
