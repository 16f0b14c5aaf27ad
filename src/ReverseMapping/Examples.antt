-- ===== src/ReverseMapping/Examples.antt =====
-- The theorem on reverse_mapping.c on a machine of two page frames.
use linux_project.Base.{◌≡◌, refl, true, some, List, [], ◌∷◌, arith}
use linux_project.ReverseMapping.{
  Machine, Line, handler_seq_start, handler_seq_show, show_owners, anonymous, swap_cache, owner,
}
use linux_project.ReverseMapping.Cursor.{Read, entries, read_lem}

abbrev machine : Machine
machine = record {
  totalram_pages = 2;
  pfn_valid = λ pfn. true;
  pfn_to_page = λ pfn. record { mapping = pfn; index = 0 };
  page_anon = λ page. true;
  page_lock_anon_vma_own = λ page. some (record { pid = 17; comm = 1 } ∷ []);
  vma_prio_tree = λ a i. [];
}

entries_run : entries machine 2 0 ≡ swap_cache 0 ∷ anonymous 1 ∷ owner 17 1 ∷ []
unfolding handler_seq_show show_owners
entries_run = refl

read_lem_example :
    Read machine (handler_seq_start machine 1) (entries machine 2 1)
    × ((ls : List Line) → Read machine (handler_seq_start machine 1) ls → ls ≡ entries machine 2 1)
read_lem_example = read_lem machine 1 1 (omega arith) (omega arith)
