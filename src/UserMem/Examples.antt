-- ===== src/UserMem/Examples.antt =====
-- The theorems on huawei_user_space_mem.c at concrete page tables.
use linux_project.Base.{ℕ, ◌^◌, ◌≡◌, refl, arith, some, none, List, [], ◌∷◌, ◌==◌, if◌then◌else◌}
use linux_project.Kernel.{Addr}
use linux_project.UserMem.{
  Paging, Task, page_4k, page_2m, Line, title, mapped, State, walk_pgd, print_vaddr_of_paddr,
  walk_mm_struct, visit, visit_all, walk_task, walk_pud, walk_pmd, walk_pte, for_each,
  handle_4_k_page, handle_2_m_page, print_mapped,
}
use mathlib.Core.List.{Memᴰ}
use linux_project.UserMem.Driver.{
  Lookup, hello, took, walked, libc_addr, huawei_user_space_mem_test_init,
}
use linux_project.UserMem.Driver.Found.{huawei_user_space_mem_test_init_lem}
use linux_project.UserMem.X86.{x86_of, lookup_of, space, kernel_thread, tested}
use linux_project.UserMem.Mapped.{walk_pgd_lem}
use linux_project.UserMem.Reports.{Shows}
use linux_project.UserMem.Tasks.{Covers, print_vaddr_of_paddr_lem}
use linux_project.UserMem.Translate.{translate, IsMapped}

-- The tables lie at 0x1000, 0x2000, 0x3000 and 0x4000; a page of 2 MB and one of 4 KB hold 0x201234.
abbrev word_at : Addr → ℕ
word_at a =
    if a == 0x1000
    then 0x2001
    else if a == 0x2008
    then 0x3001
    else if a == 0x3000
    then 0x200081
    else if a == 0x3010
    then 0x4001
    else if a == 0x4028
    then 0x201001
    else 0

abbrev x86 : Paging
x86 = x86_of word_at

abbrev shell : Task
shell = record { pid = 17; comm = 115 ∷ 104 ∷ []; mm = some space }

abbrev idle : State
idle = record { now_task = none; log = []; locked = []; users = [] }

abbrev looking : State
looking = record { now_task = some shell; log = []; locked = 0 ∷ []; users = 0 ∷ [] }

translate_run : translate x86 0x1000 (2 ^ 30) ≡ some (page_2m, 1)
translate_run = refl

print_vaddr_of_paddr_run :
    print_vaddr_of_paddr x86 0x201234 (kernel_thread ∷ shell ∷ []) idle
    ≡ some (record idle {
      log =
          title
          ∷ mapped 0x201234 shell page_2m 0x40000000
          ∷ mapped 0x201234 shell page_4k 0x40405000
          ∷ [];
    })
unfolding print_vaddr_of_paddr visit_all visit walk_task walk_mm_struct walk_pgd walk_pud walk_pmd
    walk_pte for_each handle_4_k_page handle_2_m_page print_mapped
print_vaddr_of_paddr_run = refl

walk_pgd_lem_example :
    (ls : List Line) × (walk_pgd x86 0x1000 0x201234 looking ≡ some (record looking { log = ls }))
    × Shows 0x201234 shell (IsMapped x86 0x1000 0x201234) ls
walk_pgd_lem_example = walk_pgd_lem x86 0x1000 0x201234 shell looking refl

print_vaddr_of_paddr_lem_example :
    (ls : List Line) × (print_vaddr_of_paddr x86 0x201234 (kernel_thread ∷ shell ∷ []) idle
      ≡ some (record idle { log = title ∷ ls }))
    × Covers x86 0x201234 (kernel_thread ∷ shell ∷ []) ls
print_vaddr_of_paddr_lem_example =
    print_vaddr_of_paddr_lem x86 0x201234 (kernel_thread ∷ shell ∷ []) idle refl

-- The address of the test lies on the page 0x201.
abbrev libc_word_at : Addr → ℕ
libc_word_at a =
    if a == 0x17f8
    then 0x2001
    else if a == 0x2c58
    then 0x3001
    else if a == 0x38e8
    then 0x4001
    else if a == 0x4fa8
    then 0x201001
    else 0

abbrev with_libc : Paging
with_libc = record x86 { read = libc_word_at }

abbrev lookup : Lookup
lookup = lookup_of libc_word_at

huawei_user_space_mem_test_init_lem_example :
    (ls : List Line) × (huawei_user_space_mem_test_init with_libc lookup
        (kernel_thread ∷ tested ∷ [])
        idle
      ≡ some (0, hello ∷ walked (title ∷ ls) ∷ took ∷ [], record idle { log = title ∷ ls }))
    × Memᴰ (mapped 0x201000 tested page_4k libc_addr) ls
huawei_user_space_mem_test_init_lem_example =
    huawei_user_space_mem_test_init_lem with_libc lookup (kernel_thread ∷ tested ∷ []) tested space
      0x201 idle (λ mm v. refl, λ a v. refl, λ a v. refl, λ a v. refl) refl refl refl refl
      (omega arith) (omega arith) refl
