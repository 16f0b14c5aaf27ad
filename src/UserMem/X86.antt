-- ===== src/UserMem/X86.antt =====
-- Page tables in memory as x86_64 has them, and some tasks, for the examples.
use linux_project.Base.{
  ℕ, ◌+◌, false, ◌-◌, ◌*◌, ◌/◌, ◌%◌, ◌^◌, Bool, not, some, none, [], ◌∷◌, ◌==◌,
}
use linux_project.Kernel.{Addr}
use linux_project.UserMem.{Paging, Mm, Task}
use linux_project.UserMem.Driver.{Lookup}

abbrev present : ℕ → Bool
present e = not (e == 0)

abbrev large : ℕ → Bool
large e = e / 128 % 2 == 1

abbrev table_at : ℕ → Addr
table_at e = e / 4096 * 4096

abbrev pub x86_of : (Addr → ℕ) → Paging
x86_of read_word = record {
  read = read_word;
  pgd_present = present;
  pud_present = present;
  pmd_present = present;
  pte_present = present;
  pud_large = large;
  pmd_large = large;
  pgd_page_vaddr = table_at;
  pud_page_vaddr = table_at;
  pmd_page_vaddr = table_at;
  pte_pfn = λ e. e / 4096;
  pte_pfn_mask = 2 ^ 46 - 4096;
}

-- None of the pages is a huge one.
abbrev pub lookup_of : (Addr → ℕ) → Lookup
lookup_of read_word = record {
  hugetlb_at = λ mm v. some false;
  pgd_offset = λ mm v. mm.pgd + 8 * (v / 2 ^ 39 % 512);
  pud_offset = λ a v. table_at (read_word a) + 8 * (v / 2 ^ 30 % 512);
  pmd_offset = λ a v. table_at (read_word a) + 8 * (v / 2 ^ 21 % 512);
  pte_offset_kernel = λ a v. table_at (read_word a) + 8 * (v / 2 ^ 12 % 512);
}

abbrev pub space : Mm
space = record { index = 0; pgd = 0x1000 }

abbrev pub kernel_thread : Task
kernel_thread = record { pid = 2; comm = []; mm = none }

abbrev pub tested : Task
tested = record { pid = 1587; comm = 97 ∷ []; mm = some space }
