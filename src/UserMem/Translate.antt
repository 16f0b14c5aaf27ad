-- ===== src/UserMem/Translate.antt =====
-- The reference for huawei_user_space_mem.c: how the processor translates an address by the page tables.
use Prim.Native.Nat.{bit_and}
use linux_project.Base.{◌<◌, ◌≡◌, ℕ, ◌/◌, ◌%◌, ◌^◌, Option, none, some, if◌then◌else◌}
use linux_project.Kernel.{Addr}
use linux_project.UserMem.{Paging, PageSize, page_4k, page_2m, page_1g, entry}

abbrev pub bytes : PageSize → ℕ
bytes page_4k = 2 ^ 12
bytes page_2m = 2 ^ 21
bytes page_1g = 2 ^ 30

-- The number of the page that holds a physical address, among the pages of that size.
abbrev pub frame : PageSize → ℕ → ℕ
frame page_4k paddr = paddr / 2 ^ 12
frame page_2m paddr = paddr / 2 ^ 21
frame page_1g paddr = paddr / 2 ^ 30

-- From a table on downwards, by the indices into it and into the tables below: the size and the number
-- of the page that is reached, if any is.
abbrev pub in_pte : Paging → Addr → (e : ℕ) → Option (PageSize × ℕ)
in_pte mem base e =
    let pte = entry mem base e in
    if mem.pte_present pte then some (page_4k, mem.pte_pfn pte) else none

abbrev pub in_pmd : Paging → Addr → (m e : ℕ) → Option (PageSize × ℕ)
in_pmd mem base m e =
    let pmd = entry mem base m in
    if mem.pmd_present pmd
    then (if mem.pmd_large pmd
        then some (page_2m, bit_and pmd mem.pte_pfn_mask / 2 ^ 21)
        else in_pte mem (mem.pmd_page_vaddr pmd) e)
    else none

abbrev pub in_pud : Paging → Addr → (u m e : ℕ) → Option (PageSize × ℕ)
in_pud mem base u m e =
    let pud = entry mem base u in
    if mem.pud_present pud
    then (if mem.pud_large pud
        then some (page_1g, bit_and pud mem.pte_pfn_mask / 2 ^ 30)
        else in_pmd mem (mem.pud_page_vaddr pud) m e)
    else none

abbrev pub in_pgd : Paging → Addr → (g u m e : ℕ) → Option (PageSize × ℕ)
in_pgd mem base g u m e =
    let pgd = entry mem base g in
    if mem.pgd_present pgd then in_pud mem (mem.pgd_page_vaddr pgd) u m e else none

-- The indices are nine bits each, from bit 12 of the address on.
abbrev pub translate : Paging → Addr → (vaddr : ℕ) → Option (PageSize × ℕ)
translate mem cr3 vaddr =
    in_pgd mem cr3 (vaddr / 2 ^ 39 % 512) (vaddr / 2 ^ 30 % 512) (vaddr / 2 ^ 21 % 512)
      (vaddr / 2 ^ 12 % 512)

-- A page of that size, in user space, starts at the address `v`, and it is the one that holds the
-- physical address.
abbrev pub IsMapped : Paging → (cr3 : Addr) → (paddr : ℕ) → PageSize → (v : ℕ) → Type 0
IsMapped mem cr3 paddr size v =
    (v < 2 ^ 47) × (v % bytes size ≡ 0) × (translate mem cr3 v ≡ some (size, frame size paddr))
