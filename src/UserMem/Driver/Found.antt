-- ===== src/UserMem/Driver/Found.antt =====
-- From an address to the physical one and back, in huawei_user_space_mem_test.c.
use mathlib.Core.List.{Memᴰ}
use linux_project.Base.{
  ℕ, ◌+◌, ◌*◌, ◌/◌, ◌%◌, ◌^◌, ◌<◌, ◌≡◌, refl, ap, sym, ◌∙◌, Bool, false, Bool-cases, inl, inr,
  Option, none, some, List, [], ◌∷◌, ◌++◌, ◌==◌, ==_of_ne, if◌then◌else◌, arith, if_of_true,
  if_of_false,
}
use linux_project.Kernel.{Addr, word}
use linux_project.UserMem.{Paging, Mm, Task, page_4k, Line, title, mapped, State, entry}
use linux_project.UserMem.Driver.{
  Lookup, Note, hello, took, hugetlb_page, walked, pid_1587, libc_addr, get_paddr, vaddr_to_paddr,
  huawei_user_space_mem_test_init,
}
use linux_project.UserMem.Tasks.{print_vaddr_of_paddr_lem}
use linux_project.UserMem.Translate.{translate, in_pgd}

-- What asm/pgtable.h says: the place of the entry in its table, by nine bits of the address each.
abbrev pub AreOffsets : Paging → Lookup → Type 0
AreOffsets mem k =
    ((mm : Mm) (v : ℕ) → k.pgd_offset mm v ≡ mm.pgd + 8 * (v / 2 ^ 39 % 512))
    × ((a v : ℕ) → k.pud_offset a v ≡ mem.pgd_page_vaddr (mem.read a) + 8 * (v / 2 ^ 30 % 512))
    × ((a v : ℕ) → k.pmd_offset a v ≡ mem.pud_page_vaddr (mem.read a) + 8 * (v / 2 ^ 21 % 512))
    × ((a v : ℕ)
        → k.pte_offset_kernel a v ≡ mem.pmd_page_vaddr (mem.read a) + 8 * (v / 2 ^ 12 % 512))

-- The first task with that pid.
abbrev pub first_of : ℕ → List Task → Option Task
first_of pid [] = none
first_of pid (p ∷ ps) = let rest = first_of pid ps in if p.pid == pid then some p else rest

-- Where the processor comes to a page of 4 KB, the entry of the last table names it.
last_entry :
    (mem : Paging) (base : Addr) (g u m e pfn : ℕ)
    → in_pgd mem base g u m e ≡ some (page_4k, pfn)
    → mem.pte_pfn (
        entry mem
          (mem.pmd_page_vaddr (
            entry mem (mem.pud_page_vaddr (entry mem (mem.pgd_page_vaddr (entry mem base g)) u)) m))
          e)
      ≡ pfn
last_entry mem base g u m e pfn h = ground arith

module _ (mem : Paging) (k : Lookup) (offsets : AreOffsets mem k) where
  get_paddr_lem :
      (t : Task) (mm : Mm) (v pfn : ℕ)
      → t.mm ≡ some mm
      → k.hugetlb_at mm v ≡ some false
      → translate mem mm.pgd v ≡ some (page_4k, pfn)
      → get_paddr mem k t v ≡ some (pfn * 2 ^ 12 % word, [])
  unfolding get_paddr
  get_paddr_lem t mm v pfn has small there =
      let (at_pgd, at_pud, at_pmd, at_pte) = offsets in
      let pte : Addr =
        k.pte_offset_kernel (k.pmd_offset (k.pud_offset (k.pgd_offset mm v) v) v) v in
      let last : mem.pte_pfn (mem.read pte) ≡ pfn =
        rw (at_pte, at_pmd, at_pud, at_pgd)
          (last_entry mem mm.pgd (v / 2 ^ 39 % 512) (v / 2 ^ 30 % 512) (v / 2 ^ 21 % 512)
            (v / 2 ^ 12 % 512) pfn there) in
      let result : ℕ → Option (ℕ × List Note) = λ pfn. some (pfn * 2 ^ 12 % word, []) in
      let of_page : Mm → Option Bool → Option (ℕ × List Note) = λ mm o. elim o [
        | none ↦ none
        | some huge ↦
            if huge
            then some (0, hugetlb_page v ∷ [])
            else result (
                mem.pte_pfn (
                  mem.read
                    (k.pte_offset_kernel (k.pmd_offset (k.pud_offset (k.pgd_offset mm v) v) v) v)))
      ] in
      let of_mm : Option Mm → Option (ℕ × List Note) =
        λ o. elim o [ none ↦ none | some mm ↦ of_page mm (k.hugetlb_at mm v) ] in
      ap of_mm has ∙ ap (of_page mm) small ∙ ap result last

  vaddr_to_paddr_lem :
      (pid v : ℕ) (ps : List Task) (t : Task)
      → first_of pid ps ≡ some t
      → (vaddr_to_paddr mem k pid v ps ≡ get_paddr mem k t v) × Memᴰ t ps
  unfolding vaddr_to_paddr
  vaddr_to_paddr_lem pid v [] t h = absurd (cc)
  vaddr_to_paddr_lem pid v (p ∷ ps) t h = elim (Bool-cases (p.pid == pid)) [
    | inl e ↦
        let found : ◌≡◌ {A = Option Task} (some p) (some t) = sym (if_of_true _ _ e) ∙ h in
        let same : p ≡ t = cc in
        (if_of_true _ _ e ∙ ap (λ u. get_paddr mem k u v) same, Memᴰ.head (sym same))
    | inr e ↦
        let (run, later) = vaddr_to_paddr_lem pid v ps t (sym (if_of_false _ _ e) ∙ h) in
        (if_of_false _ _ e ∙ run, Memᴰ.tail later)
  ]

  -- The address that is found is the one that the processor comes to.
  pub vaddr_to_paddr-translate :
      (pid v : ℕ) (ps : List Task) (t : Task) (mm : Mm) (pfn : ℕ)
      → first_of pid ps ≡ some t
      → t.mm ≡ some mm
      → k.hugetlb_at mm v ≡ some false
      → translate mem mm.pgd v ≡ some (page_4k, pfn)
      → pfn < 2 ^ 52
      → (vaddr_to_paddr mem k pid v ps ≡ some (pfn * 2 ^ 12, [])) × Memᴰ t ps
  vaddr_to_paddr-translate pid v ps t mm pfn first has small there low =
      let fits : pfn * 2 ^ 12 % word ≡ pfn * 2 ^ 12 = omega arith in
      let (found, among) = vaddr_to_paddr_lem pid v ps t first in
      (found ∙ get_paddr_lem t mm v pfn has small there ∙ ap (λ (a : ℕ). some (a, [])) fits, among)

-- In page tables that the kernel's macros go down as the processor does: where the first task with the pid
-- 1587 has an address space, in which the processor finds a page of 4 KB, of a frame other than the first, at
-- the address 0x7fe2e3bf5000, and the kernel no huge one, the test ends with 0, and among the lines that it
-- has printed is the one that says that this task has the physical page at this very address.
pub huawei_user_space_mem_test_init_lem :
    (mem : Paging) (k : Lookup) (behind_current : List Task) (t : Task) (mm : Mm) (pfn : ℕ)
    (s : State)
    → AreOffsets mem k
    → first_of pid_1587 behind_current ≡ some t
    → t.mm ≡ some mm
    → k.hugetlb_at mm libc_addr ≡ some false
    → translate mem mm.pgd libc_addr ≡ some (page_4k, pfn)
    → 0 < pfn
    → pfn < 2 ^ 52
    → s.now_task ≡ none
    → (ls : List Line) × (huawei_user_space_mem_test_init mem k behind_current s
        ≡ some (0, hello ∷ walked (title ∷ ls) ∷ took ∷ [], record s { log = s.log ++ title ∷ ls }))
      × Memᴰ (mapped (pfn * 2 ^ 12) t page_4k libc_addr) ls
unfolding huawei_user_space_mem_test_init
huawei_user_space_mem_test_init_lem mem k tasks t mm pfn s offsets first has small there pos low
      now =
    let paddr : ℕ = pfn * 2 ^ 12 in
    let (run, among) =
      vaddr_to_paddr-translate mem k offsets pid_1587 libc_addr tasks t mm pfn first has small there
        low in
    let (ls, walk, covers) = print_vaddr_of_paddr_lem mem paddr tasks (record s { log = [] }) now in
    let known : (paddr == 0) ≡ false = ==_of_ne paddr 0 (omega arith) in
    let its_frame : pfn ≡ paddr / 2 ^ 12 = omega arith in
    (
      ls,
      rw (huawei_user_space_mem_test_init, run, known, walk) refl,
      covers.complete t mm page_4k libc_addr among has
          (omega arith, refl, there ∙ ap (λ f. some (page_4k, f)) its_frame),
    )
