-- ===== src/UserMem.antt =====
-- mem_leak/userspace/huawei_user_space_mem.c: a walk through the page tables of every process, which
-- prints each user-space address at which a physical address is mapped. The page tables are those of
-- x86-64, of four levels with 512 entries each; how an entry is read (asm/pgtable.h) is the kernel's.
pub mod Translate
pub mod Reports
pub mod Walk
pub mod Upper
pub mod Address
pub mod Mapped
pub mod Tasks
pub mod Driver
pub mod X86
mod Examples
use Prim.Native.Nat.{bit_and}
use linux_project.Base.{
  ℕ, zero, suc, ◌+◌, ◌*◌, ◌/◌, ◌%◌, ◌^◌, Bool, true, false, Option, none, some, List, [], ◌∷◌, ◌++◌,
  ◌==◌, if◌then◌else◌,
}
use linux_project.Kernel.{Addr, word, let_go}

-- The kernel's side: memory, of which the entries of the page tables are words, and the functions on
-- entries.
pub record Paging : Type 0 where
  pub read : Addr → ℕ
  pub pgd_present : ℕ → Bool
  pub pud_present : ℕ → Bool
  pub pmd_present : ℕ → Bool
  pub pte_present : ℕ → Bool
  pub pud_large : ℕ → Bool
  pub pmd_large : ℕ → Bool
  pub pgd_page_vaddr : ℕ → Addr
  pub pud_page_vaddr : ℕ → Addr
  pub pmd_page_vaddr : ℕ → Addr
  pub pte_pfn : ℕ → ℕ
  pub pte_pfn_mask : ℕ

-- `struct mm_struct`, of which `index` tells one from another, and `struct task_struct`.
pub record Mm : Type 0 where
  pub index : ℕ
  pub pgd : Addr

pub record Task : Type 0 where
  pub pid : ℕ
  pub comm : List ℕ
  pub mm : Option Mm

-- The size of a page, as it is printed.
pub data PageSize : Type 0 where
  page_4k page_2m page_1g : PageSize

pub data Line : Type 0 where
  title : Line
  mapped : (paddr : ℕ) → Task → PageSize → (vaddr : ℕ) → Line

-- `now_task`, what is printed, the page table locks that are held, and the references to address
-- spaces that have been taken and not given back.
pub record State : Type 0 where
  pub now_task : Option Task
  pub log : List Line
  pub locked : List ℕ
  pub users : List ℕ

-- None is a read through a null pointer.
abbrev pub Cmd : Type 0
Cmd = State → Option State

abbrev pub skip : Cmd
skip s = some s

infixl 5 ◌>>◌
abbrev pub ◌>>◌ : Cmd → Cmd → Cmd
c >> d = λ s. elim (c s) [ none ↦ none | some s' ↦ d s' ]

abbrev pub modify : (State → State) → Cmd
modify f s = some (f s)

-- `for (i = ...; ...; i++)` with `n` rounds left.
unfoldable pub for_each : (n i : ℕ) → (ℕ → Cmd) → Cmd
for_each zero i body = skip
for_each (suc n) i body = body i >> for_each n (i + 1) body

-- Entries are eight bytes long.
abbrev pub entry : Paging → Addr → ℕ → ℕ
entry mem base i = mem.read (base + 8 * i)

-- `now_task->pid` and `now_task->comm` are read when a line is printed.
unfoldable pub print_mapped : (paddr : ℕ) → PageSize → (vaddr : ℕ) → Cmd
print_mapped paddr size vaddr s = elim s.now_task [
  | none ↦ none
  | some t ↦ some (record s { log = s.log ++ mapped paddr t size vaddr ∷ [] })
]

unfoldable pub handle_4_k_page :
    Paging → (pte paddr pgd_offset pud_offset pmd_offset pte_offset : ℕ) → Cmd
handle_4_k_page mem pte paddr pgd_offset pud_offset pmd_offset pte_offset =
    let vaddr : ℕ =
      (pgd_offset * 2 ^ 39 + pud_offset * 2 ^ 30 + pmd_offset * 2 ^ 21 + pte_offset * 2 ^ 12)
      % word in
    if mem.pte_pfn pte == paddr / 2 ^ 12 then print_mapped paddr page_4k vaddr else skip

unfoldable pub walk_pte : Paging → Addr → (paddr pgd_offset pud_offset pmd_offset : ℕ) → Cmd
walk_pte mem base paddr pgd_offset pud_offset pmd_offset = for_each 512 0 (λ pte_i.
    let pte = entry mem base pte_i in
    if mem.pte_present pte
    then handle_4_k_page mem pte paddr pgd_offset pud_offset pmd_offset pte_i
    else skip)

unfoldable pub handle_2_m_page : Paging → (pmd paddr pgd_offset pud_offset pmd_offset : ℕ) → Cmd
handle_2_m_page mem pmd paddr pgd_offset pud_offset pmd_offset =
    let vaddr : ℕ = (pgd_offset * 2 ^ 39 + pud_offset * 2 ^ 30 + pmd_offset * 2 ^ 21) % word in
    if bit_and pmd mem.pte_pfn_mask / 2 ^ 21 == paddr / 2 ^ 21
    then print_mapped paddr page_2m vaddr
    else skip

unfoldable pub walk_pmd : Paging → Addr → (paddr pgd_offset pud_offset : ℕ) → Cmd
walk_pmd mem base paddr pgd_offset pud_offset = for_each 512 0 (λ pmd_i.
    let pmd = entry mem base pmd_i in
    if mem.pmd_present pmd
    then (if mem.pmd_large pmd
        then handle_2_m_page mem pmd paddr pgd_offset pud_offset pmd_i
        else walk_pte mem (mem.pmd_page_vaddr pmd) paddr pgd_offset pud_offset pmd_i)
    else skip)

unfoldable pub handle_1_g_page : Paging → (pud paddr pgd_offset pud_offset : ℕ) → Cmd
handle_1_g_page mem pud paddr pgd_offset pud_offset =
    let vaddr : ℕ = (pgd_offset * 2 ^ 39 + pud_offset * 2 ^ 30) % word in
    if bit_and pud mem.pte_pfn_mask / 2 ^ 30 == paddr / 2 ^ 30
    then print_mapped paddr page_1g vaddr
    else skip

unfoldable pub walk_pud : Paging → Addr → (paddr pgd_offset : ℕ) → Cmd
walk_pud mem base paddr pgd_offset = for_each 512 0 (λ pud_i.
    let pud = entry mem base pud_i in
    if mem.pud_present pud
    then (if mem.pud_large pud
        then handle_1_g_page mem pud paddr pgd_offset pud_i
        else walk_pmd mem (mem.pud_page_vaddr pud) paddr pgd_offset pud_i)
    else skip)

-- Only the lower half of the table, which is user space.
unfoldable pub walk_pgd : Paging → Addr → (paddr : ℕ) → Cmd
walk_pgd mem base paddr = for_each 256 0 (λ pgd_i.
    let pgd = entry mem base pgd_i in
    if mem.pgd_present pgd then walk_pud mem (mem.pgd_page_vaddr pgd) paddr pgd_i else skip)

unfoldable pub walk_mm_struct : Paging → Mm → (paddr : ℕ) → Cmd
walk_mm_struct mem mm paddr =
    modify (λ s. record s { locked = mm.index ∷ s.locked })
    >> walk_pgd mem mm.pgd paddr
    >> modify (λ s. record s { locked = let_go mm.index s.locked })

-- What is done for a task that has an address space.
unfoldable pub walk_task : Paging → (paddr : ℕ) → Task → Mm → Cmd
walk_task mem paddr p mm =
    modify (λ s. record s { users = mm.index ∷ s.users })
    >> modify (λ s. record s { now_task = some p })
    >> walk_mm_struct mem mm paddr
    >> modify (λ s. record s { now_task = none })
    >> modify (λ s. record s { users = let_go mm.index s.users })

-- The body of the loop over the tasks.
unfoldable pub visit : Paging → (paddr : ℕ) → Task → Cmd
visit mem paddr p = elim p.mm [ none ↦ skip | some mm ↦ walk_task mem paddr p mm ]

unfoldable pub visit_all : Paging → (paddr : ℕ) → List Task → Cmd
visit_all mem paddr [] = skip
visit_all mem paddr (p ∷ ps) = visit mem paddr p >> visit_all mem paddr ps

-- `list_for_each_safe` takes `current->tasks` for the head of the list: the tasks visited are those
-- behind the current one in the ring, and not the current one itself.
unfoldable pub print_vaddr_of_paddr : Paging → (paddr : ℕ) → (behind_current : List Task) → Cmd
print_vaddr_of_paddr mem paddr behind_current =
    modify (λ s. record s { log = s.log ++ title ∷ [] }) >> visit_all mem paddr behind_current
