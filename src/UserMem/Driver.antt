-- ===== src/UserMem/Driver.antt =====
-- mem_leak/userspace/huawei_user_space_mem_test.c, which tries out huawei_user_space_mem.c: it finds the
-- physical address behind one address of one process, and has all mappings of it printed.
pub mod Found
use linux_project.Base.{
  ℕ, ◌*◌, ◌%◌, ◌^◌, Bool, Option, none, some, List, [], ◌∷◌, ◌++◌, ◌==◌, if◌then◌else◌,
}
use linux_project.Kernel.{Addr, word}
use linux_project.UserMem.{Paging, Mm, Task, Line, State, print_vaddr_of_paddr}

-- The kernel's: what `is_vm_hugetlb_page` says of what `find_vma` answers, where none is that this is NULL,
-- which is read through; and the functions that go down the page tables for an address.
pub record Lookup : Type 0 where
  pub hugetlb_at : Mm → (vaddr : ℕ) → Option Bool
  pub pgd_offset : Mm → (vaddr : ℕ) → Addr
  pub pud_offset : Addr → (vaddr : ℕ) → Addr
  pub pmd_offset : Addr → (vaddr : ℕ) → Addr
  pub pte_offset_kernel : Addr → (vaddr : ℕ) → Addr

-- The `printk` calls; `walked` is what huawei_user_space_mem.c prints.
pub data Note : Type 0 where
  hello goodbye swapped took : Note
  hugetlb_page : (vaddr : ℕ) → Note
  address : (vaddr paddr : ℕ) → Note
  walked : List Line → Note

abbrev pub pid_1587 : ℕ
pid_1587 = 1587

abbrev pub libc_addr : ℕ
libc_addr = 0x7fe2e3bf5000

-- The address and what is printed; none is a read through a null pointer. A kernel thread has no `mm`, and
-- `find_vma` answers NULL for it.
unfoldable pub get_paddr : Paging → Lookup → Task → (vaddr : ℕ) → Option (ℕ × List Note)
get_paddr mem k p vaddr = elim p.mm [
  | none ↦ none
  | some mm ↦ elim (k.hugetlb_at mm vaddr) [
    | none ↦ none
    | some huge ↦
        let pgd = k.pgd_offset mm vaddr in
        let pud = k.pud_offset pgd vaddr in
        let pmd = k.pmd_offset pud vaddr in
        let pte = k.pte_offset_kernel pmd vaddr in
        if huge
        then some (0, hugetlb_page vaddr ∷ [])
        else some (mem.pte_pfn (mem.read pte) * 2 ^ 12 % word, [])
  ]
]

unfoldable pub vaddr_to_paddr :
    Paging → Lookup → (pid vaddr : ℕ) → (behind_current : List Task) → Option (ℕ × List Note)
vaddr_to_paddr mem k pid vaddr [] = some (0, [])
vaddr_to_paddr mem k pid vaddr (p ∷ ps) =
    let rest = vaddr_to_paddr mem k pid vaddr ps in
    if p.pid == pid then get_paddr mem k p vaddr else rest

-- The result, what is printed, and the state of huawei_user_space_mem.c.
unfoldable pub huawei_user_space_mem_test_init :
    Paging → Lookup → (behind_current : List Task) → State → Option (ℕ × List Note × State)
huawei_user_space_mem_test_init mem k behind_current s =
    elim (vaddr_to_paddr mem k pid_1587 libc_addr behind_current) [
      | none ↦ none
      | some (paddr, out) ↦
          if paddr == 0
          then some (1, hello ∷ (out ++ address libc_addr paddr ∷ swapped ∷ []), s)
          else elim (print_vaddr_of_paddr mem paddr behind_current (record s { log = [] })) [
            | none ↦ none
            | some s' ↦
                some (
                  0,
                  hello ∷ (out ++ walked s'.log ∷ took ∷ []),
                  record s' { log = s.log ++ s'.log },
                )
          ]
    ]

unfoldable pub huawei_user_space_mem_test_exit : List Note → List Note
huawei_user_space_mem_test_exit log = log ++ goodbye ∷ []
