-- ===== src/Rmap.antt =====
-- mem_leak/rmap/rmap.c: which processes map a page frame. For an anonymous page and for a page of a
-- file alike, one `struct task_info` for each mapping is entered in the list `task_head`, and the list
-- is then printed.
pub mod Pids
pub mod Locate
pub mod Info
pub mod Unmapped
pub mod Mapped
pub mod Driver
pub mod PrioTree
mod Examples
use linux_project.Base.{
  ℕ, zero, suc, ◌+◌, ◌*◌, ◌-◌, ◌/◌, ◌%◌, ◌^◌, Bool, true, false, Option, none, some, List, [], ◌∷◌,
  ◌++◌, ◌==◌, if◌then◌else◌,
}
use linux_project.Kernel.{Addr, null, let_go}
use linux_project.Rmap.Pids.{init_pid_arr}
use linux_project.Rmap.PrioTree.{Vma, Pst, leaf, node, PrioTreeRoot, size}
use linux_project.Rmap.PrioTree.Vmas.{vma_prio_tree_foreach_user}

-- `struct page`.
pub record Page : Type 0 where
  pub mapping : Addr
  pub mapped : Bool
  pub index : ℕ

-- What the kernel answers: the page of a frame, the mappings in the list of an `anon_vma`, the tree of
-- the mappings of a file, and the addresses that `vmalloc` hands out, one for each mapping.
pub record Machine : Type 0 where
  pub pfn_to_page : ℕ → Page
  pub anon_vma_head : Addr → List Vma
  pub i_mmap : Addr → PrioTreeRoot
  pub vmallocs : List Addr

-- `struct task_info`; after the last entry the list comes back to `task_head`, which is none.
pub record TaskInfo : Type 0 where
  pub next : Option Addr
  pub pid : ℕ
  pub taskname : ℕ

pub data Line : Type 0 where
  on_anon on_file swapped related : Line
  process : (pid taskname : ℕ) → Line

-- `task_head`, the structures that have been allocated and not freed, `pid_arr`, what is printed, how
-- deep the RCU read side is entered, and the locks that are held.
pub record State : Type 0 where
  pub task_head : Option Addr
  pub infos : Addr → Option TaskInfo
  pub pid_arr : List ℕ
  pub log : List Line
  pub rcu : ℕ
  pub locks : List Addr

-- A command ends, or it stops where it reads or writes through a null pointer or in memory that has been
-- freed, or at a `BUG_ON`.
pub data Outcome : Type 0 where
  done null_dereference use_after_free bug unfinished : State → Outcome

abbrev pub Cmd : Type 0
Cmd = State → Outcome

infixl 5 ◌>>◌
abbrev pub ◌>>◌ : Cmd → Cmd → Cmd
c >> d = λ s. elim (c s) [
  | done s' ↦ d s'
  | null_dereference s' ↦ null_dereference s'
  | use_after_free s' ↦ use_after_free s'
  | bug s' ↦ bug s'
  | unfinished s' ↦ unfinished s'
]

abbrev pub modify : (State → State) → Cmd
modify f s = done (f s)

abbrev pub printk : Line → Cmd
printk l = modify (λ s. record s { log = s.log ++ l ∷ [] })

abbrev pub set : Addr → Option TaskInfo → (Addr → Option TaskInfo) → Addr → Option TaskInfo
set a i infos b = if b == a then i else infos b

-- `list_add`, which writes to the entry that was the first one, too.
unfoldable pub list_add : Addr → Vma → Cmd
list_add a vma s =
    let info : TaskInfo = record { next = s.task_head; pid = vma.pid; taskname = vma.comm } in
    let added : State = record s { task_head = some a; infos = set a (some info) s.infos } in
    elim s.task_head [
      | none ↦ done added
      | some first ↦ elim (s.infos first) [ none ↦ use_after_free s | some _ ↦ done added ]
    ]

-- The body of the loop over the mappings; what `vmalloc` answers is not tested.
unfoldable pub collect_one : Addr → Vma → Cmd
collect_one a vma = if a == null then null_dereference else list_add a vma

-- The loop over the mappings.
unfoldable pub collect : List Addr → List Vma → Cmd
collect addrs [] = done
collect [] (vma ∷ vmas) = null_dereference
collect (a ∷ addrs) (vma ∷ vmas) = collect_one a vma >> collect addrs vmas

-- `list_for_each(pos, &task_head)` from an entry on: each is printed and freed, and then its `next` is
-- read.
unfoldable pub print_tasks : ℕ → Option Addr → Cmd
print_tasks fuel none s = done s
print_tasks zero (some pos) s = unfinished s
print_tasks (suc fuel) (some pos) s = elim (s.infos pos) [
  | none ↦ use_after_free s
  | some temp ↦
      let s' : State = record s {
        log = s.log ++ process temp.pid temp.taskname ∷ [];
        infos = set pos none s.infos;
      } in
      elim (s'.infos pos) [ none ↦ use_after_free s' | some info ↦ print_tasks fuel info.next s' ]
]

-- `PAGE_MAPPING_ANON` is the lowest bit.
abbrev pub is_anon : Page → Bool
is_anon page = page.mapping % 2 == 1

-- None is the NULL that is returned where the page is not mapped; otherwise the lock is left held, in
-- the read side of RCU.
unfoldable pub page_lock_anon_vma_user : Page → State → Option Addr × State
page_lock_anon_vma_user page s =
    if is_anon page
    then (if page.mapped
        then (
          some (page.mapping - 1),
          record s { rcu = s.rcu + 1; locks = (page.mapping - 1) ∷ s.locks },
        )
        else (none, s))
    else (none, s)

unfoldable pub page_unlock_anon_vma_user : Addr → Cmd
page_unlock_anon_vma_user anon_vma =
    modify (λ s. record s { locks = let_go anon_vma s.locks; rcu = s.rcu - 1 })

-- As many rounds as there are mappings, and one more.
abbrev pub rounds : List Vma → ℕ
rounds [] = 1
rounds (vma ∷ vmas) = suc (rounds vmas)

-- From the loop over the mappings to the end of `page_locate_file`, with `between` after the loop.
abbrev pub locate : List Addr → List Vma → Cmd → Cmd
locate vmallocs vmas between =
    collect vmallocs vmas
    >> between
    >> printk related
    >> (λ s. print_tasks (rounds vmas) s.task_head s)
    >> modify (λ s. record s { pid_arr = init_pid_arr })

unfoldable pub page_locate_anon : Machine → Page → Cmd
page_locate_anon machine page = printk on_anon >> (λ s.
    let (anon_vma, s') = page_lock_anon_vma_user page s in
    elim anon_vma [
      | none ↦ done s'
      | some head ↦
          locate machine.vmallocs (machine.anon_vma_head head)
            (page_unlock_anon_vma_user head >> modify (λ s. record s { pid_arr = init_pid_arr })) s'
    ])

-- How many mappings a tree holds.
abbrev pub all_vmas : Pst → ℕ
all_vmas leaf = 0
all_vmas (node l n r) = all_vmas l + rounds n.vm_set + all_vmas r

-- The mappings of one page of a file, which are those that overlap the range from it to itself.
abbrev pub file_vmas : PrioTreeRoot → (pgoff : ℕ) → Option (List Vma)
file_vmas root pgoff =
    vma_prio_tree_foreach_user (all_vmas root.tree + 1) (4 * size root.tree + 1) root pgoff pgoff
      none

unfoldable pub page_locate_file : Machine → Page → Cmd
page_locate_file machine page =
    printk on_file >> (elim (file_vmas (machine.i_mmap page.mapping) page.index) [
      | none ↦ bug
      | some vmas ↦ locate machine.vmallocs vmas done
    ])

unfoldable pub get_process_info : Machine → (paddr : ℕ) → Cmd
get_process_info machine paddr =
    let p = machine.pfn_to_page (paddr / 2 ^ 12) in
    if p.mapping == null
    then printk swapped
    else if is_anon p
    then page_locate_anon machine p
    else page_locate_file machine p
