-- ===== src/Rmap/Driver.antt =====
-- mem_leak/rmap/rmap_test.c, which tries out rmap.c: it finds the physical address behind one address of one
-- process, and has the processes printed that map the page there. Its `get_paddr` and `vaddr_to_paddr` have
-- the text of those in mem_leak/userspace/huawei_user_space_mem_test.c, and are taken from there.
pub mod Found
mod Examples
use linux_project.Base.{ℕ, Option, none, some, List, [], ◌∷◌, ◌++◌, ◌==◌, if◌then◌else◌}
use linux_project.Rmap.{
  Machine, Line, State, Outcome, done, null_dereference, use_after_free, bug, unfinished,
  get_process_info,
}
use linux_project.UserMem.{Paging, Task}
use linux_project.UserMem.Driver.{Lookup, Note as Said, pid_1587, vaddr_to_paddr}

-- The `printk` calls; `looked_up` is what `vaddr_to_paddr` prints and `located` what rmap.c prints.
pub data Note : Type 0 where
  hello goodbye took : Note
  address : (vaddr paddr : ℕ) → Note
  looked_up : List Said → Note
  located : List Line → Note

abbrev pub libc_addr : ℕ
libc_addr = 0x7fe2d9f81000

-- The module is loaded, with the value that is returned, or it stops: where `vaddr_to_paddr` reads through a
-- null pointer, or in rmap.c, where the state holds what that has printed up to there.
pub data Result : Type 0 where
  stopped_before : Result
  stopped : List Note → Outcome → Result
  returned : ℕ → List Note → State → Result

-- What follows the call of `get_process_info`.
unfoldable pub after_info : List Note → State → Outcome → Result
after_info out s (done s') =
    returned 0 (out ++ located s'.log ∷ took ∷ []) (record s' { log = s.log ++ s'.log })
after_info out s (null_dereference s') = stopped out (null_dereference s')
after_info out s (use_after_free s') = stopped out (use_after_free s')
after_info out s (bug s') = stopped out (bug s')
after_info out s (unfinished s') = stopped out (unfinished s')

unfoldable pub huawei_user_space_mem_test_init :
    Paging → Lookup → Machine → (behind_current : List Task) → State → Result
huawei_user_space_mem_test_init mem k machine behind_current s =
    elim (vaddr_to_paddr mem k pid_1587 libc_addr behind_current) [
      | none ↦ stopped_before
      | some (paddr, out) ↦
          if paddr == 0
          then returned 1 (hello ∷ looked_up out ∷ address libc_addr paddr ∷ []) s
          else after_info (hello ∷ looked_up out ∷ []) s
              (get_process_info machine paddr (record s { log = [] }))
    ]

unfoldable pub huawei_user_space_mem_test_exit : List Note → List Note
huawei_user_space_mem_test_exit log = log ++ goodbye ∷ []
