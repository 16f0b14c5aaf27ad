-- ===== src/Rmap/Driver/Found.antt =====
-- What rmap_test.c comes to at a page that a process has mapped.
use linux_project.Base.{
  ℕ, ◌*◌, ◌/◌, ◌^◌, ◌<◌, ◌≡◌, ◌≢◌, refl, ap, subst, ◌∙◌, false, none, some, List, [], ◌∷◌, ◌==◌,
  ==_of_ne, arith,
}
use linux_project.Kernel.{null}
use linux_project.Rmap.{Page, Machine, related, process, State, use_after_free, get_process_info}
use linux_project.Rmap.Driver.{
  hello, looked_up, libc_addr, stopped, after_info, huawei_user_space_mem_test_init,
}
use linux_project.Rmap.Info.{banner}
use linux_project.Rmap.Locate.{last, Enough}
use linux_project.Rmap.Mapped.{
  IsOrdered, mapped_by, Ends, get_process_info-Ends, mappings-mapped_by,
}
use linux_project.Rmap.PrioTree.{Vma}
use linux_project.UserMem.{Paging, Mm, Task, page_4k}
use linux_project.UserMem.Driver.{Lookup, pid_1587}
use linux_project.UserMem.Driver.Found.{AreOffsets, first_of, vaddr_to_paddr-translate}
use linux_project.UserMem.Translate.{translate}

-- In page tables that the kernel's macros go down as the processor does: let the first task with the pid 1587
-- have an address space, in which the processor finds a page of 4 KB, of a frame other than the first, at the
-- address 0x7fe2d9f81000, and the kernel no huge one. Where the page of this frame has a mapping (not NULL)
-- and is in some mappings that the kernel keeps, the tree of its file is in order, `vmalloc` does not fail
-- and `task_head` is empty, the loading of the test comes to a read of memory that has been freed: of these
-- mappings the process of the last one is printed, and then `next` is read in the structure that has just
-- been given back.
pub huawei_user_space_mem_test_init-stopped :
    (mem : Paging) (k : Lookup) (machine : Machine) (behind_current : List Task) (t : Task)
    (mm : Mm) (pfn : ℕ) (v : Vma) (vs : List Vma) (s : State)
    → let page : Page = machine.pfn_to_page pfn in
      AreOffsets mem k
      → first_of pid_1587 behind_current ≡ some t
      → t.mm ≡ some mm
      → k.hugetlb_at mm libc_addr ≡ some false
      → translate mem mm.pgd libc_addr ≡ some (page_4k, pfn)
      → 0 < pfn
      → pfn < 2 ^ 52
      → page.mapping ≢ null
      → IsOrdered (machine.i_mmap page.mapping)
      → mapped_by machine page ≡ v ∷ vs
      → Enough machine.vmallocs (v ∷ vs)
      → s.task_head ≡ none
      → (s' : State) × (huawei_user_space_mem_test_init mem k machine behind_current s
          ≡ stopped (hello ∷ looked_up [] ∷ []) (use_after_free s'))
        × (s'.log ≡ banner page ∷ related ∷ process (last v vs).pid (last v vs).comm ∷ [])
unfolding huawei_user_space_mem_test_init after_info
huawei_user_space_mem_test_init-stopped mem k machine tasks t mm pfn v vs s offsets first has small
      there pos low mapping order maps enough empty =
    let paddr : ℕ = pfn * 2 ^ 12 in
    let its_frame : paddr / 2 ^ 12 ≡ pfn = omega arith in
    let (run, among) =
      vaddr_to_paddr-translate mem k offsets pid_1587 libc_addr tasks t mm pfn first has small there
        low in
    let known : (paddr == 0) ≡ false = ==_of_ne paddr 0 (omega arith) in
    let page : Page = machine.pfn_to_page pfn in
    let (s', ends, log) =
      subst
        (λ (n : ℕ).
          let page : Page = machine.pfn_to_page n in
          (page.mapping == null) ≡ false
          → IsOrdered (machine.i_mmap page.mapping)
          → mapped_by machine page ≡ v ∷ vs
          → Ends page (record s { log = [] }) (v ∷ vs)
              (get_process_info machine paddr (record s { log = [] })))
        its_frame
        (λ named order maps.
          get_process_info-Ends machine paddr (record s { log = [] }) (v ∷ vs) named
            (mappings-mapped_by machine (machine.pfn_to_page (paddr / 2 ^ 12)) order ∙ ap some maps)
            enough empty)
        (==_of_ne page.mapping null mapping) order maps in
    (s', rw (huawei_user_space_mem_test_init, run, known, ends) refl, log)
