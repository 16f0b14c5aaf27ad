-- ===== src/UserMem/Mapped.antt =====
-- `walk_pgd` of huawei_user_space_mem.c against the translation of addresses.
use linux_project.Base.{ℕ, ◌/◌, ◌%◌, ◌^◌, ◌<◌, ◌≡◌, ap, ◌∙◌, some, List, ◌++◌, arith}
use linux_project.Kernel.{Addr}
use linux_project.UserMem.{Paging, Task, State, Line, PageSize, page_4k, page_2m, page_1g, walk_pgd}
use linux_project.UserMem.Address.{indices_of, of_indices, top_index}
use linux_project.UserMem.Reports.{Reports, Reports-weaken, Shows}
use linux_project.UserMem.Translate.{bytes, translate, IsMapped}
use linux_project.UserMem.Upper.{walk_pgd-Reports}
use linux_project.UserMem.Walk.{at_indices, IsStart}

-- The start of a page has the indices of a start, and the other way round.
aligned :
    (size : PageSize) (g u m e v : ℕ)
    → g < 256
    → u < 512
    → m < 512
    → e < 512
    → IsStart size m e
    → v ≡ at_indices g u m e
    → v % bytes size ≡ 0
aligned page_4k g u m e v hg hu hm he start same = omega arith
aligned page_2m g u m e v hg hu hm he start same = omega arith
aligned page_1g g u m e v hg hu hm he start same = omega (arith, start)

starts :
    (size : PageSize) (v : ℕ)
    → v % bytes size ≡ 0
    → IsStart size (v / 2 ^ 21 % 512) (v / 2 ^ 12 % 512)
starts page_4k v a = tt
starts page_2m v a = omega arith
starts page_1g v a = omega arith

page_aligned : (size : PageSize) (v : ℕ) → v % bytes size ≡ 0 → v % 2 ^ 12 ≡ 0
page_aligned page_4k v a = a
page_aligned page_2m v a = omega arith
page_aligned page_1g v a = omega arith

pub walk_pgd-IsMapped :
    (mem : Paging) (cr3 : Addr) (paddr : ℕ) (t : Task)
    → Reports paddr t (walk_pgd mem cr3 paddr) (IsMapped mem cr3 paddr)
walk_pgd-IsMapped mem cr3 paddr t =
    Reports-weaken
      (λ size v (g, u, m, e, hg, hu, hm, he, h, start, same).
        let (low, dg, du, dm, de, _) = indices_of g u m e hg hu hm he in
        (
          omega (arith, same, low),
          aligned size g u m e v hg hu hm he start same,
          ap (translate mem cr3) same ∙ rw (dg, du, dm, de) h,
        ))
      (λ size v (low, a, h). (
        v / 2 ^ 39 % 512,
        v / 2 ^ 30 % 512,
        v / 2 ^ 21 % 512,
        v / 2 ^ 12 % 512,
        top_index v low,
        omega arith,
        omega arith,
        omega arith,
        h,
        starts size v a,
        of_indices v low (page_aligned size v a),
      ))
      (walk_pgd-Reports mem paddr t cr3)

-- Whatever the page tables hold, `walk_pgd` ends without a fault while `now_task` is set and changes
-- nothing but what is printed: in ascending order, and so each once, the user-space addresses at which
-- a page of 4 KB, 2 MB or 1 GB starts that the processor's translation takes to the page that holds the
-- physical address.
pub walk_pgd_lem :
    (mem : Paging) (cr3 : Addr) (paddr : ℕ) (t : Task) (s : State)
    → s.now_task ≡ some t
    → (ls : List Line) × (walk_pgd mem cr3 paddr s ≡ some (record s { log = s.log ++ ls }))
      × Shows paddr t (IsMapped mem cr3 paddr) ls
walk_pgd_lem mem cr3 paddr t s now = walk_pgd-IsMapped mem cr3 paddr t s now
