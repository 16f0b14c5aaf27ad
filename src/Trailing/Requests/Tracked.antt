-- ===== src/Trailing/Requests/Tracked.antt =====
-- The allocation functions of mem_overflow_del_firstiso/code/mem_overflow_check.c when every allocator
-- answers.
use linux_project.Base.{◌+◌, ◌≡◌, refl, ◌∙◌, List, ◌∷◌, if◌then◌else◌, arith}
use linux_project.Kernel.{Addr, State, Run, ok}
use linux_project.Kernel.Memory.{mark, within, fill-eq}
use linux_project.Kernel.Pages.{page_bytes_facts}
use linux_project.Trailing.{Zone, Answers}
use linux_project.Trailing.Invariant.{Guarded, Inv}
use linux_project.Trailing.Invariant.Extend.{Serves, FitsZone, tracked, Inv-extend}
use linux_project.Trailing.Requests.{
  Request, kmalloc_of, vmalloc_of, dma_of, pages_of, narrow_pages_of, exact_pages_of, obtain,
  request_block, request_guard, request_room, request_wrapper, IsSmall,
}
use linux_project.Trailing.Requests.Steps.{guarded, guard_block-ok, obtain-guard_block}

abbrev pub request_tracked : Request → Answers → Guarded
request_tracked r ans =
    tracked ans (request_block r) (request_guard r) (ans.memory + request_room r)

abbrev pub request_end : Request → Answers → State Zone → State Zone
request_end r ans s =
    guarded ans (request_block r) (request_guard r) (ans.memory + request_room r) s

request-FitsZone :
    (r : Request) (ans : Answers)
    → IsSmall r
    → FitsZone ans (request_block r) (request_guard r) (ans.memory + request_room r)
request-FitsZone (kmalloc_of size flags) ans small = omega arith
request-FitsZone (vmalloc_of size) ans small = omega arith
request-FitsZone (dma_of size gfp bus) ans small = omega arith
request-FitsZone (pages_of order gfp_mask) ans small =
    let p = page_bytes_facts order (omega arith) in omega arith
request-FitsZone (narrow_pages_of order gfp_mask) ans small =
    let p = page_bytes_facts order (omega arith) in omega arith
request-FitsZone (exact_pages_of size gfp_mask) ans small = omega arith

-- The call returns the block's own address; the allocation is tracked; every byte of the zone behind
-- the caller's memory is 'a', and no other byte has changed.
abbrev pub Attaches : Request → List Guarded → Answers → State Zone → Run Zone Addr → Type 0
Attaches r gs ans s result =
    (result ≡ ok ans.memory (request_end r ans s))
    × Inv (request_end r ans s) (request_tracked r ans ∷ gs)
    × ((q : Addr)
        → (request_end r ans s).bytes q
          ≡ (if within (ans.memory + request_room r) (request_guard r) q then mark else s.bytes q))

-- Where every allocator answers with a fresh block, each of the six allocation functions returns the
-- block's own address and tracks the allocation; the zone behind the caller's memory is filled with
-- 'a' and no other byte changes.
pub obtain-Attaches :
    (r : Request) (gs : List Guarded) (ans : Answers) (s : State Zone)
    → Inv s gs
    → IsSmall r
    → Serves s.blocks ans (request_block r)
    → Attaches r gs ans s (obtain r ans s)
obtain-Attaches r gs ans s inv small serves =
    let fits = request-FitsZone r ans small in
    let zone = ans.memory + request_room r in
    (
      obtain-guard_block r ans s serves.memory_fresh.ne_null small serves.memory_fresh.fits
          ∙ guard_block-ok (request_wrapper r) ans (request_block r) (request_guard r) zone s serves
              fits inv.unlocked,
      Inv-extend s.blocks s.symbols ans (request_block r) (request_guard r) zone serves fits gs s
          (request_end r ans s) refl refl inv refl refl refl refl,
      λ q.
          fill-eq (request_guard r) 0 zone s.bytes q (omega (arith, fits, serves.memory_fresh.fits))
          ∙ ground arith,
    )
