-- ===== src/Overflow/Requests.antt =====
-- The six pairs of an allocation function and its release function in mem_overflow_check.c under one
-- description, so that a theorem can speak of all of them.
pub mod Detection
pub mod Failure
pub mod Freed
pub mod History
pub mod Roundtrip
use linux_project.Base.{
  ℕ, ◌+◌, ◌-◌, ◌*◌, ◌^◌, ◌/◌, ◌≤◌, ◌<◌, ◌≡◌, ◌≢◌, refl, ◌∙◌, some, List, ◌∷◌, ◌++◌, arith,
}
use linux_project.Kernel.{
  Addr, null, Block, Blocks, word, offset, update, by_dma, State, Cmd, Wrapper, by_kmalloc,
  by_vmalloc, by_pages, by_narrow_pages, by_exact_pages,
}
use linux_project.Kernel.Fresh.{IsFresh}
use linux_project.Kernel.Pages.{page_bytes, page_bytes_facts}
use linux_project.Overflow.{
  Zone, Answers, isosize_dma, isosize_kmalloc, isosize_vmalloc, isosize_gfps, isosize_page,
}
use linux_project.Overflow.Alloc.{
  skmalloc, svmalloc, sdma_alloc_coherent, sget_free_pages, nget_free_pages, get_free_pages_ex,
}
use linux_project.Overflow.Alloc.Dma.{drop_bus, with_handle, sdma_alloc_coherent-guard_block}
use linux_project.Overflow.Alloc.Steps.{
  dma_request, after_memory, kmalloc_request, vmalloc_request, pages_request, exact_request,
  skmalloc-guard_block, svmalloc-guard_block, sget_free_pages-guard_block,
  nget_free_pages-guard_block, get_free_pages_ex-guard_block,
}
use linux_project.Overflow.Alloc.Tracked.{Guards, guarded, guarded-Guards, guard_block-ok}
use linux_project.Overflow.Guard.{guard_block}
use linux_project.Overflow.Invariant.{Guarded, Inv, kmalloc_block}
use linux_project.Overflow.Invariant.Extend.{Serves, FitsZones, tracked, Inv-add}
use linux_project.Overflow.Release.{
  skfree, svfree, sdma_free_coherent, sfree_pages, nfree_pages, free_pages_ex,
}
use linux_project.Overflow.Release.Tracked.{
  Releases, pointer, skfree-Releases, svfree-Releases, sdma_free_coherent-Releases,
  sfree_pages-Releases, nfree_pages-Releases, free_pages_ex-Releases,
}

pub data Request : Type 0 where
  kmalloc_of : (size flags : ℕ) → Request
  vmalloc_of : (size : ℕ) → Request
  dma_of : (size gfp : ℕ) (bus bus_handle old : Addr) → Request
  pages_of : (order gfp_mask : ℕ) → Request
  narrow_pages_of : (order gfp_mask : ℕ) → Request
  exact_pages_of : (size gfp_mask : ℕ) → Request

-- Of `sdma_alloc_coherent`, `bus` and `bus_handle` are the kernel's answers, the bus address and the
-- cell that it is first put in, and `old` is what the caller's `*dma_handle` held.
unfoldable pub request : Request → Answers → Cmd Zone Addr
request (kmalloc_of size flags) ans = skmalloc ans size flags
request (vmalloc_of size) ans = svmalloc ans size
request (dma_of size gfp bus bus_handle old) ans =
    drop_bus (sdma_alloc_coherent bus_handle bus old ans size gfp)
request (pages_of order gfp_mask) ans = sget_free_pages ans gfp_mask order
request (narrow_pages_of order gfp_mask) ans = nget_free_pages ans gfp_mask order
request (exact_pages_of size gfp_mask) ans = get_free_pages_ex ans gfp_mask size

-- `sdma_free_coherent` is given the bus address that was handed out.
unfoldable pub release : Request → Addr → Cmd Zone (Unit {0})
release (kmalloc_of size flags) p = skfree p
release (vmalloc_of size) p = svfree p
release (dma_of size gfp bus bus_handle old) p = sdma_free_coherent size p (offset bus isosize_dma)
release (pages_of order gfp_mask) p = sfree_pages p order
release (narrow_pages_of order gfp_mask) p = nfree_pages p order
release (exact_pages_of size gfp_mask) p = free_pages_ex p size

-- The block that the request really takes, the length of its zones, and where the second one lies.
abbrev pub request_block : Request → Block
request_block (kmalloc_of size flags) = kmalloc_request size flags
request_block (vmalloc_of size) = vmalloc_request size
request_block (dma_of size gfp bus bus_handle old) = dma_request size gfp bus
request_block (pages_of order gfp_mask) = pages_request (order + 1) gfp_mask
request_block (narrow_pages_of order gfp_mask) = pages_request order gfp_mask
request_block (exact_pages_of size gfp_mask) = exact_request size gfp_mask

abbrev pub request_guard : Request → ℕ
request_guard (kmalloc_of size flags) = isosize_kmalloc
request_guard (vmalloc_of size) = isosize_vmalloc
request_guard (dma_of size gfp bus bus_handle old) = isosize_dma
request_guard (pages_of order gfp_mask) = page_bytes order / 2
request_guard (narrow_pages_of order gfp_mask) = isosize_gfps
request_guard (exact_pages_of size gfp_mask) = isosize_page

abbrev pub request_second : Request → Addr → Addr
request_second (kmalloc_of size flags) p = p + isosize_kmalloc + size
request_second (vmalloc_of size) p = p + isosize_vmalloc + size
request_second (dma_of size gfp bus bus_handle old) p = p + isosize_dma + size
request_second (pages_of order gfp_mask) p = p + page_bytes order + page_bytes order / 2
request_second (narrow_pages_of order gfp_mask) p = p + page_bytes order - isosize_gfps
request_second (exact_pages_of size gfp_mask) p = p + isosize_page + size

-- No size wraps, a bus address has 64 bits, and the shift by the order is defined.
abbrev pub IsSmall : Request → Type 0
IsSmall (kmalloc_of size flags) = size + 40 < word
IsSmall (vmalloc_of size) = size + 40 < word
IsSmall (dma_of size gfp bus bus_handle old) = (size + 40 < word) × (bus < word)
IsSmall (pages_of order gfp_mask) = order < 20
IsSmall (narrow_pages_of order gfp_mask) = order < 20
IsSmall (exact_pages_of size gfp_mask) = size + 40 < word

-- How many bytes there are for the caller between the zones. `__nget_free_pages` takes the zones out of
-- the pages that were asked for.
abbrev pub request_room : Request → ℕ
request_room (kmalloc_of size flags) = size
request_room (vmalloc_of size) = size
request_room (dma_of size gfp bus bus_handle old) = size
request_room (pages_of order gfp_mask) = page_bytes order
request_room (narrow_pages_of order gfp_mask) = page_bytes order - 2 * isosize_gfps
request_room (exact_pages_of size gfp_mask) = size

-- What is on record when the memory itself is asked for: `sdma_alloc_coherent` has made a cell by then.
abbrev pub ledger : Request → Blocks → Blocks
ledger (kmalloc_of size flags) b = b
ledger (vmalloc_of size) b = b
ledger (dma_of size gfp bus bus_handle old) b = update b bus_handle (some (kmalloc_block 8))
ledger (pages_of order gfp_mask) b = b
ledger (narrow_pages_of order gfp_mask) b = b
ledger (exact_pages_of size gfp_mask) b = b

abbrev pub prepared : Request → State Zone → State Zone
prepared r s = record s { blocks = ledger r s.blocks }

-- The cell is there, and is a fresh one.
abbrev pub Prepared : Request → Blocks → Type 0
Prepared (kmalloc_of size flags) b = Unit
Prepared (vmalloc_of size) b = Unit
Prepared (dma_of size gfp bus bus_handle old) b = IsFresh b bus_handle 8
Prepared (pages_of order gfp_mask) b = Unit
Prepared (narrow_pages_of order gfp_mask) b = Unit
Prepared (exact_pages_of size gfp_mask) b = Unit

-- Every allocator answers with a fresh block, and the caller's address is known.
abbrev pub Answered : Request → Answers → Blocks → Type 0
Answered r ans b = Prepared r b × Serves (ledger r b) ans (request_block r)

abbrev pub request_tracked : Request → Answers → Guarded
request_tracked r ans =
    tracked ans (request_block r) (request_guard r) (request_second r ans.memory)

abbrev pub request_end : Request → Answers → State Zone → State Zone
request_end r ans s =
    guarded ans (request_block r) (request_guard r) (request_second r ans.memory) (prepared r s)

-- The name that the failure messages carry.
abbrev pub request_wrapper : Request → Wrapper
request_wrapper (kmalloc_of size flags) = by_kmalloc
request_wrapper (vmalloc_of size) = by_vmalloc
request_wrapper (dma_of size gfp bus bus_handle old) = by_dma
request_wrapper (pages_of order gfp_mask) = by_pages
request_wrapper (narrow_pages_of order gfp_mask) = by_narrow_pages
request_wrapper (exact_pages_of size gfp_mask) = by_exact_pages

-- Once there is memory, what is left of each function is `guard_block` on it.
pub request-guard_block :
    (r : Request) (ans : Answers) (s : State Zone)
    → Prepared r s.blocks
    → ans.memory ≢ null
    → IsSmall r
    → ans.memory + (request_block r).size ≤ word
    → request r ans s
      ≡ guard_block
          (request_wrapper r)
          ans
          (request_guard r)
          ans.memory
          (request_second r ans.memory)
          (ans.memory + request_guard r)
          (after_memory ans (request_block r) (prepared r s))
unfolding request
request-guard_block (kmalloc_of size flags) ans s cell ne small fits =
    skmalloc-guard_block ans s ne size flags small fits
request-guard_block (vmalloc_of size) ans s cell ne small fits =
    svmalloc-guard_block ans s ne size small fits
request-guard_block (dma_of size gfp bus bus_handle old) ans s cell ne small fits =
    sdma_alloc_coherent-guard_block ans s size gfp bus bus_handle old cell.ne_null ne small.0 fits
request-guard_block (pages_of order gfp_mask) ans s cell ne small fits =
    sget_free_pages-guard_block ans s ne order gfp_mask small fits
request-guard_block (narrow_pages_of order gfp_mask) ans s cell ne small fits =
    nget_free_pages-guard_block ans s ne order gfp_mask small fits
request-guard_block (exact_pages_of size gfp_mask) ans s cell ne small fits =
    get_free_pages_ex-guard_block ans s ne size gfp_mask small fits

request-FitsZones :
    (r : Request) (ans : Answers)
    → IsSmall r
    → FitsZones ans (request_block r) (request_guard r) (request_second r ans.memory)
request-FitsZones (kmalloc_of size flags) ans small = omega arith
request-FitsZones (vmalloc_of size) ans small = omega arith
request-FitsZones (dma_of size gfp bus bus_handle old) ans small = omega arith
request-FitsZones (pages_of order gfp_mask) ans small =
    let p = page_bytes_facts order small in omega arith
request-FitsZones (narrow_pages_of order gfp_mask) ans small =
    let p = page_bytes_facts order small in omega arith
request-FitsZones (exact_pages_of size gfp_mask) ans small = omega arith

-- The tracked allocations stay as they are while the cell is made.
pub prepared-Inv :
    (r : Request) (gs : List Guarded) (s : State Zone)
    → Prepared r s.blocks
    → Inv s gs
    → Inv (prepared r s) gs
prepared-Inv (kmalloc_of size flags) gs s cell inv = inv
prepared-Inv (vmalloc_of size) gs s cell inv = inv
prepared-Inv (dma_of size gfp bus bus_handle old) gs s cell inv =
    Inv-add s (with_handle bus_handle s) gs bus_handle 8 (kmalloc_block 8) cell (omega arith) inv
      refl refl (λ q h. refl) inv.unlocked
prepared-Inv (pages_of order gfp_mask) gs s cell inv = inv
prepared-Inv (narrow_pages_of order gfp_mask) gs s cell inv = inv
prepared-Inv (exact_pages_of size gfp_mask) gs s cell inv = inv

-- Where every allocator answers with a fresh block, each of `skmalloc`, `svmalloc`,
-- `sdma_alloc_coherent`, `__sget_free_pages`, `__nget_free_pages` and `__get_free_pages_ex` returns the
-- address behind the first zone and tracks the allocation; both zones are filled with 'a' and no other
-- byte changes. Of `sdma_alloc_coherent` the cell for the bus address is left besides.
pub request-Guards :
    (r : Request) (gs : List Guarded) (ans : Answers) (s : State Zone)
    → Inv s gs
    → IsSmall r
    → Answered r ans s.blocks
    → Guards gs ans
        (request_block r)
        (request_guard r)
        (request_second r ans.memory)
        (prepared r s)
        (request r ans s)
request-Guards r gs ans s inv small (cell, serves) =
    let fits = request-FitsZones r ans small in
    guarded-Guards gs ans (request_block r) (request_guard r) (request_second r ans.memory)
      (prepared r s) (prepared-Inv r gs s cell inv) serves fits (request r ans s)
      (request-guard_block r ans s cell serves.memory_fresh.ne_null small serves.memory_fresh.fits
        ∙ guard_block-ok (request_wrapper r) ans (request_block r) (request_guard r)
            (request_second r ans.memory) (ans.memory + request_guard r) (prepared r s) serves fits
            inv.unlocked)
