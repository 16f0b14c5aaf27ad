-- ===== src/Overflow/Alloc.antt =====
-- The allocation functions of mem_overflow_check.c. Sizes and addresses wrap at 2 ^ 64 as they do in
-- C. The shift `1 << order` on an `int` is defined below order 31, far above the kernel's MAX_ORDER.
pub mod Failure
pub mod Dma
pub mod Steps
pub mod Tracked
use Prim.Native.Nat.{bit_or}
use linux_project.Base.{ℕ, ◌+◌, ◌*◌, ◌/◌, ◌%◌, ◌^◌, ◌==◌, if◌then◌else◌}
use linux_project.Kernel.{
  Addr, null, word, offset, back, page_size, gfp_kernel, gfp_dma, vmallocs, dmas, pages, exacts,
  by_kmalloc, by_vmalloc, by_dma, by_pages, by_narrow_pages, by_exact_pages, memory_failed,
  handle_failed, Cmd, pure, ◌>>=◌, ◌>>◌, allocate, kmalloc, printk,
}
use linux_project.Kernel.Pages.{page_bytes}
use linux_project.Overflow.{
  Zone, Answers, isosize_kmalloc, isosize_dma, isosize_vmalloc, isosize_gfps, isosize_page,
}
use linux_project.Overflow.Guard.{guard_block}

unfoldable pub skmalloc : Answers → ℕ → ℕ → Cmd Zone Addr
skmalloc ans size flags = do
  temp_ptr ← kmalloc ans.memory (offset size (2 * isosize_kmalloc)) flags
  if temp_ptr == null then (do printk (memory_failed by_kmalloc); pure null) else do
    let ret = offset temp_ptr isosize_kmalloc
    let second = offset (offset temp_ptr isosize_kmalloc) size
    guard_block by_kmalloc ans isosize_kmalloc temp_ptr second ret

unfoldable pub svmalloc : Answers → ℕ → Cmd Zone Addr
svmalloc ans size = do
  let ssize = offset size (2 * isosize_vmalloc)
  temp_addr ←
      allocate ans.memory (record { api = vmallocs; size = ssize; gfp = gfp_kernel; bus = 0 })
  if temp_addr == null then (do printk (memory_failed by_vmalloc); pure null) else do
    let ret = offset temp_addr isosize_vmalloc
    let second = offset (offset temp_addr isosize_vmalloc) size
    guard_block by_vmalloc ans isosize_vmalloc temp_addr second ret

-- `bus_handle` is where `kmalloc` puts the cell for the bus address, and `bus` is what
-- `dma_alloc_coherent` writes into that cell. The new `*dma_handle` is returned beside the pointer;
-- `old` is what it held. The cell is never given back.
unfoldable pub sdma_alloc_coherent :
    (bus_handle bus old : Addr) → Answers → ℕ → ℕ → Cmd Zone (Addr × Addr)
sdma_alloc_coherent bus_handle bus old ans size gfp = do
  dma_handle_temp ← kmalloc bus_handle 8 gfp_kernel
  if dma_handle_temp == null then (do printk handle_failed; pure (null, old)) else do
    let ssize = offset size (2 * isosize_dma)
    temp_addr ← allocate ans.memory (record { api = dmas; size = ssize; gfp = gfp; bus = bus })
    let dma_handle = offset bus isosize_dma
    if temp_addr == null then (do printk (memory_failed by_dma); pure (null, dma_handle)) else do
      let ret = offset temp_addr isosize_dma
      let second = offset (offset temp_addr isosize_dma) size
      p ← guard_block by_dma ans isosize_dma temp_addr second ret
      pure (p, dma_handle)

-- `__sget_free_pages` takes twice the pages, and makes each zone half as long as the memory.
unfoldable pub sget_free_pages : Answers → ℕ → ℕ → Cmd Zone Addr
sget_free_pages ans gfp_mask order = do
  let sorder = order + 1
  let half_need = page_bytes order / 2
  temp_addr ←
      allocate ans.memory
        (record { api = pages; size = page_bytes sorder; gfp = gfp_mask; bus = 0 })
  if temp_addr == null then (do printk (memory_failed by_pages); pure null) else do
    let ret = offset temp_addr half_need
    let second = offset (offset temp_addr (page_bytes order)) half_need
    guard_block by_pages ans half_need temp_addr second ret

unfoldable pub sget_free_page : Answers → ℕ → Cmd Zone Addr
sget_free_page ans gfp_mask = sget_free_pages ans gfp_mask 0

unfoldable pub sget_dma_pages : Answers → ℕ → ℕ → Cmd Zone Addr
sget_dma_pages ans gfp_mask order = sget_free_pages ans (bit_or gfp_mask gfp_dma) order

-- `__nget_free_pages` takes no more pages than asked for: the zones lie inside them.
unfoldable pub nget_free_pages : Answers → ℕ → ℕ → Cmd Zone Addr
nget_free_pages ans gfp_mask order = do
  temp_addr ←
      allocate ans.memory (record { api = pages; size = page_bytes order; gfp = gfp_mask; bus = 0 })
  if temp_addr == null then (do printk (memory_failed by_narrow_pages); pure null) else do
    let ret = offset temp_addr isosize_gfps
    let second = back (offset temp_addr (page_bytes order)) isosize_gfps
    guard_block by_narrow_pages ans isosize_gfps temp_addr second ret

unfoldable pub get_free_pages_ex : Answers → ℕ → ℕ → Cmd Zone Addr
get_free_pages_ex ans gfp_mask size = do
  let ssize = offset size (2 * isosize_page)
  temp_addr ← allocate ans.memory (record { api = exacts; size = ssize; gfp = gfp_mask; bus = 0 })
  if temp_addr == null then (do printk (memory_failed by_exact_pages); pure null) else do
    let ret = offset temp_addr isosize_page
    let second = offset (offset temp_addr size) isosize_page
    guard_block by_exact_pages ans isosize_page temp_addr second ret
