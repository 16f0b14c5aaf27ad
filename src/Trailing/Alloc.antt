-- ===== src/Trailing/Alloc.antt =====
-- The allocation functions of mem_overflow_del_firstiso/code/mem_overflow_check.c. Sizes and addresses
-- wrap at 2 ^ 64 as they do in C; the shift `1 << order` on an `int` is defined below order 31.
use Prim.Native.Nat.{bit_or}
use linux_project.Base.{ℕ, ◌+◌, ◌==◌, if◌then◌else◌}
use linux_project.Kernel.{
  Addr, null, offset, back, to_int, gfp_kernel, gfp_dma, vmallocs, dmas, pages, exacts, by_kmalloc,
  by_vmalloc, by_dma, by_pages, by_narrow_pages, by_exact_pages, memory_failed, Cmd, pure, ◌>>=◌,
  ◌>>◌, allocate, kmalloc, printk,
}
use linux_project.Kernel.Pages.{page_bytes}
use linux_project.Trailing.{
  Zone, Answers, isosize_kmalloc, isosize_dma, isosize_vmalloc, isosize_gfps, isosize_page,
}
use linux_project.Trailing.Guard.{guard_block}

unfoldable pub skmalloc : Answers → ℕ → ℕ → Cmd Zone Addr
skmalloc ans size flags = do
  temp_ptr ← kmalloc ans.memory (offset size isosize_kmalloc) flags
  if temp_ptr == null
      then (do printk (memory_failed by_kmalloc); pure null)
      else guard_block by_kmalloc ans isosize_kmalloc (offset temp_ptr size) temp_ptr

unfoldable pub svmalloc : Answers → ℕ → Cmd Zone Addr
svmalloc ans size = do
  let ssize = offset size isosize_vmalloc
  temp_addr ←
      allocate ans.memory (record { api = vmallocs; size = ssize; gfp = gfp_kernel; bus = 0 })
  if temp_addr == null
      then (do printk (memory_failed by_vmalloc); pure null)
      else guard_block by_vmalloc ans isosize_vmalloc (offset temp_addr size) temp_addr

-- `bus` is the bus address that `dma_alloc_coherent` writes where the caller's `dma_handle` points.
unfoldable pub sdma_alloc_coherent : Addr → Answers → ℕ → ℕ → Cmd Zone Addr
sdma_alloc_coherent bus ans size gfp = do
  let ssize = offset size isosize_dma
  temp_addr ← allocate ans.memory (record { api = dmas; size = ssize; gfp = gfp; bus = bus })
  if temp_addr == null
      then (do printk (memory_failed by_dma); pure null)
      else guard_block by_dma ans isosize_dma (offset temp_addr size) temp_addr

-- `__sget_free_pages` takes twice the pages; the second half is the zone. Its length is kept in an
-- `int`, which holds it below order 19, far above the kernel's MAX_ORDER.
unfoldable pub sget_free_pages : Answers → ℕ → ℕ → Cmd Zone Addr
sget_free_pages ans gfp_mask order = do
  let sorder = order + 1
  let iso_size = to_int (page_bytes order)
  temp_addr ←
      allocate ans.memory
        (record { api = pages; size = page_bytes sorder; gfp = gfp_mask; bus = 0 })
  if temp_addr == null
      then (do printk (memory_failed by_pages); pure null)
      else guard_block by_pages ans iso_size (offset temp_addr (page_bytes order)) temp_addr

unfoldable pub sget_free_page : Answers → ℕ → Cmd Zone Addr
sget_free_page ans gfp_mask = sget_free_pages ans gfp_mask 0

unfoldable pub sget_dma_pages : Answers → ℕ → ℕ → Cmd Zone Addr
sget_dma_pages ans gfp_mask order = sget_free_pages ans (bit_or gfp_mask gfp_dma) order

-- `__nget_free_pages` takes no more pages than asked for: the zone lies inside them.
unfoldable pub nget_free_pages : Answers → ℕ → ℕ → Cmd Zone Addr
nget_free_pages ans gfp_mask order = do
  temp_addr ←
      allocate ans.memory (record { api = pages; size = page_bytes order; gfp = gfp_mask; bus = 0 })
  if temp_addr == null then (do printk (memory_failed by_narrow_pages); pure null) else do
    let iso_addr = back (offset temp_addr (page_bytes order)) isosize_gfps
    guard_block by_narrow_pages ans isosize_gfps iso_addr temp_addr

unfoldable pub get_free_pages_ex : Answers → ℕ → ℕ → Cmd Zone Addr
get_free_pages_ex ans gfp_mask size = do
  let ssize = offset size isosize_page
  temp_addr ← allocate ans.memory (record { api = exacts; size = ssize; gfp = gfp_mask; bus = 0 })
  if temp_addr == null
      then (do printk (memory_failed by_exact_pages); pure null)
      else guard_block by_exact_pages ans isosize_page (offset temp_addr size) temp_addr
