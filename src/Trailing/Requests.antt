-- ===== src/Trailing/Requests.antt =====
-- The pairs of an allocation function and its release function in
-- mem_overflow_del_firstiso/code/mem_overflow_check.c under one description, so that a theorem can
-- speak of all of them.
pub mod Steps
pub mod Tracked
pub mod Freed
pub mod Detection
pub mod Failure
use linux_project.Base.{ℕ, ◌+◌, ◌-◌, ◌<◌}
use linux_project.Kernel.{
  Addr, Block, word, gfp_kernel, kmallocs, vmallocs, dmas, pages, exacts, Cmd, Wrapper, by_kmalloc,
  by_vmalloc, by_dma, by_pages, by_narrow_pages, by_exact_pages,
}
use linux_project.Kernel.Pages.{page_bytes}
use linux_project.Trailing.{
  Zone, Answers, isosize_kmalloc, isosize_dma, isosize_vmalloc, isosize_gfps, isosize_page,
}
use linux_project.Trailing.Alloc.{
  skmalloc, svmalloc, sdma_alloc_coherent, sget_free_pages, nget_free_pages, get_free_pages_ex,
}
use linux_project.Trailing.Release.{
  skfree, svfree, sdma_free_coherent, sfree_pages, nfree_pages, free_pages_ex,
}

pub data Request : Type 0 where
  kmalloc_of : (size flags : ℕ) → Request
  vmalloc_of : (size : ℕ) → Request
  dma_of : (size gfp : ℕ) → (bus : Addr) → Request
  pages_of : (order gfp_mask : ℕ) → Request
  narrow_pages_of : (order gfp_mask : ℕ) → Request
  exact_pages_of : (size gfp_mask : ℕ) → Request

unfoldable pub obtain : Request → Answers → Cmd Zone Addr
obtain (kmalloc_of size flags) ans = skmalloc ans size flags
obtain (vmalloc_of size) ans = svmalloc ans size
obtain (dma_of size gfp bus) ans = sdma_alloc_coherent bus ans size gfp
obtain (pages_of order gfp_mask) ans = sget_free_pages ans gfp_mask order
obtain (narrow_pages_of order gfp_mask) ans = nget_free_pages ans gfp_mask order
obtain (exact_pages_of size gfp_mask) ans = get_free_pages_ex ans gfp_mask size

unfoldable pub relinquish : Request → Addr → Cmd Zone (Unit {0})
relinquish (kmalloc_of size flags) p = skfree p
relinquish (vmalloc_of size) p = svfree p
relinquish (dma_of size gfp bus) p = sdma_free_coherent size p bus
relinquish (pages_of order gfp_mask) p = sfree_pages p order
relinquish (narrow_pages_of order gfp_mask) p = nfree_pages p order
relinquish (exact_pages_of size gfp_mask) p = free_pages_ex p size

-- The block that the request really takes, the length of its zone, and how far into the block the
-- zone lies, which is what the caller may use.
abbrev pub request_block : Request → Block
request_block (kmalloc_of size flags) = record {
  api = kmallocs;
  size = size + isosize_kmalloc;
  gfp = flags;
  bus = 0;
}
request_block (vmalloc_of size) = record {
  api = vmallocs;
  size = size + isosize_vmalloc;
  gfp = gfp_kernel;
  bus = 0;
}
request_block (dma_of size gfp bus) = record {
  api = dmas;
  size = size + isosize_dma;
  gfp = gfp;
  bus = bus;
}
request_block (pages_of order gfp_mask) = record {
  api = pages;
  size = page_bytes (order + 1);
  gfp = gfp_mask;
  bus = 0;
}
request_block (narrow_pages_of order gfp_mask) = record {
  api = pages;
  size = page_bytes order;
  gfp = gfp_mask;
  bus = 0;
}
request_block (exact_pages_of size gfp_mask) = record {
  api = exacts;
  size = size + isosize_page;
  gfp = gfp_mask;
  bus = 0;
}

abbrev pub request_guard : Request → ℕ
request_guard (kmalloc_of size flags) = isosize_kmalloc
request_guard (vmalloc_of size) = isosize_vmalloc
request_guard (dma_of size gfp bus) = isosize_dma
request_guard (pages_of order gfp_mask) = page_bytes order
request_guard (narrow_pages_of order gfp_mask) = isosize_gfps
request_guard (exact_pages_of size gfp_mask) = isosize_page

abbrev pub request_room : Request → ℕ
request_room (kmalloc_of size flags) = size
request_room (vmalloc_of size) = size
request_room (dma_of size gfp bus) = size
request_room (pages_of order gfp_mask) = page_bytes order
request_room (narrow_pages_of order gfp_mask) = page_bytes order - isosize_gfps
request_room (exact_pages_of size gfp_mask) = size

-- No size wraps, and the length of the zone is an `int`.
abbrev pub IsSmall : Request → Type 0
IsSmall (kmalloc_of size flags) = size + 20 < word
IsSmall (vmalloc_of size) = size + 20 < word
IsSmall (dma_of size gfp bus) = size + 20 < word
IsSmall (pages_of order gfp_mask) = order < 19
IsSmall (narrow_pages_of order gfp_mask) = order < 19
IsSmall (exact_pages_of size gfp_mask) = size + 20 < word

-- The name that the failure messages carry.
abbrev pub request_wrapper : Request → Wrapper
request_wrapper (kmalloc_of size flags) = by_kmalloc
request_wrapper (vmalloc_of size) = by_vmalloc
request_wrapper (dma_of size gfp bus) = by_dma
request_wrapper (pages_of order gfp_mask) = by_pages
request_wrapper (narrow_pages_of order gfp_mask) = by_narrow_pages
request_wrapper (exact_pages_of size gfp_mask) = by_exact_pages
