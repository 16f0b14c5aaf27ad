-- ===== src/Overflow/Alloc/Steps.antt =====
-- Each allocation function of mem_overflow_check.c, once the allocator has answered for the memory
-- itself, is `guard_block` on that memory.
use linux_project.Base.{ℕ, ◌+◌, ◌-◌, ◌*◌, ◌/◌, ◌≤◌, ◌<◌, ◌≡◌, ◌≢◌, ==_of_ne, arith}
use linux_project.Kernel.{
  Addr, null, word, offset, back, gfp_kernel, Block, kmallocs, vmallocs, pages, exacts, dmas,
  by_kmalloc, by_vmalloc, by_pages, by_narrow_pages, by_exact_pages, State,
}
use linux_project.Kernel.Pages.{page_bytes, page_bytes_facts}
use linux_project.Kernel.Steps.{allocate-ok}
use linux_project.Overflow.{
  Zone, Answers, isosize_kmalloc, isosize_dma, isosize_vmalloc, isosize_page,
}
use linux_project.Overflow.Alloc.{
  skmalloc, svmalloc, sget_free_pages, nget_free_pages, get_free_pages_ex,
}
use linux_project.Overflow.Guard.{guard_block}
use linux_project.Overflow.Invariant.Extend.{with_memory}

-- The state in which `guard_block` begins.
abbrev pub after_memory : Answers → Block → State Zone → State Zone
after_memory ans block s = record s { blocks = with_memory ans block s.blocks }

-- The block that each allocation function asks for.
abbrev pub kmalloc_request : ℕ → ℕ → Block
kmalloc_request size flags = record {
  api = kmallocs;
  size = size + 2 * isosize_kmalloc;
  gfp = flags;
  bus = 0;
}

abbrev pub vmalloc_request : ℕ → Block
vmalloc_request size = record {
  api = vmallocs;
  size = size + 2 * isosize_vmalloc;
  gfp = gfp_kernel;
  bus = 0;
}

abbrev pub dma_request : ℕ → ℕ → Addr → Block
dma_request size gfp bus = record {
  api = dmas;
  size = size + 2 * isosize_dma;
  gfp = gfp;
  bus = bus;
}

abbrev pub pages_request : ℕ → ℕ → Block
pages_request order gfp = record { api = pages; size = page_bytes order; gfp = gfp; bus = 0 }

abbrev pub exact_request : ℕ → ℕ → Block
exact_request size gfp = record { api = exacts; size = size + 2 * isosize_page; gfp = gfp; bus = 0 }

-- The sums that the functions form do not wrap where the block lies in the address space.
pub sums :
    (memory size guard : ℕ)
    → size + 2 * guard < word
    → memory + (size + 2 * guard) ≤ word
    → 0 < guard
    → (offset size (2 * guard) ≡ size + 2 * guard)
      × (offset memory guard ≡ memory + guard)
      × (offset (memory + guard) size ≡ memory + guard + size)
      × (offset memory size ≡ memory + size)
      × (offset (memory + size) guard ≡ memory + guard + size)
sums memory size guard small fits pos = omega arith

module _ (ans : Answers) (s : State Zone) (ne_null : ans.memory ≢ null) where
  pub skmalloc-guard_block :
      (size flags : ℕ)
      → size + 40 < word
      → ans.memory + (size + 40) ≤ word
      → skmalloc ans size flags s
        ≡ guard_block by_kmalloc ans 20 ans.memory
            (ans.memory + 20 + size)
            (ans.memory + 20)
            (after_memory ans (kmalloc_request size flags) s)
  unfolding skmalloc
  skmalloc-guard_block size flags small fits =
      let sum = sums ans.memory size 20 small fits (omega arith) in
      rw (
        sum.0,
        allocate-ok s ans.memory (kmalloc_request size flags) ne_null,
        ==_of_ne ans.memory null ne_null,
        sum.1,
        sum.2,
      )

  pub svmalloc-guard_block :
      (size : ℕ)
      → size + 40 < word
      → ans.memory + (size + 40) ≤ word
      → svmalloc ans size s
        ≡ guard_block by_vmalloc ans 20 ans.memory
            (ans.memory + 20 + size)
            (ans.memory + 20)
            (after_memory ans (vmalloc_request size) s)
  unfolding svmalloc
  svmalloc-guard_block size small fits =
      let sum = sums ans.memory size 20 small fits (omega arith) in
      rw (
        sum.0,
        allocate-ok s ans.memory (vmalloc_request size) ne_null,
        ==_of_ne ans.memory null ne_null,
        sum.1,
        sum.2,
      )

  pub get_free_pages_ex-guard_block :
      (size gfp_mask : ℕ)
      → size + 40 < word
      → ans.memory + (size + 40) ≤ word
      → get_free_pages_ex ans gfp_mask size s
        ≡ guard_block by_exact_pages ans 20 ans.memory
            (ans.memory + 20 + size)
            (ans.memory + 20)
            (after_memory ans (exact_request size gfp_mask) s)
  unfolding get_free_pages_ex
  get_free_pages_ex-guard_block size gfp_mask small fits =
      let sum = sums ans.memory size 20 small fits (omega arith) in
      rw (
        sum.0,
        allocate-ok s ans.memory (exact_request size gfp_mask) ne_null,
        ==_of_ne ans.memory null ne_null,
        sum.1,
        sum.3,
        sum.4,
      )

  pub sget_free_pages-guard_block :
      (order gfp_mask : ℕ)
      → order < 20
      → ans.memory + page_bytes (order + 1) ≤ word
      → sget_free_pages ans gfp_mask order s
        ≡ guard_block by_pages ans
            (page_bytes order / 2)
            ans.memory
            (ans.memory + page_bytes order + page_bytes order / 2)
            (ans.memory + (page_bytes order / 2))
            (after_memory ans (pages_request (order + 1) gfp_mask) s)
  unfolding sget_free_pages
  sget_free_pages-guard_block order gfp_mask small fits =
      let p = page_bytes_facts order small in
      let half = page_bytes order / 2 in
      let ret_sum : offset ans.memory half ≡ ans.memory + half = omega arith in
      let sum : offset (offset ans.memory (page_bytes order)) half
          ≡ ans.memory + page_bytes order + half =
        omega arith in
      rw (
        allocate-ok s ans.memory (pages_request (order + 1) gfp_mask) ne_null,
        ==_of_ne ans.memory null ne_null,
        sum,
        ret_sum,
      )

  pub nget_free_pages-guard_block :
      (order gfp_mask : ℕ)
      → order < 20
      → ans.memory + page_bytes order ≤ word
      → nget_free_pages ans gfp_mask order s
        ≡ guard_block by_narrow_pages ans 20 ans.memory
            (ans.memory + page_bytes order - 20)
            (ans.memory + 20)
            (after_memory ans (pages_request order gfp_mask) s)
  unfolding nget_free_pages
  nget_free_pages-guard_block order gfp_mask small fits =
      let p = page_bytes_facts order small in
      let ret_sum : offset ans.memory 20 ≡ ans.memory + 20 = omega arith in
      let sum : back (offset ans.memory (page_bytes order)) 20
          ≡ ans.memory + page_bytes order - 20 =
        omega arith in
      rw (
        allocate-ok s ans.memory (pages_request order gfp_mask) ne_null,
        ==_of_ne ans.memory null ne_null,
        sum,
        ret_sum,
      )
