-- ===== src/Trailing/Requests/Steps.antt =====
-- Each allocation function of mem_overflow_del_firstiso/code/mem_overflow_check.c, once the allocator
-- has answered for the memory itself, is `guard_block` on that memory; `guard_block`, once `kmalloc`
-- has answered, enters the zone.
use linux_project.Base.{ℕ, ◌+◌, ◌-◌, ◌≤◌, ◌<◌, ◌≡◌, ◌≢◌, false, ◌∷◌, ==_of_ne, arith}
use linux_project.Kernel.{Addr, null, word, offset, back, to_int, Block, State, ok, update, Wrapper}
use linux_project.Kernel.Memory.{fill}
use linux_project.Kernel.Pages.{page_bytes, page_bytes_facts}
use linux_project.Kernel.Steps.{allocate-ok, spin_lock-ok, spin_unlock-ok}
use linux_project.Trailing.{Zone, Answers}
use linux_project.Trailing.Alloc.{
  skmalloc, svmalloc, sdma_alloc_coherent, sget_free_pages, nget_free_pages, get_free_pages_ex,
}
use linux_project.Trailing.Guard.{guard_block}
use linux_project.Trailing.Invariant.{entry, kmalloc_block}
use linux_project.Trailing.Invariant.Extend.{
  Serves, FitsZone, tracked, with_memory, with_buffer, with_node,
}
use linux_project.Trailing.Requests.{
  Request, kmalloc_of, vmalloc_of, dma_of, pages_of, narrow_pages_of, exact_pages_of, obtain,
  request_block, request_guard, request_room, request_wrapper, IsSmall,
}

-- The state in which `guard_block` begins.
abbrev pub after_memory : Answers → Block → State Zone → State Zone
after_memory ans block s = record s { blocks = with_memory ans block s.blocks }

-- The sums that the functions form do not wrap where the block lies in the address space.
sums :
    (memory size : ℕ)
    → size + 20 < word
    → memory + (size + 20) ≤ word
    → (offset size 20 ≡ size + 20) × (offset memory size ≡ memory + size)
sums memory size small fits = omega arith

-- Once there is memory, what is left of each function is `guard_block` on it.
pub obtain-guard_block :
    (r : Request) (ans : Answers) (s : State Zone)
    → ans.memory ≢ null
    → IsSmall r
    → ans.memory + (request_block r).size ≤ word
    → obtain r ans s
      ≡ guard_block
          (request_wrapper r)
          ans
          (request_guard r)
          (ans.memory + request_room r)
          ans.memory
          (after_memory ans (request_block r) s)
unfolding obtain skmalloc svmalloc sdma_alloc_coherent sget_free_pages nget_free_pages
    get_free_pages_ex
obtain-guard_block (kmalloc_of size flags) ans s ne small fits =
    let sum = sums ans.memory size small fits in
    rw (
      sum.0,
      allocate-ok s ans.memory (request_block (kmalloc_of size flags)) ne,
      ==_of_ne ans.memory null ne,
      sum.1,
    )
obtain-guard_block (vmalloc_of size) ans s ne small fits =
    let sum = sums ans.memory size small fits in
    rw (
      sum.0,
      allocate-ok s ans.memory (request_block (vmalloc_of size)) ne,
      ==_of_ne ans.memory null ne,
      sum.1,
    )
obtain-guard_block (dma_of size gfp bus) ans s ne small fits =
    let sum = sums ans.memory size small fits in
    rw (
      sum.0,
      allocate-ok s ans.memory (request_block (dma_of size gfp bus)) ne,
      ==_of_ne ans.memory null ne,
      sum.1,
    )
obtain-guard_block (exact_pages_of size gfp_mask) ans s ne small fits =
    let sum = sums ans.memory size small fits in
    rw (
      sum.0,
      allocate-ok s ans.memory (request_block (exact_pages_of size gfp_mask)) ne,
      ==_of_ne ans.memory null ne,
      sum.1,
    )
obtain-guard_block (pages_of order gfp_mask) ans s ne small fits =
    let p = page_bytes_facts order (omega arith) in
    let short : to_int (page_bytes order) ≡ page_bytes order = omega arith in
    let sum : offset ans.memory (page_bytes order) ≡ ans.memory + page_bytes order = omega arith in
    rw (
      allocate-ok s ans.memory (request_block (pages_of order gfp_mask)) ne,
      ==_of_ne ans.memory null ne,
      sum,
      short,
    )
obtain-guard_block (narrow_pages_of order gfp_mask) ans s ne small fits =
    let p = page_bytes_facts order (omega arith) in
    let sum : back (offset ans.memory (page_bytes order)) 20
        ≡ ans.memory + (page_bytes order - 20) =
      omega arith in
    rw (
      allocate-ok s ans.memory (request_block (narrow_pages_of order gfp_mask)) ne,
      ==_of_ne ans.memory null ne,
      sum,
    )

-- The state behind a successful call.
abbrev pub guarded : Answers → Block → ℕ → Addr → State Zone → State Zone
guarded ans block count zone s = record s {
  bytes = fill count 0 zone s.bytes;
  symbols = update s.symbols ans.buffer ans.caller;
  blocks = with_node ans block s.blocks;
  zones = entry (tracked ans block count zone) ∷ s.zones;
  locked = false;
}

module _ (w : Wrapper) (ans : Answers) (block : Block) (count : ℕ) (zone : Addr) (s : State Zone)
    (serves : Serves s.blocks ans block) (fits : FitsZone ans block count zone)
    (unlocked : s.locked ≡ false) where
  pub guard_block-ok :
      guard_block w ans count zone ans.memory (after_memory ans block s)
      ≡ ok ans.memory (guarded ans block count zone s)
  unfolding guard_block
  guard_block-ok =
      rw
        (
          allocate-ok
              (record s {
                bytes = fill count 0 zone s.bytes;
                blocks = with_memory ans block s.blocks;
              })
              ans.buffer (kmalloc_block 200) serves.buffer_fresh.ne_null,
          ==_of_ne ans.buffer null serves.buffer_fresh.ne_null,
          ==_of_ne ans.caller 0 serves.caller_known,
          allocate-ok
              (record s {
                bytes = fill count 0 zone s.bytes;
                symbols = update s.symbols ans.buffer ans.caller;
                blocks = with_buffer ans block s.blocks;
              })
              ans.node (kmalloc_block 56) serves.node_fresh.ne_null,
          ==_of_ne ans.node null serves.node_fresh.ne_null,
          spin_lock-ok
              (record s {
                bytes = fill count 0 zone s.bytes;
                symbols = update s.symbols ans.buffer ans.caller;
                blocks = with_node ans block s.blocks;
              })
              unlocked,
        )
        (rw (spin_unlock-ok, size))
    where
      size : to_int count ≡ count
      size = omega (arith, fits.short)
