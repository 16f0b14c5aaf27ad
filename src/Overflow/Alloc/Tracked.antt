-- ===== src/Overflow/Alloc/Tracked.antt =====
-- Each allocation function of mem_overflow_check.c when every allocator answers.
use linux_project.Base.{
  ℕ, ◌+◌, ◌<◌, ◌≡◌, refl, false, ◌||◌, some, List, ◌∷◌, ==_of_ne, if◌then◌else◌, arith,
}
use linux_project.Kernel.{
  Addr, null, word, offset, to_int, Block, by_dma, State, Run, ok, update, Wrapper,
}
use linux_project.Overflow.Alloc.Steps.{after_memory, dma_request, sums}
use linux_project.Kernel.Fresh.{IsFresh}
use linux_project.Kernel.Memory.{mark, within, fill_both, fill_both-eq}
use linux_project.Kernel.Steps.{allocate-ok, spin_lock-ok, spin_unlock-ok}
use linux_project.Overflow.{Zone, Answers, isosize_dma, sizeof_iso_zone}
use linux_project.Overflow.Alloc.{sdma_alloc_coherent}
use linux_project.Overflow.Alloc.Dma.{with_handle}
use linux_project.Overflow.Guard.{guard_block}
use linux_project.Overflow.Invariant.{Guarded, Inv, before, behind, kmalloc_block}
use linux_project.Overflow.Invariant.Extend.{
  Serves, FitsZones, tracked, with_memory, with_buffer, with_zones, with_zones-keeps, Inv-add,
  Inv-extend,
}

-- The state behind a successful call.
abbrev pub guarded : Answers → Block → ℕ → Addr → State Zone → State Zone
guarded ans block count second s = record s {
  bytes = fill_both count 0 ans.memory second s.bytes;
  symbols = update s.symbols ans.buffer ans.caller;
  blocks = with_zones ans block s.blocks;
  zones =
      behind (tracked ans block count second) ∷ before (tracked ans block count second) ∷ s.zones;
  locked = false;
}

module _ (w : Wrapper) (ans : Answers) (block : Block) (count : ℕ) (second ret : Addr)
    (s : State Zone) (serves : Serves s.blocks ans block) (fits : FitsZones ans block count second)
    (unlocked : s.locked ≡ false) where
  pub guard_block-ok :
      guard_block w ans count ans.memory second ret (after_memory ans block s)
      ≡ ok ret (guarded ans block count second s)
  unfolding guard_block
  guard_block-ok =
      rw
        (
          allocate-ok
              (record s {
                bytes = fill_both count 0 ans.memory second s.bytes;
                blocks = with_memory ans block s.blocks;
              })
              ans.buffer (kmalloc_block 200) serves.buffer_fresh.ne_null,
          ==_of_ne ans.buffer null serves.buffer_fresh.ne_null,
          ==_of_ne ans.caller 0 serves.caller_known,
          allocate-ok
              (record s {
                bytes = fill_both count 0 ans.memory second s.bytes;
                symbols = update s.symbols ans.buffer ans.caller;
                blocks = with_buffer ans block s.blocks;
              })
              ans.zones (kmalloc_block 96) serves.zones_fresh.ne_null,
          ==_of_ne ans.zones null serves.zones_fresh.ne_null,
          spin_lock-ok
              (record s {
                bytes = fill_both count 0 ans.memory second s.bytes;
                symbols = update s.symbols ans.buffer ans.caller;
                blocks = with_zones ans block s.blocks;
              })
              unlocked,
        )
        (rw (spin_unlock-ok, place, size))
    where
      place : offset ans.zones sizeof_iso_zone ≡ ans.zones + sizeof_iso_zone
      place = omega (arith, serves.zones_fresh.fits)

      size : to_int count ≡ count
      size = omega (arith, fits.short)

-- The call returns the address behind the first zone; the allocation is tracked; every byte of both
-- zones is 'a', and no other byte has changed.
abbrev pub Guards : List Guarded → Answers → Block → ℕ → Addr → State Zone → Run Zone Addr → Type 0
Guards gs ans block count second s r =
    (r ≡ ok (ans.memory + count) (guarded ans block count second s))
    × Inv (guarded ans block count second s) (tracked ans block count second ∷ gs)
    × ((q : Addr)
        → (guarded ans block count second s).bytes q
          ≡ (if within ans.memory count q || within second count q then mark else s.bytes q))

module _ (gs : List Guarded) (ans : Answers) (block : Block) (count : ℕ) (second : Addr)
    (s : State Zone) (inv : Inv s gs) (serves : Serves s.blocks ans block)
    (fits : FitsZones ans block count second) where
  pub guarded-Guards :
      (r : Run Zone Addr)
      → r ≡ ok (ans.memory + count) (guarded ans block count second s)
      → Guards gs ans block count second s r
  guarded-Guards r e = (
    e,
    Inv-extend s.blocks s.symbols ans block count second serves fits gs s
        (guarded ans block count second s) refl refl inv refl refl refl refl,
    λ q.
        rw
          (fill_both-eq count 0 ans.memory second s.bytes q
            (omega (arith, fits, serves.memory_fresh.fits))
            (omega (arith, fits, serves.memory_fresh.fits)))
          (ground arith),
  )

module _ (gs : List Guarded) (ans : Answers) (s : State Zone) (inv : Inv s gs) where
  -- `sdma_alloc_coherent` tracks memory from `dma_alloc_coherent` in the same way, and moves the bus
  -- address past the first zone; the cell that it took the bus address in is never given back.
  pub sdma_alloc_coherent-Guards :
      (bus_handle bus old size gfp : ℕ)
      → size + 40 < word
      → IsFresh s.blocks bus_handle 8
      → let t : State Zone = with_handle bus_handle s in
        Serves t.blocks ans (dma_request size gfp bus)
        → let second : Addr = ans.memory + isosize_dma + size in
          let block : Block = dma_request size gfp bus in
          let end : State Zone = guarded ans block isosize_dma second t in
          (sdma_alloc_coherent bus_handle bus old ans size gfp s
            ≡ ok (ans.memory + isosize_dma, offset bus isosize_dma) end)
          × Inv end (tracked ans block isosize_dma second ∷ gs)
          × (end.blocks bus_handle ≡ some (kmalloc_block 8))
  unfolding sdma_alloc_coherent
  sdma_alloc_coherent-Guards bus_handle bus old size gfp small fresh serves =
      let block = dma_request size gfp bus in
      let t : State Zone = with_handle bus_handle s in
      let second = ans.memory + 20 + size in
      let sum = sums ans.memory size 20 small serves.memory_fresh.fits (omega arith) in
      let fits : FitsZones ans block 20 second = omega arith in
      (
        rw (
          allocate-ok s bus_handle (kmalloc_block 8) fresh.ne_null,
          ==_of_ne bus_handle null fresh.ne_null,
          sum.0,
          allocate-ok t ans.memory block serves.memory_fresh.ne_null,
          ==_of_ne ans.memory null serves.memory_fresh.ne_null,
          sum.1,
          sum.2,
          guard_block-ok by_dma ans block 20 second (ans.memory + 20) t serves fits inv.unlocked,
        ),
        Inv-extend t.blocks t.symbols ans block 20 second serves fits gs t
            (guarded ans block 20 second t) refl refl
            (Inv-add s t gs bus_handle 8 (kmalloc_block 8) fresh (omega arith) inv refl refl
              (λ q h. refl) inv.unlocked)
            refl refl refl refl,
        with_zones-keeps t.blocks ans block bus_handle (kmalloc_block 8) serves (omega arith)
            (omega arith) (ground arith),
      )
