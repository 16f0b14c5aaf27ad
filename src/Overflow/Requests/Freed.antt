-- ===== src/Overflow/Requests/Freed.antt =====
-- Each release function, given a pointer that its allocation function made.
use linux_project.Base.{◌≡◌, List, ◌∷◌, ◌++◌, arith}
use linux_project.Kernel.{offset, State}
use linux_project.Overflow.{Zone, isosize_dma}
use linux_project.Overflow.Invariant.{Guarded, Inv}
use linux_project.Overflow.Release.Tracked.{
  Releases, pointer, skfree-Releases, svfree-Releases, sdma_free_coherent-Releases,
  sfree_pages-Releases, nfree_pages-Releases, free_pages_ex-Releases,
}
use linux_project.Overflow.Requests.{
  Request, release, request_block, request_guard, IsSmall, kmalloc_of, vmalloc_of, dma_of, pages_of,
  narrow_pages_of, exact_pages_of,
}

-- A tracked allocation is one that the request made.
pub record Made (r : Request) (g : Guarded) : Type 0 where
  pub small : IsSmall r
  pub same_guard : g.guard ≡ request_guard r
  pub same_block : g.block ≡ request_block r

-- Given the pointer of a tracked allocation that the request made, its release function succeeds: both
-- zones leave the list, the memory, the name buffer and the structures are given back, nothing else
-- changes, and the other allocations stay tracked.
pub release-Releases :
    (r : Request) {s : State Zone} (g : Guarded) (xs ys : List Guarded)
    → Inv s (xs ++ g ∷ ys)
    → Made r g
    → Releases g (xs ++ ys) s (release r (pointer g) s)
unfolding release
release-Releases (kmalloc_of size flags) g xs ys inv m =
    skfree-Releases g xs ys inv m.same_guard (rw m.same_block)
release-Releases (vmalloc_of size) g xs ys inv m =
    svfree-Releases g xs ys inv m.same_guard (rw m.same_block)
release-Releases (dma_of size gfp bus bus_handle old) g xs ys inv m =
    let (small, wide) = m.small in
    sdma_free_coherent-Releases g xs ys inv size (offset bus isosize_dma) m.same_guard
      (rw m.same_block (ground arith))
release-Releases (pages_of order gfp_mask) g xs ys inv m =
    sfree_pages-Releases g xs ys inv order m.same_guard (rw m.same_block (ground arith))
release-Releases (narrow_pages_of order gfp_mask) g xs ys inv m =
    nfree_pages-Releases g xs ys inv order m.same_guard (rw m.same_block (ground arith))
release-Releases (exact_pages_of size gfp_mask) g xs ys inv m =
    let small = m.small in
    free_pages_ex-Releases g xs ys inv size m.same_guard (rw m.same_block (ground arith))
