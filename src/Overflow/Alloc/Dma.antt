-- ===== src/Overflow/Alloc/Dma.antt =====
-- `sdma_alloc_coherent` of mem_overflow_check.c beside the other allocation functions: it has a cell for
-- the bus address to allocate first, and hands out the bus address, too.
use linux_project.Base.{ℕ, ◌+◌, ◌*◌, ◌≤◌, ◌<◌, ◌≡◌, ◌≢◌, refl, some, [], ◌∷◌, ◌++◌, ==_of_ne, arith}
use linux_project.Kernel.{
  Addr, null, word, offset, by_dma, memory_failed, handle_failed, State, Run, ok, fault, Cmd, pure,
  and_then, ◌>>=◌, update, allocate,
}
use linux_project.Kernel.Steps.{allocate-ok, allocate-null}
use linux_project.Overflow.{Zone, Answers, isosize_dma}
use linux_project.Overflow.Alloc.{sdma_alloc_coherent}
use linux_project.Overflow.Alloc.Steps.{after_memory, dma_request, sums}
use linux_project.Overflow.Guard.{guard_block}
use linux_project.Overflow.Invariant.{kmalloc_block}

-- The call without the bus address that it hands out.
abbrev pub drop_bus : Cmd Zone (Addr × Addr) → Cmd Zone Addr
drop_bus c = c >>= λ r. pure r.0

-- The cell for the bus address has been made.
abbrev pub with_handle : Addr → State Zone → State Zone
with_handle p s = record s { blocks = update s.blocks p (some (kmalloc_block 8)) }

drop_bus-pure :
    (bus : Addr) (r : Run Zone Addr)
    → and_then {A = Addr × Addr} (and_then r (λ p. pure (p, bus))) (λ q. pure q.0) ≡ r
drop_bus-pure bus (ok p t) = refl
drop_bus-pure bus (fault f) = refl

module _ (ans : Answers) (s : State Zone) (size gfp bus bus_handle old : ℕ) where
  -- Once there is memory, what is left is `guard_block` on it.
  pub sdma_alloc_coherent-guard_block :
      bus_handle ≢ null
      → ans.memory ≢ null
      → size + 40 < word
      → ans.memory + (size + 40) ≤ word
      → drop_bus (sdma_alloc_coherent bus_handle bus old ans size gfp) s
        ≡ guard_block by_dma ans 20 ans.memory
            (ans.memory + 20 + size)
            (ans.memory + 20)
            (after_memory ans (dma_request size gfp bus) (with_handle bus_handle s))
  unfolding sdma_alloc_coherent
  sdma_alloc_coherent-guard_block cell ne small fits =
      let t : State Zone = with_handle bus_handle s in
      let sum = sums ans.memory size 20 small fits (omega arith) in
      rw
        (
          allocate-ok s bus_handle (kmalloc_block 8) cell,
          ==_of_ne bus_handle null cell,
          sum.0,
          allocate-ok t ans.memory (dma_request size gfp bus) ne,
          ==_of_ne ans.memory null ne,
          sum.1,
          sum.2,
        )
        (drop_bus-pure (offset bus 20) (
          guard_block by_dma ans 20 ans.memory (ans.memory + 20 + size) (ans.memory + 20)
            (after_memory ans (dma_request size gfp bus) t)))

  -- Without memory the cell stays, and the message.
  pub sdma_alloc_coherent-null :
      bus_handle ≢ null
      → ans.memory ≡ null
      → let t : State Zone = with_handle bus_handle s in
        drop_bus (sdma_alloc_coherent bus_handle bus old ans size gfp) s
        ≡ ok null (record t { log = t.log ++ memory_failed by_dma ∷ [] })
  unfolding sdma_alloc_coherent
  sdma_alloc_coherent-null cell e =
      let block = dma_request size gfp bus in
      let sized = record block { size = offset size (2 * isosize_dma) } in
      rw (
        allocate-ok s bus_handle (kmalloc_block 8) cell,
        ==_of_ne bus_handle null cell,
        e,
        allocate-null (with_handle bus_handle s) sized,
      )

  -- Without the cell only the message is left.
  pub sdma_alloc_coherent-handle_failed :
      bus_handle ≡ null
      → drop_bus (sdma_alloc_coherent bus_handle bus old ans size gfp) s
        ≡ ok null (record s { log = s.log ++ handle_failed ∷ [] })
  unfolding sdma_alloc_coherent allocate
  sdma_alloc_coherent-handle_failed e = rw e
