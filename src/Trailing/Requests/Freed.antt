-- ===== src/Trailing/Requests/Freed.antt =====
-- The release functions of mem_overflow_del_firstiso/code/mem_overflow_check.c, given a pointer that
-- their allocation function made, and given any other one.
use linux_project.Base.{
  ◌≡◌, refl, ap, sym, fun_ext, ◌∙◌, Bool, true, false, none, some, List, [], ◌∷◌, ◌++◌, ◌==◌,
  ==_of_ne, arith,
}
use linux_project.Kernel.{
  Addr, Bytes, null, Block, State, Run, ok, update, ◌>>◌, give_back, kfree, vfree,
}
use linux_project.Kernel.Steps.{give_back-ok}
use linux_project.Trailing.{Zone, Answers}
use linux_project.Trailing.Guard.{unguard}
use linux_project.Trailing.Guard.Search.{without_zone, unguard-ok}
use linux_project.Trailing.Invariant.{Guarded, Held, Inv, entries}
use linux_project.Trailing.Invariant.Extend.{Serves, with_node}
use linux_project.Trailing.Invariant.Frame.{without, held_of, Inv-without, Inv-written}
use linux_project.Trailing.Release.{
  skfree, svfree, sdma_free_coherent, free_pages, sfree_pages, nfree_pages, free_pages_ex,
}
use linux_project.Trailing.Requests.{
  Request, kmalloc_of, vmalloc_of, dma_of, pages_of, narrow_pages_of, exact_pages_of, obtain,
  relinquish, request_block, IsSmall,
}
use linux_project.Trailing.Requests.Tracked.{request_tracked, request_end, obtain-Attaches}

-- The state without the zone and the three blocks of `g`, where `gs` are left.
abbrev pub released : Guarded → List Guarded → State Zone → State Zone
released g gs s = record s { zones = entries gs; locked = false; blocks = without g s.blocks }

-- The call succeeds, removes exactly what belongs to `g`, and leaves the others tracked.
abbrev pub Detaches : Guarded → List Guarded → State Zone → Run Zone (Unit {0}) → Type 0
Detaches g gs s result = (result ≡ ok tt (released g gs s)) × Inv (released g gs s) gs

module _ {s : State Zone} (g : Guarded) (xs ys : List Guarded) (inv : Inv s (xs ++ g ∷ ys)) where
  held : Held s.blocks s.symbols g
  held = held_of g xs ys inv

  left : State Zone
  left = without_zone g s (entries (xs ++ ys))

  still_there : left.blocks g.memory ≡ some g.block
  unfolding left
  still_there = ground (arith, held.layout, held.memory_held)

  all_gone :
      ◌≡◌ {A = State Zone}
        (record left { blocks = update left.blocks g.memory none })
        (released g (xs ++ ys) s)
  unfolding left
  all_gone =
      ap (λ b. record s { zones = entries (xs ++ ys); locked = false; blocks = b })
        (fun_ext λ p. ground arith)

  give_back-Detaches :
      (fits : Block → Bool)
      → fits g.block ≡ true
      → Detaches g (xs ++ ys) s ((unguard g.memory >> give_back fits g.memory) s)
  unfolding left
  give_back-Detaches fits f = (
    rw (unguard-ok g xs ys inv)
        (give_back-ok left fits g.memory g.block still_there f ∙ ap (ok tt) all_gone),
    Inv-without g xs ys inv (released g (xs ++ ys) s) refl (λ p. refl) refl refl,
  )

  not_null : (g.memory == null) ≡ false
  not_null = ==_of_ne g.memory null held.layout.memory_ne_null

  -- Given the pointer of a tracked allocation that the request made, its release function succeeds:
  -- the zone leaves the list, the memory, the name buffer and the structure are given back, nothing
  -- else changes, and the other allocations stay tracked.
  pub relinquish-Detaches :
      (r : Request)
      → IsSmall r
      → g.block ≡ request_block r
      → Detaches g (xs ++ ys) s (relinquish r g.memory s)
  unfolding relinquish skfree svfree sdma_free_coherent sfree_pages nfree_pages free_pages_ex kfree
      vfree free_pages
  relinquish-Detaches (kmalloc_of size flags) small same =
      rw not_null (give_back-Detaches _ (rw same))
  relinquish-Detaches (vmalloc_of size) small same = rw not_null (give_back-Detaches _ (rw same))
  relinquish-Detaches (dma_of size gfp bus) small same =
      rw not_null (give_back-Detaches _ (rw same (ground arith)))
  relinquish-Detaches (pages_of order gfp_mask) small same =
      rw not_null (give_back-Detaches _ (rw same (ground arith)))
  relinquish-Detaches (narrow_pages_of order gfp_mask) small same =
      rw not_null (give_back-Detaches _ (rw same (ground arith)))
  relinquish-Detaches (exact_pages_of size gfp_mask) small same =
      rw not_null (give_back-Detaches _ (rw same (ground arith)))

-- The three fresh blocks are the only ones that are new.
without-with_node :
    (r : Request) (ans : Answers) (s : State Zone)
    → Serves s.blocks ans (request_block r)
    → (p : Addr)
    → without (request_tracked r ans) (with_node ans (request_block r) s.blocks) p ≡ s.blocks p
without-with_node r ans s serves p =
    ground (arith, serves.memory_fresh.unused, serves.buffer_fresh.unused, serves.node_fresh.unused)

-- Whatever is written into memory between the two calls, an allocation function and then its release
-- function, on the pointer that was returned, leave the zone list and the ledger of blocks as they
-- were, and the invariant holds.
pub relinquish-obtain :
    (r : Request) (gs : List Guarded) (ans : Answers) (s : State Zone) (written : Bytes)
    → Inv s gs
    → IsSmall r
    → Serves s.blocks ans (request_block r)
    → let t : State Zone = request_end r ans s in
      let u : State Zone = released (request_tracked r ans) gs (record t { bytes = written }) in
      (obtain r ans s ≡ ok ans.memory t)
      × (relinquish r ans.memory (record t { bytes = written }) ≡ ok tt u)
      × (u.zones ≡ s.zones)
      × ((p : Addr) → u.blocks p ≡ s.blocks p)
      × Inv u gs
relinquish-obtain r gs ans s written inv small serves =
    let made = obtain-Attaches r gs ans s inv small serves in
    let t : State Zone = request_end r ans s in
    let g = request_tracked r ans in
    let freed = relinquish-Detaches g [] gs (Inv-written t (g ∷ gs) written made.1) r small refl in
    (made.0, freed.0, sym inv.linked, without-with_node r ans s serves, freed.1)
