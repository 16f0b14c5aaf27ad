-- ===== src/Overflow/Release/Tracked.antt =====
-- Each release function of mem_overflow_check.c, given a pointer that its allocation function made.
use linux_project.Base.{
  ℕ, ◌+◌, ◌*◌, ◌/◌, ◌≡◌, refl, ap, sym, fun_ext, ◌∙◌, Bool, true, false, none, some, List, ◌∷◌,
  ◌++◌, ◌==◌, ==_of_ne, arith,
}
use linux_project.Kernel.{
  Addr, null, offset, back, Block, kmallocs, vmallocs, pages, exacts, is_from, is_sized, State, Run,
  ok, update, kfree, vfree, ◌>>◌, give_back,
}
use linux_project.Kernel.Steps.{give_back-ok}
use linux_project.Overflow.{
  Zone, isosize_kmalloc, isosize_dma, isosize_vmalloc, isosize_gfps, isosize_page,
}
use linux_project.Kernel.Pages.{page_bytes}
use linux_project.Overflow.Guard.{unguard}
use linux_project.Overflow.Guard.Unguard.{without_zones, unguard-ok}
use linux_project.Overflow.Invariant.{Guarded, IsLaidOut, Held, Inv, entries}
use linux_project.Overflow.Invariant.Frame.{without, held_of, Inv-without}
use linux_project.Overflow.Release.{
  skfree, svfree, is_dma, sdma_free_coherent, free_pages, sfree_pages, nfree_pages, free_pages_ex,
}

-- The state without the zones and the three blocks of `g`, where `gs` are left.
abbrev pub released : Guarded → List Guarded → State Zone → State Zone
released g gs s = record s { zones = entries gs; locked = false; blocks = without g s.blocks }

-- The call succeeds, removes exactly what belongs to `g`, and leaves the others tracked.
abbrev pub Releases : Guarded → List Guarded → State Zone → Run Zone (Unit {0}) → Type 0
Releases g gs s r = (r ≡ ok tt (released g gs s)) × Inv (released g gs s) gs

-- The pointer that the caller holds.
abbrev pub pointer : Guarded → Addr
pointer g = g.memory + g.guard

pointer_ne_null : (g : Guarded) → IsLaidOut g → (pointer g == null) ≡ false
pointer_ne_null g l = ground (arith, l)

back-pointer : (g : Guarded) → IsLaidOut g → back (pointer g) g.guard ≡ g.memory
back-pointer g l = omega arith

module _ {s : State Zone} (g : Guarded) (xs ys : List Guarded) (inv : Inv s (xs ++ g ∷ ys)) where
  held : Held s.blocks s.symbols g
  held = held_of g xs ys inv

  left : State Zone
  left = without_zones g s (entries (xs ++ ys))

  still_there : left.blocks g.memory ≡ some g.block
  unfolding left
  still_there = ground (arith, held.layout, held.memory_held)

  all_gone :
      ◌≡◌ {A = State Zone}
        (record left { blocks = update left.blocks g.memory none })
        (released g (xs ++ ys) s)
  unfolding left
  all_gone =
      ap (λ b. record s { zones = entries (xs ++ ys); locked = false; blocks = b })
        (fun_ext λ p. ground arith)

  released-Inv : Inv (released g (xs ++ ys) s) (xs ++ ys)
  released-Inv = Inv-without g xs ys inv (released g (xs ++ ys) s) refl (λ p. refl) refl refl

  give_back-Releases :
      (fits : Block → Bool)
      → fits g.block ≡ true
      → Releases g (xs ++ ys) s ((unguard g.memory >> give_back fits g.memory) s)
  unfolding left
  give_back-Releases fits f = (
    rw (unguard-ok g xs ys inv)
        (give_back-ok left fits g.memory g.block still_there f ∙ ap (ok tt) all_gone),
    released-Inv,
  )

  -- The address that a release function computes from the caller's pointer.
  iso1_addr_lem : (n : ℕ) → g.guard ≡ n → back (pointer g) n ≡ g.memory
  iso1_addr_lem n e = ap (back (pointer g)) (sym e) ∙ back-pointer g held.layout

  not_null : (pointer g == null) ≡ false
  not_null = pointer_ne_null g held.layout

  memory_not_null : (g.memory == null) ≡ false
  memory_not_null = ==_of_ne g.memory null held.layout.memory_ne_null

  -- Given a pointer that `skmalloc` returned, `skfree` succeeds: the two zones leave the list, the
  -- memory, the name buffer and the structures are given back, nothing else changes, and the other
  -- allocations stay tracked.
  pub skfree-Releases :
      g.guard ≡ isosize_kmalloc
      → is_from kmallocs g.block ≡ true
      → Releases g (xs ++ ys) s (skfree (pointer g) s)
  unfolding skfree kfree
  skfree-Releases size f =
      rw (not_null, iso1_addr_lem isosize_kmalloc size, memory_not_null)
        (give_back-Releases (is_from kmallocs) f)

  -- Given a pointer that `svmalloc` returned, `svfree` does the same with `vfree`.
  pub svfree-Releases :
      g.guard ≡ isosize_vmalloc
      → is_from vmallocs g.block ≡ true
      → Releases g (xs ++ ys) s (svfree (pointer g) s)
  unfolding svfree vfree
  svfree-Releases size f =
      rw (not_null, iso1_addr_lem isosize_vmalloc size, memory_not_null)
        (give_back-Releases (is_from vmallocs) f)

  pub sdma_free_coherent-Releases :
      (size : ℕ) (bus : Addr)
      → g.guard ≡ isosize_dma
      → is_dma (offset size (2 * isosize_dma)) (back bus isosize_dma) g.block ≡ true
      → Releases g (xs ++ ys) s (sdma_free_coherent size (pointer g) bus s)
  unfolding sdma_free_coherent
  sdma_free_coherent-Releases size bus wide f =
      rw (not_null, iso1_addr_lem isosize_dma wide)
        (give_back-Releases (is_dma (offset size (2 * isosize_dma)) (back bus isosize_dma)) f)

  -- Given the pointer and the order of `__sget_free_pages`, `sfree_pages` frees the doubled pages.
  pub sfree_pages-Releases :
      (order : ℕ)
      → g.guard ≡ page_bytes order / 2
      → is_sized pages (page_bytes (order + 1)) g.block ≡ true
      → Releases g (xs ++ ys) s (sfree_pages (pointer g) order s)
  unfolding sfree_pages free_pages
  sfree_pages-Releases order wide f =
      rw (not_null, iso1_addr_lem (page_bytes order / 2) wide, memory_not_null)
        (give_back-Releases (is_sized pages (page_bytes (order + 1))) f)

  -- Given the pointer and the order of `__nget_free_pages`, `nfree_pages` frees those pages.
  pub nfree_pages-Releases :
      (order : ℕ)
      → g.guard ≡ isosize_gfps
      → is_sized pages (page_bytes order) g.block ≡ true
      → Releases g (xs ++ ys) s (nfree_pages (pointer g) order s)
  unfolding nfree_pages free_pages
  nfree_pages-Releases order wide f =
      rw (not_null, iso1_addr_lem isosize_gfps wide, memory_not_null)
        (give_back-Releases (is_sized pages (page_bytes order)) f)

  -- Given the pointer and the size of `__get_free_pages_ex`, `free_pages_ex` frees the larger block.
  pub free_pages_ex-Releases :
      (size : ℕ)
      → g.guard ≡ isosize_page
      → is_sized exacts (offset size (2 * isosize_page)) g.block ≡ true
      → Releases g (xs ++ ys) s (free_pages_ex (pointer g) size s)
  unfolding free_pages_ex
  free_pages_ex-Releases size wide f =
      rw (not_null, iso1_addr_lem isosize_page wide)
        (give_back-Releases (is_sized exacts (offset size (2 * isosize_page))) f)
