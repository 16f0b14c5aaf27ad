-- ===== src/Overflow/Requests/Detection.antt =====
-- From the allocation to the report: a write beside the caller's memory is found, a write inside it
-- raises no alarm.
use mathlib.Core.List.{Mem}
use linux_project.Base.{
  ℕ, ◌+◌, ◌*◌, ◌≤◌, ◌<◌, ◌≡◌, ◌≢◌, ◌⊎◌, refl, ◌∙◌, inl, inr, List, [], ◌∷◌, All, All-zip, arith,
}
use linux_project.Kernel.{Addr, Bytes, State, ok, more_information, update}
use linux_project.Kernel.Memory.{mark}
use linux_project.Overflow.{Zone, Answers, isosize_gfps}
use linux_project.Overflow.Alloc.{nget_free_pages}
use linux_project.Overflow.Invariant.Extend.{Serves}
use linux_project.Kernel.Pages.{page_bytes, page_bytes_facts}
use linux_project.Overflow.Check.{check_iso}
use linux_project.Overflow.Check.Detect.{InZone, IsWhole, check_iso-reports, check_iso-quiet}
use linux_project.Overflow.Check.Reports.{checked}
use linux_project.Overflow.Invariant.{Guarded, IsLaidOut, Held, Apart, Inv}
use linux_project.Overflow.Invariant.Frame.{Inv-written}
use linux_project.Overflow.Requests.{
  Request, request, request_block, request_guard, request_second, request_tracked, request_end,
  IsSmall, request-Guards, Answered, request_room, narrow_pages_of, kmalloc_of, vmalloc_of, dma_of,
  pages_of, exact_pages_of,
}

-- The byte lies right before or right behind the memory that the caller got, in a zone.
abbrev pub Beside : Request → Addr → Addr → Type 0
Beside r memory q =
    ((request_second r memory ≤ q) × (q < request_second r memory + request_guard r))
    ⊎ ((memory ≤ q) × (q < memory + request_guard r))

-- The second zone begins where the caller's bytes end.
request_second-request_room :
    (r : Request) (p : Addr) → IsSmall r → request_second r p ≡ p + request_guard r + request_room r
request_second-request_room (kmalloc_of size flags) p small = refl
request_second-request_room (vmalloc_of size) p small = refl
request_second-request_room (dma_of size gfp bus bus_handle old) p small = refl
request_second-request_room (pages_of order gfp_mask) p small = omega arith
request_second-request_room (narrow_pages_of order gfp_mask) p small =
    let pages = page_bytes_facts order small in omega arith
request_second-request_room (exact_pages_of size gfp_mask) p small = refl

module _ (r : Request) (gs : List Guarded) (ans : Answers) (s : State Zone) (inv : Inv s gs)
    (small : IsSmall r) (serves : Answered r ans s.blocks) where
  -- In a state in which the invariant holds, let any of the six allocation functions be asked for a size
  -- that does not wrap (or an order below 20), and all that it allocates be answered with fresh blocks. If
  -- then something other than 'a' is written into a zone of the new allocation, the next scan prints the
  -- name of the function that asked for that memory.
  pub overflow_reported :
      (q : Addr) (v : ℕ)
      → Beside r ans.memory q
      → v ≢ mark
      → let end : State Zone = request_end r ans s in
        let t : State Zone = record end { bytes = update end.bytes q v } in
        (request r ans s ≡ ok (ans.memory + request_guard r) end)
        × (check_iso t ≡ ok tt (checked t))
        × Mem (more_information ans.caller) (checked t).log
  overflow_reported q v beside bad =
      let end : State Zone = request_end r ans s in
      let m : Bytes = update end.bytes q v in
      let made = request-Guards r gs ans s inv small serves in
      let found =
        check_iso-reports {s = record end { bytes = m }} (request_tracked r ans) [] gs q
          (Inv-written end (request_tracked r ans ∷ gs) m made.1) zone (ground arith) in
      (made.0, found.0, found.1)
    where
      zone : InZone (request_tracked r ans) q
      zone = elim beside [ inl (lo, hi) ↦ inl (refl, lo, hi) | inr (lo, hi) ↦ inr (refl, lo, hi) ]

  -- `m` differs from the memory behind the allocation at most in the `request_room r` bytes from the
  -- returned address on.
  abbrev pub WritesInside : Bytes → Type 0
  WritesInside m =
      (q : Addr)
      → (q < ans.memory + request_guard r) ⊎ (ans.memory + request_guard r + request_room r ≤ q)
      → m q ≡ (request_end r ans s).bytes q

  new-IsWhole : (m : Bytes) → WritesInside m → IsWhole m (request_tracked r ans)
  new-IsWhole m inside =
      let made = request-Guards r gs ans s inv small serves in
      let l = made.1.held.0.layout in
      (
        λ q lo hi. inside q (inl hi) ∙ made.2 q ∙ ground arith,
        λ q lo hi.
            inside q (inr (omega (arith, request_second-request_room r ans.memory small)))
            ∙ made.2 q
            ∙ ground arith,
      )

  old-IsWhole :
      (m : Bytes) (h : Guarded)
      → WritesInside m
      → Apart (request_tracked r ans) h
      → IsLaidOut h
      → IsWhole s.bytes h
      → IsWhole m h
  old-IsWhole m h inside apart l whole =
      let made = request-Guards r gs ans s inv small serves in
      let k = made.1.held.0.layout in
      (
        λ q lo hi. inside q (ground arith) ∙ made.2 q ∙ ground (arith, whole.0 q),
        λ q lo hi. inside q (ground arith) ∙ made.2 q ∙ ground (arith, whole.1 q),
      )

  -- In a state in which the invariant holds, let any of the six allocation functions be asked for a size
  -- that does not wrap (or an order below 20), and all that it allocates be answered with fresh blocks. As
  -- long as the caller then writes only into the bytes between the zones, and all older zones are as they were filled, a scan prints nothing and changes nothing. From
  -- the returned address on these are all the bytes that were asked for, but for `__nget_free_pages`,
  -- where they are 40 fewer than the pages have.
  pub no_false_alarm :
      (m : Bytes)
      → All (IsWhole s.bytes) gs
      → WritesInside m
      → let t : State Zone = record (request_end r ans s) { bytes = m } in check_iso t ≡ ok tt t
  no_false_alarm m whole inside =
      let end : State Zone = request_end r ans s in
      let made = request-Guards r gs ans s inv small serves in
      check_iso-quiet (record end { bytes = m }) (request_tracked r ans ∷ gs)
        (Inv-written end (request_tracked r ans ∷ gs) m made.1)
        (
          new-IsWhole m inside,
          All-zip {P = λ h. Apart (request_tracked r ans) h × IsLaidOut h} gs
              (λ h a w. old-IsWhole m h inside a.0 a.1 w)
              (All-zip {Q = Held s.blocks s.symbols} gs (λ h a l. (a, l.layout)) made.1.apart.0
                inv.held)
              whole,
        )

-- `__nget_free_pages` is asked for 2 ^ order pages and takes its zones out of them: 20 of the bytes that
-- the caller has asked for, counted from the address that is returned, lie in the second zone. Where
-- something other than 'a' is written into one of these, the next scan prints the name of the function that
-- asked for the pages. The invariant holds before, the order is below 20, and the allocators answer with
-- fresh blocks.
pub nget_free_pages_false_alarm :
    (order gfp_mask i v : ℕ) (gs : List Guarded) (ans : Answers) (s : State Zone)
    → let r : Request = narrow_pages_of order gfp_mask in
      let end : State Zone = request_end r ans s in
      let ret : Addr = ans.memory + isosize_gfps in
      let t : State Zone = record end { bytes = update end.bytes (ret + i) v } in
      Inv s gs
      → order < 20
      → Serves s.blocks ans (request_block r)
      → page_bytes order ≤ i + 2 * isosize_gfps
      → i + isosize_gfps < page_bytes order
      → v ≢ mark
      → (nget_free_pages ans gfp_mask order s ≡ ok ret end)
        × (check_iso t ≡ ok tt (checked t))
        × Mem (more_information ans.caller) (checked t).log
unfolding request
nget_free_pages_false_alarm order gfp_mask i v gs ans s inv small serves lo hi bad =
    overflow_reported (narrow_pages_of order gfp_mask) gs ans s inv small (tt, serves)
      (ans.memory + 20 + i) v (inl (omega arith, omega arith)) bad
