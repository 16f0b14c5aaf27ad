-- ===== src/Trailing/Requests/Detection.antt =====
-- From the allocation to the report, in mem_overflow_del_firstiso/code/mem_overflow_check.c.
use mathlib.Core.List.{Mem}
use linux_project.Base.{
  ℕ, ◌+◌, ◌≤◌, ◌<◌, ◌≡◌, ◌≢◌, ◌⊎◌, refl, ◌∙◌, inr, List, [], ◌∷◌, All, All-zip, arith,
}
use linux_project.Kernel.{Addr, Bytes, State, ok, more_information, update}
use linux_project.Kernel.Memory.{mark}
use linux_project.Trailing.{Zone, Answers}
use linux_project.Trailing.Check.Detect.{IsWhole, check_iso-reports, check_iso-quiet}
use linux_project.Trailing.Check.{check_iso}
use linux_project.Trailing.Check.Reports.{checked}
use linux_project.Trailing.Invariant.{Guarded, IsLaidOut, Held, Apart, Inv}
use linux_project.Trailing.Invariant.Extend.{Serves}
use linux_project.Trailing.Invariant.Frame.{Inv-written}
use linux_project.Trailing.Requests.{
  Request, obtain, request_block, request_guard, request_room, IsSmall,
}
use linux_project.Trailing.Requests.Tracked.{request_tracked, request_end, obtain-Attaches}

module _ (r : Request) (gs : List Guarded) (ans : Answers) (s : State Zone) (inv : Inv s gs)
    (small : IsSmall r) (serves : Serves s.blocks ans (request_block r)) where
  -- If something other than 'a' is written right behind the memory that the caller got, in the zone,
  -- the next scan prints the name of the function that asked for that memory.
  pub overrun_reported :
      (q : Addr) (v : ℕ)
      → ans.memory + request_room r ≤ q
      → q < ans.memory + request_room r + request_guard r
      → v ≢ mark
      → let end : State Zone = request_end r ans s in
        let t : State Zone = record end { bytes = update end.bytes q v } in
        (obtain r ans s ≡ ok ans.memory end)
        × (check_iso t ≡ ok tt (checked t))
        × Mem (more_information ans.caller) (checked t).log
  overrun_reported q v lo hi bad =
      let end : State Zone = request_end r ans s in
      let m : Bytes = update end.bytes q v in
      let made = obtain-Attaches r gs ans s inv small serves in
      let g = request_tracked r ans in
      let found =
        check_iso-reports {s = record end { bytes = m }} g [] gs q
          (Inv-written end (g ∷ gs) m made.1) (refl, lo, hi) (ground arith) in
      (made.0, found.0, found.1)

  -- `m` differs from the memory behind the allocation at most in front of the zone, in its block.
  abbrev pub WritesWithin : Bytes → Type 0
  WritesWithin m =
      (q : Addr)
      → (q < ans.memory) ⊎ (ans.memory + request_room r ≤ q)
      → m q ≡ (request_end r ans s).bytes q

  old-IsWhole :
      (m : Bytes) (h : Guarded)
      → WritesWithin m
      → Apart (request_tracked r ans) h
      → IsLaidOut h
      → IsWhole s.bytes h
      → IsWhole m h
  old-IsWhole m h inside apart l whole q lo hi =
      let made = obtain-Attaches r gs ans s inv small serves in
      let k = made.1.held.0.layout in inside q (ground arith) ∙ made.2 q ∙ ground (arith, whole q)

  -- In a state in which the invariant holds, let any of the six allocation functions be asked for a size
  -- that does not wrap (or an order below 19), and all that it allocates be answered with fresh blocks. As
  -- long as the caller then writes only into the bytes in front of the zone, and all older zones are as they were filled, a scan prints nothing and changes nothing. These
  -- are all the bytes that were asked for, but for `__nget_free_pages`, where they are 20 fewer than the
  -- pages have.
  pub no_false_overrun :
      (m : Bytes)
      → All (IsWhole s.bytes) gs
      → WritesWithin m
      → let t : State Zone = record (request_end r ans s) { bytes = m } in check_iso t ≡ ok tt t
  no_false_overrun m whole inside =
      let end : State Zone = request_end r ans s in
      let t : State Zone = record end { bytes = m } in
      let made = obtain-Attaches r gs ans s inv small serves in
      let new : IsWhole m (request_tracked r ans) =
        λ q lo hi. inside q (inr lo) ∙ made.2 q ∙ ground arith in
      let old : All (IsWhole m) gs =
        All-zip {P = λ h. Apart (request_tracked r ans) h × IsLaidOut h} gs
          (λ h a w. old-IsWhole m h inside a.0 a.1 w)
          (All-zip {Q = Held s.blocks s.symbols} gs (λ h a l. (a, l.layout)) made.1.apart.0
            inv.held)
          whole in
      check_iso-quiet t (request_tracked r ans ∷ gs)
        (Inv-written end (request_tracked r ans ∷ gs) m made.1) (new, old)
