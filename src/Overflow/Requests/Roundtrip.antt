-- ===== src/Overflow/Requests/Roundtrip.antt =====
-- Allocation followed by release.
use linux_project.Base.{◌+◌, ◌≡◌, refl, sym, List, [], ◌∷◌, arith}
use linux_project.Kernel.{Addr, Bytes, State, ok}
use linux_project.Overflow.{Zone, Answers}
use linux_project.Overflow.Invariant.{Guarded, Inv}
use linux_project.Overflow.Invariant.Extend.{with_zones}
use linux_project.Overflow.Invariant.Frame.{without}
use linux_project.Overflow.Release.Tracked.{released}
use linux_project.Overflow.Requests.Freed.{release-Releases}
use linux_project.Overflow.Requests.{
  Request, request, release, request_block, request_guard, request_tracked, request_end, ledger,
  Answered, IsSmall, request-Guards,
}

-- The three fresh blocks are the only ones that are new.
without-with_zones :
    (r : Request) (ans : Answers) (s : State Zone)
    → Answered r ans s.blocks
    → (p : Addr)
    → without (request_tracked r ans) (with_zones ans (request_block r) (ledger r s.blocks)) p
      ≡ ledger r s.blocks p
without-with_zones r ans s (cell, serves) p =
    ground
      (arith, serves.memory_fresh.unused, serves.buffer_fresh.unused, serves.zones_fresh.unused)

-- In a state in which the invariant holds, for a size that does not wrap (or an order below 20), and whatever
-- is written into memory between the two calls, each of the six allocation functions that is answered with
-- fresh blocks and then its release function leave the zone list as it was, and the invariant holds. The
-- blocks that are held are those from before, but for `sdma_alloc_coherent`, after which the cell of eight
-- bytes for the bus address is held besides.
pub release-request :
    (r : Request) (gs : List Guarded) (ans : Answers) (s : State Zone) (written : Bytes)
    → Inv s gs
    → IsSmall r
    → Answered r ans s.blocks
    → let t : State Zone = request_end r ans s in
      let u : State Zone = released (request_tracked r ans) gs (record t { bytes = written }) in
      (request r ans s ≡ ok (ans.memory + request_guard r) t)
      × (release r (ans.memory + request_guard r) (record t { bytes = written }) ≡ ok tt u)
      × (u.zones ≡ s.zones)
      × ((p : Addr) → u.blocks p ≡ ledger r s.blocks p)
      × Inv u gs
release-request r gs ans s written inv small serves =
    let made = request-Guards r gs ans s inv small serves in
    let t : State Zone = request_end r ans s in
    let inv' : Inv (record t { bytes = written }) (request_tracked r ans ∷ gs) = record {
      linked = made.1.linked;
      held = made.1.held;
      apart = made.1.apart;
      unlocked = made.1.unlocked;
    } in
    let freed =
      release-Releases r (request_tracked r ans) [] gs inv'
        (record { small = small; same_guard = refl; same_block = refl }) in
    (made.0, freed.0, sym inv.linked, without-with_zones r ans s serves, freed.1)
