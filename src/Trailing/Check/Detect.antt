-- ===== src/Trailing/Check/Detect.antt =====
-- What the scan of the zone list finds among the tracked allocations, in
-- mem_overflow_del_firstiso/code/mem_overflow_check.c.
use mathlib.Core.List.{Mem, mem-append_right}
use linux_project.Base.{
  ◌+◌, ◌≤◌, ◌<◌, ◌≡◌, ◌≢◌, refl, ap, ◌∙◌, false, List, [], ◌∷◌, ◌++◌, All, arith,
}
use linux_project.Kernel.{Addr, Blocks, Bytes, State, ok, more_information}
use linux_project.Kernel.Memory.{mark, IsIntact, is_broken_of_intact, is_broken_of_changed}
use linux_project.Trailing.{Zone}
use linux_project.Trailing.Check.{is_changed, check_iso}
use linux_project.Trailing.Check.Reports.{checked, check_iso-ok, check_zones-reports, checked_same}
use linux_project.Trailing.Invariant.{Guarded, Held, Inv, entry, entries}
use linux_project.Trailing.Invariant.Frame.{held_of}

abbrev pub IsWhole : Bytes → Guarded → Type 0
IsWhole m g = IsIntact m g.zone g.guard

entries_unchanged :
    (m : Bytes) (b : Blocks) (u : Addr → Addr) (gs : List Guarded)
    → All (Held b u) gs
    → All (IsWhole m) gs
    → All (λ z. is_changed m z ≡ false) (entries gs)
entries_unchanged m b u [] held whole = tt
entries_unchanged m b u (g ∷ gs) held whole =
    let l = held.0.layout in
    (
      is_broken_of_intact g.guard g.zone m (omega (arith, l)) whole.0,
      entries_unchanged m b u gs held.1 whole.1,
    )

-- A byte of the zone, of one that has not been reported yet.
abbrev pub InZone : Guarded → Addr → Type 0
InZone g q = (g.reported ≡ false) × (g.zone ≤ q) × (q < g.zone + g.guard)

entries-append : (xs ys : List Guarded) → entries (xs ++ ys) ≡ entries xs ++ entries ys
entries-append [] ys = refl
entries-append (x ∷ xs) ys = rw (entries-append xs ys)

-- A changed byte of a zone that has not been reported is reported by the next scan.
pub check_iso-reports :
    {s : State Zone} (g : Guarded) (xs ys : List Guarded) (q : Addr)
    → Inv s (xs ++ g ∷ ys)
    → InZone g q
    → s.bytes q ≢ mark
    → (check_iso s ≡ ok tt (checked s)) × Mem (more_information g.caller) (checked s).log
check_iso-reports {s} g xs ys q inv (flag, lo, hi) bad =
    let held = held_of g xs ys inv in
    let l = held.layout in
    (
      check_iso-ok s inv.unlocked,
      mem-append_right s.log (
          rw (← held.named, inv.linked, entries-append xs (g ∷ ys))
            (check_zones-reports s.bytes s.symbols (entries xs) (entry g) (entries ys) flag
              (is_broken_of_changed g.guard g.zone s.bytes q (omega (arith, l)) lo hi bad))),
    )

pub check_iso-quiet :
    (s : State Zone) (gs : List Guarded)
    → Inv s gs
    → All (IsWhole s.bytes) gs
    → check_iso s ≡ ok tt s
check_iso-quiet s gs inv whole =
    let unchanged : All (λ z. is_changed s.bytes z ≡ false) s.zones =
      rw inv.linked (entries_unchanged s.bytes s.blocks s.symbols gs inv.held whole) in
    check_iso-ok s inv.unlocked ∙ ap (ok tt) (checked_same s inv.unlocked unchanged)
