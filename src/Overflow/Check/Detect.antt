-- ===== src/Overflow/Check/Detect.antt =====
-- What the scan of the zone list finds among the tracked allocations.
use mathlib.Core.List.{Mem, mem-append_right}
use linux_project.Base.{
  ◌+◌, ◌≤◌, ◌<◌, ◌≡◌, ◌≢◌, refl, ap, sym, subst, ◌∙◌, ◌⊎◌, inl, inr, false, List, [], ◌∷◌, ◌++◌,
  append-nil, append_assoc, All, arith,
}
use linux_project.Kernel.{Addr, Blocks, Bytes, State, ok, Message, more_information, blank_line}
use linux_project.Kernel.Memory.{mark, IsIntact, is_broken_of_intact, is_broken_of_changed}
use linux_project.Overflow.{Zone}
use linux_project.Overflow.Check.{is_changed, check_zones, check_iso, my_seq_show, show_zones}
use linux_project.Overflow.Check.Reports.{
  checked, check_iso-ok, check_zones-reports, check_zones-quiet, check_zones-twice,
  show_zones-check_zones, my_seq_show-ok,
}
use linux_project.Overflow.Invariant.{Guarded, IsLaidOut, Held, Inv, before, behind, entries}
use linux_project.Overflow.Invariant.Frame.{held_of}

-- A byte of one of the two zones, of one that has not been reported yet.
abbrev pub InZone : Guarded → Addr → Type 0
InZone g q =
    ((g.second_flag ≡ false) × (g.second ≤ q) × (q < g.second + g.guard))
    ⊎ ((g.first_flag ≡ false) × (g.memory ≤ q) × (q < g.memory + g.guard))

entries-append : (xs ys : List Guarded) → entries (xs ++ ys) ≡ entries xs ++ entries ys
entries-append [] ys = refl
entries-append (x ∷ xs) ys = rw (entries-append xs ys)

module _ (m : Bytes) (u : Addr → Addr) (g : Guarded) (l : IsLaidOut g) where
  zone_reported :
      (xs ys : List Guarded) (q : Addr)
      → InZone g q
      → m q ≢ mark
      → Mem (more_information (u g.buffer)) (check_zones m u (entries (xs ++ g ∷ ys))).1
  zone_reported xs ys q (inl (flag, lo, hi)) bad = rw (entries-append xs (g ∷ ys)) (
      check_zones-reports m u (entries xs) (behind g) (before g ∷ entries ys) flag
        (is_broken_of_changed g.guard g.second m q (omega (arith, l)) lo hi bad))
  zone_reported xs ys q (inr (flag, lo, hi)) bad =
      rw (entries-append xs (g ∷ ys), regroup)
        (check_zones-reports m u (entries xs ++ behind g ∷ []) (before g) (entries ys) flag
          (is_broken_of_changed g.guard g.memory m q (omega (arith, l)) lo hi bad))
    where
      regroup :
          entries xs ++ behind g ∷ before g ∷ entries ys
          ≡ (entries xs ++ behind g ∷ []) ++ before g ∷ entries ys
      regroup = simp append_assoc

-- If any byte of a zone that has not been reported differs from 'a', the next scan returns normally
-- and prints the name of the function that made the allocation.
pub check_iso-reports :
    {s : State Zone} (g : Guarded) (xs ys : List Guarded) (q : Addr)
    → Inv s (xs ++ g ∷ ys)
    → InZone g q
    → s.bytes q ≢ mark
    → (check_iso s ≡ ok tt (checked s)) × Mem (more_information g.caller) (checked s).log
check_iso-reports {s} g xs ys q inv zone bad =
    let held = held_of g xs ys inv in
    (
      check_iso-ok s inv.unlocked,
      mem-append_right s.log (
          rw (← held.named, inv.linked)
            (zone_reported s.bytes s.symbols g held.layout xs ys q zone bad)),
    )

-- Both zones are as they were filled.
abbrev pub IsWhole : Bytes → Guarded → Type 0
IsWhole m g = IsIntact m g.memory g.guard × IsIntact m g.second g.guard

entries_unchanged :
    (m : Bytes) (b : Blocks) (u : Addr → Addr) (gs : List Guarded)
    → All (Held b u) gs
    → All (IsWhole m) gs
    → All (λ z. is_changed m z ≡ false) (entries gs)
entries_unchanged m b u [] held whole = tt
entries_unchanged m b u (g ∷ gs) held whole =
    let l = held.0.layout in
    (
      is_broken_of_intact g.guard g.second m (omega (arith, l)) whole.0.1,
      (
        is_broken_of_intact g.guard g.memory m (omega (arith, l)) whole.0.0,
        entries_unchanged m b u gs held.1 whole.1,
      ),
    )

-- A scan that meets no change leaves the state as it is.
checked_same :
    (s : State Zone)
    → s.locked ≡ false
    → check_zones s.bytes s.symbols s.zones ≡ (s.zones, [])
    → checked s ≡ s
checked_same s unlocked e =
    let silent : s.log ++ (check_zones s.bytes s.symbols s.zones).1 ≡ s.log =
      ap (λ (o : List Zone × List Message). s.log ++ o.1) e ∙ append-nil s.log in
    λ i. record s { zones = (e i).0; locked = sym unlocked i; log = silent i }

-- If every zone is as it was filled, a scan changes nothing at all and prints nothing.
pub check_iso-quiet :
    (s : State Zone) (gs : List Guarded)
    → Inv s gs
    → All (IsWhole s.bytes) gs
    → check_iso s ≡ ok tt s
check_iso-quiet s gs inv whole =
    let none_changed : All (λ z. is_changed s.bytes z ≡ false) s.zones =
      rw inv.linked (entries_unchanged s.bytes s.blocks s.symbols gs inv.held whole) in
    check_iso-ok s inv.unlocked
    ∙ ap (ok tt)
        (checked_same s inv.unlocked (check_zones-quiet s.bytes s.symbols s.zones none_changed))

-- A zone is reported once: a scan of the state that a scan has left changes nothing and prints
-- nothing.
pub check_iso-check_iso :
    (s t : State Zone) → s.locked ≡ false → check_iso s ≡ ok tt t → check_iso t ≡ ok tt t
check_iso-check_iso s t unlocked e =
    subst (λ v. check_iso v ≡ ok tt v) (cc (check_iso-ok s unlocked))
      (check_iso-ok (checked s) refl
        ∙ ap (ok tt) (checked_same (checked s) refl (check_zones-twice s.bytes s.symbols s.zones)))

-- Once a scan has run, `my_seq_show` prints ends of lines only: what the kernel thread has printed
-- is not shown again through /proc.
pub my_seq_show-check_iso :
    (s t : State Zone)
    → s.locked ≡ false
    → check_iso s ≡ ok tt t
    → (out : List Message) × (my_seq_show t ≡ ok out t) × All (λ k. k ≡ blank_line) out
my_seq_show-check_iso s t unlocked e =
    subst (λ v. (out : List Message) × (my_seq_show v ≡ ok out v) × All (λ k. k ≡ blank_line) out)
      (cc (check_iso-ok s unlocked))
      (
        show_zones s.bytes s.symbols (checked s).zones,
        my_seq_show-ok (checked s) refl,
        show_zones-check_zones s.bytes s.symbols s.zones,
      )
