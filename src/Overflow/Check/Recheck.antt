-- ===== src/Overflow/Check/Recheck.antt =====
-- What a scan makes of the tracked allocations.
use linux_project.Base.{◌≡◌, refl, ap, ◌∙◌, ◌||◌, List, [], ◌∷◌, All, All-map, Pairs, arith}
use linux_project.Kernel.{Addr, Bytes, State}
use linux_project.Kernel.Memory.{is_broken}
use linux_project.Overflow.{Zone}
use linux_project.Overflow.Check.{check_zone, check_zones, is_changed}
use linux_project.Overflow.Check.Reports.{checked}
use linux_project.Overflow.Invariant.{Guarded, IsLaidOut, Held, Apart, Inv, entries}

-- What a scan makes of the flags of one allocation.
abbrev pub rechecked : Bytes → Guarded → Guarded
rechecked m g = record g {
  first_flag = g.first_flag || is_broken g.guard g.memory m;
  second_flag = g.second_flag || is_broken g.guard g.second m;
}

abbrev pub recheck : Bytes → List Guarded → List Guarded
recheck m [] = []
recheck m (g ∷ gs) = rechecked m g ∷ recheck m gs

check_zone-flag :
    (m : Bytes) (u : Addr → Addr) (z : Zone)
    → (check_zone m u z).0 ≡ record z { flag = z.flag || is_changed m z }
unfolding check_zone
check_zone-flag m u z = ground arith

check_zones-entries :
    (m : Bytes) (u : Addr → Addr) (gs : List Guarded)
    → (check_zones m u (entries gs)).0 ≡ entries (recheck m gs)
unfolding check_zones
check_zones-entries m u [] = refl
check_zones-entries m u (g ∷ gs) = simp (check_zone-flag, check_zones-entries m u gs)

All-recheck {ℓ} :
    (P : Guarded → Type ℓ) (m : Bytes) (gs : List Guarded)
    → ((g : Guarded) → P g → P (rechecked m g))
    → All P gs
    → All P (recheck m gs)
All-recheck P m [] f h = tt
All-recheck P m (g ∷ gs) f h = (f g h.0, All-recheck P m gs f h.1)

Pairs-recheck : (m : Bytes) (gs : List Guarded) → Pairs Apart gs → Pairs Apart (recheck m gs)
Pairs-recheck m [] h = tt
Pairs-recheck m (g ∷ gs) h = (
  All-recheck (Apart (rechecked m g)) m gs
      (λ x a. record { memories = a.memories; owners = a.owners })
      (All-map gs (λ x a. record { memories = a.memories; owners = a.owners }) h.0),
  Pairs-recheck m gs h.1,
)

rechecked-IsLaidOut : (m : Bytes) (g : Guarded) → IsLaidOut g → IsLaidOut (rechecked m g)
rechecked-IsLaidOut m g l = ground arith

-- A scan keeps every allocation tracked, with its flags brought up to date.
pub checked-Inv :
    (s : State Zone) (gs : List Guarded) → Inv s gs → Inv (checked s) (recheck s.bytes gs)
checked-Inv s gs inv = record {
  linked =
      ap (λ zs. (check_zones s.bytes s.symbols zs).0) inv.linked
      ∙ check_zones-entries s.bytes s.symbols gs;
  held =
      All-recheck (Held s.blocks s.symbols) s.bytes gs
        (λ g h. record {
          layout = rechecked-IsLaidOut s.bytes g h.layout;
          memory_held = h.memory_held;
          buffer_held = h.buffer_held;
          node_held = h.node_held;
          named = h.named;
        })
        inv.held;
  apart = Pairs-recheck s.bytes gs inv.apart;
  unlocked = refl;
}
