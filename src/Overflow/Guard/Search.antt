-- ===== src/Overflow/Guard/Search.antt =====
-- The search of the release functions over the list that `Inv` describes.
use linux_project.Base.{
  ◌≡◌, ◌≢◌, refl, ap, Option, none, some, List, [], ◌∷◌, ◌++◌, ==-refl, ==_of_ne, All,
}
use linux_project.Kernel.{Addr}
use linux_project.Overflow.{Zone}
use linux_project.Overflow.Guard.{missing, unlinked, keep, walk}
use linux_project.Overflow.Invariant.{Guarded, before, behind, entries}

-- Neither zone of the allocation starts at `a`.
abbrev pub Elsewhere : Addr → Guarded → Type 0
Elsewhere a g = (a ≢ g.memory) × (a ≢ g.second)

abbrev pub emit : Option Zone → List Zone → List Zone
emit none zs = zs
emit (some p) zs = p ∷ zs

-- The search unlinks both zones of the allocation that it is looking for, and nothing else.
pub walk-unlinked :
    (prev : Option Zone) (g : Guarded) (xs ys : List Guarded)
    → All (Elsewhere g.memory) xs
    → g.memory ≢ g.second
    → walk g.memory prev (entries (xs ++ g ∷ ys))
      ≡ unlinked (before g) (emit prev (entries (xs ++ ys)))
unfolding walk
walk-unlinked none g [] ys h ne = rw (==_of_ne g.memory g.second ne, ==-refl g.memory)
walk-unlinked (some p) g [] ys h ne = rw (==_of_ne g.memory g.second ne, ==-refl g.memory)
walk-unlinked none g (x ∷ xs) ys h ne =
    rw (==_of_ne g.memory x.second h.0.1, ==_of_ne g.memory x.memory h.0.0)
      (ap (keep (behind x)) (walk-unlinked (some (before x)) g xs ys h.1 ne))
walk-unlinked (some p) g (x ∷ xs) ys h ne =
    rw (==_of_ne g.memory x.second h.0.1, ==_of_ne g.memory x.memory h.0.0)
      (ap (λ w. keep p (keep (behind x) w)) (walk-unlinked (some (before x)) g xs ys h.1 ne))

-- The entry at the end of the list.
abbrev pub last_entry : Option Zone → List Guarded → Option Zone
last_entry prev [] = prev
last_entry prev (g ∷ gs) = last_entry (some (before g)) gs

-- Where nothing starts at the address, the list stays as it is and `temp` is its last entry.
pub walk-missing :
    (prev : Option Zone) (a : Addr) (gs : List Guarded)
    → All (Elsewhere a) gs
    → walk a prev (entries gs) ≡ missing (last_entry prev gs)
unfolding walk
walk-missing none a [] h = refl
walk-missing (some p) a [] h = refl
walk-missing none a (g ∷ gs) h =
    rw (==_of_ne a g.second h.0.1, ==_of_ne a g.memory h.0.0)
      (ap (keep (behind g)) (walk-missing (some (before g)) a gs h.1))
walk-missing (some p) a (g ∷ gs) h =
    rw (==_of_ne a g.second h.0.1, ==_of_ne a g.memory h.0.0)
      (ap (λ w. keep p (keep (behind g) w)) (walk-missing (some (before g)) a gs h.1))
