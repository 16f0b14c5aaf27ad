-- ===== src/Trailing/Guard/Search.antt =====
-- What the release functions do about an address: the search over the list that `Inv` describes, and
-- the part that they share.
use linux_project.Base.{
  ◌≡◌, refl, ap, false, Option, none, some, List, [], ◌∷◌, ◌++◌, ==-refl, ==_of_ne, All, arith,
}
use linux_project.Kernel.{Addr, State, ok, update}
use linux_project.Kernel.Steps.{spin_lock-ok, spin_unlock-ok, kfree-ok}
use linux_project.Trailing.{Zone}
use linux_project.Trailing.Guard.{missing, unlinked, keep, walk, take_out, free_zone, unguard}
use linux_project.Trailing.Invariant.{Guarded, Held, Inv, entry, entries, kmalloc_block}
use linux_project.Trailing.Invariant.Frame.{Elsewhere, held_of, earlier-Elsewhere}

-- The search unlinks the entry of the allocation that it is looking for, and nothing else.
pub walk-unlinked :
    (temp : Option Zone) (g : Guarded) (xs ys : List Guarded)
    → All (Elsewhere g.memory) xs
    → walk g.memory temp (entries (xs ++ g ∷ ys)) ≡ unlinked (entry g) (entries (xs ++ ys))
unfolding walk
walk-unlinked temp g [] ys h = rw (==-refl g.memory)
walk-unlinked temp g (x ∷ xs) ys h =
    rw (==_of_ne g.memory x.memory h.0)
      (ap (keep (entry x)) (walk-unlinked (some (entry x)) g xs ys h.1))

-- The entry at the end of the list.
abbrev pub last_entry : Option Zone → List Guarded → Option Zone
last_entry temp [] = temp
last_entry temp (g ∷ gs) = last_entry (some (entry g)) gs

-- Where no memory starts at the address, the list stays as it is and `temp` is its last entry.
pub walk-missing :
    (temp : Option Zone) (a : Addr) (gs : List Guarded)
    → All (Elsewhere a) gs
    → walk a temp (entries gs) ≡ missing (last_entry temp gs)
unfolding walk
walk-missing temp a [] h = refl
walk-missing temp a (g ∷ gs) h =
    rw (==_of_ne a g.memory h.0) (ap (keep (entry g)) (walk-missing (some (entry g)) a gs h.1))

-- The name buffer and the structure are given back, in this order.
abbrev pub without_zone : Guarded → State Zone → List Zone → State Zone
without_zone g s zs = record s {
  zones = zs;
  locked = false;
  blocks = update (update s.blocks g.buffer none) g.node none;
}

pub free_zone-ok :
    (g : Guarded) (s : State Zone)
    → Held s.blocks s.symbols g
    → free_zone (some (entry g)) s
      ≡ ok tt (record s { blocks = update (update s.blocks g.buffer none) g.node none })
unfolding free_zone
free_zone-ok g s h = rw (
  kfree-ok s g.buffer (kmalloc_block 200) h.layout.buffer_ne_null h.buffer_held refl,
  kfree-ok (record s { blocks = update s.blocks g.buffer none }) g.node (kmalloc_block 56)
      h.layout.node_ne_null
      (rw (==_of_ne g.node g.buffer (λ e. h.layout.buffer_ne_node (ground arith))) h.node_held)
      refl,
)

module _ {s : State Zone} (g : Guarded) (xs ys : List Guarded) (inv : Inv s (xs ++ g ∷ ys)) where
  pub unguard-ok : unguard g.memory s ≡ ok tt (without_zone g s (entries (xs ++ ys)))
  unfolding unguard take_out
  unguard-ok =
      rw (spin_lock-ok s inv.unlocked, inv.linked)
        (rw (walk-unlinked none g xs ys (earlier-Elsewhere g xs ys inv)) (
          rw (spin_unlock-ok) (
            free_zone-ok g (record s { zones = entries (xs ++ ys); locked = false })
              (held_of g xs ys inv))))
