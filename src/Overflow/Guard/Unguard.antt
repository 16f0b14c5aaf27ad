-- ===== src/Overflow/Guard/Unguard.antt =====
-- The part that the release functions share, on a tracked allocation and on an address that is none.
use linux_project.Base.{◌≡◌, ◌≢◌, refl, false, none, some, List, ◌∷◌, ◌++◌, ==_of_ne, arith}
use linux_project.Kernel.{State, ok, update}
use linux_project.Kernel.Steps.{spin_lock-ok, spin_unlock-ok, kfree-ok}
use linux_project.Overflow.{Zone}
use linux_project.Overflow.Guard.{take_out, free_zone, unguard}
use linux_project.Overflow.Guard.Search.{walk-unlinked}
use linux_project.Overflow.Invariant.{Guarded, Held, Inv, before, entries, kmalloc_block}
use linux_project.Overflow.Invariant.Frame.{held_of, earlier-Elsewhere}

-- The name buffer and the structures are given back, in this order.
abbrev pub without_zones : Guarded → State Zone → List Zone → State Zone
without_zones g s zs = record s {
  zones = zs;
  locked = false;
  blocks = update (update s.blocks g.buffer none) g.node none;
}

pub free_zone-ok :
    (g : Guarded) (s : State Zone)
    → Held s.blocks s.symbols g
    → free_zone (some (before g)) s
      ≡ ok tt (record s { blocks = update (update s.blocks g.buffer none) g.node none })
unfolding free_zone
free_zone-ok g s h = rw (
  kfree-ok s g.buffer (kmalloc_block 200) h.layout.buffer_ne_null h.buffer_held refl,
  kfree-ok (record s { blocks = update s.blocks g.buffer none }) g.node (kmalloc_block 96)
      h.layout.node_ne_null
      (rw (==_of_ne g.node g.buffer (λ e. h.layout.buffer_ne_node (ground arith))) h.node_held)
      refl,
)

module _ {s : State Zone} (g : Guarded) (xs ys : List Guarded) (inv : Inv s (xs ++ g ∷ ys)) where
  pub unguard-ok : unguard g.memory s ≡ ok tt (without_zones g s (entries (xs ++ ys)))
  unfolding unguard take_out
  unguard-ok =
      rw (spin_lock-ok s inv.unlocked, inv.linked)
        (rw (walk-unlinked none g xs ys (earlier-Elsewhere g xs ys inv) apart) (
          rw (spin_unlock-ok)
            (free_zone-ok g (record s { zones = entries (xs ++ ys); locked = false }) held)))
    where
      held : Held s.blocks s.symbols g
      held = held_of g xs ys inv

      apart : g.memory ≢ g.second
      apart = ground (arith, held.layout)
