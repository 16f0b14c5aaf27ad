-- ===== src/Trailing/Invariant/Extend.antt =====
-- How a new allocation joins the tracked ones: what the allocators promise of fresh blocks keeps it
-- apart from them.
use mathlib.Core.Path.{subst₂, sym}
use linux_project.Base.{
  ℕ, ◌+◌, ◌^◌, ◌≤◌, ◌<◌, ◌≡◌, ◌≢◌, refl, false, some, List, ◌∷◌, All, All-map, arith,
}
use linux_project.Kernel.{Addr, Block, Blocks, State, update}
use linux_project.Kernel.Fresh.{IsFresh}
use linux_project.Trailing.{Zone, Answers, sizeof_iso_zone}
use linux_project.Trailing.Invariant.{
  Guarded, IsLaidOut, Held, Apart, Inv, owns, entry, kmalloc_block,
}
use linux_project.Trailing.Invariant.Frame.{Held-frame}

-- The ledger behind each of the three calls of an allocation function.
abbrev pub with_memory : Answers → Block → Blocks → Blocks
with_memory ans block b = update b ans.memory (some block)

abbrev pub with_buffer : Answers → Block → Blocks → Blocks
with_buffer ans block b = update (with_memory ans block b) ans.buffer (some (kmalloc_block 200))

abbrev pub with_node : Answers → Block → Blocks → Blocks
with_node ans block b =
    update (with_buffer ans block b) ans.node (some (kmalloc_block sizeof_iso_zone))

-- All three calls are answered, each by a fresh block, and the caller's address is known.
pub record Serves (b : Blocks) (ans : Answers) (block : Block) : Type 0 where
  pub memory_fresh : IsFresh b ans.memory block.size
  pub buffer_fresh : IsFresh (with_memory ans block b) ans.buffer 200
  pub node_fresh : IsFresh (with_buffer ans block b) ans.node sizeof_iso_zone
  pub caller_known : ans.caller ≢ 0

-- A zone of `count` bytes fits into the block.
pub record FitsZone (ans : Answers) (block : Block) (count : ℕ) (zone : Addr) : Type 0 where
  pub some_guard : 0 < count
  pub short : count < 2 ^ 32
  pub room : ans.memory ≤ zone
  pub inside : zone + count ≤ ans.memory + block.size

abbrev pub tracked : Answers → Block → ℕ → Addr → Guarded
tracked ans block count zone = record {
  memory = ans.memory;
  guard = count;
  zone = zone;
  block = block;
  buffer = ans.buffer;
  node = ans.node;
  caller = ans.caller;
  reported = false;
}

no_owner :
    (b : Blocks) (u : Addr → Addr) (h : Guarded) (p n : Addr)
    → IsFresh b p n
    → 0 < n
    → Held b u h
    → owns h p ≡ false
no_owner b u h p n fresh pos held = ground (
  arith,
  fresh.apart h.memory h.block,
  fresh.apart h.buffer (kmalloc_block 200),
  fresh.apart h.node (kmalloc_block sizeof_iso_zone),
  held.layout.inside,
  held.layout.room,
  held.layout.guarded,
)

Held-add :
    (b : Blocks) (u : Addr → Addr) (h : Guarded) (p : Addr) (k : Block)
    → owns h p ≡ false
    → Held b u h
    → Held (update b p (some k)) u h
Held-add b u h p k free held =
    Held-frame b (update b p (some k)) u u h held (λ q o. ground arith) refl

module _ (b : Blocks) (u : Addr → Addr) (ans : Answers) (block : Block) (count : ℕ) (zone : Addr)
    (serves : Serves b ans block) (fits : FitsZone ans block count zone) where
  abbrev pub new : Guarded
  new = tracked ans block count zone

  size_pos : 0 < block.size
  size_pos = ground (arith, fits)

  buffer_ne_memory : ans.buffer ≢ ans.memory
  buffer_ne_memory = ground (arith, size_pos, serves.buffer_fresh.apart ans.memory block)

  node_ne_memory : ans.node ≢ ans.memory
  node_ne_memory =
      ground (arith, size_pos, buffer_ne_memory, serves.node_fresh.apart ans.memory block)

  node_ne_buffer : ans.node ≢ ans.buffer
  node_ne_buffer = ground (arith, serves.node_fresh.apart ans.buffer (kmalloc_block 200))

  pub new-IsLaidOut : IsLaidOut new
  new-IsLaidOut = record {
    room = fits.room;
    inside = fits.inside;
    fits = serves.memory_fresh.fits;
    guarded = fits.some_guard;
    short = fits.short;
    memory_ne_null = serves.memory_fresh.ne_null;
    buffer_ne_null = serves.buffer_fresh.ne_null;
    node_ne_null = serves.node_fresh.ne_null;
    memory_ne_buffer = ground (arith, buffer_ne_memory);
    memory_ne_node = ground (arith, node_ne_memory);
    buffer_ne_node = ground (arith, node_ne_buffer);
  }

  pub new-Held : Held (with_node ans block b) (update u ans.buffer ans.caller) new
  new-Held = record {
    layout = new-IsLaidOut;
    memory_held = ground (arith, buffer_ne_memory, node_ne_memory);
    buffer_held = ground (arith, node_ne_buffer);
    node_held = ground arith;
    named = ground arith;
  }

  module _ (h : Guarded) (held : Held b u h) where
    not_memory : owns h ans.memory ≡ false
    not_memory = no_owner b u h ans.memory block.size serves.memory_fresh size_pos held

    held_1 : Held (with_memory ans block b) u h
    held_1 = Held-add b u h ans.memory block not_memory held

    not_buffer : owns h ans.buffer ≡ false
    not_buffer =
        no_owner (with_memory ans block b) u h ans.buffer 200 serves.buffer_fresh (omega arith)
          held_1

    held_2 : Held (with_buffer ans block b) u h
    held_2 = Held-add (with_memory ans block b) u h ans.buffer (kmalloc_block 200) not_buffer held_1

    not_node : owns h ans.node ≡ false
    not_node =
        no_owner (with_buffer ans block b) u h ans.node 56 serves.node_fresh (omega arith) held_2

    old-Held : Held (with_node ans block b) (update u ans.buffer ans.caller) h
    old-Held =
        Held-frame (with_buffer ans block b) (with_node ans block b) u
          (update u ans.buffer ans.caller) h held_2 (λ q o. ground (arith, not_node))
          (ground (arith, not_buffer))

    old-Apart : Apart new h
    old-Apart = record {
      memories = ground (arith, serves.memory_fresh.apart h.memory h.block, held.memory_held);
      owners = λ p o. ground (arith, not_memory, not_buffer, not_node);
    }

  -- With the entry put in front and the new blocks recorded, the invariant holds again.
  pub Inv-extend :
      (gs : List Guarded) (s t : State Zone)
      → s.blocks ≡ b
      → s.symbols ≡ u
      → Inv s gs
      → t.zones ≡ entry new ∷ s.zones
      → t.blocks ≡ with_node ans block b
      → t.symbols ≡ update u ans.buffer ans.caller
      → t.locked ≡ false
      → Inv t (new ∷ gs)
  Inv-extend gs s t eb eu inv linked blocks symbols unlocked =
      let olds : All (Held b u) gs = rw (← eb, ← eu) inv.held in
      record {
        linked = rw (linked, inv.linked);
        held =
            subst₂ (λ (c : Blocks) (v : Addr → Addr). All (Held c v) (new ∷ gs)) (sym blocks)
              (sym symbols) (new-Held, All-map gs old-Held olds);
        apart = (All-map gs old-Apart olds, inv.apart);
        unlocked = unlocked;
      }
