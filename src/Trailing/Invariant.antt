-- ===== src/Trailing/Invariant.antt =====
-- The abstract view of the zone list of mem_overflow_del_firstiso/code/mem_overflow_check.c: the
-- allocations that are guarded, newest first. `Inv` says what state of the kernel and of the module
-- stands for such a list.
pub mod Frame
pub mod Extend
use linux_project.Base.{
  ℕ, ◌+◌, ◌^◌, ◌≤◌, ◌<◌, ◌≡◌, ◌≢◌, ◌⊎◌, Bool, true, false, ◌||◌, some, List, [], ◌∷◌, ◌==◌, All,
  Pairs,
}
use linux_project.Kernel.{Addr, null, word, gfp_kernel, Block, Blocks, kmallocs, State}
use linux_project.Trailing.{Zone, sizeof_iso_zone}

-- One guarded allocation: its block starts at `memory`, which is the caller's pointer, and has a zone
-- of `guard` bytes at `zone`; what lies before the zone is the caller's.
pub record Guarded : Type 0 where
  pub memory : Addr
  pub guard : ℕ
  pub zone : Addr
  pub block : Block
  pub buffer : Addr
  pub node : Addr
  pub caller : Addr
  pub reported : Bool

abbrev pub entry : Guarded → Zone
entry g = record {
  node = g.node;
  callerinfo = g.buffer;
  size = g.guard;
  addr = g.zone;
  mem_addr = g.memory;
  flag = g.reported;
}

abbrev pub entries : List Guarded → List Zone
entries [] = []
entries (g ∷ gs) = entry g ∷ entries gs

abbrev pub kmalloc_block : ℕ → Block
kmalloc_block n = record { api = kmallocs; size = n; gfp = gfp_kernel; bus = 0 }

-- The addresses of the three blocks that belong to the allocation.
abbrev pub owns : Guarded → Addr → Bool
owns g p = (p == g.memory) || (p == g.buffer) || (p == g.node)

-- The layout of one allocation in the address space.
pub record IsLaidOut (g : Guarded) : Type 0 where
  pub room : g.memory ≤ g.zone
  pub inside : g.zone + g.guard ≤ g.memory + g.block.size
  pub fits : g.memory + g.block.size ≤ word
  pub guarded : 0 < g.guard
  pub short : g.guard < 2 ^ 32
  pub memory_ne_null : g.memory ≢ null
  pub buffer_ne_null : g.buffer ≢ null
  pub node_ne_null : g.node ≢ null
  pub memory_ne_buffer : g.memory ≢ g.buffer
  pub memory_ne_node : g.memory ≢ g.node
  pub buffer_ne_node : g.buffer ≢ g.node

-- Its blocks are recorded as handed out, and its buffer holds the caller's name.
pub record Held (blocks : Blocks) (symbols : Addr → Addr) (g : Guarded) : Type 0 where
  pub layout : IsLaidOut g
  pub memory_held : blocks g.memory ≡ some g.block
  pub buffer_held : blocks g.buffer ≡ some (kmalloc_block 200)
  pub node_held : blocks g.node ≡ some (kmalloc_block sizeof_iso_zone)
  pub named : symbols g.buffer ≡ g.caller

-- Two allocations share neither memory nor a block.
pub record Apart (g h : Guarded) : Type 0 where
  pub memories : (g.memory + g.block.size ≤ h.memory) ⊎ (h.memory + h.block.size ≤ g.memory)
  pub owners : (p : Addr) → owns g p ≡ true → owns h p ≡ false

pub record Inv (s : State Zone) (gs : List Guarded) : Type 0 where
  pub linked : s.zones ≡ entries gs
  pub held : All (Held s.blocks s.symbols) gs
  pub apart : Pairs Apart gs
  pub unlocked : s.locked ≡ false
