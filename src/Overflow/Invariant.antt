-- ===== src/Overflow/Invariant.antt =====
-- The abstract view of the zone list of mem_overflow_check.c: the allocations that are guarded, newest
-- first. `Inv` says what state of the kernel and of the module stands for such a list.
pub mod Frame
pub mod Extend
use linux_project.Base.{
  ℕ, ◌+◌, ◌*◌, ◌^◌, ◌≤◌, ◌<◌, ◌≡◌, ◌≢◌, ◌⊎◌, Bool, true, false, ◌||◌, Option, none, some, List, [],
  ◌∷◌, ◌++◌, ◌==◌, All, Pairs,
}
use linux_project.Kernel.{
  Addr, null, word, gfp_kernel, Block, Blocks, kmallocs, State, Bytes, to_int,
}
use linux_project.Overflow.{Zone, sizeof_iso_zone}

-- One guarded allocation: `span` bytes from `memory` on, with zones of `guard` bytes at `memory` and
-- at `second`; what lies between is the caller's.
pub record Guarded : Type 0 where
  pub memory : Addr
  pub span : ℕ
  pub guard : ℕ
  pub second : Addr
  pub block : Block
  pub buffer : Addr
  pub node : Addr
  pub caller : Addr
  pub first_flag : Bool
  pub second_flag : Bool

-- The list entry of the zone before the caller's memory, and of the one behind it.
abbrev pub before : Guarded → Zone
before g = record {
  node = g.node;
  callerinfo = g.buffer;
  size = g.guard;
  addr = g.memory;
  flag = g.first_flag;
}

abbrev pub behind : Guarded → Zone
behind g = record {
  node = g.node + sizeof_iso_zone;
  callerinfo = g.buffer;
  size = g.guard;
  addr = g.second;
  flag = g.second_flag;
}

-- `list_add` has put the second zone in front of the first.
abbrev pub entries : List Guarded → List Zone
entries [] = []
entries (g ∷ gs) = behind g ∷ before g ∷ entries gs

abbrev pub kmalloc_block : ℕ → Block
kmalloc_block n = record { api = kmallocs; size = n; gfp = gfp_kernel; bus = 0 }

-- The addresses of the three blocks that belong to the allocation.
abbrev pub owns : Guarded → Addr → Bool
owns g p = (p == g.memory) || (p == g.buffer) || (p == g.node)

-- The layout of one allocation in the address space.
pub record IsLaidOut (g : Guarded) : Type 0 where
  pub room : g.memory + g.guard ≤ g.second
  pub inside : g.second + g.guard ≤ g.memory + g.span
  pub fits : g.memory + g.span ≤ word
  pub guarded : 0 < g.guard
  pub short : g.guard < 2 ^ 32
  pub node_fits : g.node + 2 * sizeof_iso_zone ≤ word
  pub memory_ne_null : g.memory ≢ null
  pub buffer_ne_null : g.buffer ≢ null
  pub node_ne_null : g.node ≢ null
  pub memory_ne_buffer : g.memory ≢ g.buffer
  pub memory_ne_node : g.memory ≢ g.node
  pub buffer_ne_node : g.buffer ≢ g.node
  pub spans : g.span ≡ g.block.size

-- Its blocks are recorded as handed out, and its buffer holds the caller's name.
pub record Held (blocks : Blocks) (symbols : Addr → Addr) (g : Guarded) : Type 0 where
  pub layout : IsLaidOut g
  pub memory_held : blocks g.memory ≡ some g.block
  pub buffer_held : blocks g.buffer ≡ some (kmalloc_block 200)
  pub node_held : blocks g.node ≡ some (kmalloc_block (2 * sizeof_iso_zone))
  pub named : symbols g.buffer ≡ g.caller

-- Two allocations share neither memory nor a block.
pub record Apart (g h : Guarded) : Type 0 where
  pub memories : (g.memory + g.span ≤ h.memory) ⊎ (h.memory + h.span ≤ g.memory)
  pub owners : (p : Addr) → owns g p ≡ true → owns h p ≡ false

pub record Inv (s : State Zone) (gs : List Guarded) : Type 0 where
  pub linked : s.zones ≡ entries gs
  pub held : All (Held s.blocks s.symbols) gs
  pub apart : Pairs Apart gs
  pub unlocked : s.locked ≡ false
