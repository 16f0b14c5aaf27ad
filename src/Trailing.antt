-- ===== src/Trailing.antt =====
-- mem_overflow_del_firstiso/code/mem_overflow_check.c: every allocation is made larger by one
-- isolation zone behind the memory that the caller gets, filled with 'a' and put on the list
-- `iso_head`; the caller's pointer is the block's own address, and finds the entry again. As in
-- Overflow, the kernel's intrusive list is the sequence of its entries in link order.
pub mod Guard
pub mod Alloc
pub mod Release
pub mod Check
pub mod Thread
pub mod Invariant
pub mod Requests
mod Examples
use linux_project.Base.{ℕ, Bool}
use linux_project.Kernel.{Addr}

-- `struct iso_zone`; `node` is where the structure itself lies.
pub record Zone : Type 0 where
  pub node : Addr
  pub callerinfo : Addr
  pub size : ℕ
  pub addr : Addr
  pub mem_addr : Addr
  pub flag : Bool

-- `sizeof(struct iso_zone)` on a 64-bit machine.
abbrev pub sizeof_iso_zone : ℕ
sizeof_iso_zone = 56

abbrev pub isosize_kmalloc : ℕ
isosize_kmalloc = 20

abbrev pub isosize_dma : ℕ
isosize_dma = 20

abbrev pub isosize_vmalloc : ℕ
isosize_vmalloc = 20

abbrev pub isosize_gfps : ℕ
isosize_gfps = 20

abbrev pub isosize_page : ℕ
isosize_page = 20

-- What one call of an allocation function meets outside the module: the answers of the allocator for
-- the memory itself, of `kmalloc` for the name buffer and for the structure, and of
-- `__builtin_return_address(0)`.
pub record Answers : Type 0 where
  pub memory : Addr
  pub buffer : Addr
  pub node : Addr
  pub caller : Addr
