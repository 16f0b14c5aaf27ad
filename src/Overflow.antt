-- ===== src/Overflow.antt =====
-- mem_overflow/code/mem_overflow_check.c: every allocation is made larger by two isolation zones, one
-- before and one behind the memory that the caller gets, filled with 'a' and put on the list
-- `iso_head`; a kernel thread looks for zones that have changed. The kernel's intrusive list is the
-- sequence of its entries in link order, the entry behind the head first, so that `pos->prev` is the
-- entry before, or the head.
pub mod Guard
pub mod Alloc
pub mod Release
pub mod Check
pub mod Invariant
pub mod Requests
pub mod Thread
mod Examples
use linux_project.Base.{ℕ, Bool}
use linux_project.Kernel.{Addr}

-- `struct iso_zone`; `node` is where the structure itself lies.
pub record Zone : Type 0 where
  pub node : Addr
  pub callerinfo : Addr
  pub size : ℕ
  pub addr : Addr
  pub flag : Bool

-- `sizeof(struct iso_zone)` on a 64-bit machine.
abbrev pub sizeof_iso_zone : ℕ
sizeof_iso_zone = 48

abbrev pub isosize_kmalloc : ℕ
isosize_kmalloc = 20

abbrev pub isosize_dma : ℕ
isosize_dma = 20

abbrev pub isosize_vmalloc : ℕ
isosize_vmalloc = 20

abbrev pub isosize_gfps : ℕ
isosize_gfps = 20

abbrev pub isosize_page : ℕ
isosize_page = 20

-- What one call of an allocation function meets outside the module: the answers of the allocator for
-- the memory itself, of `kmalloc` for the name buffer and for the two structures, and of
-- `__builtin_return_address(0)`.
pub record Answers : Type 0 where
  pub memory : Addr
  pub buffer : Addr
  pub zones : Addr
  pub caller : Addr
