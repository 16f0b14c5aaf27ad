-- ===== src/Kernel/Fresh.antt =====
-- What the modules rely on of the kernel's allocators: a block that is handed out overlaps none of
-- those that are still held.
use linux_project.Base.{ℕ, ◌+◌, ◌≤◌, ◌≡◌, ◌≢◌, ◌⊎◌, none, some}
use linux_project.Kernel.{Addr, Blocks, Block, null, word}

-- `size` bytes from `p` on lie in the address space, past NULL, and outside every block of `held`,
-- and no block of `held` starts at `p`.
pub record IsFresh (held : Blocks) (p : Addr) (size : ℕ) : Type 0 where
  pub ne_null : p ≢ null
  pub fits : p + size ≤ word
  pub unused : held p ≡ none
  pub apart : (q : Addr) (b : Block) → held q ≡ some b → (p + size ≤ q) ⊎ (q + b.size ≤ p)
