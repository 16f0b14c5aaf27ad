-- ===== src/Trailing/Release.antt =====
-- The release functions of mem_overflow_del_firstiso/code/mem_overflow_check.c.
use linux_project.Base.{ℕ, ◌+◌, Bool, ◌&&◌, ◌==◌, if◌then◌else◌}
use linux_project.Kernel.{
  Addr, null, offset, Block, pages, dmas, exacts, Cmd, pure, ◌>>◌, give_back, is_sized, kfree,
  vfree,
}
use linux_project.Kernel.Pages.{page_bytes}
use linux_project.Trailing.{Zone, isosize_dma, isosize_page}
use linux_project.Trailing.Guard.{unguard}

unfoldable pub skfree : Addr → Cmd Zone (Unit {0})
skfree objp = if objp == null then pure tt else do unguard objp; kfree objp

unfoldable pub svfree : Addr → Cmd Zone (Unit {0})
svfree addr = if addr == null then pure tt else do unguard addr; vfree addr

-- `dma_free_coherent` wants the size and the bus address that the block was made with.
abbrev pub is_dma : ℕ → Addr → Block → Bool
is_dma size bus b = is_sized dmas size b && (bus == b.bus)

unfoldable pub sdma_free_coherent : ℕ → Addr → Addr → Cmd Zone (Unit {0})
sdma_free_coherent size vaddr bus =
    if vaddr == null
    then pure tt
    else do unguard vaddr; give_back (is_dma (offset size isosize_dma) bus) vaddr

-- `free_pages(0, order)` does nothing.
unfoldable pub free_pages : Addr → ℕ → Cmd Zone (Unit {0})
free_pages p order = if p == null then pure tt else give_back (is_sized pages (page_bytes order)) p

unfoldable pub sfree_pages : Addr → ℕ → Cmd Zone (Unit {0})
sfree_pages addr order =
    if addr == null then pure tt else do unguard addr; free_pages addr (order + 1)

unfoldable pub sfree_page : Addr → Cmd Zone (Unit {0})
sfree_page addr = sfree_pages addr 0

unfoldable pub nfree_pages : Addr → ℕ → Cmd Zone (Unit {0})
nfree_pages addr order = if addr == null then pure tt else do unguard addr; free_pages addr order

unfoldable pub free_pages_ex : Addr → ℕ → Cmd Zone (Unit {0})
free_pages_ex addr size =
    if addr == null
    then pure tt
    else do unguard addr; give_back (is_sized exacts (offset size isosize_page)) addr
