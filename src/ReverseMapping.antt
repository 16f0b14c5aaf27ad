-- ===== src/ReverseMapping.antt =====
-- mem_leak/reverse_mapping/reverse_mapping.c: the file /proc/rmap, which has an entry for each page frame
-- with the processes that map it.
pub mod Cursor
mod Examples
use linux_project.Base.{
  ℕ, ◌+◌, ◌-◌, ◌%◌, ◌^◌, Bool, true, false, Option, none, some, List, [], ◌∷◌, ◌++◌, ◌==◌, leb, ltb,
  if◌then◌else◌,
}
use linux_project.Kernel.{Addr, null, word}

-- `page_owner`, and `struct page`.
pub record Owner : Type 0 where
  pub pid : ℕ
  pub comm : ℕ

pub record Page : Type 0 where
  pub mapping : Addr
  pub index : ℕ

-- What the kernel answers; `page_lock_anon_vma` and `vma_prio_tree_next` are called at fixed addresses of
-- the kernel, and here they give the owners of the mappings one after the other.
pub record Machine : Type 0 where
  pub totalram_pages : ℕ
  pub pfn_valid : ℕ → Bool
  pub pfn_to_page : ℕ → Page
  pub page_anon : Page → Bool
  pub page_lock_anon_vma_own : Page → Option (List Owner)
  pub vma_prio_tree : Addr → ℕ → List Owner

pub data Line : Type 0 where
  swap_cache anonymous file_mapped : ℕ → Line
  owner : (pid comm : ℕ) → Line

-- A `loff_t` that is not negative, cast to `int` and then compared as an `unsigned long`.
abbrev pub int_as_long : ℕ → ℕ
int_as_long pos =
    let low : ℕ = pos % 2 ^ 32 in if ltb low (2 ^ 31) then low else low + word - 2 ^ 32

-- None is the NULL that ends the file; otherwise the position is the entry that is shown.
unfoldable pub handler_seq_start : Machine → (pos : ℕ) → Option ℕ
handler_seq_start machine pos =
    if leb (int_as_long pos) machine.totalram_pages then some pos else none

-- The position is moved in any case.
unfoldable pub handler_seq_next : Machine → (pos : ℕ) → Option ℕ × ℕ
handler_seq_next machine pos =
    (if leb (pos + 1) machine.totalram_pages then some (pos + 1) else none, pos + 1)

unfoldable pub show_owners : List Owner → List Line
show_owners [] = []
show_owners (o ∷ os) = owner o.pid o.comm ∷ show_owners os

unfoldable pub handler_seq_show : Machine → (pfn : ℕ) → List Line
handler_seq_show machine pfn =
    let valid_page = machine.pfn_to_page pfn in
    if machine.pfn_valid pfn
    then (if valid_page.mapping == null
        then swap_cache pfn ∷ []
        else if machine.page_anon valid_page
        then anonymous pfn ∷ elim (machine.page_lock_anon_vma_own valid_page) [
          | none ↦ []
          | some av ↦ show_owners av
        ]
        else file_mapped pfn
          ∷ show_owners (machine.vma_prio_tree valid_page.mapping valid_page.index))
    else []
