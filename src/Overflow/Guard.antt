-- ===== src/Overflow/Guard.antt =====
-- The text that all six allocation functions of mem_overflow_check.c repeat behind their call of the
-- allocator, and the one that all six release functions repeat before theirs.
pub mod Search
pub mod Unguard
use linux_project.Base.{
  ℕ, ◌*◌, Bool, true, false, ◌||◌, Option, none, some, List, [], ◌∷◌, ◌==◌, if◌then◌else◌,
}
use linux_project.Kernel.{
  Addr, null, offset, to_int, gfp_kernel, Wrapper, buffer_failed, zones_failed, Fault,
  null_dereference, head_unlinked, fault, Cmd, pure, ◌>>=◌, ◌>>◌, modify, kmalloc, kfree,
  sprint_symbol, printk, spin_lock, spin_unlock, list_add,
}
use linux_project.Kernel.Memory.{fill_both}
use linux_project.Overflow.{Zone, Answers, sizeof_iso_zone}

-- The fields that are given to `a[0]` and `a[1]`.
abbrev pub iso_zone : (node callerinfo : Addr) → ℕ → Addr → Zone
iso_zone node callerinfo size addr = record {
  node = node;
  callerinfo = callerinfo;
  size = size;
  addr = addr;
  flag = false;
}

-- Fill both zones of `count` bytes, write out the caller's name, enter the zones in the list. Any
-- failure returns NULL at once, with what was allocated before it kept.
unfoldable pub guard_block : Wrapper → Answers → ℕ → (first second ret : Addr) → Cmd Zone Addr
guard_block w ans count first second ret = do
  modify λ s. record s { bytes = fill_both count 0 first second s.bytes }
  buffer ← kmalloc ans.buffer 200 gfp_kernel
  if (buffer == null) || (ans.caller == 0) then (do printk (buffer_failed w); pure null) else do
    sprint_symbol buffer ans.caller
    a ← kmalloc ans.zones (2 * sizeof_iso_zone) gfp_kernel
    if a == null then (do printk (zones_failed w); pure null) else do
      spin_lock
      list_add (iso_zone a buffer (to_int count) first)
      list_add (iso_zone (offset a sizeof_iso_zone) buffer (to_int count) second)
      spin_unlock
      pure ret

-- How the loop over the list ends: no entry fits and `temp` is the last one, NULL if there is none;
-- the entry that fits stands right behind the head, so that `pos->prev` is the head; or the entry
-- and the one before it are unlinked.
pub data Walk : Type 0 where
  missing : Option Zone → Walk
  at_head : Zone → Walk
  unlinked : Zone → List Zone → Walk

abbrev pub keep : Zone → Walk → Walk
keep p (missing last) = missing last
keep p (at_head z) = at_head z
keep p (unlinked z rest) = unlinked z (p ∷ rest)

-- `list_for_each(pos, &iso_head)` up to the first entry whose zone starts at `iso1_addr`, with the
-- entry before `pos` in hand; `list_del(pos); list_del(pos->prev)` leaves the rest.
unfoldable pub walk : Addr → Option Zone → List Zone → Walk
walk iso1_addr prev [] = missing prev
walk iso1_addr none (z ∷ zs) = if iso1_addr == z.addr then at_head z else walk iso1_addr (some z) zs
walk iso1_addr (some p) (z ∷ zs) =
    if iso1_addr == z.addr then unlinked z zs else keep p (walk iso1_addr (some z) zs)

-- What the loop leaves in `temp`; `list_del` of the head itself destroys the list.
unfoldable pub take_out : Walk → Cmd Zone (Option Zone)
take_out (missing last) = pure last
take_out (at_head z) = λ _. fault head_unlinked
take_out (unlinked z rest) = do modify (λ s. record s { zones = rest }); pure (some z)

-- `kfree(temp->callerinfo); kfree(temp);`
unfoldable pub free_zone : Option Zone → Cmd Zone (Unit {0})
free_zone none = λ _. fault null_dereference
free_zone (some z) = do kfree z.callerinfo; kfree z.node

-- From `spin_lock` to the second `kfree` of a release function.
unfoldable pub unguard : Addr → Cmd Zone (Unit {0})
unguard iso1_addr = do
  spin_lock
  temp ← λ s. take_out (walk iso1_addr none s.zones) s
  spin_unlock
  free_zone temp
