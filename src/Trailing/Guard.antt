-- ===== src/Trailing/Guard.antt =====
-- The text that all six allocation functions of mem_overflow_del_firstiso/code/mem_overflow_check.c
-- repeat behind their call of the allocator, and the one that all six release functions repeat before
-- theirs.
pub mod Search
use linux_project.Base.{
  ℕ, Bool, true, false, ◌||◌, Option, none, some, List, [], ◌∷◌, ◌==◌, if◌then◌else◌,
}
use linux_project.Kernel.{
  Addr, null, to_int, gfp_kernel, Wrapper, buffer_failed, zones_failed, null_dereference, fault,
  Cmd, pure, ◌>>=◌, ◌>>◌, modify, kmalloc, kfree, sprint_symbol, printk, spin_lock, spin_unlock,
  list_add,
}
use linux_project.Kernel.Memory.{fill}
use linux_project.Trailing.{Zone, Answers, sizeof_iso_zone}

-- The fields that are given to `a[0]`.
abbrev pub iso_zone : (node callerinfo : Addr) → ℕ → (addr mem_addr : Addr) → Zone
iso_zone node callerinfo size addr mem_addr = record {
  node = node;
  callerinfo = callerinfo;
  size = size;
  addr = addr;
  mem_addr = mem_addr;
  flag = false;
}

-- Fill the zone of `count` bytes, write out the caller's name, enter the zone in the list. Any
-- failure returns NULL at once, with what was allocated before it kept.
unfoldable pub guard_block : Wrapper → Answers → ℕ → (iso_addr ret : Addr) → Cmd Zone Addr
guard_block w ans count iso_addr ret = do
  modify λ s. record s { bytes = fill count 0 iso_addr s.bytes }
  buffer ← kmalloc ans.buffer 200 gfp_kernel
  if (buffer == null) || (ans.caller == 0) then (do printk (buffer_failed w); pure null) else do
    sprint_symbol buffer ans.caller
    a ← kmalloc ans.node sizeof_iso_zone gfp_kernel
    if a == null then (do printk (zones_failed w); pure null) else do
      spin_lock
      list_add (iso_zone a buffer (to_int count) iso_addr ret)
      spin_unlock
      pure ret

-- How the loop over the list ends: no entry has the address and `temp` is the last one, NULL if there
-- is none; or the entry is unlinked, which leaves the others.
pub data Walk : Type 0 where
  missing : Option Zone → Walk
  unlinked : Zone → List Zone → Walk

abbrev pub keep : Zone → Walk → Walk
keep p (missing last) = missing last
keep p (unlinked z rest) = unlinked z (p ∷ rest)

-- `list_for_each(pos, &iso_head)` up to the first entry of the memory at `objp`; `temp` is what the
-- variable holds before the round.
unfoldable pub walk : Addr → Option Zone → List Zone → Walk
walk objp temp [] = missing temp
walk objp temp (z ∷ zs) =
    let later = walk objp (some z) zs in if objp == z.mem_addr then unlinked z zs else keep z later

-- What the loop leaves in `temp`.
unfoldable pub take_out : Walk → Cmd Zone (Option Zone)
take_out (missing last) = pure last
take_out (unlinked z rest) = do modify (λ s. record s { zones = rest }); pure (some z)

-- `kfree(temp->callerinfo); kfree(temp);`
unfoldable pub free_zone : Option Zone → Cmd Zone (Unit {0})
free_zone none = λ _. fault null_dereference
free_zone (some z) = do kfree z.callerinfo; kfree z.node

-- From `spin_lock` to the second `kfree` of a release function.
unfoldable pub unguard : Addr → Cmd Zone (Unit {0})
unguard objp = do
  spin_lock
  temp ← λ s. take_out (walk objp none s.zones) s
  spin_unlock
  free_zone temp
