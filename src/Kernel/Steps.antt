-- ===== src/Kernel/Steps.antt =====
-- What each call into the kernel does on each of its branches, so that the modules' proofs leave the
-- calls shut.
use linux_project.Base.{◌≡◌, ◌≢◌, refl, Bool, true, false, none, some, ==_of_ne}
use linux_project.Kernel.{
  Addr, null, Block, kmallocs, vmallocs, State, ok, fault, bad_free, deadlock, update, allocate,
  give_back, is_from, kfree, vfree, spin_lock, spin_unlock,
}

module _ {Z : Type 0} (s : State Z) where
  pub spin_lock-ok : s.locked ≡ false → spin_lock s ≡ ok tt (record s { locked = true })
  unfolding spin_lock
  spin_lock-ok h = rw h

  pub spin_lock_held : s.locked ≡ true → spin_lock s ≡ fault deadlock
  unfolding spin_lock
  spin_lock_held h = rw h

  pub spin_unlock-ok : spin_unlock s ≡ ok tt (record s { locked = false })
  unfolding spin_unlock
  spin_unlock-ok = refl

  pub allocate-ok :
      (p : Addr) (b : Block)
      → p ≢ null
      → allocate p b s ≡ ok p (record s { blocks = update s.blocks p (some b) })
  unfolding allocate
  allocate-ok p b h = rw (==_of_ne p null h)

  pub allocate-null : (b : Block) → allocate null b s ≡ ok null s
  unfolding allocate
  allocate-null b = refl

  pub give_back-ok :
      (fits : Block → Bool) (p : Addr) (b : Block)
      → s.blocks p ≡ some b
      → fits b ≡ true
      → give_back fits p s ≡ ok tt (record s { blocks = update s.blocks p none })
  unfolding give_back
  give_back-ok fits p b h f = rw (h, give_back) (rw f)

  pub give_back-none :
      (fits : Block → Bool) (p : Addr) → s.blocks p ≡ none → give_back fits p s ≡ fault bad_free
  unfolding give_back
  give_back-none fits p h = rw (h, give_back)

  pub kfree-ok :
      (p : Addr) (b : Block)
      → p ≢ null
      → s.blocks p ≡ some b
      → is_from kmallocs b ≡ true
      → kfree p s ≡ ok tt (record s { blocks = update s.blocks p none })
  unfolding kfree
  kfree-ok p b ne h f = rw (==_of_ne p null ne) (give_back-ok (is_from kmallocs) p b h f)

  pub vfree-ok :
      (p : Addr) (b : Block)
      → p ≢ null
      → s.blocks p ≡ some b
      → is_from vmallocs b ≡ true
      → vfree p s ≡ ok tt (record s { blocks = update s.blocks p none })
  unfolding vfree
  vfree-ok p b ne h f = rw (==_of_ne p null ne) (give_back-ok (is_from vmallocs) p b h f)
