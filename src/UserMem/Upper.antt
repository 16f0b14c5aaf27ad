-- ===== src/UserMem/Upper.antt =====
-- The two upper levels of the tables of huawei_user_space_mem.c against the translation.
use Prim.Native.Nat.{bit_and}
use linux_project.Base.{
  ℕ, ◌+◌, ◌*◌, ◌/◌, ◌%◌, ◌^◌, ◌<◌, ◌≡◌, refl, subst, sym, if◌then◌else◌, Bool-cases, inl, inr,
  arith,
}
use linux_project.Kernel.{Addr, word}
use linux_project.UserMem.{
  Paging, Task, page_1g, entry, skip, handle_1_g_page, walk_pmd, walk_pud, walk_pgd,
}
use linux_project.UserMem.Translate.{in_pud, in_pgd}
use linux_project.UserMem.Reports.{
  Mappings, Reports, skip-Reports, Reports-weaken, Reports-if, for_each-Reports,
}
use linux_project.UserMem.Walk.{
  at_indices, IsStart, Hits, Hits-size, Hits-if, handle-Reports, walk_pmd-Reports,
}

module _ (mem : Paging) (paddr : ℕ) (t : Task) where
  -- What is printed for the entry `u` of a table of the second level.
  abbrev At_pud : Addr → (g u : ℕ) → Mappings
  At_pud base g u size v =
      (m : ℕ) × (e : ℕ) × (m < 512)
      × (e < 512)
      × Hits paddr (in_pud mem base u m e) size
      × IsStart size m e
      × (v ≡ at_indices g u m e)

  pud-Reports :
      (base : Addr) (g u : ℕ)
      → g < 256
      → u < 512
      → let pud = entry mem base u in
        Reports paddr t
          (if mem.pud_present pud
            then (if mem.pud_large pud
                then handle_1_g_page mem pud paddr g u
                else walk_pmd mem (mem.pud_page_vaddr pud) paddr g u)
            else skip)
          (At_pud base g u)
  unfolding handle_1_g_page
  pud-Reports base g u hg hu =
      let pud = entry mem base u in
      let number = bit_and pud mem.pte_pfn_mask / 2 ^ 30 in
      elim (Bool-cases (mem.pud_present pud)) [
        | inr b ↦ rw b (
            Reports-weaken (λ size v h. absurd h)
              (λ size v (m, e, low, hi, h, start, same). absurd (cc (rw b at h))) skip-Reports)
        | inl b ↦ elim (Bool-cases (mem.pud_large pud)) [
          | inl l ↦
              rw (b, l)
                (Reports-weaken
                  (λ size v (h, same).
                    let (s, _) = Hits-size paddr size page_1g number h in
                    (
                      0,
                      0,
                      omega arith,
                      omega arith,
                      rw (b, l) h,
                      subst (λ s. IsStart s 0 0) (sym s) (refl, refl),
                      omega (arith, same),
                    ))
                  (λ size v (m, e, low, hi, k, start, same).
                    let h = rw (b, l) at k in
                    let (s, _) = Hits-size paddr size page_1g number h in
                    let zeros : (m ≡ 0) × (e ≡ 0) = subst (λ s. IsStart s m e) s start in
                    (h, omega (arith, same, zeros)))
                  (handle-Reports mem paddr t page_1g number ((g * 2 ^ 39 + u * 2 ^ 30) % word)))
          | inr l ↦
              rw (b, l)
                (Reports-weaken
                  (λ size v (m, low, (e, hi, h, start, same)).
                    (m, e, low, hi, rw (b, l) h, start, same))
                  (λ size v (m, e, low, hi, k, start, same).
                    (m, low, (e, hi, rw (b, l) at k, start, same)))
                  (walk_pmd-Reports mem paddr t (mem.pud_page_vaddr pud) g u hg hu))
        ]
      ]

  walk_pud-Reports :
      (base : Addr) (g : ℕ)
      → g < 256
      → Reports paddr t
          (walk_pud mem base paddr g)
          (λ size v. (u : ℕ) × (u < 512) × At_pud base g u size v)
  unfolding walk_pud
  walk_pud-Reports base g hg =
      Reports-weaken (λ size v (u, lo, hi, q). (u, omega arith, q))
        (λ size v (u, hi, q). (u, omega arith, omega arith, q))
        (for_each-Reports 512 0
          (λ u u' less hi size size' v v' (m, e, a, b, h, start, same)
              (m', e', a', b', h', start', same').
            omega arith)
          (λ u h. pud-Reports base g u hg (omega arith)))

  -- The whole walk, by indices.
  pub walk_pgd-Reports :
      (base : Addr)
      → Reports paddr t (walk_pgd mem base paddr) (λ size v.
        (g : ℕ) × (u : ℕ) × (m : ℕ) × (e : ℕ) × (g < 256)
        × (u < 512)
        × (m < 512)
        × (e < 512)
        × Hits paddr (in_pgd mem base g u m e) size
        × IsStart size m e
        × (v ≡ at_indices g u m e))
  unfolding walk_pgd
  walk_pgd-Reports base =
      Reports-weaken
        (λ size v (g, lo, hi, (b, (u, up, (m, e, low, last, h, start, same)))).
          (g, u, m, e, omega arith, up, low, last, rw b h, start, same))
        (λ size v (g, u, m, e, hi, up, low, last, h, start, same).
          let (b, h') =
            Hits-if paddr (mem.pgd_present (entry mem base g))
              (in_pud mem (mem.pgd_page_vaddr (entry mem base g)) u m e) size h in
          (g, omega arith, omega arith, (b, (u, up, (m, e, low, last, h', start, same)))))
        (for_each-Reports 256 0
          (λ g g' less hi size size' v v' (p, (u, low, (m, e, a, b, h, start, same)))
              (p', (u', low', (m', e', a', b', h', start', same'))).
            omega arith)
          (λ g h.
            Reports-if (mem.pgd_present (entry mem base g))
              (walk_pud-Reports (mem.pgd_page_vaddr (entry mem base g)) g (omega arith))))
