-- ===== src/UserMem/Walk.antt =====
-- Each table of huawei_user_space_mem.c against the translation: a walk prints just the addresses whose
-- translation ends in the page that is looked for.
use Prim.Native.Nat.{bit_and}
use linux_project.Base.{
  ℕ, ◌+◌, ◌*◌, ◌/◌, ◌%◌, ◌^◌, ◌<◌, ◌≡◌, refl, subst, ap, sym, ◌∙◌, Bool, true, false, Option, none,
  some, ◌==◌, if◌then◌else◌, Bool-cases, inl, inr, arith,
}
use linux_project.Kernel.{Addr, word}
use linux_project.UserMem.{
  Paging, Task, PageSize, page_4k, page_2m, page_1g, entry, skip, print_mapped, handle_4_k_page,
  handle_2_m_page, walk_pte, walk_pmd,
}
use linux_project.UserMem.Translate.{frame, in_pte, in_pmd}
use linux_project.UserMem.Reports.{
  Mappings, Reports, skip-Reports, print_mapped-Reports, Reports-weaken, Reports-if,
  for_each-Reports,
}

-- The address with these indices.
abbrev pub at_indices : (g u m e : ℕ) → ℕ
at_indices g u m e = (g * 2 ^ 39 + u * 2 ^ 30 + m * 2 ^ 21 + e * 2 ^ 12) % word

-- The indices below the page's own are those of its start.
abbrev pub IsStart : PageSize → (m e : ℕ) → Type 0
IsStart page_4k m e = Unit
IsStart page_2m m e = e ≡ 0
IsStart page_1g m e = (m ≡ 0) × (e ≡ 0)

-- The page that is reached is the one with that physical address.
abbrev pub Hits : ℕ → Option (PageSize × ℕ) → PageSize → Type 0
Hits paddr r size = r ≡ some (size, frame size paddr)

pub Hits-size :
    (paddr : ℕ) (size size' : PageSize) (x : ℕ)
    → Hits paddr (some (size', x)) size
    → (size ≡ size') × (x ≡ frame size' paddr)
Hits-size paddr size size' x h =
    let same : size ≡ size' = cc in
    let number : x ≡ frame size paddr = cc in
    (same, number ∙ ap (λ (s : PageSize). frame s paddr) same)

pub Hits-if :
    (paddr : ℕ) (b : Bool) (r : Option (PageSize × ℕ)) (size : PageSize)
    → Hits paddr (if b then r else none) size
    → (b ≡ true) × Hits paddr r size
Hits-if paddr true r size h = (refl, h)
Hits-if paddr false r size h = absurd (cc)

module _ (mem : Paging) (paddr : ℕ) (t : Task) where
  pub handle-Reports :
      (size' : PageSize) (x v' : ℕ)
      → Reports paddr t
          (if x == frame size' paddr then print_mapped paddr size' v' else skip)
          (λ size v. Hits paddr (some (size', x)) size × (v ≡ v'))
  handle-Reports size' x v' =
      Reports-weaken
        (λ size v (e, (s, same)).
          let number : x ≡ frame size' paddr = ground arith in
          (
            ap (λ n. some (size', n)) number
                ∙ ap (λ (s : PageSize). some (s, frame s paddr)) (sym s),
            same,
          ))
        (λ size v (h, same).
          let (s, number) = Hits-size paddr size size' x h in (ground arith, (s, same)))
        (Reports-if (x == frame size' paddr) (print_mapped-Reports size' v'))

  pub walk_pte-Reports :
      (base : Addr) (g u m : ℕ)
      → g < 256
      → u < 512
      → m < 512
      → Reports paddr t (walk_pte mem base paddr g u m) (λ size v.
        (e : ℕ) × (e < 512) × Hits paddr (in_pte mem base e) size × (v ≡ at_indices g u m e))
  unfolding walk_pte handle_4_k_page
  walk_pte-Reports base g u m hg hu hm =
      Reports-weaken (λ size v (e, lo, hi, (b, (h, same))). (e, omega arith, rw b h, same))
        (λ size v (e, hi, h, same).
          let (b, h') =
            Hits-if paddr (mem.pte_present (entry mem base e))
              (some (page_4k, mem.pte_pfn (entry mem base e))) size h in
          (e, omega arith, omega arith, (b, (h', same))))
        (for_each-Reports 512 0 (λ e e' less hi size size' v v' q r. omega (arith, q.1.1, r.1.1))
          (λ e h.
            Reports-if (mem.pte_present (entry mem base e))
              (handle-Reports page_4k (mem.pte_pfn (entry mem base e)) (at_indices g u m e))))

  -- What is printed for the entry `m` of a table of the third level.
  abbrev pub At_pmd : Addr → (g u m : ℕ) → Mappings
  At_pmd base g u m size v =
      (e : ℕ) × (e < 512)
      × Hits paddr (in_pmd mem base m e) size
      × IsStart size m e
      × (v ≡ at_indices g u m e)

  pmd-Reports :
      (base : Addr) (g u m : ℕ)
      → g < 256
      → u < 512
      → m < 512
      → let pmd = entry mem base m in
        Reports paddr t
          (if mem.pmd_present pmd
            then (if mem.pmd_large pmd
                then handle_2_m_page mem pmd paddr g u m
                else walk_pte mem (mem.pmd_page_vaddr pmd) paddr g u m)
            else skip)
          (At_pmd base g u m)
  unfolding handle_2_m_page
  pmd-Reports base g u m hg hu hm =
      let pmd = entry mem base m in
      elim (Bool-cases (mem.pmd_present pmd)) [
        | inr b ↦ rw b (
            Reports-weaken (λ size v h. absurd h)
              (λ size v (e, hi, h, start, same). absurd (cc (rw b at h))) skip-Reports)
        | inl b ↦ elim (Bool-cases (mem.pmd_large pmd)) [
          | inl l ↦
              rw (b, l)
                (Reports-weaken
                  (λ size v (h, same).
                    let (s, number) =
                      Hits-size paddr size page_2m (bit_and pmd mem.pte_pfn_mask / 2 ^ 21) h in
                    (
                      0,
                      omega arith,
                      rw (b, l) h,
                      subst (λ s. IsStart s m 0) (sym s) refl,
                      omega (arith, same),
                    ))
                  (λ size v (e, hi, k, start, same).
                    let h = rw (b, l) at k in
                    let (s, number) =
                      Hits-size paddr size page_2m (bit_and pmd mem.pte_pfn_mask / 2 ^ 21) h in
                    let zero_e : e ≡ 0 = subst (λ s. IsStart s m e) s start in
                    (h, omega (arith, same, zero_e)))
                  (handle-Reports page_2m (bit_and pmd mem.pte_pfn_mask / 2 ^ 21)
                    ((g * 2 ^ 39 + u * 2 ^ 30 + m * 2 ^ 21) % word)))
          | inr l ↦
              rw (b, l)
                (Reports-weaken
                  (λ size v (e, hi, h, same). (e, hi, rw (b, l) h, pte-IsStart _ m e h, same))
                  (λ size v (e, hi, k, start, same). (e, hi, rw (b, l) at k, same))
                  (walk_pte-Reports (mem.pmd_page_vaddr pmd) g u m hg hu hm))
        ]
      ]
    where
      pte-IsStart :
          {size : PageSize} (b : Addr) (m e : ℕ)
          → Hits paddr (in_pte mem b e) size
          → IsStart size m e
      pte-IsStart {size} b m e h =
          let (p, h') =
            Hits-if paddr (mem.pte_present (entry mem b e))
              (some (page_4k, mem.pte_pfn (entry mem b e))) size h in
          subst (λ s. IsStart s m e) (sym ((Hits-size paddr size page_4k _ h').0)) tt

  pub walk_pmd-Reports :
      (base : Addr) (g u : ℕ)
      → g < 256
      → u < 512
      → Reports paddr t
          (walk_pmd mem base paddr g u)
          (λ size v. (m : ℕ) × (m < 512) × At_pmd base g u m size v)
  unfolding walk_pmd
  walk_pmd-Reports base g u hg hu =
      Reports-weaken (λ size v (m, lo, hi, q). (m, omega arith, q))
        (λ size v (m, hi, q). (m, omega arith, omega arith, q))
        (for_each-Reports 512 0
          (λ m m' less hi size size' v v' (e, low, h, start, same) (e', low', h', start', same').
            omega arith)
          (λ m h. pmd-Reports base g u m hg hu (omega arith)))
