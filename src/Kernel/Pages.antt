-- ===== src/Kernel/Pages.antt =====
-- The size in bytes of 2 ^ order pages.
use native.Mathlib.Nat.{pow-suc}
use linux_project.Base.{
  ℕ, zero, suc, ◌+◌, ◌-◌, ◌*◌, ◌/◌, ◌%◌, ◌^◌, ◌≤◌, ◌<◌, ◌≡◌, ap, refl, ◌∙◌, arith,
}
use linux_project.Kernel.{word, page_size}

-- `(1 << order) * PAGE_SIZE`; the shift, of an `int`, is defined below order 31.
abbrev pub page_bytes : ℕ → ℕ
page_bytes order = (2 ^ order * page_size) % word

pow2-suc : (m n : ℕ) → m ≡ suc n → 2 ^ m ≡ 2 * 2 ^ n
pow2-suc m n e = ap (λ (t : ℕ). 2 ^ t) e ∙ omega (arith, pow-suc 2 n)

pub pow2-pos : (n : ℕ) → 1 ≤ 2 ^ n
pow2-pos zero = omega arith
pow2-pos (suc n) = omega (arith, pow2-pos n, pow-suc 2 n)

same : (n m : ℕ) → zero + n ≡ m → n ≡ m
same n m e = omega arith

pub pow2-le : (k n m : ℕ) → k + n ≡ m → 2 ^ n ≤ 2 ^ m
pow2-le zero n m e = omega (arith, ap (λ (t : ℕ). 2 ^ t) (same n m e))
pow2-le (suc k) n m e = omega (arith, pow2-le k n (k + n) refl, pow2-suc m (k + n))

-- Up to 2 ^ 20 pages, the byte count does not wrap, doubles with the order, and is even.
pub page_bytes_facts :
    (order : ℕ)
    → order < 20
    → (page_bytes (order + 1) ≡ 2 * page_bytes order)
      × (4096 ≤ page_bytes order)
      × (page_bytes order ≤ 2 ^ 31)
      × (2 * (page_bytes order / 2) ≡ page_bytes order)
page_bytes_facts order small =
    omega (arith, pow2-suc (order + 1) order, pow2-pos order, pow2-le (19 - order) order 19)
