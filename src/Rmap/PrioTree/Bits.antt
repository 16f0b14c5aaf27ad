-- ===== src/Rmap/PrioTree/Bits.antt =====
-- The bit operations on the value and the mask of the iterator in rmap.c: the mask is one bit, and the
-- value has no bit as low as that, or just that one.
use Prim.Native.Nat.{
  min, max, bit_and, bit_or, bit_xor, digits, bitwise, differ, bit_and-bitwise, bit_or-bitwise,
  bit_xor-bitwise,
}
use native.Mathlib.Nat.{pow-suc}
use linux_project.Base.{
  ℕ, zero, suc, ◌+◌, ◌*◌, ◌/◌, ◌%◌, ◌^◌, ◌≤◌, ◌≡◌, subst, refl, ap, sym, ◌∙◌, arith,
}

-- An operation on digits whose result for 0 and `b` is `z b`.
module _ (z : ℕ → ℕ) (f : ℕ → ℕ → ℕ) (law : (b : ℕ) → z b ≡ z (b / 2) * 2 + f 0 (b % 2)) where
  more_digits : (n m a b : ℕ) → a ≤ n → a ≤ m → digits z f n a b ≡ digits z f m a b
  more_digits zero zero a b h k = refl
  more_digits zero (suc m) zero b h k = refl
  more_digits zero (suc m) (suc a) b h k = absurd (omega arith)
  more_digits (suc n) zero zero b h k = refl
  more_digits (suc n) zero (suc a) b h k = absurd (omega arith)
  more_digits (suc n) (suc m) zero b h k = refl
  more_digits (suc n) (suc m) (suc a) b h k =
      ap (λ r. r * 2 + f (suc a % 2) (b % 2))
        (more_digits n m (suc a / 2) (b / 2) (omega arith) (omega arith))

  pub lowest : (a b : ℕ) → bitwise z f a b ≡ bitwise z f (a / 2) (b / 2) * 2 + f (a % 2) (b % 2)
  lowest zero b = law b
  lowest (suc a) b =
      ap (λ r. r * 2 + f (suc a % 2) (b % 2))
        (more_digits a (suc a / 2) (suc a / 2) (b / 2) (omega arith) (omega arith))

and_lowest : (a b : ℕ) → bit_and a b ≡ bit_and (a / 2) (b / 2) * 2 + min (a % 2) (b % 2)
and_lowest a b =
    bit_and-bitwise a b
    ∙ lowest (λ b. zero) min (λ b. omega arith) a b
    ∙ ap (λ r. r * 2 + min (a % 2) (b % 2)) (sym (bit_and-bitwise (a / 2) (b / 2)))

or_lowest : (a b : ℕ) → bit_or a b ≡ bit_or (a / 2) (b / 2) * 2 + max (a % 2) (b % 2)
or_lowest a b =
    bit_or-bitwise a b
    ∙ lowest (λ b. b) max (λ b. omega arith) a b
    ∙ ap (λ r. r * 2 + max (a % 2) (b % 2)) (sym (bit_or-bitwise (a / 2) (b / 2)))

xor_lowest : (a b : ℕ) → bit_xor a b ≡ bit_xor (a / 2) (b / 2) * 2 + differ (a % 2) (b % 2)
xor_lowest a b =
    bit_xor-bitwise a b
    ∙ lowest (λ b. b) differ (λ b. omega arith) a b
    ∙ ap (λ r. r * 2 + differ (a % 2) (b % 2)) (sym (bit_xor-bitwise (a / 2) (b / 2)))

or-zero : (n a : ℕ) → a ≤ n → bit_or a 0 ≡ a
or-zero n zero h = bit_or-bitwise 0 0
or-zero zero (suc a) h = absurd (omega arith)
or-zero (suc n) (suc a) h = omega (arith, or_lowest (suc a) 0, or-zero n (suc a / 2) (omega arith))

and-zero : (n a : ℕ) → a ≤ n → bit_and a 0 ≡ 0
and-zero n zero h = bit_and-bitwise 0 0
and-zero zero (suc a) h = absurd (omega arith)
and-zero (suc n) (suc a) h =
    omega (arith, and_lowest (suc a) 0, and-zero n (suc a / 2) (omega arith))

differ-zero : (x : ℕ) → differ x 0 ≡ x
differ-zero zero = refl
differ-zero (suc x) = refl

xor-zero : (n a : ℕ) → a ≤ n → bit_xor a 0 ≡ a
xor-zero n zero h = bit_xor-bitwise 0 0
xor-zero zero (suc a) h = absurd (omega arith)
xor-zero (suc n) (suc a) h =
    let low : differ (suc a % 2) 0 ≡ suc a % 2 = differ-zero (suc a % 2) in
    omega (arith, low, xor_lowest (suc a) 0, xor-zero n (suc a / 2) (omega arith))

-- The mask is bit `k`, and the value has no bit up to that.
abbrev pub Masked : (k value mask : ℕ) → Type 0
Masked zero value mask = (mask ≡ 1) × (value % 2 ≡ 0)
Masked (suc k) value mask = (value % 2 ≡ 0) × (mask % 2 ≡ 0) × Masked k (value / 2) (mask / 2)

pub zero-Masked : (k : ℕ) → Masked k 0 (2 ^ k)
zero-Masked zero = (refl, refl)
zero-Masked (suc k) =
    let half : 2 ^ k ≡ 2 ^ suc k / 2 = omega (arith, pow-suc 2 k) in
    (refl, omega (arith, pow-suc 2 k), subst (λ m. Masked k 0 m) half (zero-Masked k))

pub or-Masked : (k a m : ℕ) → Masked k a m → bit_or a m ≡ a + m
or-Masked zero a m h =
    let none_left : m / 2 ≡ 0 = omega (arith, h) in
    omega (
      arith,
      h,
      or_lowest a m,
      ap (λ (x : ℕ). bit_or (a / 2) x) none_left,
      or-zero (a / 2) (a / 2) (omega arith),
    )
or-Masked (suc k) a m h = omega (arith, or_lowest a m, or-Masked k (a / 2) (m / 2) h.2, h.0, h.1)

pub and-Masked : (k a m : ℕ) → Masked k a m → bit_and a m ≡ 0
and-Masked zero a m h =
    let none_left : m / 2 ≡ 0 = omega (arith, h) in
    omega (
      arith,
      h,
      and_lowest a m,
      ap (λ (x : ℕ). bit_and (a / 2) x) none_left,
      and-zero (a / 2) (a / 2) (omega arith),
    )
and-Masked (suc k) a m h = omega (arith, and_lowest a m, and-Masked k (a / 2) (m / 2) h.2, h.0, h.1)

-- With the bit set.
pub and-set : (k a m : ℕ) → Masked k a m → bit_and (a + m) m ≡ m
and-set zero a m h =
    let none_left : m / 2 ≡ 0 = omega (arith, h) in
    omega (
      arith,
      h,
      and_lowest (a + m) m,
      ap (λ (x : ℕ). bit_and ((a + m) / 2) x) none_left,
      and-zero ((a + m) / 2) ((a + m) / 2) (omega arith),
    )
and-set (suc k) a m h =
    let half : (a + m) / 2 ≡ a / 2 + m / 2 = omega (arith, h.0, h.1) in
    omega (
      arith,
      and_lowest (a + m) m,
      ap (λ (x : ℕ). bit_and x (m / 2)) half,
      and-set k (a / 2) (m / 2) h.2,
      h.0,
      h.1,
    )

pub xor-set : (k a m : ℕ) → Masked k a m → bit_xor (a + m) m ≡ a
xor-set zero a m h =
    let none_left : m / 2 ≡ 0 = omega (arith, h) in
    let odd : (a + m) % 2 ≡ 1 = omega (arith, h) in
    let one : m % 2 ≡ 1 = omega (arith, h) in
    let low : differ ((a + m) % 2) (m % 2) ≡ 0 = rw (odd, one) refl in
    omega (
      arith,
      h,
      xor_lowest (a + m) m,
      ap (λ (x : ℕ). bit_xor ((a + m) / 2) x) none_left,
      xor-zero ((a + m) / 2) ((a + m) / 2) (omega arith),
      low,
    )
xor-set (suc k) a m h =
    let half : (a + m) / 2 ≡ a / 2 + m / 2 = omega (arith, h.0, h.1) in
    let even : (a + m) % 2 ≡ 0 = omega (arith, h.0, h.1) in
    let low : differ ((a + m) % 2) (m % 2) ≡ 0 = rw (even, h.1) refl in
    omega (
      arith,
      xor_lowest (a + m) m,
      ap (λ (x : ℕ). bit_xor x (m / 2)) half,
      xor-set k (a / 2) (m / 2) h.2,
      low,
      h.0,
      h.1,
    )

-- The next lower bit.
pub Masked-lower : (k a m : ℕ) → Masked (suc k) a m → Masked k a (m / 2) × Masked k (a + m) (m / 2)
Masked-lower zero a m h =
    ((omega (arith, h), omega (arith, h)), (omega (arith, h), omega (arith, h)))
Masked-lower (suc k) a m h =
    let below = Masked-lower k (a / 2) (m / 2) h.2 in
    let half : a / 2 + m / 2 ≡ (a + m) / 2 = omega (arith, h.0, h.1) in
    (
      (h.0, h.2.1, below.0),
      (omega (arith, h.0, h.1), h.2.1, subst (λ x. Masked k x (m / 2 / 2)) half below.1),
    )
