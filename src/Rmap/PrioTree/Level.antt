-- ===== src/Rmap/PrioTree/Level.antt =====
-- The levels of the priority search tree in rmap.c: what the mask and the level of the iterator are on
-- each, which level is below which, and that going up undoes what going down has done.
use Prim.Native.Nat.{bit_or}
use native.Mathlib.Nat.{pow-suc}
use linux_project.Base.{
  ℕ, zero, suc, ◌+◌, ◌-◌, ◌*◌, ◌/◌, ◌%◌, ◌^◌, ◌≤◌, ◌<◌, ◌≡◌, refl, subst, true, false, ◌==◌,
  if◌then◌else◌, arith, if_of_false, ==_of_ne,
}
use linux_project.Kernel.{word}
use linux_project.Kernel.Pages.{pow2-pos, pow2-le}
use linux_project.Rmap.PrioTree.{
  Pst, Cursor, PrioTreeIter, down, is_empty, enter, prio_tree_parent_user,
}
use linux_project.Rmap.PrioTree.Bits.{
  Masked, zero-Masked, or-Masked, and-Masked, and-set, xor-set, Masked-lower,
}

-- `keyed k` looks at bit `k` of the radix index. Below `keyed 0` all mappings begin at the same page,
-- and 65 levels of such can follow, of which `overflow 0` is the last.
pub data Level : Type 0 where
  keyed overflow : ℕ → Level

abbrev pub next : Level → Level
next (keyed zero) = overflow 64
next (keyed (suc k)) = keyed k
next (overflow zero) = overflow 0
next (overflow (suc s)) = overflow s

abbrev pub mask_of : Level → ℕ
mask_of (keyed k) = 2 ^ k
mask_of (overflow zero) = word - 1
mask_of (overflow (suc s)) = 2 ^ s

abbrev pub depth : Level → ℕ
depth (keyed k) = 0
depth (overflow s) = 65 - s

-- The least radix index on the right.
abbrev pub right_value : Level → ℕ → ℕ
right_value (keyed k) v = v + 2 ^ k
right_value (overflow s) v = v

abbrev pub iter_at : Level → (value from upto : ℕ) → PrioTreeIter
iter_at lvl value from upto = record {
  mask = mask_of lvl;
  value = value;
  size_level = depth lvl;
  r_index = from;
  h_index = upto;
}

-- The value has no bit as low as that of the level.
abbrev pub Fits : Level → ℕ → Type 0
Fits (keyed k) v = (k < 64) × Masked k v (2 ^ k)
Fits (overflow s) v = s ≤ 64

-- There are levels below.
abbrev pub Open : Level → Type 0
Open (keyed k) = Unit
Open (overflow zero) = ⊥
Open (overflow (suc s)) = Unit

-- On the last level there is nothing below.
abbrev pub AtEnd : Level → (l r : Pst) → Type 0
AtEnd (keyed k) l r = Unit
AtEnd (overflow zero) l r = (is_empty l ≡ true) × (is_empty r ≡ true)
AtEnd (overflow (suc s)) l r = Unit

half : (k : ℕ) → 2 ^ suc k / 2 ≡ 2 ^ k
half k = omega (arith, pow-suc 2 k)

not_zero : (k : ℕ) → (2 ^ k == 0) ≡ false
not_zero k = ==_of_ne (2 ^ k) 0 (omega (arith, pow2-pos k))

pub Fits-next :
    (lvl : Level) (v : ℕ) → Fits lvl v → Fits (next lvl) v × Fits (next lvl) (right_value lvl v)
Fits-next (keyed zero) v h = (omega arith, omega arith)
Fits-next (keyed (suc k)) v h =
    let below = Masked-lower k v (2 ^ suc k) h.1 in
    let lower = half k in
    (
      (omega (arith, h.0), subst (λ m. Masked k v m) (half k) below.0),
      (omega (arith, h.0), subst (λ m. Masked k (v + 2 ^ suc k) m) (half k) below.1),
    )
Fits-next (overflow zero) v h = (h, h)
Fits-next (overflow (suc s)) v h = (omega arith, omega arith)

-- One level down.
pub enter_lem :
    (lvl : Level) (v w from upto : ℕ) (c : Cursor) (r h : ℕ)
    → Fits lvl v
    → Open lvl
    → AtEnd (next lvl) c.left c.right
    → enter (record (iter_at lvl v from upto) { value = w }) c r h
      ≡ down (iter_at (next lvl) w from upto) c r h
unfolding enter
enter_lem (keyed zero) v w from upto c r h fits o e = refl
enter_lem (keyed (suc k)) v w from upto c r h fits o e = rw (half k, not_zero k) refl
enter_lem (overflow zero) v w from upto c r h fits o e = absurd o
enter_lem (overflow (suc zero)) v w from upto c r h fits o e = rw (e.0, e.1) refl
enter_lem (overflow (suc (suc s))) v w from upto c r h fits o e =
    let deeper : 65 - suc (suc s) + 1 ≡ 65 - suc s = omega arith in
    let below : (65 - suc (suc s) == 0) ≡ false = ==_of_ne _ 0 (omega arith) in
    rw (half s, not_zero s, below, deeper) refl

-- Twice a bit that is not the highest.
module _ (k : ℕ) (small : suc k < 64) where
  room : 2 ^ suc k ≤ 2 ^ 63
  room = pow2-le (62 - k) (suc k) 63 (omega arith)

  double : 2 ^ k * 2 % word ≡ 2 ^ suc k
  double = omega (arith, room, pow-suc 2 k)

  not_all : (2 ^ k == word - 1) ≡ false
  not_all = ==_of_ne (2 ^ k) (word - 1) (omega (arith, room, pow-suc 2 k))

-- Up again from the left.
pub parent_left :
    (lvl : Level) (v from upto : ℕ)
    → Fits lvl v
    → Open lvl
    → prio_tree_parent_user (iter_at (next lvl) v from upto) ≡ iter_at lvl v from upto
unfolding prio_tree_parent_user
parent_left (keyed zero) v from upto (small, fits) o = rw (and-Masked 0 v 1 fits) refl
parent_left (keyed (suc k)) v from upto (small, fits) o =
    rw (not_all k small, double k small, and-Masked (suc k) v (2 ^ suc k) fits) refl
parent_left (overflow zero) v from upto fits o = absurd o
parent_left (overflow (suc zero)) v from upto fits o = refl
parent_left (overflow (suc (suc s))) v from upto fits o =
    let higher : 65 - suc s - 1 ≡ 65 - suc (suc s) = omega arith in
    let inner : (65 - suc s == 1) ≡ false = ==_of_ne _ 1 (omega arith) in
    let below : (65 - suc (suc s) == 0) ≡ false = ==_of_ne _ 0 (omega arith) in
    rw (not_all s (omega arith), inner, double s (omega arith), higher, below) refl

-- Up again from the right.
pub parent_right :
    (lvl : Level) (v from upto : ℕ)
    → Fits lvl v
    → Open lvl
    → prio_tree_parent_user (iter_at (next lvl) (right_value lvl v) from upto)
      ≡ iter_at lvl v from upto
unfolding prio_tree_parent_user
parent_right (keyed zero) v from upto (small, fits) o =
    rw (and-set 0 v 1 fits, xor-set 0 v 1 fits) refl
parent_right (keyed (suc k)) v from upto (small, fits) o =
    let m : ℕ = 2 ^ suc k in
    rw
      (
        not_all k small,
        double k small,
        and-set (suc k) v m fits,
        not_zero (suc k),
        xor-set (suc k) v m fits,
      )
      refl
parent_right (overflow s) v from upto fits o = parent_left (overflow s) v from upto fits o

-- The value that the step to the right goes on with.
pub right_value_lem :
    (lvl : Level) (v : ℕ)
    → Fits lvl v
    → (if depth lvl == 0 then bit_or v (mask_of lvl) else v) ≡ right_value lvl v
right_value_lem (keyed k) v (small, fits) = or-Masked k v (2 ^ k) fits
right_value_lem (overflow s) v fits =
    if_of_false (bit_or v (mask_of (overflow s))) v (==_of_ne _ 0 (omega (arith, fits)))

-- In the root, of a tree whose radix indices have `suc k` bits.
pub root-Fits : (k : ℕ) → k < 64 → Fits (keyed k) 0
root-Fits k small = (small, zero-Masked k)
