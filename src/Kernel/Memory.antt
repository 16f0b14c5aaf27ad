-- ===== src/Kernel/Memory.antt =====
-- The loops of the allocation functions that fill isolation zones, and of the checks that read them,
-- over byte memory: `mem_overflow/code/mem_overflow_check.c`, lines 68-73 and 686-699.
use linux_project.Base.{
  ℕ, zero, suc, ◌+◌, ◌≤◌, ◌<◌, ◌≡◌, ◌≢◌, refl, Bool, true, false, ◌&&◌, ◌||◌, arith, ltb, leb, ◌==◌,
  if◌then◌else◌,
}
use linux_project.Kernel.{Addr, Bytes, word, offset, update}

-- The character 'a'.
abbrev pub mark : ℕ
mark = b'a'

-- `for (i = 0; i < n; i++) { *(first + i) = 'a'; *(second + i) = 'a'; }`, with `n` rounds left.
unfoldable pub fill_both : ℕ → ℕ → Addr → Addr → Bytes → Bytes
fill_both zero i first second m = m
fill_both (suc n) i first second m =
    fill_both n (i + 1) first second
      (update (update m (offset first i) mark) (offset second i) mark)

-- `for (i = 0; i < n; i++) *(iso_addr + i) = 'a';`
unfoldable pub fill : ℕ → ℕ → Addr → Bytes → Bytes
fill zero i first m = m
fill (suc n) i first m = fill n (i + 1) first (update m (offset first i) mark)

-- `while (iso_size--) { if (*checkptr != 'a') …; checkptr++; }`: does the loop meet another byte?
unfoldable pub is_broken : ℕ → Addr → Bytes → Bool
is_broken zero p m = false
is_broken (suc n) p m = if m p == mark then is_broken n (offset p 1) m else true

-- The addresses from `p` on, `n` of them.
abbrev pub within : Addr → ℕ → Addr → Bool
within p n q = leb p q && ltb q (p + n)

pub fill_both-eq :
    (n i first second : ℕ) (m : Bytes) (q : Addr)
    → first + i + n ≤ word
    → second + i + n ≤ word
    → fill_both n i first second m q
      ≡ (if within (first + i) n q || within (second + i) n q then mark else m q)
unfolding fill_both
fill_both-eq zero i first second m q hf hs = ground arith
fill_both-eq (suc n) i first second m q hf hs = ground (
  arith,
  fill_both-eq n (i + 1) first second
      (update (update m (offset first i) mark) (offset second i) mark) q,
)

pub fill-eq :
    (n i first : ℕ) (m : Bytes) (q : Addr)
    → first + i + n ≤ word
    → fill n i first m q ≡ (if within (first + i) n q then mark else m q)
unfolding fill
fill-eq zero i first m q hf = ground arith
fill-eq (suc n) i first m q hf =
    ground (arith, fill-eq n (i + 1) first (update m (offset first i) mark) q)

-- The zone of `n` bytes from `p` on is as it was filled.
abbrev pub IsIntact : Bytes → Addr → ℕ → Type 0
IsIntact m p n = (q : Addr) → p ≤ q → q < p + n → m q ≡ mark

pub is_broken_of_intact :
    (n p : ℕ) (m : Bytes) → p + n ≤ word → IsIntact m p n → is_broken n p m ≡ false
unfolding is_broken
is_broken_of_intact zero p m h intact = refl
is_broken_of_intact (suc zero) p m h intact = ground (arith, intact p)
is_broken_of_intact (suc (suc n)) p m h intact = ground (
  arith,
  intact p,
  is_broken_of_intact (suc n) (offset p 1) m (omega arith)
      (λ q lo hi. intact q (omega arith) (omega arith)),
)

-- A changed byte anywhere in the zone is met.
pub is_broken_of_changed :
    (n p : ℕ) (m : Bytes) (q : Addr)
    → p + n ≤ word
    → p ≤ q
    → q < p + n
    → m q ≢ mark
    → is_broken n p m ≡ true
unfolding is_broken
is_broken_of_changed zero p m q h lo hi bad = absurd (omega arith)
is_broken_of_changed (suc n) p m q h lo hi bad =
    ground (arith, is_broken_of_changed n (offset p 1) m q)
