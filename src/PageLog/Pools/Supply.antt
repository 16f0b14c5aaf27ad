-- ===== src/PageLog/Pools/Supply.antt =====
-- What the comments on `__alloc_lp` and `__alloc_st` in huawei_log_page.c rely on: a pool never runs
-- dry as long as no more records are in use than it was made with.
use linux_project.Base.{
  ℕ, zero, suc, ◌+◌, ◌<◌, ◌≡◌, refl, ap, Option, none, some, List, [], ◌∷◌, ◌++◌, ◌==◌, ltb,
  if◌then◌else◌, arith,
}
use linux_project.Kernel.{Addr}
use linux_project.PageLog.{Pool}
use linux_project.PageLog.Pools.{fresh_pool, free_record, alloc_record, free_all}

abbrev pub length : List ℕ → ℕ
length [] = 0
length (x ∷ xs) = suc (length xs)

abbrev pub count : ℕ → List ℕ → ℕ
count i [] = 0
count i (x ∷ xs) = (if i == x then 1 else 0) + count i xs

-- A pool of `n` records, with those in use that it has handed out and not got back.
pub data Uses (n : ℕ) (addr : Addr) : Pool → List ℕ → Type 0 where
  started : Uses n addr (fresh_pool n addr) []
  took :
      {p q : Pool} {used : List ℕ} (i : ℕ)
      → Uses n addr p used
      → alloc_record p ≡ some (i, q)
      → Uses n addr q (i ∷ used)
  gave :
      {p q : Pool} (i : ℕ) (xs ys : List ℕ)
      → Uses n addr p (xs ++ i ∷ ys)
      → q ≡ free_record i p
      → Uses n addr q (xs ++ ys)

pub count-append : (i : ℕ) (xs ys : List ℕ) → count i (xs ++ ys) ≡ count i xs + count i ys
count-append i [] ys = omega arith
count-append i (x ∷ xs) ys = omega (arith, count-append i xs ys)

pub length-append : (xs ys : List ℕ) → length (xs ++ ys) ≡ length xs + length ys
length-append [] ys = omega arith
length-append (x ∷ xs) ys = omega (arith, length-append xs ys)

-- After the loop, each index from `i` to `i + n` is in the chain once more.
count-free_all :
    (n i j : ℕ) (p : Pool)
    → count j (free_all n i p).free
      ≡ count j p.free + (if ltb j i then 0 else if ltb j (i + n) then 1 else 0)
unfolding free_all free_record
count-free_all zero i j p = ground arith
count-free_all (suc n) i j p = ground (arith, count-free_all n (i + 1) j (free_record i p))

length-free_all : (n i : ℕ) (p : Pool) → length (free_all n i p).free ≡ length p.free + n
unfolding free_all free_record
length-free_all zero i p = omega arith
length-free_all (suc n) i p = omega (arith, length-free_all n (i + 1) (free_record i p))

-- Every record is free or in use, and only once.
abbrev pub IsShared : ℕ → Pool → List ℕ → Type 0
IsShared n p used =
    (length p.free + length used ≡ n)
    × ((j : ℕ) → count j p.free + count j used ≡ (if ltb j n then 1 else 0))

front :
    (nr : ℕ) (pool : Addr) (free : List ℕ) (q : Pool) (i : ℕ)
    → alloc_record (record { nr = nr; pool = pool; free = free }) ≡ some (i, q)
    → free ≡ i ∷ q.free
unfolding alloc_record
front nr pool [] q i e = absurd (cc)
front nr pool (x ∷ rest) q i e =
    ap (λ (r : Option (ℕ × Pool)). elim r [ none ↦ x ∷ rest | some (k, p) ↦ k ∷ p.free ]) e

pub taken :
    (n : ℕ) (p q : Pool) (i : ℕ) (used : List ℕ)
    → alloc_record p ≡ some (i, q)
    → IsShared n p used
    → IsShared n q (i ∷ used)
taken n p q i used e h =
    let split : p.free ≡ i ∷ q.free = front p.nr p.pool p.free q i e in
    let shorter : length p.free ≡ suc (length q.free) = ap length split in
    let fewer : (j : ℕ) → count j p.free ≡ (if j == i then 1 else 0) + count j q.free =
      λ j. ap (count j) split in
    (omega (arith, h.0), λ j. omega (arith, h.1 j, fewer j))

pub given :
    (n : ℕ) (p : Pool) (i : ℕ) (xs ys : List ℕ)
    → IsShared n p (xs ++ i ∷ ys)
    → IsShared n (free_record i p) (xs ++ ys)
unfolding free_record
given n p i xs ys h = (
  omega (arith, h.0, length-append xs (i ∷ ys), length-append xs ys),
  λ j. omega (arith, h.1 j, count-append j xs (i ∷ ys), count-append j xs ys),
)

pub Uses-IsShared :
    (n : ℕ) (addr : Addr) {p : Pool} {used : List ℕ} → Uses n addr p used → IsShared n p used
Uses-IsShared n addr started = (
  omega (arith, length-free_all n 0 (record { nr = n; pool = addr; free = [] })),
  λ j. ground (arith, count-free_all n 0 j (record { nr = n; pool = addr; free = [] })),
)
Uses-IsShared n addr (took {p} {q} {used} i u e) = taken n p q i used e (Uses-IsShared n addr u)
Uses-IsShared n addr (gave {p} i xs ys u e) = rw e (given n p i xs ys (Uses-IsShared n addr u))

supply :
    (n nr : ℕ) (pool : Addr) (free used : List ℕ)
    → IsShared n (record { nr = nr; pool = pool; free = free }) used
    → length used < n
    → let p : Pool = record { nr = nr; pool = pool; free = free } in
      (i : ℕ) × (q : Pool) × (alloc_record p ≡ some (i, q)) × (i < n) × (count i used ≡ 0)
unfolding alloc_record
supply n nr pool [] used h few = absurd (omega (arith, h.0))
supply n nr pool (x ∷ rest) used h few = (
  x,
  record { nr = nr; pool = pool; free = rest },
  refl,
  ground (arith, h.1 x),
  ground (arith, h.1 x),
)

-- Whatever was allocated and freed before, as long as fewer records are in use than the pool was made
-- with, an allocation succeeds, and gives a record of the pool that is not in use.
pub alloc_record-Uses :
    (n : ℕ) (addr : Addr) {p : Pool} {used : List ℕ}
    → Uses n addr p used
    → length used < n
    → (i : ℕ) × (q : Pool) × (alloc_record p ≡ some (i, q)) × (i < n) × (count i used ≡ 0)
alloc_record-Uses n addr {p} {used} u few =
    supply n p.nr p.pool p.free used (Uses-IsShared n addr u) few
