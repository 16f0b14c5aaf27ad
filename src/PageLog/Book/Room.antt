-- ===== src/PageLog/Book/Room.antt =====
-- Why `alloc_lp` of huawei_log_page.c finds a record: there is one for each page frame, and every block
-- in the tree holds a frame of its own.
use linux_project.PageLog.{Pool}
use linux_project.PageLog.Pools.{alloc_record}
use linux_project.Base.{
  ℕ, zero, suc, ◌+◌, ◌≤◌, ◌<◌, ◌≡◌, refl, sym, ◌∙◌, Bool, false, none, some, List, [], ◌∷◌, leb,
  ltb, if◌then◌else◌, All, Bool-cases, inl, inr, arith, ap, All-map,
}
use linux_project.PageLog.Book.{Book}
use linux_project.PageLog.Book.Edit.{IsKept, recorded, origin_of-none}
use linux_project.PageLog.Book.Enter.{alloc_some}
use linux_project.PageLog.Book.Handlers.{missed_all}
use linux_project.PageLog.Pools.Supply.{length, length-append}
use linux_project.PageLog.Tree.{LogPage, inorder}
use linux_project.PageLog.Tree.Edit.{indices}
use linux_project.PageLog.Tree.Found.{lookup, find_lp-lookup}
use linux_project.PageLog.Tree.Order.{IsProper, IsOrdered}

-- How many of the frames below `n` are allocated.
abbrev pub frames : (ℕ → Bool) → ℕ → ℕ
frames allocated zero = 0
frames allocated (suc n) = (if allocated n then 1 else 0) + frames allocated n

frames_mono : (allocated : ℕ → Bool) (m n : ℕ) → m ≤ n → frames allocated m ≤ frames allocated n
frames_mono allocated m zero h =
    let e : m ≡ 0 = omega arith in omega (arith, ap (frames allocated) e)
frames_mono allocated m (suc n) h = elim (Bool-cases (leb m n)) [
  | inl e ↦ omega (arith, frames_mono allocated m n (ground arith))
  | inr e ↦ let same : m ≡ suc n = ground arith in omega (arith, ap (frames allocated) same)
]

-- Every block's first frame is allocated, and no two blocks have the same one.
blocks_le :
    (allocated : ℕ → Bool) (lo hi : ℕ) (xs : List LogPage)
    → IsOrdered xs
    → ((p : ℕ) → allocated p ≡ false → lookup p xs ≡ none)
    → All (λ x. lo ≤ x.start_page) xs
    → All (λ x. x.start_page < hi) xs
    → lo ≤ hi
    → length (indices xs) + frames allocated lo ≤ frames allocated hi
blocks_le allocated lo hi [] ordered known from below h =
    omega (arith, frames_mono allocated lo hi h)
blocks_le allocated lo hi (x ∷ xs) ordered known from below h =
    let own : x.start_page < x.end_page = ordered.1.0 in
    let rest =
      blocks_le allocated (suc x.start_page) hi xs (ordered.0.1, ordered.1.1)
        (λ p e. (missed_all p x xs (known p e)).1)
        (All-map xs (λ y b. omega (arith, own, b)) ordered.0.0) below.1 (omega (arith, below.0)) in
    let up = frames_mono allocated lo x.start_page from.0 in
    elim (Bool-cases (allocated x.start_page)) [
      | inl e ↦
          let one : frames allocated (suc x.start_page) ≡ 1 + frames allocated x.start_page =
            rw e refl in
          omega (arith, rest, up, one)
      | inr e ↦
          let gone = (missed_all x.start_page x xs (known x.start_page e)).0 in
          absurd (ground arith)
    ]

starts_below :
    (hi : ℕ) (xs : List LogPage)
    → All IsProper xs
    → ((p : ℕ) → hi ≤ p → lookup p xs ≡ none)
    → All (λ x. x.start_page < hi) xs
starts_below hi [] proper none_at = tt
starts_below hi (x ∷ xs) proper none_at = (
  elim (Bool-cases (ltb x.start_page hi)) [
    | inl e ↦ ground arith
    | inr e ↦
        let own : x.start_page < x.end_page = proper.0 in
        let gone = (missed_all x.start_page x xs (none_at x.start_page (ground arith))).0 in
        absurd (ground arith)
  ],
  starts_below hi xs proper.1 (λ p h. (missed_all p x xs (none_at p h)).1),
)

-- If every recorded frame is allocated, all allocated frames lie below `hi`, and these together with
-- the allocations that are under way are fewer than the records of the pool, then the pool is not
-- empty: the next `alloc_lp` does not read through a null pointer.
pub alloc_lp_safe :
    (n hi : ℕ) (flying : List ℕ) (allocated : ℕ → Bool) (b : Book)
    → IsKept n flying b
    → ((p : ℕ) → allocated p ≡ false → recorded b p ≡ none)
    → ((p : ℕ) → hi ≤ p → allocated p ≡ false)
    → frames allocated hi + length flying < n
    → (i : ℕ) × (q : Pool) × (alloc_record b.pool ≡ some (i, q))
alloc_lp_safe n hi flying allocated b kept known bounded few =
    let none_at = λ (p : ℕ) (e : allocated p ≡ false).
      sym (find_lp-lookup p b.tree kept.ordered) ∙ origin_of-none _ (known p e) in
    let blocks =
      blocks_le allocated 0 hi (inorder b.tree) kept.ordered none_at
        (All-map (inorder b.tree) (λ x h. omega arith) kept.ordered.1)
        (starts_below hi (inorder b.tree) kept.ordered.1 (λ p h. none_at p (bounded p h)))
        (omega arith) in
    alloc_some b.pool
      (omega (arith, kept.shared.0, length-append (indices (inorder b.tree)) flying, blocks))
