-- ===== src/PageLog/Book/Enter.antt =====
-- The invariant of the tree and the pool of huawei_log_page.c: what a record that is taken out of the pool
-- and a new block do to it.
use linux_project.Base.{
  ℕ, ◌+◌, ◌<◌, ◌≡◌, refl, ap, ◌∙◌, some, List, [], ◌∷◌, ◌++◌, ◌==◌, leb, if◌then◌else◌, All,
  Bool-cases, inl, inr, arith,
}
use linux_project.PageLog.{Pool}
use linux_project.PageLog.Book.{Book}
use linux_project.PageLog.Pools.{alloc_record}
use linux_project.PageLog.Pools.Supply.{count, length, count-append, length-append, taken}
use linux_project.PageLog.Tree.{
  LogPage, Tree, RbTree, leaf, node, inorder, find_lp, link, log_page_insert,
}
use linux_project.PageLog.Tree.Edit.{indices, count-indices, origin, origin_of}
use linux_project.PageLog.Tree.Found.{holds, find_lp-log_page_insert}
use linux_project.PageLog.Tree.Order.{IsProper, Clear}
use linux_project.PageLog.Book.Edit.{IsKept, recorded, length-indices}

-- Where the pool is not empty it hands out a record, which is then with a probe's instance.
pub alloc_some :
    (p : Pool) → 0 < length p.free → (i : ℕ) × (q : Pool) × (alloc_record p ≡ some (i, q))
unfolding alloc_record
alloc_some p few = from p.nr p.pool p.free few
  where
    from :
        (nr pool : ℕ) (free : List ℕ)
        → 0 < length free
        → (i : ℕ) × (q : Pool) × (alloc_record (record { nr = nr; pool = pool; free = free })
            ≡ some (i, q))
    from nr pool [] h = absurd (omega arith)
    from nr pool (x ∷ rest) h = (x, record { nr = nr; pool = pool; free = rest }, refl)

pub alloc-IsKept :
    {n i : ℕ} {flying : List ℕ} {b : Book} {q : Pool}
    → alloc_record b.pool ≡ some (i, q)
    → IsKept n flying b
    → IsKept n (i ∷ flying) (record b { pool = q })
alloc-IsKept {n} {i} {flying} {b} {q} e kept =
    let used = indices (inorder b.tree) in
    let h = taken n b.pool q i (used ++ flying) e kept.shared in
    record {
      ordered = kept.ordered;
      shared = (
        omega (arith, h.0, length-append used flying, length-append used (i ∷ flying)),
        λ j. omega (arith, h.1 j, count-append j used flying, count-append j used (i ∷ flying)),
      );
    }

-- A new block is entered with a record that the pool has handed out.
length-link :
    (lp : LogPage) (t : Tree)
    → length (indices (inorder (link lp t))) ≡ length (indices (inorder t)) + 1
unfolding link
length-link lp leaf = omega arith
length-link lp (node l x r) = elim (Bool-cases (leb lp.end_page x.start_page)) [
  | inl e ↦ rw e (
      omega (
        arith,
        length-indices (inorder (link lp l)) (x ∷ inorder r),
        length-indices (inorder l) (x ∷ inorder r),
        length-link lp l,
      ))
  | inr e ↦ rw e (
      omega (
        arith,
        length-indices (inorder l) (x ∷ inorder (link lp r)),
        length-indices (inorder l) (x ∷ inorder r),
        length-link lp r,
      ))
]

count-link :
    (j : ℕ) (lp : LogPage) (t : Tree)
    → count j (indices (inorder (link lp t)))
      ≡ count j (indices (inorder t)) + (if j == lp.index then 1 else 0)
unfolding link
count-link j lp leaf = omega arith
count-link j lp (node l x r) = elim (Bool-cases (leb lp.end_page x.start_page)) [
  | inl e ↦ rw e (
      omega (
        arith,
        count-indices j (inorder (link lp l)) (x ∷ inorder r),
        count-indices j (inorder l) (x ∷ inorder r),
        count-link j lp l,
      ))
  | inr e ↦ rw e (
      omega (
        arith,
        count-indices j (inorder l) (x ∷ inorder (link lp r)),
        count-indices j (inorder l) (x ∷ inorder r),
        count-link j lp r,
      ))
]

module _ {n : ℕ} {flying : List ℕ} {b : Book} (rb : RbTree) (lp : LogPage)
    (kept : IsKept n (lp.index ∷ flying) b) (proper : IsProper lp)
    (clear : All (Clear lp) (inorder b.tree)) where
  pub insert-IsKept : IsKept n flying (record b { tree = log_page_insert rb lp b.tree })
  unfolding log_page_insert
  insert-IsKept = record {
    ordered = (find_lp-log_page_insert rb lp b.tree proper kept.ordered clear).0;
    shared =
        let keeps = rb.inorder-rb_insert_color (link lp b.tree) in
        rw keeps (
          omega (
            arith,
            kept.shared.0,
            length-append (indices (inorder b.tree)) (lp.index ∷ flying),
            length-append (indices (inorder (link lp b.tree))) flying,
            length-link lp b.tree,
          ),
          λ j. omega (
            arith,
            kept.shared.1 j,
            count-append j (indices (inorder b.tree)) (lp.index ∷ flying),
            count-append j (indices (inorder (link lp b.tree))) flying,
            count-link j lp b.tree,
          ),
        );
  }

  pub recorded-insert :
      (p : ℕ)
      → recorded (record b { tree = log_page_insert rb lp b.tree }) p
        ≡ (if holds lp p then some (origin lp) else recorded b p)
  recorded-insert p =
      ap origin_of ((find_lp-log_page_insert rb lp b.tree proper kept.ordered clear).1 p) ∙ move
    where
      move :
          origin_of (if holds lp p then some lp else find_lp p b.tree)
          ≡ (if holds lp p then some (origin lp) else recorded b p)
      move = elim (Bool-cases (holds lp p)) [ inl e ↦ rw e refl | inr e ↦ rw e refl ]
