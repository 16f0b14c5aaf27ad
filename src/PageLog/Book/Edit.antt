-- ===== src/PageLog/Book/Edit.antt =====
-- The invariant of the tree and the pool of huawei_log_page.c, and what a write into a block, the end
-- of a block and a new block do to it.
use linux_project.Base.{
  ℕ, ◌+◌, ◌≤◌, ◌<◌, ◌≡◌, refl, ap, sym, ◌∙◌, true, not, ◌&&◌, Option, none, some, List, [], ◌∷◌,
  ◌++◌, if◌then◌else◌, All, Bool-cases, inl, inr, arith,
}
use linux_project.PageLog.Book.{Book, write, drop}
use linux_project.PageLog.Pools.{free_record}
use linux_project.PageLog.Pools.Supply.{IsShared, count, length, count-append, length-append}
use linux_project.PageLog.Tree.{LogPage, RbTree, inorder, find_lp, without}
use linux_project.PageLog.Tree.Edit.{
  Found, Origin, indices, count-indices, origin, origin_of, inorder-alter, altered_one, without_one,
  found-IsProper, removed-IsOrdered, shrunk-IsOrdered, lookup-found, lookup-removed, lookup-shrunk,
  lookup-Found, altered, shrunk-Clear,
}
use linux_project.PageLog.Tree.Found.{holds, lookup, find_lp-lookup}
use linux_project.PageLog.Tree.Order.{IsProper, IsOrdered, Clear}

-- What is recorded of a frame: the call that it was allocated by.
abbrev pub recorded : Book → ℕ → Option Origin
recorded b p = origin_of (find_lp p b.tree)

pub origin_of-none : (a : Option LogPage) → origin_of a ≡ none → a ≡ none
origin_of-none none h = refl
origin_of-none (some x) h = absurd (cc)

-- The tree is ordered, and every record of the pool of `n` is free, in the tree, or in the hands of a
-- probe's instance that `flying` names, and only once.
pub record IsKept (n : ℕ) (flying : List ℕ) (b : Book) : Type 0 where
  pub ordered : IsOrdered (inorder b.tree)
  pub shared : IsShared n b.pool (indices (inorder b.tree) ++ flying)

pub length-indices :
    (xs ys : List LogPage) → length (indices (xs ++ ys)) ≡ length (indices xs) + length (indices ys)
length-indices [] ys = omega arith
length-indices (x ∷ xs) ys = omega (arith, length-indices xs ys)

indices_same :
    (xs : List LogPage) (x y : LogPage) (ys : List LogPage)
    → y.index ≡ x.index
    → indices (xs ++ y ∷ ys) ≡ indices (xs ++ x ∷ ys)
indices_same [] x y ys e = ap (λ i. i ∷ indices ys) e
indices_same (z ∷ xs) x y ys e = ap (λ is. z.index ∷ is) (indices_same xs x y ys e)

-- The round of `do_log_page_free` has found the block `lp` at `start`.
module _ {n : ℕ} {flying : List ℕ} {b : Book} (start : ℕ) (lp : LogPage) (kept : IsKept n flying b)
    (hit : find_lp start b.tree ≡ some lp) where
  pub spot : Found start (inorder b.tree) lp
  spot =
      lookup-Found start (inorder b.tree) lp (sym (find_lp-lookup start b.tree kept.ordered) ∙ hit)

  IsOrdered-at : IsOrdered (spot.earlier ++ lp ∷ spot.later)
  IsOrdered-at = rw (← spot.split) kept.ordered

  once : count lp.index (indices (spot.earlier ++ lp ∷ spot.later)) ≤ 1
  once = rw (← spot.split) (
      ground
        (arith, kept.shared.1 lp.index, count-append lp.index (indices (inorder b.tree)) flying))

  pub hit_inside : (lp.start_page ≤ start) × (start < lp.end_page)
  hit_inside = let h = spot.held in ground arith

  pub hit-IsProper : IsProper lp
  hit-IsProper = found-IsProper spot.earlier lp spot.later IsOrdered-at

  pub recorded_there : (p : ℕ) → holds lp p ≡ true → recorded b p ≡ some (origin lp)
  recorded_there p e = ap origin_of (
      find_lp-lookup p b.tree kept.ordered
      ∙ ap (lookup p) spot.split
      ∙ lookup-found spot.earlier lp spot.later IsOrdered-at p e)

  -- The block is written to, and keeps its place: it may only shrink.
  module _ (f : LogPage → LogPage) (index : (f lp).index ≡ lp.index)
      (same : origin (f lp) ≡ origin lp) (lo : lp.start_page ≤ (f lp).start_page)
      (hi : (f lp).end_page ≤ lp.end_page) (proper : IsProper (f lp)) where
    pub inorder-write : inorder (write lp.index f b).tree ≡ spot.earlier ++ f lp ∷ spot.later
    inorder-write =
        inorder-alter lp.index f b.tree
        ∙ ap (altered lp.index f) spot.split
        ∙ altered_one spot.earlier lp spot.later once f

    pub write-IsKept : IsKept n flying (write lp.index f b)
    write-IsKept = record {
      ordered =
          rw inorder-write
            (shrunk-IsOrdered spot.earlier lp spot.later IsOrdered-at (f lp) lo hi proper);
      shared =
          rw (inorder-write, indices_same spot.earlier lp (f lp) spot.later index, ← spot.split)
            kept.shared;
    }

    pub recorded-write :
        (p : ℕ)
        → recorded (write lp.index f b) p
          ≡ (if holds lp p && not (holds (f lp) p) then none else recorded b p)
    recorded-write p =
        ap origin_of (
          find_lp-lookup p (write lp.index f b).tree write-IsKept.ordered
          ∙ ap (lookup p) inorder-write)
        ∙ lookup-shrunk spot.earlier lp spot.later IsOrdered-at p (f lp) lo hi same
        ∙ ap (λ a. if holds lp p && not (holds (f lp) p) then none else origin_of a)
            (ap (lookup p) (sym spot.split) ∙ sym (find_lp-lookup p b.tree kept.ordered))

    pub write-Clear :
        (new : LogPage)
        → lp.start_page ≤ new.start_page
        → new.end_page ≤ lp.end_page
        → (f lp).end_page ≤ new.start_page
        → All (Clear new) (inorder (write lp.index f b).tree)
    write-Clear new from upto apart =
        rw inorder-write
          (shrunk-Clear spot.earlier lp spot.later IsOrdered-at (f lp) new from upto apart)

  -- The block is taken out, and its record put back.
  module _ (rb : RbTree) where
    inorder-drop : inorder (drop rb lp b).tree ≡ spot.earlier ++ spot.later
    inorder-drop =
        rb.inorder-rb_erase lp.index b.tree
        ∙ ap (without lp.index) spot.split
        ∙ without_one spot.earlier lp spot.later once

    pub drop-IsKept : IsKept n flying (drop rb lp b)
    unfolding free_record
    drop-IsKept = record {
      ordered = rw inorder-drop (removed-IsOrdered spot.earlier lp spot.later IsOrdered-at);
      shared = rw inorder-drop (
          let old : IsShared n b.pool (indices (spot.earlier ++ lp ∷ spot.later) ++ flying) =
            rw (← spot.split) kept.shared in
          (
            omega (
              arith,
              old.0,
              length-append (indices (spot.earlier ++ lp ∷ spot.later)) flying,
              length-append (indices (spot.earlier ++ spot.later)) flying,
              length-indices spot.earlier (lp ∷ spot.later),
              length-indices spot.earlier spot.later,
            ),
            λ j. omega (
              arith,
              old.1 j,
              count-append j (indices (spot.earlier ++ lp ∷ spot.later)) flying,
              count-append j (indices (spot.earlier ++ spot.later)) flying,
              count-indices j spot.earlier (lp ∷ spot.later),
              count-indices j spot.earlier spot.later,
            ),
          ));
    }

    pub recorded-drop :
        (p : ℕ) → recorded (drop rb lp b) p ≡ (if holds lp p then none else recorded b p)
    recorded-drop p =
        ap origin_of (
          find_lp-lookup p (drop rb lp b).tree drop-IsKept.ordered
          ∙ ap (lookup p) inorder-drop
          ∙ lookup-removed spot.earlier lp spot.later IsOrdered-at p)
        ∙ rest
      where
        rest :
            origin_of (if holds lp p then none else lookup p (spot.earlier ++ lp ∷ spot.later))
            ≡ (if holds lp p then none else recorded b p)
        rest =
            let back : lookup p (spot.earlier ++ lp ∷ spot.later) ≡ find_lp p b.tree =
              ap (lookup p) (sym spot.split) ∙ sym (find_lp-lookup p b.tree kept.ordered) in
            elim (Bool-cases (holds lp p)) [ inl e ↦ rw e refl | inr e ↦ rw e (ap origin_of back) ]
