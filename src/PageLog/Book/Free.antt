-- ===== src/PageLog/Book/Free.antt =====
-- `do_log_page_free` of huawei_log_page.c: the loop ends, with just the released frames forgotten.
use linux_project.Kernel.Pages.{pow2-pos}
use linux_project.Base.{
  ℕ, zero, suc, ◌+◌, ◌-◌, ◌^◌, ◌≤◌, ◌<◌, ◌≡◌, refl, ap, subst, ◌∙◌, true, false, ◌&&◌, none, some,
  List, ◌==◌, leb, ltb, Bool-cases, inl, inr, arith,
}
use linux_project.PageLog.Book.{
  Book, free_round, free_loop, do_log_page_free, jfree_hot_cold_page, ended, Loop,
}
use linux_project.PageLog.Book.Edit.{IsKept, recorded, origin_of-none}
use linux_project.PageLog.Book.Round.{Forgets, Round, advanced, halved, free_round-Goes}
use linux_project.PageLog.Pools.Supply.{length}
use linux_project.PageLog.Tree.{RbTree, find_lp}

-- Where no frame is recorded the loop goes on to the end, frame by frame.
skips :
    (k : ℕ) (rb : RbTree) (start end_page : ℕ) (b : Book)
    → start < end_page
    → end_page - start ≤ k
    → ((p : ℕ) → start ≤ p → p < end_page → find_lp p b.tree ≡ none)
    → free_loop k rb start end_page b ≡ ended b
unfolding free_loop free_round
skips zero rb start end_page b h k none_there = absurd (omega arith)
skips (suc k) rb start end_page b below few none_there =
    let here = none_there start (omega arith) below in
    elim (Bool-cases (start + 1 == end_page)) [
      | inl e ↦ rw (here, free_loop, e) refl
      | inr e ↦
          rw (here, free_loop, e)
            (skips k rb (start + 1) end_page b (ground arith) (omega arith)
              (λ p lo hi. none_there p (omega arith) hi))
    ]

compose :
    (b b' b'' : Book) (lo mid hi : ℕ)
    → lo ≤ mid
    → mid ≤ hi
    → Forgets b b' lo mid
    → Forgets b' b'' mid hi
    → Forgets b b'' lo hi
compose b b' b'' lo mid hi h k first second p = second p ∙ rw (first p) (ground arith)

-- What the loop comes to.
abbrev pub Ends : (n : ℕ) → List ℕ → Book → (start end_page : ℕ) → Loop → Type 0
Ends n flying b start end_page r =
    (b' : Book) × (r ≡ ended b') × IsKept n flying b' × Forgets b b' start end_page

-- After the cut, and where the block was cut the frames up to the end are no longer recorded.
rest_skips :
    (k n : ℕ) (flying : List ℕ) (rb : RbTree) (start end_page : ℕ) (b b' : Book)
    → start < end_page
    → end_page - start ≤ k
    → IsKept n flying b'
    → Forgets b b' start end_page
    → Ends n flying b start end_page (free_loop k rb start end_page b')
rest_skips k n flying rb start end_page b b' below few kept gone = (
  b',
  skips k rb start end_page b' below few (λ p lo hi.
      let within : (leb start p && ltb p end_page) ≡ true = ground arith in
      origin_of-none (find_lp p b'.tree) (gone p ∙ rw within refl)),
  kept,
  gone,
)

-- A round, and then what is proved of the loop with one round less.
after-Round :
    {k n : ℕ} {flying : List ℕ} (rb : RbTree) (start end_page : ℕ) (b : Book) (start' : ℕ)
    (b' : Book)
    → start < end_page
    → end_page - start ≤ k
    → 0 < length b.pool.free
    → free_round rb start end_page b ≡ some (start', b')
    → Round n flying start end_page b start' b'
    → (start' < end_page
        → end_page - start' < k
        → IsKept n flying b'
        → 0 < length b'.pool.free
        → Ends n flying b' start' end_page (free_loop k rb start' end_page b'))
    → Ends n flying b start end_page (free_loop (suc k) rb start end_page b)
unfolding free_loop
after-Round {k} rb start end_page b start' b' below few room e (advanced kept up low gone more) ih =
    elim (Bool-cases (start' == end_page)) [
      | inl d ↦
          let here : start' ≡ end_page = ground arith in
          (b', rw (e, free_loop, d) refl, kept, subst (λ u. Forgets b b' start u) here gone)
      | inr d ↦
          let (b'', run, kept', gone') = ih (ground arith) (omega arith) kept (omega arith) in
          (
            b'',
            rw (e, free_loop, d) run,
            kept',
            compose b b' b'' start start' end_page (omega arith) low gone gone',
          )
    ]
after-Round {k} {n} {flying} rb start end_page b start' b' below few room e (halved kept same gone)
      ih =
    let other : (start' == end_page) ≡ false = ground arith in
    let (b'', run, kept', gone') =
      rest_skips k n flying rb start end_page b b' below few kept gone in
    (
      b'',
      rw (e, free_loop, other) (ap (λ u. free_loop k rb u end_page b') same ∙ run),
      kept',
      gone',
    )

free_loop-Ends :
    (fuel n : ℕ) (flying : List ℕ) (rb : RbTree) (start end_page : ℕ) (b : Book)
    → start < end_page
    → end_page - start < fuel
    → IsKept n flying b
    → 0 < length b.pool.free
    → Ends n flying b start end_page (free_loop fuel rb start end_page b)
free_loop-Ends zero n flying rb start end_page b below few kept room = absurd (omega arith)
free_loop-Ends (suc k) n flying rb start end_page b below few kept room =
    let (start', b', e, r) = free_round-Goes rb start end_page below kept room in
    after-Round rb start end_page b start' b' below (omega arith) room e r
      (λ h f kept' room'. free_loop-Ends k n flying rb start' end_page b' h f kept' room')

-- Where the tree is ordered, no record is in two places and the pool is not empty, `do_log_page_free`
-- ends: afterwards the 2 ^ order frames from `page` on are not recorded, every other frame is recorded
-- as before, by the same call, and the tree and the pool are in order again.
pub do_log_page_free_lem :
    (n : ℕ) (flying : List ℕ) (rb : RbTree) (page order : ℕ) (b : Book)
    → IsKept n flying b
    → 0 < length b.pool.free
    → Ends n flying b page (page + 2 ^ order) (do_log_page_free rb page order b)
unfolding do_log_page_free
do_log_page_free_lem n flying rb page order b kept room =
    let some_frames = pow2-pos order in
    free_loop-Ends (2 ^ order + 1) n flying rb page (page + 2 ^ order) b (omega arith) (omega arith)
      kept room

-- The kernel passes `free_hot_cold_page` a page and whether it is cold, and the handler takes this for
-- the order. Where a page is released that is cold (1), the handler ends and the frame behind it is not
-- recorded any more.
pub cold_page_forgotten :
    (n : ℕ) (flying : List ℕ) (rb : RbTree) (page : ℕ) (b : Book)
    → IsKept n flying b
    → 0 < length b.pool.free
    → (b' : Book) × (jfree_hot_cold_page rb page 1 b ≡ ended b') × (recorded b' (page + 1) ≡ none)
cold_page_forgotten n flying rb page b kept room =
    let (b', run, kept', forgets) = do_log_page_free_lem n flying rb page 1 b kept room in
    let within : (leb page (page + 1) && ltb (page + 1) (page + 2 ^ 1)) ≡ true = ground arith in
    (b', run, forgets (page + 1) ∙ rw within refl)
