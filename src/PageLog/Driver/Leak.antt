-- ===== src/PageLog/Driver/Leak.antt =====
-- Loading and unloading huawei_log_page_test_4.c while the probes of huawei_log_page.c are registered.
use linux_project.Base.{
  ℕ, ◌+◌, ◌^◌, ◌≤◌, ◌<◌, ◌≡◌, refl, ap, ◌∙◌, true, ◌&&◌, Option, none, some, [], ◌∷◌, ◌++◌, leb,
  ltb, ◌==◌, Bool-cases, inl, inr, if◌then◌else◌, arith,
}
use linux_project.Kernel.{Addr}
use linux_project.PageLog.Book.{
  Book, Caller, Loop, ended, null_dereference, unfinished, new_lp,
  alloc_pages_nodemask_entry_handler, alloc_pages_nodemask_ret_handler, jfree_hot_cold_page,
  log_page_alloc_with_lp,
}
use linux_project.PageLog.Book.Direct.{alloc_leaves}
use linux_project.PageLog.Book.Edit.{IsKept, recorded, origin_of-none}
use linux_project.PageLog.Book.Enter.{alloc-IsKept}
use linux_project.PageLog.Book.Free.{do_log_page_free_lem}
use linux_project.PageLog.Book.Handlers.{asked, IsUnrecorded, returned_lem}
use linux_project.PageLog.Book.Report.{not_tracked, print_page, print_log_page, print_page-returned}
use linux_project.PageLog.Driver.{
  Driver, Allocator, huawei_log_page_test_4_init, huawei_log_page_test_4_exit,
}
use linux_project.PageLog.Driver.Printed.{loading, unloading, init-ok, exit-ok}
use linux_project.PageLog.Pools.Supply.{length}
use linux_project.PageLog.Tree.{LogPage, RbTree, find_lp}
use linux_project.PageLog.Tree.Edit.{Origin, origin}

-- The kernel's `alloc_pages` calls `__alloc_pages_nodemask` once, with the order, and answers `page`, so that
-- both handlers of the probe run.
abbrev pub through_probe : RbTree → Caller → (page order : ℕ) → Book → Option (Option ℕ × Book)
through_probe rb c page order b = elim (alloc_pages_nodemask_entry_handler c order b) [
  | none ↦ none
  | some (lp, b') ↦ some (some page, alloc_pages_nodemask_ret_handler rb (some page) lp b')
]

abbrev pub book_of : Loop → Option Book
book_of (ended b) = some b
book_of null_dereference = none
book_of unfinished = none

-- Its `__free_page` calls `free_hot_cold_page` once, with a page that is not cold.
abbrev pub AreProbed : Allocator → RbTree → Caller → (page order : ℕ) → Book → Type 0
AreProbed kernel rb c page order b =
    (kernel.alloc_pages order b ≡ through_probe rb c page order b)
    × ((b' : Book) → kernel.free_page (some page) b' ≡ book_of (jfree_hot_cold_page rb page 0 b'))

abbrev pub the_block : Caller → (page order i : ℕ) → LogPage
the_block c page order i = record (asked c order i) {
  start_page = page;
  end_page = page + 2 ^ order;
}

module _ {n : ℕ} (kernel : Allocator) (physical : ℕ → Addr) (rb : RbTree) (c : Caller) (page : ℕ)
    (b : Book) (probed : AreProbed kernel rb c page 4 b) (kept : IsKept n [] b)
    (room : 1 < length b.pool.free) (unknown : IsUnrecorded b page (page + 2 ^ 4)) where
  -- What is recorded of a frame after sixteen of them have been allocated.
  abbrev Sixteen : Book → Type 0
  Sixteen b' =
      (p : ℕ)
      → recorded b' p
        ≡ (if leb page p && ltb p (page + 2 ^ 4) then some (origin (asked c 4 0)) else recorded b p)

  allocated-Sixteen :
      (b' : Book) × (kernel.alloc_pages 4 b ≡ some (some page, b'))
      × IsKept n [] b'
      × (0 < length b'.pool.free)
      × Sixteen b'
      × (print_page physical page b' ≡ print_log_page physical (some (the_block c page 4 0)))
  unfolding alloc_pages_nodemask_entry_handler new_lp alloc_pages_nodemask_ret_handler
      log_page_alloc_with_lp print_log_page
  allocated-Sixteen =
      let (i, q, e, left) = alloc_leaves b.pool.nr b.pool.pool b.pool.free room in
      let taken : Book = record b { pool = q } in
      let kept' = alloc-IsKept {b = b} e kept in
      let (kept'', records) = returned_lem rb (asked c 4 i) taken kept' page unknown in
      let entered : alloc_pages_nodemask_entry_handler c 4 b ≡ some (asked c 4 i, taken) =
        rw (alloc_pages_nodemask_entry_handler, new_lp, e) refl in
      (
        alloc_pages_nodemask_ret_handler rb (some page) (asked c 4 i) taken,
        probed.0 ∙ rw (through_probe, entered) refl,
        kept'',
        left,
        records,
        print_page-returned physical rb (asked c 4 i) page page taken kept' unknown (omega arith)
            (omega arith),
      )

print_page-none :
    (physical : ℕ → Addr) (page : ℕ) (b : Book)
    → find_lp page b.tree ≡ none
    → print_page physical page b ≡ not_tracked ∷ []
unfolding print_page print_log_page
print_page-none physical page b e = ap (print_log_page physical) e

-- Sixteen frames come and one goes.
fifteen_left :
    (b b' b'' : Book) (page : ℕ) (o : Origin) (p : ℕ)
    → (page ≤ p → p < page + 2 ^ 4 → recorded b p ≡ none)
    → recorded b' p ≡ (if leb page p && ltb p (page + 2 ^ 4) then some o else recorded b p)
    → recorded b'' p ≡ (if leb page p && ltb p (page + 2 ^ 0) then none else recorded b' p)
    → recorded b'' p ≡ (if ltb page p && ltb p (page + 2 ^ 4) then some o else recorded b p)
fifteen_left b b' b'' page o p unknown came went = elim (Bool-cases (p == page)) [
  | inl e ↦ went ∙ ground (arith, unknown)
  | inr e ↦ went ∙ ground (arith, came)
]

-- With the probes registered, a pool of at least two free records and sixteen frames that are not
-- recorded, the driver is loaded and prints the block with its call; unloading it then releases the first
-- of the sixteen frames only: of that one nothing is recorded any more, as is printed, and the other fifteen
-- stay recorded with the driver's call, and every other frame as it was.
pub huawei_log_page_test_4_exit-huawei_log_page_test_4_init :
    {n : ℕ} (kernel : Allocator) (physical : ℕ → Addr) (rb : RbTree) (c : Caller) (page : ℕ)
    (s : Driver)
    → AreProbed kernel rb c page 4 s.book
    → IsKept n [] s.book
    → 1 < length s.book.pool.free
    → IsUnrecorded s.book page (page + 2 ^ 4)
    → (s' s'' : Driver) × (huawei_log_page_test_4_init kernel physical s ≡ some (0, s'))
      × (s'.log
          ≡ s.log ++ loading kernel page (print_log_page physical (some (the_block c page 4 0))))
      × (huawei_log_page_test_4_exit kernel physical s' ≡ some s'')
      × (s''.log ≡ s'.log ++ unloading (some page) (not_tracked ∷ []))
      × ((p : ℕ)
          → recorded s''.book p ≡ (
              if ltb page p && ltb p (page + 2 ^ 4)
              then some (origin (asked c 4 0))
              else recorded s.book p))
huawei_log_page_test_4_exit-huawei_log_page_test_4_init {n} kernel physical rb c page s probed kept
      room unknown =
    let (b', run, kept', left, records, prints) =
      allocated-Sixteen kernel physical rb c page s.book probed kept room unknown in
    let (b'', gone, kept'', forgets) = do_log_page_free_lem n [] rb page 0 b' kept' left in
    let within : (leb page page && ltb page (page + 2 ^ 0)) ≡ true = ground arith in
    let missing : find_lp page b''.tree ≡ none = origin_of-none _ (forgets page ∙ rw within refl) in
    let s' : Driver = record s {
      addr = kernel.page_address (some page);
      page4 = some page;
      book = b';
      log = s.log ++ loading kernel page (print_page physical page b');
    } in
    let s'' : Driver = record s' {
      book = b'';
      log = s'.log ++ unloading (some page) (print_page physical page b'');
    } in
    (
      s',
      s'',
      init-ok kernel physical page s b' run,
      ap (λ out. s.log ++ loading kernel page out) prints,
      exit-ok kernel physical page s' b'' (probed.1 b' ∙ ap book_of gone),
      ap (λ out. s'.log ++ unloading (some page) out) (print_page-none physical page b'' missing),
      λ p.
          fifteen_left s.book b' b'' page (origin (asked c 4 0)) p (unknown p) (records p)
            (forgets p),
    )
