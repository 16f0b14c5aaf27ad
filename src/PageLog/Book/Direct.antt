-- ===== src/PageLog/Book/Direct.antt =====
-- `log_page` and `log_alloc_pages_nodemask` of huawei_log_page.c, by which other code can record and
-- release a block itself.
use linux_project.Base.{
  ℕ, ◌+◌, ◌^◌, ◌<◌, ◌≡◌, refl, ap, sym, ◌∙◌, ◌&&◌, Option, none, some, List, [], ◌∷◌, ◌++◌, ◌==◌,
  leb, ltb, if◌then◌else◌, Bool-cases, inl, inr, arith,
}
use linux_project.Kernel.{Addr}
use linux_project.Kernel.Pages.{pow2-pos}
use linux_project.PageLog.{Pool}
use linux_project.PageLog.Pools.{alloc_record}
use linux_project.PageLog.Pools.Supply.{length}
use linux_project.PageLog.Tree.{LogPage, RbTree}
use linux_project.PageLog.Tree.Edit.{origin}
use linux_project.PageLog.Tree.Order.{IsProper}
use linux_project.PageLog.Book.{
  Book, Caller, Loop, ended, null_dereference, new_lp, log_page_alloc_with_lp, log_page_free,
}
use linux_project.PageLog.Book.Edit.{IsKept, recorded}
use linux_project.PageLog.Book.Enter.{alloc-IsKept, insert-IsKept, recorded-insert}
use linux_project.PageLog.Book.Free.{do_log_page_free_lem}
use linux_project.PageLog.Book.Handlers.{asked, IsUnrecorded, block-Clear}
use linux_project.PageLog.Book.Report.{
  Line, banner, end_of_banner, print_log_page, do_log_page_alloc, log_page_alloc,
}

abbrev pub alloc_action : ℕ
alloc_action = 0

abbrev pub free_action : ℕ
free_action = 1

-- What a call does with the tree and the pool, and what it prints.
abbrev pub with_lines : Option (Book × List Line) → Loop × List Line
with_lines none = (null_dereference, [])
with_lines (some (b, out)) = (ended b, out)

-- `page` is not NULL.
unfoldable pub log_page :
    (ℕ → Addr) → RbTree → Caller → (page order action : ℕ) → Book → Loop × List Line
log_page physical rb c page order action b =
    if action == alloc_action
    then with_lines (log_page_alloc physical rb c (some page) order b)
    else (log_page_free rb page order b, [])

unfoldable pub log_alloc_pages_nodemask :
    (ℕ → Addr) → RbTree → Caller → Option ℕ → (order : ℕ) → Book → Loop × List Line
log_alloc_pages_nodemask physical rb c page order b =
    with_lines (log_page_alloc physical rb c page order b)

pub alloc_leaves :
    (nr : ℕ) (pool : Addr) (free : List ℕ)
    → 1 < length free
    → (i : ℕ) × (q : Pool) × (alloc_record (record { nr = nr; pool = pool; free = free })
        ≡ some (i, q))
      × (0 < length q.free)
unfolding alloc_record
alloc_leaves nr pool [] h = absurd (omega arith)
alloc_leaves nr pool (i ∷ rest) h =
    (i, record { nr = nr; pool = pool; free = rest }, refl, omega (arith, h))

-- The block that the call records, in the record `i` of the pool.
abbrev pub block : Caller → (page order i : ℕ) → LogPage
block c page order i = record (asked c 0 i) { start_page = page; end_page = page + 2 ^ order }

-- What is recorded of a frame after the call and before it.
abbrev pub Records : Caller → (page order : ℕ) → (after before : Book) → Type 0
Records c page order after before =
    (p : ℕ)
    → recorded after p ≡ (
        if leb page p && ltb p (page + 2 ^ order)
        then some (origin (asked c 0 0))
        else recorded before p)

module _ {n : ℕ} {flying : List ℕ} (physical : ℕ → Addr) (rb : RbTree) (c : Caller) (page order : ℕ)
    (b : Book) (kept : IsKept n flying b) (room : 1 < length b.pool.free)
    (unknown : IsUnrecorded b page (page + 2 ^ order)) where
  log_page-Records :
      (b' : Book) × (log_page physical rb c page order alloc_action b ≡ (
        ended b',
        banner ∷ (print_log_page physical (some (block c page order 0)) ++ end_of_banner ∷ []),
      ))
      × IsKept n flying b'
      × (0 < length b'.pool.free)
      × Records c page order b' b
  unfolding log_page do_log_page_alloc new_lp log_page_alloc_with_lp print_log_page
  log_page-Records =
      let (i, q, e, left) = alloc_leaves b.pool.nr b.pool.pool b.pool.free room in
      let taken : Book = record b { pool = q } in
      let kept' = alloc-IsKept {b = b} e kept in
      let some_frames = pow2-pos order in
      let proper : IsProper (block c page order i) = omega (arith, some_frames) in
      let clear =
        block-Clear rb (record (block c page order i) { order = order }) taken kept' page unknown in
      (
        log_page_alloc_with_lp rb page order (asked c 0 i) taken,
        rw (log_page, do_log_page_alloc, new_lp, e) refl,
        insert-IsKept rb (block c page order i) kept' proper clear,
        left,
        recorded-insert rb (block c page order i) kept' proper clear,
      )

  -- `log_page` with ALLOC on a block of which no frame is recorded, where two records are free, prints the
  -- block and records each of its frames with this call and no other frame; `log_page` with FREE then
  -- ends, with every frame recorded as it was before both, and the tree and the pool in order.
  pub log_page-log_page :
      (b' b'' : Book) × (log_page physical rb c page order alloc_action b ≡ (
        ended b',
        banner ∷ (print_log_page physical (some (block c page order 0)) ++ end_of_banner ∷ []),
      ))
      × Records c page order b' b
      × (log_page physical rb c page order free_action b' ≡ (ended b'', []))
      × IsKept n flying b''
      × ((p : ℕ) → recorded b'' p ≡ recorded b p)
  unfolding log_page
  log_page-log_page =
      let (b', run, kept', left, records) = log_page-Records in
      let (b'', run', kept'', forgets) =
        do_log_page_free_lem n flying rb page order b' kept' left in
      let back : (p : ℕ) → recorded b'' p ≡ recorded b p = λ p.
        elim (Bool-cases (leb page p && ltb p (page + 2 ^ order))) [
          | inl e ↦ forgets p ∙ rw (e) (sym (unknown p (ground arith) (ground arith)))
          | inr e ↦ forgets p ∙ rw (e) (records p ∙ rw (e) refl)
        ] in
      (b', b'', run, records, ap (λ l. (l, [])) run', kept'', back)
