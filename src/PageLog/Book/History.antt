-- ===== src/PageLog/Book/History.antt =====
-- Runs of huawei_log_page.c: the calls of its handlers, in the order that the kernel makes them.
use linux_project.Base.{
  ℕ, ◌+◌, ◌-◌, ◌^◌, ◌≤◌, ◌<◌, ◌≡◌, refl, ap, sym, subst, ◌∙◌, Bool, true, false, not, ◌&&◌, ◌||◌,
  Option, none, some, List, [], ◌∷◌, ◌++◌, leb, ltb, Bool-cases, inl, inr, arith,
}
use linux_project.Kernel.{Addr}
use linux_project.Kernel.Pages.{pow2-le}
use linux_project.PageLog.Book.{
  Book, Caller, alloc_pages_nodemask_entry_handler, alloc_pages_nodemask_ret_handler,
  do_log_page_free, ended,
}
use linux_project.PageLog.Book.Edit.{IsKept, recorded, length-indices}
use linux_project.PageLog.Book.Free.{do_log_page_free_lem}
use linux_project.PageLog.Book.Handlers.{
  asked, entry_handler_lem, returned_null-IsKept, returned_lem, returned_null-tree,
}
use linux_project.PageLog.Pools.{fresh_pool}
use linux_project.PageLog.Pools.Supply.{length, count-append, length-append, started, Uses-IsShared}
use linux_project.PageLog.Tree.{LogPage, RbTree, leaf, inorder, find_lp}
use linux_project.PageLog.Tree.Edit.{indices, count-indices, origin_of}

abbrev pub in_block : (page order : ℕ) → ℕ → Bool
in_block page order p = leb page p && ltb p (page + 2 ^ order)

-- The book, the records that the instances of the probe hold, and which frames are allocated. The
-- kernel hands out no frame twice; not every allocation is watched, since there are only so many
-- instances; and the frames that are released are among those that the probe is told of.
pub data Trace (rb : RbTree) (n : ℕ) (addr : Addr) : Book → List LogPage → (ℕ → Bool) → Type 0 where
  loaded :
      (allocated : ℕ → Bool)
      → Trace rb n addr (record { tree = leaf; pool = fresh_pool n addr }) [] allocated
  entered :
      {b b' : Book} {flying : List LogPage} {allocated : ℕ → Bool} {lp : LogPage} (c : Caller)
      (si : ℕ)
      → Trace rb n addr b flying allocated
      → 0 < length b.pool.free
      → alloc_pages_nodemask_entry_handler c si b ≡ some (lp, b')
      → Trace rb n addr b' (lp ∷ flying) allocated
  failed :
      {b b' : Book} {flying flying' : List LogPage} {allocated : ℕ → Bool} (xs : List LogPage)
      (lp : LogPage) (ys : List LogPage)
      → Trace rb n addr b flying allocated
      → flying ≡ xs ++ lp ∷ ys
      → flying' ≡ xs ++ ys
      → b' ≡ alloc_pages_nodemask_ret_handler rb none lp b
      → Trace rb n addr b' flying' allocated
  returned :
      {b b' : Book} {flying flying' : List LogPage} {allocated allocated' : ℕ → Bool}
      (xs : List LogPage) (lp : LogPage) (ys : List LogPage) (page : ℕ)
      → Trace rb n addr b flying allocated
      → flying ≡ xs ++ lp ∷ ys
      → flying' ≡ xs ++ ys
      → ((p : ℕ) → in_block page lp.order p ≡ true → allocated p ≡ false)
      → ((p : ℕ) → allocated' p ≡ (in_block page lp.order p || allocated p))
      → b' ≡ alloc_pages_nodemask_ret_handler rb (some page) lp b
      → Trace rb n addr b' flying' allocated'
  unwatched :
      {b : Book} {flying : List LogPage} {allocated allocated' : ℕ → Bool}
      → Trace rb n addr b flying allocated
      → ((p : ℕ) → allocated p ≡ true → allocated' p ≡ true)
      → Trace rb n addr b flying allocated'
  freed :
      {b b' : Book} {flying : List LogPage} {allocated allocated' : ℕ → Bool} (page told order : ℕ)
      → Trace rb n addr b flying allocated
      → 0 < length b.pool.free
      → order ≤ told
      → do_log_page_free rb page told b ≡ ended b'
      → ((p : ℕ) → allocated' p ≡ (not (in_block page order p) && allocated p))
      → Trace rb n addr b' flying allocated'

-- The record of an instance may stand anywhere among the others.
flying_first :
    {n : ℕ} {b : Book} {flying : List LogPage} (xs : List LogPage) (lp : LogPage)
    (ys : List LogPage)
    → flying ≡ xs ++ lp ∷ ys
    → IsKept n (indices flying) b
    → IsKept n (lp.index ∷ indices (xs ++ ys)) b
flying_first {n} {b} xs lp ys e kept =
    let h : IsKept n (indices (xs ++ lp ∷ ys)) b = subst (λ f. IsKept n (indices f) b) e kept in
    let used = indices (inorder b.tree) in
    record {
      ordered = kept.ordered;
      shared = (
        omega (
          arith,
          h.shared.0,
          length-append used (indices (xs ++ lp ∷ ys)),
          length-append used (lp.index ∷ indices (xs ++ ys)),
          length-indices xs (lp ∷ ys),
          length-indices xs ys,
        ),
        λ j. omega (
          arith,
          h.shared.1 j,
          count-append j used (indices (xs ++ lp ∷ ys)),
          count-append j used (lp.index ∷ indices (xs ++ ys)),
          count-indices j xs (lp ∷ ys),
          count-indices j xs ys,
        ),
      );
    }

abbrev pub Sound : (ℕ → Bool) → Book → Type 0
Sound allocated b = (p : ℕ) → allocated p ≡ false → recorded b p ≡ none

-- The first handler's answer determines the record and the book.
entered_as :
    {n : ℕ} (flying : List LogPage) {b b' : Book} {lp : LogPage} {allocated : ℕ → Bool} (c : Caller)
    (si : ℕ)
    → IsKept n (indices flying) b
    → Sound allocated b
    → 0 < length b.pool.free
    → alloc_pages_nodemask_entry_handler c si b ≡ some (lp, b')
    → IsKept n (indices (lp ∷ flying)) b' × Sound allocated b'
entered_as {n} flying {b} {b'} {lp} {allocated} c si kept sound room e =
    let (i, t, run, kept', same) = entry_handler_lem c si b kept room in
    let both : ◌≡◌ {A = Option (LogPage × Book)} (some (asked c si i, t)) (some (lp, b')) =
      sym run ∙ e in
    let record_is : asked c si i ≡ lp = pair_of both in
    let book_is : t ≡ b' = book_of both in
    (
      subst (λ u. IsKept n (lp.index ∷ indices flying) u) book_is
          (subst (λ (l : LogPage). IsKept n (l.index ∷ indices flying) t) record_is kept'),
      subst (λ u. Sound allocated u) book_is
          (λ p h. ap (λ u. origin_of (find_lp p u)) same ∙ sound p h),
    )
  where
    pair_of :
        {x y : LogPage} {u v : Book}
        → ◌≡◌ {A = Option (LogPage × Book)} (some (x, u)) (some (y, v))
        → x ≡ y
    pair_of h = cc

    book_of :
        {x y : LogPage} {u v : Book}
        → ◌≡◌ {A = Option (LogPage × Book)} (some (x, u)) (some (y, v))
        → u ≡ v
    book_of h = cc

freed_as :
    {n : ℕ} (flying : List LogPage) {b b' : Book} {allocated allocated' : ℕ → Bool} (rb : RbTree)
    (page told order : ℕ)
    → IsKept n (indices flying) b
    → Sound allocated b
    → 0 < length b.pool.free
    → order ≤ told
    → do_log_page_free rb page told b ≡ ended b'
    → ((p : ℕ) → allocated' p ≡ (not (in_block page order p) && allocated p))
    → IsKept n (indices flying) b' × Sound allocated' b'
freed_as {n} flying {b} {b'} {allocated} {allocated'} rb page told order kept sound room less e
      now =
    let (t, run, kept', forgets) =
      do_log_page_free_lem n (indices flying) rb page told b kept room in
    let same : t ≡ b' = book_of (sym run ∙ e) in
    let wide = pow2-le (told - order) order told (omega arith) in
    subst (λ u. IsKept n (indices flying) u × Sound allocated' u) same
      (
        kept',
        λ p h. forgets p ∙ elim (Bool-cases (in_block page told p)) [
          | inl g ↦ rw g refl
          | inr g ↦ rw g (sound p (let was = now p in ground arith))
        ],
      )
  where
    book_of : {u v : Book} → ended u ≡ ended v → u ≡ v
    book_of h = cc

-- In every state that the module can come to, the tree is ordered, every record is free, in the tree
-- or with an instance of the probe, in one place only, and no frame is recorded that is not allocated.
pub Trace-IsKept :
    {rb : RbTree} {n : ℕ} {addr : Addr} {b : Book} {flying : List LogPage} {allocated : ℕ → Bool}
    → Trace rb n addr b flying allocated
    → IsKept n (indices flying) b × Sound allocated b
unfolding find_lp
Trace-IsKept {rb} {n} {addr} (loaded allocated) =
    (record { ordered = (tt, tt); shared = Uses-IsShared n addr started }, λ p h. refl)
Trace-IsKept (entered {b} {b'} {flying} {allocated} {lp} c si t room e) =
    let (kept, sound) = Trace-IsKept t in
    entered_as flying {lp = lp} {allocated = allocated} c si kept sound room e
Trace-IsKept {rb} {n} (failed {b} {b'} {flying} {flying'} {allocated} xs lp ys t e e' run) =
    let (kept, sound) = Trace-IsKept t in
    let first = flying_first xs lp ys e kept in
    rw (e', run)
      (
        returned_null-IsKept rb lp b first,
        λ p h. ap (λ u. origin_of (find_lp p u)) (returned_null-tree rb lp b first) ∙ sound p h,
      )
Trace-IsKept {rb} {n}
      (returned {b} {b'} {flying} {flying'} {allocated} {allocated'} xs lp ys page t e e' fresh now
        run) =
    let (kept, sound) = Trace-IsKept t in
    let first = flying_first xs lp ys e kept in
    let (kept', told) =
      returned_lem rb lp b first page (λ p lo hi. sound p (fresh p (ground arith))) in
    rw (e', run)
      (
        kept',
        λ p h. told p ∙ elim (Bool-cases (in_block page lp.order p)) [
          | inl g ↦ absurd (let was = now p in ground arith)
          | inr g ↦ rw g (sound p (let was = now p in ground arith))
        ],
      )
Trace-IsKept (unwatched {b} {flying} {allocated} {allocated'} t more) =
    let (kept, sound) = Trace-IsKept t in
    (
      kept,
      λ p h. sound p (elim (Bool-cases (allocated p)) [
        | inl e ↦ absurd (let was = more p e in ground arith)
        | inr e ↦ e
      ]),
    )
Trace-IsKept {rb}
      (freed {b} {b'} {flying} {allocated} {allocated'} page told order t room less e now) =
    let (kept, sound) = Trace-IsKept t in
    freed_as flying {allocated = allocated} rb page told order kept sound room less e now
