-- ===== src/PageLog/Book/Report.antt =====
-- What huawei_log_page.c prints of the recorded blocks, and `do_log_page_alloc`, which prints the block
-- that it records. `physical` gives the address that is printed for a page frame,
-- `page_address(page) - PAGE_OFFSET`.
use linux_project.PageLog.Tree.Edit.{origin_of}
use linux_project.Base.{
  ℕ, zero, suc, ◌+◌, ◌^◌, ◌≤◌, ◌<◌, ◌≡◌, refl, ap, sym, fun_ext, ◌∙◌, true, Option, none, some,
  List, [], ◌∷◌, ◌++◌, arith, ◌%◌,
}
use linux_project.Kernel.{Addr, null}
use linux_project.Kernel.Pages.{pow2-pos}
use linux_project.PageLog.Book.{
  Book, Caller, new_lp, log_page_alloc_with_lp, alloc_pages_nodemask_entry_handler,
  alloc_pages_nodemask_ret_handler,
}
use linux_project.PageLog.Book.Edit.{IsKept}
use linux_project.PageLog.Book.Handlers.{asked, IsUnrecorded, block-Clear, entry_handler_lem}
use linux_project.PageLog.Pools.Supply.{length}
use linux_project.PageLog.Trace.{
  entry_at, log_page_trace_level, log_module_max_num, get_lp_call_stack,
}
use linux_project.PageLog.Tree.{LogPage, RbTree, inorder, find_lp}
use linux_project.PageLog.Tree.Found.{holds, find_lp-log_page_insert}

-- What is printed; `not_tracked` is the two lines on a page frame of which nothing is recorded.
pub data Line : Type 0 where
  not_tracked call_trace banner end_of_banner : Line
  start_addr end_addr : Addr → Line
  stack_entry module_info : ℕ → Addr → Line

-- `for (i = 0; i < LOG_PAGE_TRACE_LEVEL; i++)`, with `n` rounds left.
unfoldable pub stack_lines : (n i : ℕ) → (ℕ → Addr) → List Line
stack_lines zero i entries = []
stack_lines (suc n) i entries = stack_entry i (entries i) ∷ stack_lines n (i + 1) entries

-- `for (i = 0; i < LOG_MODULE_MAX_NUM; i++)`; an unused place in the array is NULL.
unfoldable pub module_lines : (n i : ℕ) → List Addr → List Line
module_lines zero i modules = []
module_lines (suc n) i modules =
    module_info i (entry_at i modules null) ∷ module_lines n (i + 1) modules

unfoldable pub print_log_page : (ℕ → Addr) → Option LogPage → List Line
print_log_page physical none = not_tracked ∷ []
print_log_page physical (some lp) =
    start_addr (physical lp.start_page)
    ∷ end_addr (physical lp.end_page)
    ∷ call_trace
    ∷ (stack_lines log_page_trace_level 0 lp.entries
        ++ module_lines log_module_max_num 0 lp.modules)

-- `rb_first` and `rb_next` go through the entries from left to right.
unfoldable pub print_each : (ℕ → Addr) → List LogPage → List Line
print_each physical [] = []
print_each physical (x ∷ xs) = print_log_page physical (some x) ++ print_each physical xs

-- On an empty tree `rb_first` answers NULL, of which `rb_entry` makes a pointer that is not NULL, so that
-- `print_log_page` reads through it; none is this fault.
unfoldable pub print_log_page_all : (ℕ → Addr) → Book → Option (List Line)
print_log_page_all physical b = elim (inorder b.tree) [
  | [] ↦ none
  | x ∷ xs ↦ some (print_each physical (x ∷ xs))
]

unfoldable pub print_page : (ℕ → Addr) → ℕ → Book → List Line
print_page physical page b = print_log_page physical (find_lp page b.tree)

-- `do_log_page_alloc` leaves the field `order` as `alloc_lp` has cleared it.
unfoldable pub do_log_page_alloc :
    (ℕ → Addr) → RbTree → Caller → Option ℕ → ℕ → Book → Option (Book × List Line)
do_log_page_alloc physical rb c none order b = some (b, [])
do_log_page_alloc physical rb c (some page) order b = elim (new_lp c 0 b.pool) [
  | none ↦ none
  | some (lp, p) ↦
      let block : LogPage = record lp { start_page = page; end_page = page + 2 ^ order } in
      some (
        log_page_alloc_with_lp rb page order lp (record b { pool = p }),
        banner ∷ (print_log_page physical (some block) ++ end_of_banner ∷ []),
      )
]

abbrev pub log_page_alloc :
    (ℕ → Addr) → RbTree → Caller → Option ℕ → ℕ → Book → Option (Book × List Line)
log_page_alloc physical rb c page order b = do_log_page_alloc physical rb c page order b

-- A line for each index below `n`, in this order.
abbrev pub each_below : ℕ → (ℕ → Line) → List Line
each_below zero f = []
each_below (suc n) f = f 0 ∷ each_below n (λ i. f (suc i))

-- The report on the frames from `page` up to `last`, of a call with this stack and these modules.
abbrev pub report : (page last : Addr) → (ℕ → Addr) → List Addr → List Line
report page last stack modules =
    start_addr page
    ∷ end_addr last
    ∷ call_trace
    ∷ (each_below 26 (λ i. stack_entry i (stack i))
        ++ each_below 4 (λ i. module_info i (entry_at i modules null)))

each_below-ext : (n : ℕ) (f g : ℕ → Line) → ((i : ℕ) → f i ≡ g i) → each_below n f ≡ each_below n g
each_below-ext n f g same = ap (each_below n) (fun_ext same)

stack_lines-each_below :
    (n i : ℕ) (entries : ℕ → Addr)
    → stack_lines n i entries ≡ each_below n (λ j. stack_entry (i + j) (entries (i + j)))
unfolding stack_lines
stack_lines-each_below zero i entries = refl
stack_lines-each_below (suc n) i entries =
    let here : i + 0 ≡ i = omega arith in
    let later : (j : ℕ) → i + 1 + j ≡ i + suc j = λ j. omega arith in
    ap (λ k. stack_entry k (entries k) ∷ stack_lines n (i + 1) entries) (sym here)
    ∙ ap (λ ls. stack_entry (i + 0) (entries (i + 0)) ∷ ls)
        (stack_lines-each_below n (i + 1) entries
          ∙ each_below-ext n (λ j. stack_entry (i + 1 + j) (entries (i + 1 + j)))
              (λ j. stack_entry (i + suc j) (entries (i + suc j)))
              (λ j. ap (λ k. stack_entry k (entries k)) (later j)))

module_lines-each_below :
    (n i : ℕ) (modules : List Addr)
    → module_lines n i modules
      ≡ each_below n (λ j. module_info (i + j) (entry_at (i + j) modules null))
unfolding module_lines
module_lines-each_below zero i modules = refl
module_lines-each_below (suc n) i modules =
    let here : i + 0 ≡ i = omega arith in
    let later : (j : ℕ) → i + 1 + j ≡ i + suc j = λ j. omega arith in
    let line : ℕ → Line = λ k. module_info k (entry_at k modules null) in
    ap (λ k. line k ∷ module_lines n (i + 1) modules) (sym here)
    ∙ ap (λ ls. line (i + 0) ∷ ls)
        (module_lines-each_below n (i + 1) modules
          ∙ each_below-ext n (λ j. line (i + 1 + j)) (λ j. line (i + suc j))
              (λ j. ap line (later j)))

print_log_page-report :
    (physical : ℕ → Addr) (lp : LogPage)
    → print_log_page physical (some lp)
      ≡ report (physical lp.start_page) (physical lp.end_page) lp.entries lp.modules
unfolding print_log_page
print_log_page-report physical lp =
    ap
      (λ ls.
        start_addr (physical lp.start_page) ∷ end_addr (physical lp.end_page) ∷ call_trace ∷ ls)
      (ap (λ ls. ls ++ module_lines log_module_max_num 0 lp.modules)
          (stack_lines-each_below 26 0 lp.entries
            ∙ each_below-ext 26 (λ j. stack_entry (0 + j) (lp.entries (0 + j)))
                (λ j. stack_entry j (lp.entries j))
                (λ j. ap (λ k. stack_entry k (lp.entries k)) (zero_add j)))
        ∙ ap (λ ls. each_below 26 (λ j. stack_entry j (lp.entries j)) ++ ls)
            (module_lines-each_below 4 0 lp.modules
              ∙ each_below-ext 4 (λ j. module_info (0 + j) (entry_at (0 + j) lp.modules null))
                  (λ j. module_info j (entry_at j lp.modules null))
                  (λ j. ap (λ k. module_info k (entry_at k lp.modules null)) (zero_add j))))
  where
    zero_add : (j : ℕ) → 0 + j ≡ j
    zero_add j = omega arith

-- What the second handler has entered is printed for each frame of the block.
pub print_page-returned :
    {n : ℕ} {flying : List ℕ} (physical : ℕ → Addr) (rb : RbTree) (lp : LogPage) (page p : ℕ)
    (b : Book)
    → IsKept n (lp.index ∷ flying) b
    → IsUnrecorded b page (page + 2 ^ lp.order)
    → page ≤ p
    → p < page + 2 ^ lp.order
    → print_page physical p (alloc_pages_nodemask_ret_handler rb (some page) lp b)
      ≡ print_log_page physical
          (some (record lp { start_page = page; end_page = page + 2 ^ lp.order }))
unfolding print_page alloc_pages_nodemask_ret_handler log_page_alloc_with_lp
print_page-returned physical rb lp page p b kept free lo hi =
    let some_frames = pow2-pos lp.order in
    let block : LogPage = record lp { start_page = page; end_page = page + 2 ^ lp.order } in
    let clear = block-Clear rb lp b kept page free in
    let held : holds block p ≡ true = ground arith in
    let found = (find_lp-log_page_insert rb block b.tree (omega arith) kept.ordered clear).1 p in
    ap (print_log_page physical) (found ∙ rw held refl)

-- From the two handlers to the report: where the tree and the pool are in order, the pool is not empty and
-- none of the frames is recorded, once an allocation has returned the 2 ^ order frames from `page` on,
-- `print_page` prints for each of them the address of the first frame, the address behind the last one, the
-- headline, then the 26 entries of the call stack in their order, and then the places of the array of
-- modules in theirs, as both were found when the allocation was entered.
pub print_page-allocated :
    (physical : ℕ → Addr) (n : ℕ) (flying : List ℕ) (rb : RbTree) (c : Caller) (si page p : ℕ)
    (b : Book)
    → IsKept n flying b
    → 0 < length b.pool.free
    → IsUnrecorded b page (page + 2 ^ (si % 2 ^ 32))
    → page ≤ p
    → p < page + 2 ^ (si % 2 ^ 32)
    → let (stack, modules) = get_lp_call_stack c.module_address c.addrs (λ _. 0) in
      (lp : LogPage) × (b' : Book) × (alloc_pages_nodemask_entry_handler c si b ≡ some (lp, b'))
      × (print_page physical p (alloc_pages_nodemask_ret_handler rb (some page) lp b')
          ≡ report (physical page) (physical (page + 2 ^ (si % 2 ^ 32))) stack modules)
print_page-allocated physical n flying rb c si page p b kept room free lo hi =
    let (i, b', e, kept', same) = entry_handler_lem c si b kept room in
    let lp = asked c si i in
    let block : LogPage = record lp { start_page = page; end_page = page + 2 ^ lp.order } in
    let unknown : IsUnrecorded b' page (page + 2 ^ lp.order) =
      λ q l h. ap (λ u. origin_of (find_lp q u)) same ∙ free q l h in
    (
      lp,
      b',
      e,
      print_page-returned physical rb lp page p b' kept' unknown lo hi
          ∙ print_log_page-report physical block,
    )
