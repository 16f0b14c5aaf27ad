-- ===== src/PageLog/Book/Handlers.antt =====
-- The two handlers of the probe on `__alloc_pages_nodemask` in huawei_log_page.c.
use linux_project.Base.{
  ℕ, ◌+◌, ◌%◌, ◌^◌, ◌≤◌, ◌<◌, ◌≡◌, refl, sym, ◌∙◌, false, ◌&&◌, none, some, List, [], ◌∷◌, leb, ltb,
  if◌then◌else◌, All, Bool-cases, inl, inr, arith,
}
use linux_project.Kernel.Pages.{pow2-pos}
use linux_project.PageLog.Book.{
  Book, Caller, new_lp, alloc_pages_nodemask_entry_handler, alloc_pages_nodemask_ret_handler,
  log_page_alloc_with_lp,
}
use linux_project.PageLog.Book.Edit.{IsKept, recorded, origin_of-none}
use linux_project.PageLog.Book.Enter.{alloc_some, alloc-IsKept, insert-IsKept, recorded-insert}
use linux_project.PageLog.Pools.{free_record}
use linux_project.PageLog.Pools.Supply.{length, count-append, length-append}
use linux_project.PageLog.Trace.{get_lp_call_stack}
use linux_project.PageLog.Tree.{LogPage, RbTree, inorder}
use linux_project.PageLog.Tree.Edit.{indices, origin}
use linux_project.PageLog.Tree.Found.{holds, lookup, find_lp-lookup}
use linux_project.PageLog.Tree.Order.{IsProper, Clear}

-- The record that the first handler leaves with the probe's instance.
abbrev pub asked : Caller → ℕ → ℕ → LogPage
asked c si i =
    let (entries, modules) = get_lp_call_stack c.module_address c.addrs (λ _. 0) in
    record {
      index = i;
      order = si % 2 ^ 32;
      start_page = 0;
      end_page = 0;
      entries = entries;
      modules = modules;
    }

-- The first handler takes a record out of the pool and leaves the tree alone.
pub entry_handler_lem :
    {n : ℕ} {flying : List ℕ} (c : Caller) (si : ℕ) (b : Book)
    → IsKept n flying b
    → 0 < length b.pool.free
    → (i : ℕ) × (b' : Book) × (alloc_pages_nodemask_entry_handler c si b ≡ some (asked c si i, b'))
      × IsKept n (i ∷ flying) b'
      × (b'.tree ≡ b.tree)
unfolding alloc_pages_nodemask_entry_handler new_lp
entry_handler_lem c si b kept room =
    let (i, q, e) = alloc_some b.pool room in
    (
      i,
      record b { pool = q },
      rw (e, new_lp, alloc_pages_nodemask_entry_handler) refl,
      alloc-IsKept {b = b} e kept,
      refl,
    )

-- None of the block's frames is recorded.
abbrev pub IsUnrecorded : Book → (start end_page : ℕ) → Type 0
IsUnrecorded b start end_page = (p : ℕ) → start ≤ p → p < end_page → recorded b p ≡ none

pub missed_all :
    (p : ℕ) (x : LogPage) (xs : List LogPage)
    → lookup p (x ∷ xs) ≡ none
    → (holds x p ≡ false) × (lookup p xs ≡ none)
missed_all p x xs h = elim (Bool-cases (holds x p)) [
  | inl e ↦ absurd (cc (rw e at h))
  | inr e ↦ (e, rw e at h)
]

All-Clear :
    (lp : LogPage) (xs : List LogPage)
    → IsProper lp
    → All IsProper xs
    → ((p : ℕ) → lp.start_page ≤ p → p < lp.end_page → lookup p xs ≡ none)
    → All (Clear lp) xs
All-Clear lp [] proper each none_there = tt
All-Clear lp (x ∷ xs) proper each none_there = (
  elim (Bool-cases (ltb lp.start_page x.end_page)) [
    | inr e ↦ inr (ground arith)
    | inl e ↦ elim (Bool-cases (ltb x.start_page lp.end_page)) [
      | inr f ↦ inl (ground arith)
      | inl f ↦ absurd (overlap (ground arith) (ground arith))
    ]
  ],
  All-Clear lp xs proper each.1 (λ p lo hi. (missed_all p x xs (none_there p lo hi)).1),
)
  where
    overlap : lp.start_page < x.end_page → x.start_page < lp.end_page → ⊥
    overlap h k =
        let at = λ (p : ℕ) (lo : lp.start_page ≤ p) (hi : p < lp.end_page).
          (missed_all p x xs (none_there p lo hi)).0 in
        let own : x.start_page < x.end_page = each.0 in
        elim (Bool-cases (leb lp.start_page x.start_page)) [
          | inl g ↦
              let gone : holds x x.start_page ≡ false = at x.start_page (ground arith) k in
              ground arith
          | inr g ↦
              let gone : holds x lp.start_page ≡ false = at lp.start_page (omega arith) proper in
              ground arith
        ]

-- The second handler has the record from the first.
module _ {n : ℕ} {flying : List ℕ} (rb : RbTree) (lp : LogPage) (b : Book)
    (kept : IsKept n (lp.index ∷ flying) b) where
  pub returned_null-IsKept : IsKept n flying (alloc_pages_nodemask_ret_handler rb none lp b)
  unfolding alloc_pages_nodemask_ret_handler free_record
  returned_null-IsKept = record {
    ordered = kept.ordered;
    shared =
        let used = indices (inorder b.tree) in
        (
          omega (
            arith,
            kept.shared.0,
            length-append used flying,
            length-append used (lp.index ∷ flying),
          ),
          λ j. omega (
            arith,
            kept.shared.1 j,
            count-append j used flying,
            count-append j used (lp.index ∷ flying),
          ),
        );
  }

  pub returned_null-tree : (alloc_pages_nodemask_ret_handler rb none lp b).tree ≡ b.tree
  unfolding alloc_pages_nodemask_ret_handler
  returned_null-tree = refl

  abbrev pub block : ℕ → LogPage
  block page = record lp { start_page = page; end_page = page + 2 ^ lp.order }

  pub block-Clear :
      (page : ℕ)
      → IsUnrecorded b page (page + 2 ^ lp.order)
      → All (Clear (block page)) (inorder b.tree)
  block-Clear page free =
      let some_frames = pow2-pos lp.order in
      All-Clear (block page) (inorder b.tree) (omega arith) kept.ordered.1
        (λ p lo hi. sym (find_lp-lookup p b.tree kept.ordered) ∙ origin_of-none _ (free p lo hi))

  -- Where the tree and the pool are in order and the record is in the hands of the probe's instance: once
  -- the allocation has returned 2 ^ order frames of which none is recorded, each of them is recorded with
  -- the call that asked for them, every other frame as before, and the tree and the pool are in order.
  pub returned_lem :
      (page : ℕ)
      → IsUnrecorded b page (page + 2 ^ lp.order)
      → let b' : Book = alloc_pages_nodemask_ret_handler rb (some page) lp b in
        IsKept n flying b'
        × ((p : ℕ)
            → recorded b' p ≡ (
                if leb page p && ltb p (page + 2 ^ lp.order)
                then some (origin lp)
                else recorded b p))
  unfolding alloc_pages_nodemask_ret_handler log_page_alloc_with_lp
  returned_lem page free =
      let some_frames = pow2-pos lp.order in
      let proper : IsProper (block page) = omega arith in
      let clear = block-Clear page free in
      (
        insert-IsKept rb (block page) kept proper clear,
        recorded-insert rb (block page) kept proper clear,
      )
