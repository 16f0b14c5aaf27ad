-- ===== src/PageLog/Book.antt =====
-- What huawei_log_page.c does on each allocation and each release of page frames: the handlers of its
-- probes and `do_log_page_free`, over the tree of recorded blocks and the pool of records. Every
-- handler holds `lp_lock` while it works on the tree, and the pool's own lock inside the pool's
-- functions, so that each change to either is one step.
pub mod Edit
pub mod Enter
pub mod Round
pub mod Free
pub mod Handlers
pub mod History
pub mod Room
pub mod Report
pub mod Direct
mod Examples
use linux_project.Base.{
  ℕ, zero, suc, ◌+◌, ◌%◌, ◌^◌, true, false, Option, none, some, List, ◌==◌, ltb, if◌then◌else◌,
}
use linux_project.Kernel.{Addr}
use linux_project.PageLog.{Pool}
use linux_project.PageLog.Pools.{free_record, alloc_record}
use linux_project.PageLog.Trace.{get_lp_call_stack}
use linux_project.PageLog.Tree.{LogPage, Tree, RbTree, find_lp, alter, log_page_insert}

-- `lp_root` and `lp_pool`.
pub record Book : Type 0 where
  pub tree : Tree
  pub pool : Pool

-- What the kernel tells the module of a call: where a module's code lies, and the return addresses on
-- the stack.
pub record Caller : Type 0 where
  pub module_address : ℕ → Addr
  pub addrs : List ℕ

-- `alloc_lp`, which clears the record that it takes, and then `get_lp_call_stack`; none is the null
-- pointer that is read through when the pool is empty.
unfoldable pub new_lp : Caller → ℕ → Pool → Option (LogPage × Pool)
new_lp c order p = elim (alloc_record p) [
  | none ↦ none
  | some (i, p') ↦
      let (entries, modules) = get_lp_call_stack c.module_address c.addrs (λ _. 0) in
      some (
        record {
          index = i;
          order = order;
          start_page = 0;
          end_page = 0;
          entries = entries;
          modules = modules;
        },
        p',
      )
]

-- `regs->si` is stored in an `unsigned int`. The record goes into the private data of the probe's
-- instance, from where the other handler gets it.
unfoldable pub alloc_pages_nodemask_entry_handler : Caller → ℕ → Book → Option (LogPage × Book)
alloc_pages_nodemask_entry_handler c si b = elim (new_lp c (si % 2 ^ 32) b.pool) [
  | none ↦ none
  | some (lp, p) ↦ some (lp, record b { pool = p })
]

unfoldable pub log_page_alloc_with_lp : RbTree → ℕ → ℕ → LogPage → Book → Book
log_page_alloc_with_lp rb page order lp b =
    let block : LogPage = record lp { start_page = page; end_page = page + 2 ^ order } in
    record b { tree = log_page_insert rb block b.tree }

-- `page` is what `__alloc_pages_nodemask` returned, none for NULL.
unfoldable pub alloc_pages_nodemask_ret_handler : RbTree → Option ℕ → LogPage → Book → Book
alloc_pages_nodemask_ret_handler rb none lp b = record b { pool = free_record lp.index b.pool }
alloc_pages_nodemask_ret_handler rb (some page) lp b = log_page_alloc_with_lp rb page lp.order lp b

-- A write into the record of a block that is in the tree.
abbrev pub write : ℕ → (LogPage → LogPage) → Book → Book
write i f b = record b { tree = alter i f b.tree }

-- `rb_erase(&lp->lp_node, &lp_root); free_lp(lp);`
abbrev pub drop : RbTree → LogPage → Book → Book
drop rb lp b = record { tree = rb.rb_erase lp.index b.tree; pool = free_record lp.index b.pool }

-- Case 3.1: the block is cut in two, and the second part gets a record of its own; `start` stays.
unfoldable pub split : RbTree → (start end_page : ℕ) → LogPage → Book → Option (ℕ × Book)
split rb start end_page lp b = elim (alloc_record b.pool) [
  | none ↦ none
  | some (i, p) ↦
      let new : LogPage = record lp { index = i; start_page = end_page } in
      let cut : Tree = alter lp.index (λ x. record x { end_page = start }) b.tree in
      some (start, record { tree = log_page_insert rb new cut; pool = p })
]

-- Cases 2 and 3: `start` lies in the block of `lp`.
unfoldable pub free_from : RbTree → (start end_page : ℕ) → LogPage → Book → Option (ℕ × Book)
free_from rb start end_page lp b =
    if start == lp.start_page
    then (if ltb end_page lp.end_page
        then some (end_page, write lp.index (λ x. record x { start_page = end_page }) b)
        else if end_page == lp.end_page
        then some (end_page, drop rb lp b)
        else some (lp.end_page, drop rb lp b))
    else if ltb end_page lp.end_page
    then split rb start end_page lp b
    else if end_page == lp.end_page
    then some (end_page, write lp.index (λ x. record x { end_page = start }) b)
    else some (lp.end_page, write lp.index (λ x. record x { end_page = start }) b)

-- One round of the loop in `do_log_page_free`: the new `start`, or the null pointer of `alloc_lp`.
unfoldable pub free_round : RbTree → (start end_page : ℕ) → Book → Option (ℕ × Book)
free_round rb start end_page b = elim (find_lp start b.tree) [
  | none ↦ some (start + 1, b)
  | some lp ↦ free_from rb start end_page lp b
]

pub data Loop : Type 0 where
  ended : Book → Loop
  null_dereference unfinished : Loop

-- `for (;;)` with as many rounds left as the first argument says.
unfoldable pub free_loop : ℕ → RbTree → (start end_page : ℕ) → Book → Loop
free_loop zero rb start end_page b = unfinished
free_loop (suc n) rb start end_page b = elim (free_round rb start end_page b) [
  | none ↦ null_dereference
  | some (start', b') ↦ elim (start' == end_page) [
    | true ↦ ended b'
    | false ↦ free_loop n rb start' end_page b'
  ]
]

-- One round for each frame, and one more for the round that cuts a block in two.
unfoldable pub do_log_page_free : RbTree → (page order : ℕ) → Book → Loop
do_log_page_free rb page order b = free_loop (2 ^ order + 1) rb page (page + 2 ^ order) b

abbrev pub log_page_free : RbTree → (page order : ℕ) → Book → Loop
log_page_free rb page order b = do_log_page_free rb page order b

-- The handlers of the probes on the releasing functions of the kernel.
abbrev pub jfree_pages_ok : RbTree → (page order : ℕ) → Book → Loop
jfree_pages_ok rb page order b = log_page_free rb page order b

abbrev pub jfree_hot_cold_page : RbTree → (page order : ℕ) → Book → Loop
jfree_hot_cold_page rb page order b = log_page_free rb page order b
