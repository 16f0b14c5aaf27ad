-- ===== src/PageLog/Pools.antt =====
-- The pools of huawei_log_page.c: one record for each page frame of the machine, and one stack trace
-- for each probe that can be active at once.
pub mod Supply
use linux_project.Base.{
  ℕ, zero, suc, ◌+◌, ◌-◌, ◌*◌, ◌%◌, ◌^◌, ◌≤◌, ◌<◌, ◌≡◌, refl, Bool, true, false, Option, none, some,
  List, [], ◌∷◌, ◌==◌, ==-refl, if◌then◌else◌, ltb, arith,
}
use linux_project.Kernel.{Addr, null, word}
use linux_project.PageLog.{
  Pool, Module, Cmd, pure, ◌>>=◌, ◌>>◌, modify, printk, lp_pool_failed, st_pool_failed,
}

-- `struct zone` and `pg_data_t`, as far as they are read.
pub record Node : Type 0 where
  pub node_start_pfn : ℕ
  pub spanned_pages : List ℕ

-- The loop over the frames of a zone: `n` frames from `pfn` on are left.
unfoldable pub count_frames : (ℕ → Bool) → ℕ → ℕ → ℕ → ℕ
count_frames pfn_valid zero pfn nr_pages = nr_pages
count_frames pfn_valid (suc n) pfn nr_pages =
    count_frames pfn_valid n (pfn + 1) (if pfn_valid pfn then nr_pages + 1 else nr_pages)

-- The loop over the zones of a node, each of which starts where the one before it ends.
unfoldable pub count_zones : (ℕ → Bool) → List ℕ → ℕ → ℕ → ℕ
count_zones pfn_valid [] zone_start_pfn nr_pages = nr_pages
count_zones pfn_valid (size ∷ zones) zone_start_pfn nr_pages =
    count_zones pfn_valid zones (zone_start_pfn + size)
      (count_frames pfn_valid size zone_start_pfn nr_pages)

unfoldable pub get_nr_pages : (ℕ → Bool) → List Node → ℕ
get_nr_pages pfn_valid nodes = go nodes 0
  where
    go : List Node → ℕ → ℕ
    go [] nr_pages = nr_pages
    go (n ∷ ns) nr_pages = go ns (count_zones pfn_valid n.spanned_pages n.node_start_pfn nr_pages)

-- `__free_lp` and `__free_st`: the record goes to the front of the chain.
unfoldable pub free_record : ℕ → Pool → Pool
free_record i p = record p { free = i ∷ p.free }

-- `__alloc_lp` and `__alloc_st`: the front of the chain; on an empty one `next` is read through a null
-- pointer.
unfoldable pub alloc_record : Pool → Option (ℕ × Pool)
alloc_record p = elim p.free [ [] ↦ none | i ∷ rest ↦ some (i, record p { free = rest }) ]

-- `for (i = 0; i < nr; i++) free(&pool[i]);`, with `n` rounds left.
unfoldable pub free_all : ℕ → ℕ → Pool → Pool
free_all zero i p = p
free_all (suc n) i p = free_all n (i + 1) (free_record i p)

-- The pool that both functions leave behind.
abbrev pub fresh_pool : ℕ → Addr → Pool
fresh_pool n addr = free_all n 0 (record { nr = n; pool = addr; free = [] })

-- The `int` -1.
abbrev pub minus_one : ℕ
minus_one = 2 ^ 32 - 1

-- `addr` is what `vmalloc` answers.
unfoldable pub init_lp_pool : (ℕ → Bool) → List Node → Addr → Cmd ℕ
init_lp_pool pfn_valid nodes addr =
    let nr_pages = get_nr_pages pfn_valid nodes in
    if addr == null then (do printk lp_pool_failed; pure minus_one) else do
      modify λ m. record m { held = addr ∷ m.held; lp_pool = fresh_pool nr_pages addr }
      pure 0

-- `MAXACTIVE` is -1, so the number of stack traces depends on the kernel's configuration alone.
unfoldable pub max_active : Bool → ℕ → ℕ
max_active config_preempt nr_cpus =
    if config_preempt then (if ltb 10 (2 * nr_cpus) then 2 * nr_cpus else 10) else nr_cpus

unfoldable pub init_st_pool : Bool → ℕ → Addr → Cmd ℕ
init_st_pool config_preempt nr_cpus addr =
    let maxactive = max_active config_preempt nr_cpus in
    if addr == null then (do printk st_pool_failed; pure minus_one) else do
      modify λ m. record m { held = addr ∷ m.held; st_pool = fresh_pool maxactive addr }
      pure 0

-- `vfree`, which takes back the array that starts at the address.
abbrev pub remove : Addr → List Addr → List Addr
remove p [] = []
remove p (q ∷ qs) = if p == q then qs else q ∷ remove p qs

unfoldable pub exit_lp_pool : Cmd (Unit {0})
exit_lp_pool = modify λ m. record m { held = remove m.lp_pool.pool m.held }

unfoldable pub exit_st_pool : Cmd (Unit {0})
exit_st_pool = modify λ m. record m { held = remove m.st_pool.pool m.held }

free_all-pool : (n i : ℕ) (p : Pool) → (free_all n i p).pool ≡ p.pool
unfolding free_all free_record
free_all-pool zero i p = refl
free_all-pool (suc n) i p = free_all-pool n (i + 1) (free_record i p)

-- The pool that is given back is the one that was made.
pub fresh_pool-pool : (n : ℕ) (addr : Addr) → ((fresh_pool n addr).pool == addr) ≡ true
fresh_pool-pool n addr =
    rw (free_all-pool n 0 (record { nr = n; pool = addr; free = [] })) (==-refl addr)
