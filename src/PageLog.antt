-- ===== src/PageLog.antt =====
-- mem_leak/kerspace/huawei_log_page.c: a module that records which page frames are allocated and from
-- where. Here are its state outside the interval tree, its two pools of records, and what it asks of
-- the kernel. Each pool operation runs under the pool's own lock, and so is one step.
pub mod Pools
pub mod Hooks
pub mod Tree
pub mod Trace
pub mod Book
pub mod Driver
mod Examples
use linux_project.Base.{ℕ, Bool, true, false, List, [], ◌∷◌, ◌++◌}
use linux_project.Kernel.{Addr}

-- `struct lp_pool_struct` and `struct st_pool_struct`: a record is its index in the array at `pool`,
-- and `free` is the chain of `next` from the field of that name on.
pub record Pool : Type 0 where
  pub nr : ℕ
  pub pool : Addr
  pub free : List ℕ

-- The kernel's functions that the module watches.
pub data Probe : Type 0 where
  free_pages_ok free_hot_cold_page alloc_pages_nodemask : Probe

abbrev pub probe_eq : Probe → Probe → Bool
probe_eq free_pages_ok free_pages_ok = true
probe_eq free_hot_cold_page free_hot_cold_page = true
probe_eq alloc_pages_nodemask alloc_pages_nodemask = true
probe_eq _ _ = false

-- The `printk` calls.
pub data Notice : Type 0 where
  hello goodbye lp_pool_failed st_pool_failed : Notice
  refused planted removed : Probe → Notice

-- `held` are the arrays that `vmalloc` has handed out, `probes` what is registered with the kernel.
pub record Module : Type 0 where
  pub lp_pool : Pool
  pub st_pool : Pool
  pub held : List Addr
  pub probes : List Probe
  pub log : List Notice

abbrev pub Cmd : Type 0 → Type 0
Cmd A = Module → A × Module

abbrev pub pure : {A : Type 0} → A → Cmd A
pure a m = (a, m)

infixl 5 ◌>>=◌ ◌>>◌
abbrev pub ◌>>=◌ : {A B : Type 0} → Cmd A → (A → Cmd B) → Cmd B
c >>= k = λ m. k (c m).0 (c m).1

abbrev pub ◌>>◌ : {A B : Type 0} → Cmd A → Cmd B → Cmd B
c >> d = c >>= λ _. d

abbrev pub modify : (Module → Module) → Cmd (Unit {0})
modify f m = (tt, f m)

abbrev pub printk : Notice → Cmd (Unit {0})
printk n = modify λ m. record m { log = m.log ++ n ∷ [] }
