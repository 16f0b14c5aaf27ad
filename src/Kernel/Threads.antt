-- ===== src/Kernel/Threads.antt =====
-- The kernel thread of the modules mem_overflow/code and mem_overflow_del_firstiso/code, as far as
-- loading and unloading see it.
use linux_project.Base.{◌-◌, Bool, Option, List, [], ◌∷◌, leb, ◌==◌, if◌then◌else◌}
use linux_project.Kernel.{Addr, word, Message}

-- The module's pointer to its thread, the threads that `kthread_run` has started and `kthread_stop` has
-- not ended, what is printed, and the entry under /proc that has the module's operations.
pub record Module : Type 0 where
  pub checklist : Addr
  pub running : List Addr
  pub log : List Message
  pub proc : Option Addr

-- The kernel's error pointers are the last 4095 addresses.
abbrev pub is_err : Addr → Bool
is_err p = leb (word - 4095) p

-- `kthread_run`, which answers a thread or an error pointer.
abbrev pub kthread_run : Addr → Module → Module
kthread_run task m = if is_err task then m else record m { running = task ∷ m.running }

abbrev pub remove : Addr → List Addr → List Addr
remove p [] = []
remove p (q ∷ qs) = if p == q then qs else q ∷ remove p qs

abbrev pub kthread_stop : Addr → Module → Module
kthread_stop task m = record m { running = remove task m.running }
