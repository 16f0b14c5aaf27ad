-- ===== src/Trailing/Thread.antt =====
-- Loading and unloading mem_overflow_del_firstiso/code/mem_overflow_check.c, and the cursor of its file under /proc.
use linux_project.Base.{
  ℕ, ◌+◌, ◌<◌, ◌≡◌, ◌≢◌, Bool, true, false, not, none, some, [], ◌∷◌, ◌++◌, ◌==◌, if◌then◌else◌,
  arith,
}
use linux_project.Kernel.{Addr, null, word, to_int, thread_failed}
use linux_project.Kernel.Threads.{Module, is_err, kthread_run, kthread_stop}

-- `task` is what `kthread_run` answers; the result is the `int` that the module loader sees.
unfoldable pub kmalloc_init : Addr → Module → ℕ × Module
kmalloc_init task m =
    let started : Module = record (kthread_run task m) { checklist = task } in
    if is_err task
    then (to_int task, record started { checklist = null; log = started.log ++ thread_failed ∷ [] })
    else (0, started)

unfoldable pub kmalloc_exit : Module → Module
kmalloc_exit m =
    if m.checklist == null then m else record (kthread_stop m.checklist m) { checklist = null }

-- The cursor of the file: `my_seq_start` and `my_seq_next` answer whether there is a record at `pos`,
-- and `my_seq_next` moves it. (`pos = 0` in the former only clears its own copy of the pointer.)
unfoldable pub my_seq_start : ℕ → Bool × ℕ
my_seq_start pos = if pos == 0 then (true, pos) else (false, pos)

unfoldable pub my_seq_next : ℕ → Bool × ℕ
my_seq_next pos = (false, pos + 1)

-- `entry` is what `create_proc_entry` answers; nothing calls these two.
unfoldable pub init_proc : Addr → Module → ℕ × Module
init_proc entry m = (0, if entry == null then m else record m { proc = some entry })

unfoldable pub exit_proc : Module → Module
exit_proc m = record m { proc = none }

-- Loading reports success exactly when a thread was started; unloading then ends that thread and no
-- other, and after a failure there is nothing to end.
pub kmalloc_exit_lem :
    (task : Addr) (m : Module)
    → task ≢ null
    → task < word
    → (kmalloc_exit (kmalloc_init task m).1).running ≡ m.running
      × ((kmalloc_exit (kmalloc_init task m).1).checklist ≡ null)
      × (((kmalloc_init task m).0 == 0) ≡ not (is_err task))
unfolding kmalloc_exit kmalloc_init
kmalloc_exit_lem task m ne small = ground arith
