-- ===== src/Lib.antt =====
-- LinuxProject: kernel modules that look for memory errors. mem_overflow/ wraps the kernel's
-- allocation functions so that every block lies between two isolation zones, and has a thread
-- that looks for zones that have changed; mem_overflow_del_firstiso/ is a variant with the zone
-- behind the memory only. mem_leak/kerspace/ records which page frames are allocated and from
-- where, mem_leak/userspace/ finds the user-space addresses of a physical one, and mem_leak/rmap/
-- and mem_leak/reverse_mapping/ find the processes that map a page.
--
-- Kernel models what the modules see of the kernel: byte memory, the blocks handed out, a
-- spinlock, the text printed. The machine has 64-bit words, and sums of sizes and addresses wrap
-- as in C. What an allocator answers is an argument of the call (`Answers`); theorems that need
-- it assume that a block handed out overlaps none that is held (Kernel/Fresh).
-- Overflow models mem_overflow/code/mem_overflow_check.c: Guard holds the text that all
-- allocation functions and all release functions share, Alloc and Release the functions
-- themselves, Check `check_iso`, its thread and `my_seq_show`, Thread loading and unloading.
-- Overflow/Requests puts the six pairs of an allocation function and its release function under one
-- description (`Request`); `prepared` is the state with the cell that `sdma_alloc_coherent` makes
-- for the bus address (Overflow/Alloc/Dma).
-- Overflow/Invariant gives the abstract view, a list of tracked allocations, and what state
-- stands for it.
-- Trailing models mem_overflow_del_firstiso/code/mem_overflow_check.c in the same way; there the
-- caller's pointer is the block's own address. Kernel/Threads is what loading and unloading of both
-- modules see of their thread, and Kernel/Rounds a thread that works in rounds, between which the
-- other threads do what they like; Check/Rounds of both modules is about that thread.
-- PageLog models mem_leak/kerspace/huawei_log_page.c: Pools the two pools of records and their
-- sizes, Hooks the probes, loading and unloading, Tree `find_lp` and `log_page_insert`, where the
-- kernel's rebalancing is any function that keeps the order of the entries, Trace the call stack
-- that is kept with a block, Book the handlers of the probes and `do_log_page_free` over the tree
-- and the pool, with Book/Edit, Book/Enter, Book/Round and Book/Free for its loop, Book/History
-- for runs of the handlers, Book/Room for the size of the pool, Book/Report for what is printed and
-- Book/Direct for `log_page`. Its state, its own small monad and the answers that it gets
-- (`Loading`) are separate from those of the other two.
-- PageLog/Driver models mem_leak/kerspace/huawei_log_page_test_1.c to huawei_log_page_test_4.c,
-- which allocate a block while the probes are registered; the kernel's allocator is a parameter.
-- UserMem models mem_leak/userspace/huawei_user_space_mem.c, which finds the user-space addresses
-- of a physical address in the page tables of all processes: UserMem/Translate is the translation
-- of addresses as the processor makes it, which the walk is compared with. How the kernel reads
-- an entry of a table is a parameter (`Paging`). UserMem/Driver models
-- mem_leak/userspace/huawei_user_space_mem_test.c, which goes from an address to the physical one
-- and back; how the kernel goes down the tables for it is a parameter, too (`Lookup`). UserMem/X86
-- has both for x86_64, with which the theorems are applied.
-- Rmap models mem_leak/rmap/rmap.c, which prints the processes that map a page: Rmap/Pids its
-- array of pids, Rmap/PrioTree the walk of the kernel's priority search tree, with `iter->cur` as
-- a zipper, Rmap/Locate the list of processes, Rmap/Unmapped a page that no process maps,
-- Rmap/Mapped all of it together, and Rmap/Driver mem_leak/rmap/rmap_test.c, which calls it for an
-- address that it looks up in the page tables as UserMem/Driver does. The order that the kernel
-- keeps in such a tree is a hypothesis (Rmap/PrioTree/Order). Below Rmap/PrioTree, Bits and Level
-- are the value and the mask of the iterator on each level, Steps one step of the walk in a tree
-- in order, Sees and Start the calls that follow one another, Rounds their fuel, Vmas the mappings
-- behind the nodes and Foreach the loop over them; Zipper and First are about any tree.
-- ReverseMapping models the file /proc/rmap of mem_leak/reverse_mapping/reverse_mapping.c.
--
-- Bounds: orders of page requests are below 20 in the theorems on Overflow (below 19 in Trailing,
-- whose zone is twice as long), since `1 << order` is an `int` and the kernel's orders end at 10;
-- sizes are such that size + 40 does not wrap. In PageLog 2 ^ order is not bounded; it is the
-- code's `1 << order` for orders below 31. The loop of `do_log_page_free` is given 2 ^ order + 1
-- rounds, one for each frame and one for the cut of a block, and is proved to end within them.
-- `prio_tree_first_user` and `prio_tree_next_user` are given four rounds for each node of the
-- tree and one more, and are proved to end within them; `vma_prio_tree_foreach_user` is given one
-- round for each mapping of the tree and one more, which is proved to be enough in a tree in
-- order. The other loops recur on a list or on their count of rounds.
--
-- Not modelled: the text of the messages, the raw bytes of the name buffers and of the structures
-- (they lie in blocks of their own), the sleep between two scans, the tables of operations of the
-- /proc files, an address space without an owner in Rmap (`mm->owner` is read without a test), the
-- test drivers memcheck.c, which only call the modules, and the driver 8139too.c, a copy of the
-- kernel's.
pub mod Base
pub mod Kernel
pub mod Overflow
pub mod Trailing
pub mod PageLog
pub mod UserMem
pub mod Rmap
pub mod ReverseMapping
