-- ===== src/Rmap/Driver/Examples.antt =====
-- The theorem on rmap_test.c at a page that two processes map.
use linux_project.Base.{ℕ, ◌≡◌, refl, true, none, if◌then◌else◌, ◌==◌, [], ◌∷◌, arith}
use linux_project.Kernel.{Addr}
use linux_project.Rmap.{Machine, on_anon, related, process, State, use_after_free}
use linux_project.Rmap.Driver.{hello, looked_up, stopped, huawei_user_space_mem_test_init}
use linux_project.Rmap.Driver.Found.{huawei_user_space_mem_test_init-stopped}
use linux_project.Rmap.PrioTree.{Vma, leaf}
use linux_project.UserMem.X86.{x86_of, lookup_of, space, kernel_thread, tested}

-- The address of the test lies on the page 0x201.
abbrev word_at : Addr → ℕ
word_at a =
    if a == 0x17f8
    then 0x2001
    else if a == 0x2c58
    then 0x3001
    else if a == 0x3678
    then 0x4001
    else if a == 0x4c08
    then 0x201001
    else 0

abbrev forked : Vma
forked = record { pid = 1600; comm = 2 }

abbrev itself : Vma
itself = record { pid = 1587; comm = 1 }

-- Both processes have the page, which is an anonymous one.
abbrev machine : Machine
machine = record {
  pfn_to_page = λ pfn. record { mapping = 4097; mapped = true; index = 0 };
  anon_vma_head = λ a. itself ∷ forked ∷ [];
  i_mmap = λ a. record { raw = true; index_bits = 4; tree = leaf };
  vmallocs = 8192 ∷ 12288 ∷ [];
}

abbrev start : State
start = record { task_head = none; infos = λ a. none; pid_arr = []; log = []; rcu = 0; locks = [] }

huawei_user_space_mem_test_init-stopped_example :
    (s' : State) × (huawei_user_space_mem_test_init
        (x86_of word_at)
        (lookup_of word_at)
        machine
        (kernel_thread ∷ tested ∷ [])
        start
      ≡ stopped (hello ∷ looked_up [] ∷ []) (use_after_free s'))
    × (s'.log ≡ on_anon ∷ related ∷ process 1600 2 ∷ [])
huawei_user_space_mem_test_init-stopped_example =
    huawei_user_space_mem_test_init-stopped (x86_of word_at) (lookup_of word_at) machine
      (kernel_thread ∷ tested ∷ []) tested space 0x201 itself (forked ∷ []) start
      (λ mm v. refl, λ a v. refl, λ a v. refl, λ a v. refl) refl refl refl refl (omega arith)
      (omega arith) (omega arith) (omega arith, tt) refl (omega arith, (omega arith, tt)) refl
