-- ===== src/PageLog/Driver/Examples.antt =====
-- The theorem on the driver of huawei_log_page.c with an allocator that answers the frames from 8 on.
use linux_project.Base.{
  ℕ, ◌*◌, ◌≡◌, refl, Bool, false, ◌&&◌, Option, none, some, [], ◌∷◌, ◌++◌, ltb, if◌then◌else◌,
  arith,
}
use linux_project.PageLog.Book.{Book, Caller, jfree_hot_cold_page}
use linux_project.PageLog.Book.Edit.{recorded}
use linux_project.PageLog.Book.Handlers.{asked}
use linux_project.PageLog.Book.History.{Trace-IsKept, loaded, Trace}
use linux_project.PageLog.Book.Report.{not_tracked, print_log_page}
use linux_project.PageLog.Driver.{
  Driver, Allocator, huawei_log_page_test_4_init, huawei_log_page_test_4_exit,
}
use linux_project.PageLog.Driver.Leak.{
  through_probe, book_of, the_block, huawei_log_page_test_4_exit-huawei_log_page_test_4_init,
}
use linux_project.PageLog.Driver.Printed.{loading, unloading}
use linux_project.PageLog.Pools.{fresh_pool, free_all, free_record}
use linux_project.PageLog.Tree.{leaf}
use linux_project.PageLog.Tree.Edit.{origin}
use linux_project.PageLog.Tree.Turn.{turning}

abbrev driver_calls : Caller
driver_calls = record {
  module_address = λ a. 500;
  addrs = 1 ∷ 2 ∷ 3 ∷ 4 ∷ 5 ∷ 6 ∷ 7 ∷ 8 ∷ 91 ∷ 92 ∷ [];
}

abbrev given_back : Option ℕ → Book → Option Book
given_back none b = some b
given_back (some page) b = book_of (jfree_hot_cold_page turning page 0 b)

abbrev frames : Option ℕ → ℕ
frames none = 0
frames (some page) = 4096 * page

abbrev kernel : Allocator
kernel = record {
  alloc_pages = through_probe turning driver_calls 8;
  free_page = given_back;
  page_address = frames;
}

abbrev fresh : Book
fresh = record { tree = leaf; pool = fresh_pool 6 4096 }

abbrev idle : Driver
idle = record { addr = 0; global_page = none; page4 = none; book = fresh; log = [] }

abbrev nowhere : ℕ → Bool
nowhere p = false

nothing : Trace turning 6 4096 fresh [] nowhere
nothing = loaded nowhere

huawei_log_page_test_4_exit-huawei_log_page_test_4_init_example :
    (s' s'' : Driver) × (huawei_log_page_test_4_init kernel (λ f. f) idle ≡ some (0, s'))
    × (s'.log ≡ loading kernel 8 (print_log_page (λ f. f) (some (the_block driver_calls 8 4 0))))
    × (huawei_log_page_test_4_exit kernel (λ f. f) s' ≡ some s'')
    × (s''.log ≡ s'.log ++ unloading (some 8) (not_tracked ∷ []))
    × ((p : ℕ)
        → recorded s''.book p ≡ (
            if ltb 8 p && ltb p 24
            then some (origin (asked driver_calls 4 0))
            else recorded fresh p))
unfolding free_all free_record
huawei_log_page_test_4_exit-huawei_log_page_test_4_init_example =
    huawei_log_page_test_4_exit-huawei_log_page_test_4_init kernel (λ f. f) turning driver_calls 8
      idle (refl, λ b'. refl) ((Trace-IsKept nothing).0) (omega arith)
      (λ p lo hi. (Trace-IsKept nothing).1 p refl)
