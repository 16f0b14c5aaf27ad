-- ===== src/PageLog/Driver/Printed.antt =====
-- What loading and unloading huawei_log_page_test_4.c comes to, by what the allocator answers.
use linux_project.Base.{ℕ, ◌≡◌, ap, Option, some, List, [], ◌∷◌, ◌++◌, append_assoc}
use linux_project.Kernel.{Addr}
use linux_project.PageLog.Book.{Book}
use linux_project.PageLog.Book.Report.{Line, print_page}
use linux_project.PageLog.Driver.{
  busy_test, busy_test_exit, init, alloc, free, exit, Entry, hello, goodbye, allocated, freed,
  Driver, returns_zero, Allocator, ◌>>◌, shown_all, print_page_at, busy_alloc, busy_free,
  page_busy_test, page_busy_test_exit, huawei_log_page_test_2_alloc, huawei_log_page_test_2_free,
  huawei_log_page_test_3_alloc, huawei_log_page_test_3_free, huawei_log_page_test_4_alloc,
  huawei_log_page_test_4_free, huawei_log_page_test_4_init, huawei_log_page_test_4_exit,
}

-- What the driver prints.
abbrev pub loading : Allocator → (page : ℕ) → List Line → List Entry
loading kernel page out =
    hello (init 4)
    ∷ hello (alloc 4)
    ∷ hello (alloc 3)
    ∷ hello (alloc 2)
    ∷ hello busy_test
    ∷ allocated (some page) (kernel.page_address (some page)) 4
    ∷ shown_all out

abbrev pub unloading : Option ℕ → List Line → List Entry
unloading held out =
    freed held 4
    ∷ (shown_all out
        ++ goodbye busy_test_exit
          ∷ goodbye (free 2)
          ∷ goodbye (free 3)
          ∷ goodbye (free 4)
          ∷ goodbye (exit 4)
          ∷ [])

-- What it does, by what the allocator answers.
module _ (kernel : Allocator) (physical : ℕ → Addr) (page : ℕ) (s : Driver) (b : Book) where
  pub init-ok :
      kernel.alloc_pages 4 s.book ≡ some (some page, b)
      → huawei_log_page_test_4_init kernel physical s
        ≡ some (
          0,
          record s {
            addr = kernel.page_address (some page);
            page4 = some page;
            book = b;
            log = s.log ++ loading kernel page (print_page physical page b);
          },
        )
  unfolding huawei_log_page_test_4_init huawei_log_page_test_4_alloc huawei_log_page_test_3_alloc
      huawei_log_page_test_2_alloc page_busy_test busy_alloc
  init-ok e =
      let s' : List Entry → Driver = λ l. record s {
        addr = kernel.page_address (some page);
        page4 = some page;
        book = b;
        log = l;
      } in
      rw
        (
          huawei_log_page_test_4_init, huawei_log_page_test_4_alloc, huawei_log_page_test_3_alloc,
          huawei_log_page_test_2_alloc, page_busy_test, busy_alloc, ◌>>◌, returns_zero, e,
        )
        (ap (λ l. some (0, s' l)) (simp append_assoc))

  pub exit-ok :
      kernel.free_page s.page4 s.book ≡ some b
      → huawei_log_page_test_4_exit kernel physical s
        ≡ some (record s {
          book = b;
          log = s.log ++ unloading s.page4 (print_page_at physical s.page4 b);
        })
  unfolding huawei_log_page_test_4_exit huawei_log_page_test_4_free huawei_log_page_test_3_free
      huawei_log_page_test_2_free page_busy_test_exit busy_free
  exit-ok e =
      rw
        (
          huawei_log_page_test_4_exit, huawei_log_page_test_4_free, huawei_log_page_test_3_free,
          huawei_log_page_test_2_free, page_busy_test_exit, busy_free, ◌>>◌, e,
        )
        (ap (λ (l : List Entry). some (record s { book = b; log = l })) (simp append_assoc))
