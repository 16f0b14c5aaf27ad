-- ===== src/PageLog/Driver.antt =====
-- The four modules mem_leak/kerspace/huawei_log_page_test_1.c to huawei_log_page_test_4.c, which try out
-- huawei_log_page.c: the fourth allocates sixteen page frames through the other three when it is loaded, has
-- what is recorded of them printed, and releases them through the others when it is unloaded.
pub mod Printed
pub mod Leak
mod Examples
use linux_project.Base.{ℕ, Option, none, some, List, [], ◌∷◌, ◌++◌}
use linux_project.Kernel.{Addr}
use linux_project.PageLog.Book.{Book}
use linux_project.PageLog.Book.Report.{Line, print_page, print_log_page}

-- A function that greets: of the module with that number, or the two that do the work.
pub data Site : Type 0 where
  busy_test busy_test_exit : Site
  init alloc free exit : ℕ → Site

-- The `printk` calls: `allocated` is the three lines on a new block, `shown` what huawei_log_page.c prints.
pub data Entry : Type 0 where
  hello goodbye : Site → Entry
  allocated : (page : Option ℕ) (addr : Addr) (order : ℕ) → Entry
  freed : (page : Option ℕ) (order : ℕ) → Entry
  shown : Line → Entry

-- The global variables `addr` and `global_page` of the first module and `page4` of the fourth one, what
-- huawei_log_page.c has recorded, and what is printed.
pub record Driver : Type 0 where
  pub addr : Addr
  pub global_page : Option ℕ
  pub page4 : Option ℕ
  pub book : Book
  pub log : List Entry

-- A `struct page **`.
pub data Slot : Type 0 where
  to_global_page to_page4 : Slot

abbrev pub load : Slot → Driver → Option ℕ
load to_global_page s = s.global_page
load to_page4 s = s.page4

abbrev pub store : Slot → Option ℕ → Driver → Driver
store to_global_page page s = record s { global_page = page }
store to_page4 page s = record s { page4 = page }

-- The kernel's `alloc_pages` and `__free_page`, with what the probes on them do to the recorded blocks,
-- where none is a fault in a handler, and `page_address`.
pub record Allocator : Type 0 where
  pub alloc_pages : (order : ℕ) → Book → Option (Option ℕ × Book)
  pub free_page : Option ℕ → Book → Option Book
  pub page_address : Option ℕ → Addr

abbrev pub Cmd : Type 0
Cmd = Driver → Option Driver

infixl 5 ◌>>◌
abbrev pub ◌>>◌ : Cmd → Cmd → Cmd
c >> d = λ s. elim (c s) [ none ↦ none | some s' ↦ d s' ]

abbrev pub printk : Entry → Cmd
printk e s = some (record s { log = s.log ++ e ∷ [] })

abbrev pub shown_all : List Line → List Entry
shown_all [] = []
shown_all (l ∷ ls) = shown l ∷ shown_all ls

-- No block begins at NULL.
abbrev pub print_page_at : (ℕ → Addr) → Option ℕ → Book → List Line
print_page_at physical none b = print_log_page physical none
print_page_at physical (some page) b = print_page physical page b

abbrev pub show_page : (ℕ → Addr) → Option ℕ → Cmd
show_page physical page s =
    some (record s { log = s.log ++ shown_all (print_page_at physical page s.book) })

abbrev pub returns_zero : Cmd → Driver → Option (ℕ × Driver)
returns_zero c s = elim (c s) [ none ↦ none | some s' ↦ some (0, s') ]

module _ (kernel : Allocator) (physical : ℕ → Addr) where
  -- From the call of `alloc_pages` up to the assignment of `addr`.
  unfoldable pub busy_alloc : Slot → (order : ℕ) → Cmd
  busy_alloc pagep order s = elim (kernel.alloc_pages order s.book) [
    | none ↦ none
    | some (page, b) ↦
        some (record (store pagep page s) { addr = kernel.page_address page; book = b })
  ]

  unfoldable pub page_busy_test : Slot → (order : ℕ) → Cmd
  page_busy_test pagep order =
      busy_alloc pagep order
      >> printk (hello busy_test)
      >> (λ s. printk (allocated (load pagep s) s.addr order) s)
      >> (λ s. show_page physical (load pagep s) s)

  unfoldable pub busy_free : Option ℕ → Cmd
  busy_free page s = elim (kernel.free_page page s.book) [
    | none ↦ none
    | some b ↦ some (record s { book = b })
  ]

  unfoldable pub page_busy_test_exit : Slot → (order : ℕ) → Cmd
  page_busy_test_exit pagep order s =
      let page = load pagep s in
      (busy_free page
          >> printk (freed page order)
          >> show_page physical page
          >> printk (goodbye busy_test_exit))
        s

  -- Nothing calls these two.
  unfoldable pub start : Cmd
  start = page_busy_test to_global_page 4

  unfoldable pub end : Cmd
  end = page_busy_test_exit to_global_page 4

  unfoldable pub huawei_log_page_test_2_alloc : Slot → (order : ℕ) → Cmd
  huawei_log_page_test_2_alloc pagep order = printk (hello (alloc 2)) >> page_busy_test pagep order

  unfoldable pub huawei_log_page_test_2_free : Slot → (order : ℕ) → Cmd
  huawei_log_page_test_2_free pagep order =
      page_busy_test_exit pagep order >> printk (goodbye (free 2))

  unfoldable pub huawei_log_page_test_3_alloc : Slot → (order : ℕ) → Cmd
  huawei_log_page_test_3_alloc pagep order =
      printk (hello (alloc 3)) >> huawei_log_page_test_2_alloc pagep order

  unfoldable pub huawei_log_page_test_3_free : Slot → (order : ℕ) → Cmd
  huawei_log_page_test_3_free pagep order =
      huawei_log_page_test_2_free pagep order >> printk (goodbye (free 3))

  unfoldable pub huawei_log_page_test_4_alloc : Slot → (order : ℕ) → Cmd
  huawei_log_page_test_4_alloc pagep order =
      printk (hello (alloc 4)) >> huawei_log_page_test_3_alloc pagep order

  unfoldable pub huawei_log_page_test_4_free : Slot → (order : ℕ) → Cmd
  huawei_log_page_test_4_free pagep order =
      huawei_log_page_test_3_free pagep order >> printk (goodbye (free 4))

  -- What loading and unloading the fourth module does.
  unfoldable pub huawei_log_page_test_4_init : Driver → Option (ℕ × Driver)
  huawei_log_page_test_4_init =
      returns_zero (printk (hello (init 4)) >> huawei_log_page_test_4_alloc to_page4 4)

  unfoldable pub huawei_log_page_test_4_exit : Cmd
  huawei_log_page_test_4_exit = huawei_log_page_test_4_free to_page4 4 >> printk (goodbye (exit 4))

-- Loading and unloading one of the other three.
unfoldable pub huawei_log_page_test_init : (number : ℕ) → Driver → Option (ℕ × Driver)
huawei_log_page_test_init number = returns_zero (printk (hello (init number)))

unfoldable pub huawei_log_page_test_exit : (number : ℕ) → Cmd
huawei_log_page_test_exit number = printk (goodbye (exit number))
