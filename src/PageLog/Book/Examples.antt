-- ===== src/PageLog/Book/Examples.antt =====
-- The theorems on the recorded blocks of huawei_log_page.c at concrete inputs.
use linux_project.Base.{
  ℕ, ◌≡◌, refl, Bool, false, ◌&&◌, ◌||◌, some, [], ◌∷◌, ◌++◌, leb, ltb, if◌then◌else◌, arith,
}
use linux_project.PageLog.{Pool}
use linux_project.PageLog.Book.{
  Book, Caller, alloc_pages_nodemask_entry_handler, alloc_pages_nodemask_ret_handler, new_lp,
  do_log_page_free, log_page_alloc_with_lp, ended,
}
use linux_project.PageLog.Book.Edit.{IsKept, recorded}
use linux_project.PageLog.Book.Free.{Ends, do_log_page_free_lem}
use linux_project.PageLog.Book.Handlers.{asked, returned_lem}
use linux_project.PageLog.Book.History.{
  Trace, Sound, Trace-IsKept, loaded, entered, returned, in_block,
}
use linux_project.PageLog.Book.Direct.{
  log_page, alloc_action, free_action, block, Records, log_page-log_page,
}
use linux_project.PageLog.Book.Report.{
  banner, end_of_banner, print_page, print_log_page, report, print_page-allocated,
}
use linux_project.PageLog.Book.Room.{alloc_lp_safe}
use linux_project.PageLog.Pools.{alloc_record, fresh_pool, free_all, free_record}
use linux_project.PageLog.Trace.{get_lp_call_stack}
use linux_project.PageLog.Tree.{LogPage, leaf}
use linux_project.PageLog.Tree.Edit.{origin}
use linux_project.PageLog.Tree.Turn.{turning}

abbrev caller : Caller
caller = record { module_address = λ a. 500; addrs = 1 ∷ 2 ∷ 3 ∷ 4 ∷ 5 ∷ 6 ∷ 7 ∷ 8 ∷ 91 ∷ 92 ∷ [] }

-- Six records; an allocation of four frames is entered, and returns the frames from 8 to 11.
abbrev at_start : Book
at_start = record { tree = leaf; pool = fresh_pool 6 4096 }

abbrev waiting : Book
waiting = record {
  tree = leaf;
  pool = record { nr = 6; pool = 4096; free = 4 ∷ 3 ∷ 2 ∷ 1 ∷ 0 ∷ [] };
}

abbrev watched : Book
watched = alloc_pages_nodemask_ret_handler turning (some 8) (asked caller 2 5) waiting

abbrev nowhere : ℕ → Bool
nowhere p = false

abbrev four : ℕ → Bool
four p = in_block 8 2 p || false

under_way : Trace turning 6 4096 waiting (asked caller 2 5 ∷ []) nowhere
unfolding alloc_pages_nodemask_entry_handler new_lp free_all free_record alloc_record
under_way = entered caller 2 (loaded nowhere) (omega arith) refl

run : Trace turning 6 4096 watched [] four
run = returned [] (asked caller 2 5) [] 8 under_way refl refl (λ p h. refl) (λ p. refl) refl

Trace-IsKept_example : IsKept 6 [] watched × Sound four watched
Trace-IsKept_example = Trace-IsKept run

-- The second of the four frames is released.
do_log_page_free_lem_example : Ends 6 [] watched 9 10 (do_log_page_free turning 9 0 watched)
unfolding alloc_pages_nodemask_ret_handler log_page_alloc_with_lp
do_log_page_free_lem_example =
    do_log_page_free_lem 6 [] turning 9 0 watched ((Trace-IsKept run).0) (omega arith)

returned_lem_example :
    IsKept 6 [] watched
    × ((p : ℕ)
        → recorded watched p
          ≡ (if leb 8 p && ltb p 12 then some (origin (asked caller 2 5)) else recorded waiting p))
returned_lem_example =
    returned_lem turning (asked caller 2 5) waiting ((Trace-IsKept under_way).0) 8
      (λ p lo hi. (Trace-IsKept under_way).1 p refl)

alloc_lp_safe_example : (i : ℕ) × (q : Pool) × (alloc_record watched.pool ≡ some (i, q))
alloc_lp_safe_example =
    alloc_lp_safe 6 12 [] four watched ((Trace-IsKept run).0) ((Trace-IsKept run).1)
      (λ p h. ground arith) (omega arith)

nothing : Trace turning 6 4096 at_start [] nowhere
nothing = loaded nowhere

print_page-allocated_example :
    (lp : LogPage) × (b' : Book) × (alloc_pages_nodemask_entry_handler caller 2 at_start
      ≡ some (lp, b'))
    × (print_page (λ f. f) 10 (alloc_pages_nodemask_ret_handler turning (some 8) lp b')
        ≡ report 8 12
            (get_lp_call_stack caller.module_address caller.addrs (λ _. 0)).0
            (get_lp_call_stack caller.module_address caller.addrs (λ _. 0)).1)
unfolding free_all free_record
print_page-allocated_example =
    print_page-allocated (λ f. f) 6 [] turning caller 2 8 10 at_start ((Trace-IsKept nothing).0)
      (omega arith) (λ p lo hi. (Trace-IsKept nothing).1 p refl) (omega arith) (omega arith)

-- The block from 8 to 11 is recorded by hand and released again.
log_page-log_page_example :
    (b' b'' : Book) × (log_page (λ f. f) turning caller 8 2 alloc_action at_start ≡ (
      ended b',
      banner ∷ (print_log_page (λ f. f) (some (block caller 8 2 0)) ++ end_of_banner ∷ []),
    ))
    × Records caller 8 2 b' at_start
    × (log_page (λ f. f) turning caller 8 2 free_action b' ≡ (ended b'', []))
    × IsKept 6 [] b''
    × ((p : ℕ) → recorded b'' p ≡ recorded at_start p)
unfolding free_all free_record
log_page-log_page_example =
    log_page-log_page (λ f. f) turning caller 8 2 at_start ((Trace-IsKept nothing).0) (omega arith)
      (λ p lo hi. (Trace-IsKept nothing).1 p refl)
