-- ===== src/Overflow/Examples.antt =====
-- The theorems on mem_overflow_check.c at concrete inputs, and runs of its functions.
use mathlib.Core.List.{Mem}
use linux_project.Base.{
  ◌+◌, ◌≤◌, ◌≡◌, ◌≢◌, refl, sym, append-nil, inl, inr, false, none, some, List, [], ◌∷◌, All, arith,
}
use linux_project.Kernel.{
  Addr, null, Block, State, ok, fault, bad_free, update, Message, more_information, blank_line,
}
use linux_project.Kernel.Fresh.{IsFresh}
use linux_project.Overflow.{Zone, Answers, isosize_dma}
use linux_project.Overflow.Alloc.{sdma_alloc_coherent, nget_free_pages}
use linux_project.Overflow.Alloc.Steps.{dma_request}
use linux_project.Overflow.Alloc.Tracked.{guarded, Guards, sdma_alloc_coherent-Guards}
use linux_project.Overflow.Alloc.Dma.{with_handle}
use linux_project.Kernel.Rounds.{idle-IsFair}
use linux_project.Overflow.Check.Rounds.{checklist_func-reports}
use linux_project.Overflow.Check.{checklist_func, check_iso, my_seq_show}
use linux_project.Overflow.Check.Detect.{my_seq_show-check_iso}
use linux_project.Overflow.Check.Reports.{checked, check_iso-ok}
use linux_project.Overflow.Guard.{unguard}
use linux_project.Overflow.Invariant.{Guarded, Inv, kmalloc_block, entries}
use linux_project.Overflow.Invariant.Extend.{Serves, tracked}
use linux_project.Overflow.Invariant.Frame.{Inv-written}
use linux_project.Overflow.Release.{skfree}
use linux_project.Overflow.Release.Tracked.{Releases, released}
use linux_project.Overflow.Requests.Freed.{Made, release-Releases}
use linux_project.Overflow.Requests.{
  Request, Answered, narrow_pages_of, kmalloc_of, request, release, request_block, request_tracked,
  request_end, request-Guards,
}
use linux_project.Overflow.Requests.Detection.{
  overflow_reported, no_false_alarm, nget_free_pages_false_alarm,
}
use linux_project.Overflow.Requests.Failure.{
  request_leaks, request_failed, skfree_untracked, dangling,
}
use linux_project.Overflow.Requests.History.{loaded, allocated, Trace-Inv}
use linux_project.Overflow.Requests.Roundtrip.{release-request}

-- Nothing is allocated, and all memory is zero.
abbrev start : State Zone
start = record {
  bytes = λ _. 0;
  symbols = λ _. 0;
  blocks = λ _. none;
  zones = [];
  locked = false;
  log = [];
}

abbrev answers : Answers
answers = record { memory = 4096; buffer = 8192; zones = 12288; caller = 77 }

-- `skmalloc(100, GFP_KERNEL)`
abbrev hundred : Request
hundred = kmalloc_of 100 0xd0

start-Inv : Inv start []
start-Inv = record { linked = refl; held = tt; apart = tt; unlocked = refl }

serve : (block : Block) → 4096 + block.size ≤ 8192 → Serves (λ _. none) answers block
serve block small = record {
  memory_fresh = record {
    ne_null = λ e. omega arith;
    fits = omega arith;
    unused = refl;
    apart = λ q b h. absurd (cc);
  };
  buffer_fresh = record {
    ne_null = λ e. omega arith;
    fits = omega arith;
    unused = refl;
    apart = λ q b h. ground arith;
  };
  zones_fresh = record {
    ne_null = λ e. omega arith;
    fits = omega arith;
    unused = refl;
    apart = λ q b h. ground arith;
  };
  caller_known = λ e. omega arith;
}

hundred-Serves : Serves start.blocks answers (request_block hundred)
hundred-Serves = serve (request_block hundred) (omega arith)

-- The state behind `skmalloc(100, GFP_KERNEL)`, and what is then tracked.
abbrev full : State Zone
full = request_end hundred answers start

abbrev item : Guarded
item = request_tracked hundred answers

hundred-Answered : Answered hundred answers start.blocks
hundred-Answered = (tt, hundred-Serves)

full-Inv : Inv full (item ∷ [])
full-Inv = (request-Guards hundred [] answers start start-Inv (omega arith) hundred-Answered).1

item-Made : Made hundred item
item-Made = record { small = omega arith; same_guard = refl; same_block = refl }

request-Guards_example :
    Guards [] answers (request_block hundred) 20 4216 start (request hundred answers start)
request-Guards_example =
    request-Guards hundred [] answers start start-Inv (omega arith) hundred-Answered

release-Releases_example : Releases item [] full (release hundred 4116 full)
release-Releases_example = release-Releases hundred item [] [] full-Inv item-Made

release-request_example :
    release hundred 4116 (record full { bytes = λ _. 7 })
    ≡ ok tt (released item [] (record full { bytes = λ _. 7 }))
release-request_example =
    (release-request hundred [] answers start (λ _. 7) start-Inv (omega arith) hundred-Answered).1

-- The first byte behind the hundred is overwritten.
overflow_reported_example :
    Mem (more_information 77) (checked (record full { bytes = update full.bytes 4216 0 })).log
overflow_reported_example =
    (overflow_reported hundred [] answers start start-Inv (omega arith) hundred-Answered 4216 0
      (inl (omega arith)) (λ e. omega arith)).2

-- The last of the hundred bytes is written.
no_false_alarm_example :
    let t : State Zone = record full { bytes = update full.bytes 4215 0 } in check_iso t ≡ ok tt t
no_false_alarm_example =
    no_false_alarm hundred [] answers start start-Inv (omega arith) hundred-Answered
      (update full.bytes 4215 0) tt (λ q h. ground arith)

-- A page from `__nget_free_pages(GFP_KERNEL, 0)`, of which the caller writes the byte 4060.
nget_free_pages_false_alarm_example :
    let end : State Zone = request_end (narrow_pages_of 0 0xd0) answers start in
    let t : State Zone = record end { bytes = update end.bytes 8176 0 } in
    (nget_free_pages answers 0xd0 0 start ≡ ok 4116 end)
    × (check_iso t ≡ ok tt (checked t))
    × Mem (more_information 77) (checked t).log
nget_free_pages_false_alarm_example =
    nget_free_pages_false_alarm 0 0xd0 4060 0 [] answers start start-Inv (omega arith)
      (serve (request_block (narrow_pages_of 0 0xd0)) (omega arith)) (omega arith) (omega arith)
      (λ e. omega arith)

Trace-Inv_example : Inv full (item ∷ [])
Trace-Inv_example = Trace-Inv (
    allocated hundred answers 4116 (loaded start refl refl) (omega arith) hundred-Answered
      request-Guards_example.0)

-- A byte of the first zone is overwritten.
abbrev spoilt : State Zone
spoilt = record full { bytes = update full.bytes 4100 0 }

spoilt-Inv : Inv spoilt (item ∷ [])
spoilt-Inv = Inv-written full (item ∷ []) spoilt.bytes full-Inv

-- The byte is overwritten while the thread sleeps for the first time; then there is another round.
abbrev spoil : State Zone → State Zone
spoil s = record s { bytes = spoilt.bytes }

checklist_func-reports_example :
    (t : State Zone) × (checklist_func (spoil ∷ (λ s. s) ∷ []) full ≡ ok tt t)
    × Mem (more_information 77) t.log
checklist_func-reports_example =
    checklist_func-reports full [] spoil ((λ s. s) ∷ []) item [] [] 4100
      (λ s free. (free, ([], sym (append-nil s.log))), (idle-IsFair, tt)) refl spoilt-Inv
      (inr (refl, omega arith, omega arith)) (λ e. omega arith)

my_seq_show-check_iso_example :
    (out : List Message) × (my_seq_show (checked spoilt) ≡ ok out (checked spoilt))
    × All (λ k. k ≡ blank_line) out
my_seq_show-check_iso_example =
    my_seq_show-check_iso spoilt (checked spoilt) refl (check_iso-ok spoilt refl)

-- No memory for the structures.
abbrev short_answers : Answers
short_answers = record answers { zones = 0 }

request_leaks_example :
    let t : State Zone = request_failed hundred short_answers start in
    (request hundred short_answers start ≡ ok null t)
    × (t.zones ≡ [])
    × (t.blocks 4096 ≡ some (request_block hundred))
    × ((p : Addr) → p ≢ 4096 → p ≢ 8192 → t.blocks p ≡ none)
request_leaks_example =
    request_leaks hundred short_answers start tt (λ e. omega arith) (omega arith) (omega arith)
      (λ e. omega arith) refl

-- 20000 was never handed out by `skmalloc`.
skfree_untracked_example :
    (unguard 19980 full ≡ ok tt (dangling item full))
    × ((dangling item full).zones ≡ entries (item ∷ []))
    × ((dangling item full).blocks 12288 ≡ none)
    × (skfree 20000 full ≡ fault bad_free)
skfree_untracked_example =
    skfree_untracked 20000 [] item full-Inv (λ e. omega arith) (λ e. omega arith)
      ((λ e. omega arith, λ e. omega arith), tt) refl

abbrev dma_answers : Answers
dma_answers = answers

abbrev with_cell : State Zone
with_cell = with_handle 16384 start

dma-Serves : Serves with_cell.blocks dma_answers (dma_request 100 0xd0 5000)
dma-Serves = record {
  memory_fresh = record {
    ne_null = λ e. omega arith;
    fits = omega arith;
    unused = refl;
    apart = λ q b h. ground arith;
  };
  buffer_fresh = record {
    ne_null = λ e. omega arith;
    fits = omega arith;
    unused = refl;
    apart = λ q b h. ground arith;
  };
  zones_fresh = record {
    ne_null = λ e. omega arith;
    fits = omega arith;
    unused = refl;
    apart = λ q b h. ground arith;
  };
  caller_known = λ e. omega arith;
}

cell-IsFresh : IsFresh start.blocks 16384 8
cell-IsFresh = record {
  ne_null = λ e. omega arith;
  fits = omega arith;
  unused = refl;
  apart = λ q b h. absurd (cc);
}

abbrev dma_full : State Zone
dma_full = guarded dma_answers (dma_request 100 0xd0 5000) isosize_dma 4216 with_cell

abbrev dma_item : Guarded
dma_item = tracked dma_answers (dma_request 100 0xd0 5000) isosize_dma 4216

sdma_alloc_coherent-Guards_example :
    (sdma_alloc_coherent 16384 5000 0 dma_answers 100 0xd0 start ≡ ok (4116, 5020) dma_full)
    × Inv dma_full (dma_item ∷ [])
    × (dma_full.blocks 16384 ≡ some (kmalloc_block 8))
sdma_alloc_coherent-Guards_example =
    sdma_alloc_coherent-Guards [] dma_answers start start-Inv 16384 5000 0 100 0xd0 (omega arith)
      cell-IsFresh dma-Serves
