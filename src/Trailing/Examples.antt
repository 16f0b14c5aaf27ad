-- ===== src/Trailing/Examples.antt =====
-- The theorems on mem_overflow_del_firstiso/code/mem_overflow_check.c at concrete inputs.
use mathlib.Core.List.{Mem}
use linux_project.Base.{◌≡◌, refl, sym, append-nil, none, false, [], ◌∷◌, arith}
use linux_project.Kernel.{State, ok, fault, bad_free, update, more_information}
use linux_project.Trailing.{Zone, Answers}
use linux_project.Kernel.Rounds.{idle-IsFair}
use linux_project.Trailing.Check.Rounds.{checklist_func-detects}
use linux_project.Trailing.Check.{checklist_func, check_iso}
use linux_project.Trailing.Check.Reports.{checked}
use linux_project.Trailing.Guard.{unguard}
use linux_project.Trailing.Guard.Search.{without_zone}
use linux_project.Trailing.Invariant.{Guarded, Inv, entries}
use linux_project.Trailing.Invariant.Frame.{Inv-written}
use linux_project.Trailing.Invariant.Extend.{Serves}
use linux_project.Trailing.Release.{skfree}
use linux_project.Trailing.Requests.{Request, dma_of, obtain, relinquish, request_block}
use linux_project.Trailing.Requests.Detection.{overrun_reported, no_false_overrun}
use linux_project.Trailing.Requests.Failure.{skfree_dangling}
use linux_project.Trailing.Requests.Freed.{
  Detaches, released, relinquish-Detaches, relinquish-obtain,
}
use linux_project.Trailing.Requests.Tracked.{
  Attaches, request_tracked, request_end, obtain-Attaches,
}

-- Nothing is allocated, and all memory is zero.
abbrev start : State Zone
start = record {
  bytes = λ _. 0;
  symbols = λ _. 0;
  blocks = λ _. none;
  zones = [];
  locked = false;
  log = [];
}

abbrev answers : Answers
answers = record { memory = 4096; buffer = 8192; node = 12288; caller = 77 }

-- `sdma_alloc_coherent` of 100 bytes, at the bus address 5000.
abbrev hundred : Request
hundred = dma_of 100 0xd0 5000

start-Inv : Inv start []
start-Inv = record { linked = refl; held = tt; apart = tt; unlocked = refl }

hundred-Serves : Serves start.blocks answers (request_block hundred)
hundred-Serves = record {
  memory_fresh = record {
    ne_null = λ e. omega arith;
    fits = omega arith;
    unused = refl;
    apart = λ q b h. absurd (cc);
  };
  buffer_fresh = record {
    ne_null = λ e. omega arith;
    fits = omega arith;
    unused = refl;
    apart = λ q b h. ground arith;
  };
  node_fresh = record {
    ne_null = λ e. omega arith;
    fits = omega arith;
    unused = refl;
    apart = λ q b h. ground arith;
  };
  caller_known = λ e. omega arith;
}

abbrev full : State Zone
full = request_end hundred answers start

abbrev item : Guarded
item = request_tracked hundred answers

full-Inv : Inv full (item ∷ [])
full-Inv = (obtain-Attaches hundred [] answers start start-Inv (omega arith) hundred-Serves).1

obtain-Attaches_example : Attaches hundred [] answers start (obtain hundred answers start)
obtain-Attaches_example =
    obtain-Attaches hundred [] answers start start-Inv (omega arith) hundred-Serves

relinquish-Detaches_example : Detaches item [] full (relinquish hundred 4096 full)
relinquish-Detaches_example = relinquish-Detaches item [] [] full-Inv hundred (omega arith) refl

relinquish-obtain_example :
    relinquish hundred 4096 (record full { bytes = λ _. 7 })
    ≡ ok tt (released item [] (record full { bytes = λ _. 7 }))
relinquish-obtain_example =
    (relinquish-obtain hundred [] answers start (λ _. 7) start-Inv (omega arith) hundred-Serves).1

-- The first byte behind the hundred is overwritten.
overrun_reported_example :
    Mem (more_information 77) (checked (record full { bytes = update full.bytes 4196 0 })).log
overrun_reported_example =
    (overrun_reported hundred [] answers start start-Inv (omega arith) hundred-Serves 4196 0
      (omega arith) (omega arith) (λ e. omega arith)).2

-- The last of the hundred bytes is written.
no_false_overrun_example :
    let t : State Zone = record full { bytes = update full.bytes 4195 0 } in check_iso t ≡ ok tt t
no_false_overrun_example =
    no_false_overrun hundred [] answers start start-Inv (omega arith) hundred-Serves
      (update full.bytes 4195 0) tt (λ q h. ground arith)

-- The byte behind the memory is overwritten while the thread sleeps for the first time.
abbrev overrun : State Zone → State Zone
overrun s = record s { bytes = update full.bytes 4196 0 }

checklist_func-detects_example :
    (t : State Zone) × (checklist_func (overrun ∷ (λ s. s) ∷ []) full ≡ ok tt t)
    × Mem (more_information 77) t.log
checklist_func-detects_example =
    checklist_func-detects full [] overrun ((λ s. s) ∷ []) item [] [] 4196
      (λ s free. (free, ([], sym (append-nil s.log))), (idle-IsFair, tt)) refl
      (Inv-written full (item ∷ []) (update full.bytes 4196 0) full-Inv)
      (refl, omega arith, omega arith) (λ e. omega arith)

skfree_dangling_example :
    (unguard 999 full ≡ ok tt (without_zone item full full.zones))
    × (full.zones ≡ entries (item ∷ []))
    × ((without_zone item full full.zones).blocks 12288 ≡ none)
    × (skfree 999 full ≡ fault bad_free)
skfree_dangling_example =
    skfree_dangling 999 [] item full-Inv (λ e. omega arith) ((λ e. omega arith), tt) refl
