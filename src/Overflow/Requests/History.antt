-- ===== src/Overflow/Requests/History.antt =====
-- Any sequence of calls of the module's functions, of writes by other code, and of scans.
use linux_project.Base.{
  ℕ, none, All-zip, some, ◌+◌, ◌<◌, ◌≡◌, refl, sym, subst, ◌∙◌, false, List, [], ◌∷◌, ◌++◌, All,
  arith,
}
use linux_project.Kernel.{Addr, null, Bytes, Block, State, Run, ok, update, handle_failed}
use linux_project.Kernel.Fresh.{IsFresh}
use linux_project.Overflow.{Zone, Answers}
use linux_project.Overflow.Alloc.Dma.{sdma_alloc_coherent-handle_failed}
use linux_project.Overflow.Check.Recheck.{recheck, checked-Inv}
use linux_project.Overflow.Check.{check_iso}
use linux_project.Overflow.Check.Reports.{checked, check_iso-ok}
use linux_project.Overflow.Invariant.{Guarded, Inv, owns}
use linux_project.Overflow.Invariant.Extend.{Inv-add}
use linux_project.Overflow.Invariant.Frame.{Inv-written, Held-frame}
use linux_project.Overflow.Release.Tracked.{released, pointer}
use linux_project.Overflow.Requests.Freed.{Made, release-Releases}
use linux_project.Overflow.Requests.Failure.{Refuses, after_refusal, request-refused, refused-Inv}
use linux_project.Overflow.Requests.{
  Request, dma_of, Answered, request, release, request_guard, request_tracked, request_end, IsSmall,
  request-Guards,
}

-- The states that are reached, with the allocations that are tracked, by these steps in any order: each of
-- the six allocation functions, whether it is answered or refused something, the release functions, each
-- on a tracked allocation of its own allocation function, scans, writes to any bytes, and allocations and
-- releases by other code of blocks that the module does not own.
pub data Trace : State Zone → List Guarded → Type 0 where
  loaded : (s : State Zone) → s.zones ≡ [] → s.locked ≡ false → Trace s []
  allocated :
      {s t : State Zone} {gs : List Guarded} (r : Request) (ans : Answers) (p : Addr)
      → Trace s gs
      → IsSmall r
      → Answered r ans s.blocks
      → request r ans s ≡ ok p t
      → Trace t (request_tracked r ans ∷ gs)
  refused :
      {s t : State Zone} {gs : List Guarded} (r : Request) (ans : Answers) (p : Addr)
      → Trace s gs
      → Refuses s.blocks r ans
      → request r ans s ≡ ok p t
      → Trace t gs
  no_cell :
      {s t : State Zone} {gs : List Guarded} (size gfp : ℕ) (bus bus_handle old : Addr)
      (ans : Answers) (p : Addr)
      → Trace s gs
      → bus_handle ≡ null
      → request (dma_of size gfp bus bus_handle old) ans s ≡ ok p t
      → Trace t gs
  freed :
      {s t : State Zone} {gs hs : List Guarded} (r : Request) (g : Guarded) (xs ys : List Guarded)
      → Trace s gs
      → gs ≡ xs ++ g ∷ ys
      → hs ≡ xs ++ ys
      → Made r g
      → release r (pointer g) s ≡ ok tt t
      → Trace t hs
  wrote :
      {s t : State Zone} {gs : List Guarded} (m : Bytes)
      → Trace s gs
      → t ≡ record s { bytes = m }
      → Trace t gs
  scanned :
      {s t : State Zone} {gs hs : List Guarded}
      → Trace s gs
      → hs ≡ recheck s.bytes gs
      → check_iso s ≡ ok tt t
      → Trace t hs
  others_allocated :
      {s t : State Zone} {gs : List Guarded} (p : Addr) (k : Block)
      → Trace s gs
      → IsFresh s.blocks p k.size
      → 0 < k.size
      → t ≡ record s { blocks = update s.blocks p (some k) }
      → Trace t gs
  others_freed :
      {s t : State Zone} {gs : List Guarded} (p : Addr)
      → Trace s gs
      → All (λ g. owns g p ≡ false) gs
      → t ≡ record s { blocks = update s.blocks p none }
      → Trace t gs

-- A block of other code is given back.
freed-Inv :
    (s : State Zone) (gs : List Guarded) (p : Addr)
    → Inv s gs
    → All (λ g. owns g p ≡ false) gs
    → Inv (record s { blocks = update s.blocks p none }) gs
freed-Inv s gs p inv not_ours = record {
  linked = inv.linked;
  held =
      All-zip gs
        (λ g free held.
          Held-frame s.blocks (update s.blocks p none) s.symbols s.symbols g held
            (λ q o. ground arith) refl)
        not_ours inv.held;
  apart = inv.apart;
  unlocked = inv.unlocked;
}

state_of_ok :
    {A : Type 0} (a b : A) (s t : State Zone) → ◌≡◌ {A = Run Zone A} (ok a s) (ok b t) → s ≡ t
state_of_ok a b s t e = cc

-- In every state that is reached from an empty list by the module's functions, with sizes that do not wrap
-- (or orders below 20), where the allocators hand out fresh blocks and each release function is given what
-- its own allocation function made, by writes to any bytes, and by other code's allocations and releases of
-- its own blocks, in any order: the list holds exactly the zones of the tracked allocations, their blocks
-- are still allocated and apart from one another, and the lock is free.
pub Trace-Inv : {s : State Zone} {gs : List Guarded} → Trace s gs → Inv s gs
unfolding request
Trace-Inv (loaded s linked unlocked) = record {
  linked = linked;
  held = tt;
  apart = tt;
  unlocked = unlocked;
}
Trace-Inv (allocated {s} {t} {gs} r ans p trace small serves e) =
    let made = request-Guards r gs ans s (Trace-Inv trace) small serves in
    subst (λ v. Inv v (request_tracked r ans ∷ gs))
      (state_of_ok (ans.memory + request_guard r) p (request_end r ans s) t (sym made.0 ∙ e)) made.1
Trace-Inv (refused {s} {t} {gs} r ans p trace refuses e) =
    let inv = Trace-Inv trace in
    subst (λ v. Inv v gs)
      (state_of_ok null p (after_refusal r ans s) t (sym (request-refused r ans s refuses) ∙ e))
      (refused-Inv r ans s gs inv refuses)
Trace-Inv (no_cell {s} {t} {gs} size gfp bus bus_handle old ans p trace e run) =
    let inv = Trace-Inv trace in
    let failed : State Zone = record s { log = s.log ++ handle_failed ∷ [] } in
    let failed_inv : Inv failed gs = record {
      linked = inv.linked;
      held = inv.held;
      apart = inv.apart;
      unlocked = inv.unlocked;
    } in
    subst (λ v. Inv v gs)
      (state_of_ok null p failed t
        (sym (sdma_alloc_coherent-handle_failed ans s size gfp bus bus_handle old e) ∙ run))
      failed_inv
Trace-Inv (freed {s} {t} {gs} {hs} r g xs ys trace split left made e) =
    let inv : Inv s (xs ++ g ∷ ys) = subst (Inv s) split (Trace-Inv trace) in
    let done = release-Releases r g xs ys inv made in
    rw left (
      subst (λ v. Inv v (xs ++ ys)) (state_of_ok tt tt (released g (xs ++ ys) s) t (sym done.0 ∙ e))
        done.1)
Trace-Inv (wrote {s} {t} {gs} m trace e) = rw e (Inv-written s gs m (Trace-Inv trace))
Trace-Inv (scanned {s} {t} {gs} {hs} trace same e) =
    let inv = Trace-Inv trace in
    rw same (
      subst (λ v. Inv v (recheck s.bytes gs))
        (state_of_ok tt tt (checked s) t (sym (check_iso-ok s inv.unlocked) ∙ e))
        (checked-Inv s gs inv))
Trace-Inv (others_allocated {s} {t} {gs} p k trace fresh pos e) =
    let inv = Trace-Inv trace in
    rw e (
      Inv-add s (record s { blocks = update s.blocks p (some k) }) gs p k.size k fresh pos inv refl
        refl (λ q h. refl) inv.unlocked)
Trace-Inv (others_freed {s} {t} {gs} p trace not_ours e) =
    rw e (freed-Inv s gs p (Trace-Inv trace) not_ours)
