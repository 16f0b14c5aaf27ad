-- ===== src/Overflow/Check/Rounds.antt =====
-- The thread of mem_overflow_check.c, whatever the other threads do between its scans.
use mathlib.Core.List.{Mem}
use linux_project.Base.{◌≡◌, ◌≢◌, refl, sym, subst, false, List, [], ◌∷◌, ◌++◌, All, All-drop}
use linux_project.Kernel.{Addr, State, ok, more_information}
use linux_project.Kernel.Memory.{mark}
use linux_project.Kernel.Rounds.{Extends, IsFair, Extends-Mem, after, after-append, after-Extends}
use linux_project.Overflow.{Zone}
use linux_project.Overflow.Check.{check_zones, checklist_func}
use linux_project.Overflow.Check.Detect.{InZone, check_iso-reports}
use linux_project.Overflow.Check.Reports.{checked, check_iso-ok}
use linux_project.Overflow.Invariant.{Guarded, Inv}

checked-Extends :
    (s : State Zone) → s.locked ≡ false → ((checked s).locked ≡ false) × Extends s (checked s)
checked-Extends s free = (refl, ((check_zones s.bytes s.symbols s.zones).1, refl))

-- The thread goes through all its rounds.
checklist_func-ok :
    (fs : List (State Zone → State Zone)) (s : State Zone)
    → All IsFair fs
    → s.locked ≡ false
    → checklist_func fs s ≡ ok tt (after checked fs s)
unfolding checklist_func
checklist_func-ok [] s fair free = refl
checklist_func-ok (f ∷ fs) s fair free =
    let scan = check_iso-ok (f s) (fair.0 s free).0 in
    rw (checklist_func, scan) (checklist_func-ok fs (checked (f s)) fair.1 refl)

-- Whatever the other threads do between the scans, as long as they leave the lock free and erase
-- nothing of the log, the thread goes through all its rounds. If in one of them, when the thread wakes
-- up, a byte of a zone that has not been reported differs from 'a', then the name of the function that
-- made the allocation stands in the log when the thread ends.
pub checklist_func-reports :
    (s : State Zone) (fs : List (State Zone → State Zone)) (f : State Zone → State Zone)
    (rest : List (State Zone → State Zone)) (g : Guarded) (xs ys : List Guarded) (q : Addr)
    → All IsFair (fs ++ f ∷ rest)
    → s.locked ≡ false
    → let woken : State Zone = f (after checked fs s) in
      Inv woken (xs ++ g ∷ ys)
      → InZone g q
      → woken.bytes q ≢ mark
      → (t : State Zone) × (checklist_func (fs ++ f ∷ rest) s ≡ ok tt t)
        × Mem (more_information g.caller) t.log
checklist_func-reports s fs f rest g xs ys q fair free inv zone bad =
    let woken : State Zone = f (after checked fs s) in
    let seen : State Zone = checked woken in
    let printed = check_iso-reports {s = woken} g xs ys q inv zone bad in
    let later =
      after-Extends checked rest seen checked-Extends (All-drop IsFair fs (f ∷ rest) fair).1 refl in
    (
      after checked (fs ++ f ∷ rest) s,
      checklist_func-ok (fs ++ f ∷ rest) s fair free,
      subst (λ (t : State Zone). Mem (more_information g.caller) t.log)
          (sym (after-append checked fs f rest s))
          (Extends-Mem seen (after checked rest seen) (more_information g.caller) later printed.1),
    )
