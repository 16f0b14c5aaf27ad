-- ===== src/Kernel/Rounds.antt =====
-- A kernel thread that works in rounds, for the modules mem_overflow/code and
-- mem_overflow_del_firstiso/code: the state after some rounds, where between them the other threads do
-- something and the thread's own work adds to the log.
use mathlib.Core.List.{Mem, mem-append_left}
use linux_project.Base.{
  ◌≡◌, refl, sym, ap, ◌∙◌, false, List, [], ◌∷◌, ◌++◌, append_assoc, append-nil, All,
}
use linux_project.Kernel.{State, Message}

module _ {Z : Type 0} where
  -- The log is the earlier one with something behind it.
  abbrev pub Extends : (s t : State Z) → Type 0
  Extends s t = (more : List Message) × (t.log ≡ s.log ++ more)

  -- What the other threads do leaves the lock free, if it was free, and erases nothing of the log.
  abbrev pub IsFair : (State Z → State Z) → Type 0
  IsFair f = (s : State Z) → s.locked ≡ false → ((f s).locked ≡ false) × Extends s (f s)

  pub idle-IsFair : IsFair (λ s. s)
  idle-IsFair s free = (free, ([], sym (append-nil s.log)))

  pub Extends-trans : (s t u : State Z) → Extends s t → Extends t u → Extends s u
  Extends-trans s t u (more, e) (more', e') =
      (more ++ more', e' ∙ ap (λ l. l ++ more') e ∙ append_assoc s.log more more')

  pub Extends-Mem : (s t : State Z) (x : Message) → Extends s t → Mem x s.log → Mem x t.log
  Extends-Mem s t x (more, e) here = rw e (mem-append_left more here)

  -- `work` is what the thread does in a round.
  module _ (work : State Z → State Z) where
    abbrev pub after : List (State Z → State Z) → State Z → State Z
    after [] s = s
    after (f ∷ fs) s = after fs (work (f s))

    pub after-append :
        (fs : List (State Z → State Z)) (f : State Z → State Z) (rest : List (State Z → State Z))
        (s : State Z)
        → after (fs ++ f ∷ rest) s ≡ after rest (work (f (after fs s)))
    after-append [] f rest s = refl
    after-append (g ∷ fs) f rest s = after-append fs f rest (work (g s))

    pub after-Extends :
        (fs : List (State Z → State Z)) (s : State Z)
        → ((t : State Z) → t.locked ≡ false → ((work t).locked ≡ false) × Extends t (work t))
        → All IsFair fs
        → s.locked ≡ false
        → Extends s (after fs s)
    after-Extends [] s worked fair free = ([], sym (append-nil s.log))
    after-Extends (f ∷ fs) s worked fair free =
        let other = fair.0 s free in
        let own = worked (f s) other.0 in
        let end : State Z = after (f ∷ fs) s in
        Extends-trans s (f s) end other.1 (
          Extends-trans (f s) (work (f s)) end own.1
            (after-Extends fs (work (f s)) worked fair.1 own.0))
