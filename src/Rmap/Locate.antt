-- ===== src/Rmap/Locate.antt =====
-- What mem_leak/rmap/rmap.c prints of the processes that map a page.
use linux_project.Base.{
  ℕ, suc, ◌≡◌, ◌≢◌, refl, ap, ◌∙◌, ◌⊎◌, inl, inr, Option, none, some, List, [], ◌∷◌, ◌++◌,
  append_assoc, ==-refl, ==_of_ne,
}
use linux_project.Kernel.{Addr, null}
use linux_project.Rmap.PrioTree.{Vma}
use linux_project.Rmap.{
  TaskInfo, related, process, State, Outcome, done, use_after_free, Cmd, ◌>>◌, set, list_add,
  collect_one, collect, print_tasks, rounds, locate,
}

abbrev pub last : Vma → List Vma → Vma
last v [] = v
last v (w ∷ ws) = last w ws

-- `vmalloc` has an answer for each mapping that is not NULL.
abbrev pub Enough : List Addr → List Vma → Type 0
Enough addrs [] = Unit
Enough [] (v ∷ vs) = ⊥
Enough (a ∷ addrs) (v ∷ vs) = (a ≢ null) × Enough addrs vs

-- The list is empty, or its first entry has not been freed.
abbrev pub IsLive : State → Type 0
IsLive s =
    (s.task_head ≡ none)
    ⊎ ((a : Addr) × (i : TaskInfo) × (s.task_head ≡ some a) × (s.infos a ≡ some i))

-- The first entry is the structure of that process.
abbrev First : State → Vma → Type 0
First s v =
    (a : Addr) × (i : TaskInfo) × (s.task_head ≡ some a)
    × (s.infos a ≡ some i)
    × (i.pid ≡ v.pid)
    × (i.taskname ≡ v.comm)

list_add-First :
    (a : Addr) (v : Vma) (s : State)
    → IsLive s
    → (s' : State) × (list_add a v s ≡ done s') × (s'.log ≡ s.log) × First s' v
unfolding list_add
list_add-First a v s live =
    let info : TaskInfo = record { next = s.task_head; pid = v.pid; taskname = v.comm } in
    let added : State = record s { task_head = some a; infos = set a (some info) s.infos } in
    let there : added.infos a ≡ some info = rw (==-refl a) refl in
    let alive : Option TaskInfo → Outcome =
      λ x. elim x [ none ↦ use_after_free s | some _ ↦ done added ] in
    let add : Option Addr → Outcome =
      λ h. elim h [ none ↦ done added | some b ↦ alive (s.infos b) ] in
    elim live [
      | inl e ↦ (added, ap add e, refl, (a, info, refl, there, refl, refl))
      | inr (b, i, e, e') ↦
          (added, ap add e ∙ ap alive e', refl, (a, info, refl, there, refl, refl))
    ]

collect_one-First :
    (a : Addr) (v : Vma) (s : State)
    → a ≢ null
    → IsLive s
    → (s' : State) × (collect_one a v s ≡ done s') × (s'.log ≡ s.log) × First s' v
unfolding collect_one
collect_one-First a v s h live =
    let (s', run, same, first) = list_add-First a v s live in
    (s', rw (==_of_ne a null h) run, same, first)

First-IsLive : (s : State) (v : Vma) → First s v → IsLive s
First-IsLive s v (a, i, e, e', p, n) = inr (a, i, e, e')

-- The process of the last mapping comes to stand first.
collect-First :
    (addrs : List Addr) (v : Vma) (vs : List Vma) (s : State)
    → Enough addrs (v ∷ vs)
    → IsLive s
    → (s' : State) × (collect addrs (v ∷ vs) s ≡ done s') × (s'.log ≡ s.log) × First s' (last v vs)
unfolding collect
collect-First [] v vs s h live = absurd h
collect-First (a ∷ addrs) v [] s h live =
    let (s', run, same, first) = collect_one-First a v s h.0 live in
    (s', rw (collect, ◌>>◌, run) refl, same, first)
collect-First (a ∷ addrs) v (w ∷ ws) s h live =
    let (s', run, same, first) = collect_one-First a v s h.0 live in
    let (s'', run', same', first') = collect-First addrs w ws s' h.1 (First-IsLive s' v first) in
    (s'', rw (collect, ◌>>◌, run) run', same' ∙ same, first')

print_tasks-First :
    (n : ℕ) (v : Vma) (s : State)
    → First s v
    → (s' : State) × (print_tasks (suc n) s.task_head s ≡ use_after_free s')
      × (s'.log ≡ s.log ++ process v.pid v.comm ∷ [])
unfolding print_tasks
print_tasks-First n v s (a, i, e, e', p, c) =
    let s' : State = record s {
      log = s.log ++ process i.pid i.taskname ∷ [];
      infos = set a none s.infos;
    } in
    let gone : s'.infos a ≡ none = rw (==-refl a) refl in
    let after : Option TaskInfo → Outcome =
      λ x. elim x [ none ↦ use_after_free s' | some info ↦ print_tasks n info.next s' ] in
    (s', ap (λ h. print_tasks (suc n) h s) e ∙ rw (print_tasks, e') (ap after gone), rw (p, c) refl)

-- A command that leaves the list and what is printed alone.
abbrev pub IsQuiet : Cmd → Type 0
IsQuiet c =
    (s : State)
    → (s' : State) × (c s ≡ done s')
      × (s'.task_head ≡ s.task_head)
      × (s'.infos ≡ s.infos)
      × (s'.log ≡ s.log)

pub locate-stops :
    (addrs : List Addr) (v : Vma) (vs : List Vma) (between : Cmd) (s : State)
    → Enough addrs (v ∷ vs)
    → IsLive s
    → IsQuiet between
    → (s' : State) × (locate addrs (v ∷ vs) between s ≡ use_after_free s')
      × (s'.log ≡ s.log ++ related ∷ process (last v vs).pid (last v vs).comm ∷ [])
locate-stops addrs v vs between s enough live quiet =
    let (s1, run1, log1, first) = collect-First addrs v vs s enough live in
    let (s2, run2, head2, infos2, log2) = quiet s1 in
    let (a, i, e, e', p, c) = first in
    let s3 : State = record s2 { log = s2.log ++ related ∷ [] } in
    let first3 : First s3 (last v vs) = (a, i, head2 ∙ e, ap (λ m. m a) infos2 ∙ e', p, c) in
    let (s4, run4, log4) = print_tasks-First (rounds vs) (last v vs) s3 first3 in
    (
      s4,
      rw (◌>>◌, run1, run2, run4) refl,
      log4
          ∙ append_assoc s2.log (related ∷ []) (process (last v vs).pid (last v vs).comm ∷ [])
          ∙ ap (λ l. l ++ related ∷ process (last v vs).pid (last v vs).comm ∷ []) (log2 ∙ log1),
    )
