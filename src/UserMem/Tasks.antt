-- ===== src/UserMem/Tasks.antt =====
-- `print_vaddr_of_paddr` of huawei_user_space_mem.c: the walk for each task that has an address space.
use mathlib.Core.List.{Memᴰ}
use mathlib.Core.List.Memᴰ
use linux_project.Base.{
  ℕ, ◌≡◌, refl, subst, ap, sym, ◌∙◌, Option, none, some, List, [], ◌∷◌, ◌++◌, append-nil,
  append_assoc, All, All-append, All-map, ◌⊎◌, inl, inr,
}
use linux_project.Kernel.{let_go-held}
use linux_project.UserMem.{
  skip, Paging, Mm, Task, PageSize, Line, title, mapped, State, Cmd, ◌>>◌, walk_mm_struct, walk_pgd,
  walk_task, visit, visit_all, print_vaddr_of_paddr,
}
use linux_project.UserMem.Mapped.{walk_pgd_lem}
use linux_project.UserMem.Translate.{IsMapped}

-- A line on a mapping in the address space of a task.
abbrev pub IsOf : Paging → (paddr : ℕ) → List Task → Line → Type 0
IsOf mem paddr ps l =
    (p : Task) × (mm : Mm) × (size : PageSize) × (v : ℕ) × Memᴰ p ps
    × (p.mm ≡ some mm)
    × (l ≡ mapped paddr p size v)
    × IsMapped mem mm.pgd paddr size v

-- The lines on all mappings of all the tasks.
pub record Covers (mem : Paging) (paddr : ℕ) (ps : List Task) (ls : List Line) : Type 0 where
  pub sound : All (IsOf mem paddr ps) ls
  pub complete :
      (p : Task) (mm : Mm) (size : PageSize) (v : ℕ)
      → Memᴰ p ps
      → p.mm ≡ some mm
      → IsMapped mem mm.pgd paddr size v
      → Memᴰ (mapped paddr p size v) ls

module _ (mem : Paging) (paddr : ℕ) where
  abbrev Ends : Cmd → List Task → Type 0
  Ends c ps =
      (s : State)
      → s.now_task ≡ none
      → (ls : List Line) × (c s ≡ some (record s { log = s.log ++ ls })) × Covers mem paddr ps ls

  walk_task-walk_pgd :
      (p : Task) (mm : Mm) (s : State) (ls : List Line)
      → s.now_task ≡ none
      → let inner : State = record s {
        now_task = some p;
        locked = mm.index ∷ s.locked;
        users = mm.index ∷ s.users;
      } in
        walk_pgd mem mm.pgd paddr inner ≡ some (record inner { log = s.log ++ ls })
        → walk_task mem paddr p mm s ≡ some (record s { log = s.log ++ ls })
  unfolding walk_task walk_mm_struct
  walk_task-walk_pgd p mm s ls now run =
      rw (◌>>◌, run, now, let_go-held mm.index s.locked, let_go-held mm.index s.users) refl

  visit-walk_task :
      (p : Task) (mm : Mm) (s : State)
      → p.mm ≡ some mm
      → visit mem paddr p s ≡ walk_task mem paddr p mm s
  unfolding visit
  visit-walk_task p mm s e =
      ap
        (λ (m : Option Mm).
          (elim m as (λ _. Cmd) [ none ↦ skip | some mm' ↦ walk_task mem paddr p mm' ]) s)
        e

  visit-Covers : (p : Task) → Ends (visit mem paddr p) (p ∷ [])
  unfolding visit
  visit-Covers p s now = elim (Option-cases p.mm) [
    | inl e ↦ (
      [],
      rw (e, append-nil s.log) refl,
      record {
        sound = tt;
        complete = λ q mm size v here e' h.
            let same : q ≡ p = Memᴰ.eq_of_singleton here in
            absurd (cc (sym e' ∙ ap (λ (q : Task). q.mm) same ∙ e));
      },
    )
    | inr (mm, e) ↦
        let (ls, run, shows) =
          walk_pgd_lem mem mm.pgd paddr p
            (record s {
              now_task = some p;
              locked = mm.index ∷ s.locked;
              users = mm.index ∷ s.users;
            })
            refl in
        (
          ls,
          visit-walk_task p mm s e ∙ walk_task-walk_pgd p mm s ls now run,
          record {
            sound =
                All-map ls (λ l (size, v, e', h). (p, mm, size, v, Memᴰ.head refl, e, e', h))
                  shows.sound;
            complete = λ q mm' size v here e' h.
                let same : q ≡ p = Memᴰ.eq_of_singleton here in
                let space : ◌≡◌ {A = Option Mm} (some mm') (some mm) =
                  sym e' ∙ ap (λ (q : Task). q.mm) same ∙ e in
                let space' : mm' ≡ mm = cc in
                subst (λ (q : Task). Memᴰ (mapped paddr q size v) ls) (sym same)
                  (shows.complete size v
                    (subst (λ (m : Mm). IsMapped mem m.pgd paddr size v) space' h));
          },
        )
  ]
    where
      Option-cases : (o : Option Mm) → (o ≡ none) ⊎ ((mm : Mm) × (o ≡ some mm))
      Option-cases none = inl refl
      Option-cases (some mm) = inr (mm, refl)

  visit_all-Covers : (ps : List Task) → Ends (visit_all mem paddr ps) ps
  unfolding visit_all
  visit_all-Covers [] s now = (
    [],
    rw (append-nil s.log) refl,
    record { sound = tt; complete = λ q mm size v here e h. absurd (Memᴰ.not-nil here) },
  )
  visit_all-Covers (p ∷ ps) s now =
      let (ls, run, first) = visit-Covers p s now in
      let (ms, run', rest) = visit_all-Covers ps (record s { log = s.log ++ ls }) now in
      (
        ls ++ ms,
        rw (run, ◌>>◌, run', append_assoc s.log ls ms) refl,
        record {
          sound =
              All-append (IsOf mem paddr (p ∷ ps)) ls ms
                (All-map ls
                  (λ l (q, mm, size, v, here, e, e', h).
                    (q, mm, size, v, Memᴰ.append_left ps here, e, e', h))
                  first.sound)
                (All-map ms
                  (λ l (q, mm, size, v, here, e, e', h). (q, mm, size, v, Memᴰ.tail here, e, e', h))
                  rest.sound);
          complete = λ q mm size v here e h. elim (Memᴰ.cases_cons here) [
            | inl same ↦ Memᴰ.append_left ms (first.complete q mm size v (Memᴰ.head same) e h)
            | inr below ↦ Memᴰ.append_right ls (rest.complete q mm size v below e h)
          ];
        },
      )

-- While no walk is under way, `print_vaddr_of_paddr` ends without a fault and prints, after its title,
-- just the lines on the mappings of the physical address in the address spaces of all tasks behind the
-- current one; every page table lock and every reference to an address space is given back.
pub print_vaddr_of_paddr_lem :
    (mem : Paging) (paddr : ℕ) (behind_current : List Task) (s : State)
    → s.now_task ≡ none
    → (ls : List Line) × (print_vaddr_of_paddr mem paddr behind_current s
        ≡ some (record s { log = s.log ++ title ∷ ls }))
      × Covers mem paddr behind_current ls
unfolding print_vaddr_of_paddr
print_vaddr_of_paddr_lem mem paddr behind_current s now =
    let (ls, run, covers) =
      visit_all-Covers mem paddr behind_current (record s { log = s.log ++ title ∷ [] }) now in
    (ls, rw (◌>>◌, run, append_assoc s.log (title ∷ []) ls) refl, covers)
