-- ===== src/Rmap/Unmapped.antt =====
-- `get_process_info` of mem_leak/rmap/rmap.c at a page that no process maps.
use linux_project.Base.{
  ◌+◌, ◌-◌, ◌≡◌, refl, ap, sym, ◌∙◌, true, false, Bool-cases, inl, inr, Option, none, some, List,
  [], ◌∷◌, ◌++◌, append_assoc, if◌then◌else◌, if_of_true, if_of_false, arith,
}
use linux_project.Kernel.{Addr, let_go-held}
use linux_project.Rmap.{
  bug, null_dereference, use_after_free, unfinished, Page, Machine, Line, on_anon, on_file, related,
  State, Outcome, done, Cmd, ◌>>◌, modify, is_anon, locate, collect, print_tasks, page_locate_anon,
  page_locate_file, page_lock_anon_vma_user, page_unlock_anon_vma_user, file_vmas,
}
use linux_project.Rmap.Info.{mappings}
use linux_project.Rmap.Pids.{init_pid_arr}
use linux_project.Rmap.PrioTree.{Vma}

-- The command ends and has printed these lines; the list, the locks and the read side are as they were.
abbrev pub Prints : List Line → State → Outcome → Type 0
Prints out s r =
    (s' : State) × (r ≡ done s')
    × (s'.log ≡ s.log ++ out)
    × (s'.task_head ≡ s.task_head)
    × (s'.locks ≡ s.locks)
    × (s'.rcu ≡ s.rcu)

-- Where there are no mappings, only `related` is printed.
locate-none :
    (addrs : List Addr) (between : Cmd) (s t : State)
    → between s ≡ done t
    → t.task_head ≡ none
    → locate addrs [] between s
      ≡ done (record t { log = t.log ++ related ∷ []; pid_arr = init_pid_arr })
unfolding collect print_tasks
locate-none addrs between s t run empty =
    let printed : State = record t { log = t.log ++ related ∷ [] } in
    let reset : Outcome → Outcome = λ r. elim r [
      | done u ↦ done (record u { pid_arr = init_pid_arr })
      | null_dereference u ↦ null_dereference u
      | use_after_free u ↦ use_after_free u
      | bug u ↦ bug u
      | unfinished u ↦ unfinished u
    ] in
    rw (◌>>◌, run) (ap (λ h. reset (print_tasks 1 h printed)) empty)

-- An anonymous page that has no list of mappings at all is passed over.
abbrev pub lines : Page → List Line
lines page =
    if is_anon page
    then on_anon ∷ (if page.mapped then related ∷ [] else [])
    else on_file ∷ related ∷ []

module _ (machine : Machine) (page : Page) (s : State) (empty : s.task_head ≡ none) where
  pub page_locate_anon-Prints :
      is_anon page ≡ true
      → mappings machine page ≡ some []
      → Prints (lines page) s (page_locate_anon machine page s)
  unfolding page_locate_anon page_lock_anon_vma_user page_unlock_anon_vma_user
  page_locate_anon-Prints anon maps =
      let s0 : State = record s { log = s.log ++ on_anon ∷ [] } in
      let after : Option Addr × State → Outcome = λ r. elim r.0 [
        | none ↦ done r.1
        | some head ↦
            locate machine.vmallocs (machine.anon_vma_head head)
              (page_unlock_anon_vma_user head >> modify (λ s. record s { pid_arr = init_pid_arr }))
              r.1
      ] in
      elim (Bool-cases page.mapped) [
        | inr m ↦
            let out : lines page ≡ on_anon ∷ [] = rw (anon, m) refl in
            let locked : page_lock_anon_vma_user page s0 ≡ (none, s0) = rw (anon, m) refl in
            (s0, ap after locked, ap (λ o. s.log ++ o) (sym out), refl, refl, refl)
        | inl m ↦
            let out : lines page ≡ on_anon ∷ related ∷ [] = rw (anon, m) refl in
            let s1 : State = record s0 { rcu = s.rcu + 1; locks = (page.mapping - 1) ∷ s.locks } in
            let t : State = record s0 { rcu = s.rcu + 1 - 1; pid_arr = init_pid_arr } in
            let locked : page_lock_anon_vma_user page s0 ≡ (some (page.mapping - 1), s1) =
              if_of_true _ _ anon ∙ if_of_true _ _ m in
            let both : ◌≡◌ {A = Option (List Vma)} (some (machine.anon_vma_head (page.mapping - 1)))
                (some []) =
              sym (if_of_true _ _ anon ∙ ap some (if_of_true _ _ m)) ∙ maps in
            let there : machine.anon_vma_head (page.mapping - 1) ≡ [] = cc in
            let unlock : Cmd =
              page_unlock_anon_vma_user (page.mapping - 1)
              >> modify (λ s. record s { pid_arr = init_pid_arr }) in
            let unlocked : unlock s1 ≡ done t =
              ap (λ l. done (record s0 { rcu = s.rcu + 1 - 1; locks = l; pid_arr = init_pid_arr }))
                (let_go-held (page.mapping - 1) s.locks) in
            (
              record t { log = t.log ++ related ∷ []; pid_arr = init_pid_arr },
              ap after locked
                  ∙ ap (λ l. locate machine.vmallocs l unlock s1) there
                  ∙ locate-none machine.vmallocs unlock s1 t unlocked empty,
              append_assoc s.log (on_anon ∷ []) (related ∷ []) ∙ ap (λ o. s.log ++ o) (sym out),
              refl,
              refl,
              omega arith,
            )
      ]

  pub page_locate_file-Prints :
      is_anon page ≡ false
      → mappings machine page ≡ some []
      → Prints (lines page) s (page_locate_file machine page s)
  unfolding page_locate_file
  page_locate_file-Prints file maps =
      let s0 : State = record s { log = s.log ++ on_file ∷ [] } in
      let out : lines page ≡ on_file ∷ related ∷ [] = rw (file) refl in
      let there : file_vmas (machine.i_mmap page.mapping) page.index ≡ some [] =
        sym (if_of_false _ _ file) ∙ maps in
      let after : Option (List Vma) → Outcome = λ o.
        (elim o as (λ _. Cmd) [ none ↦ bug | some vmas ↦ locate machine.vmallocs vmas done ]) s0 in
      let run = ap after there ∙ locate-none machine.vmallocs done s0 s0 refl empty in
      (
        record s0 { log = s0.log ++ related ∷ []; pid_arr = init_pid_arr },
        run,
        append_assoc s.log (on_file ∷ []) (related ∷ []) ∙ ap (λ o. s.log ++ o) (sym out),
        refl,
        refl,
        refl,
      )
