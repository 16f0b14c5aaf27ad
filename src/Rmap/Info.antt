-- ===== src/Rmap/Info.antt =====
-- `get_process_info` of mem_leak/rmap/rmap.c.
use linux_project.Base.{
  ℕ, ◌/◌, ◌-◌, ◌+◌, ◌^◌, ◌≡◌, ◌≢◌, refl, ap, sym, ◌∙◌, inl, inr, true, false, Option, none, some,
  List, [], ◌∷◌, ◌++◌, append_assoc, ==_of_ne, if◌then◌else◌, if_of_true, if_of_false, Bool-cases,
}
use linux_project.Kernel.{Addr, null}
use linux_project.Rmap.{
  file_vmas, bug, Page, Machine, Line, on_anon, on_file, related, process, State, Outcome, done,
  use_after_free, Cmd, ◌>>◌, modify, locate, is_anon, page_lock_anon_vma_user,
  page_unlock_anon_vma_user, page_locate_anon, page_locate_file, get_process_info,
}
use linux_project.Rmap.Locate.{last, Enough, IsQuiet, locate-stops}
use linux_project.Rmap.PrioTree.{Vma}
use linux_project.Rmap.Pids.{init_pid_arr}

-- The mappings of a page; none is a fault on the way to them.
abbrev pub mappings : Machine → Page → Option (List Vma)
mappings machine page =
    if is_anon page
    then some (if page.mapped then machine.anon_vma_head (page.mapping - 1) else [])
    else file_vmas (machine.i_mmap page.mapping) page.index

abbrev pub banner : Page → Line
banner page = if is_anon page then on_anon else on_file

abbrev unlock : Addr → Cmd
unlock head = page_unlock_anon_vma_user head >> modify (λ s. record s { pid_arr = init_pid_arr })

unlock-IsQuiet : (head : Addr) → IsQuiet (unlock head)
unfolding page_unlock_anon_vma_user
unlock-IsQuiet head s = (_, refl, refl, refl, refl)

module _ (machine : Machine) (page : Page) (v : Vma) (vs : List Vma) (s : State)
    (maps : mappings machine page ≡ some (v ∷ vs)) (enough : Enough machine.vmallocs (v ∷ vs))
    (empty : s.task_head ≡ none) where
  abbrev rest : List Line
  rest = related ∷ process (last v vs).pid (last v vs).comm ∷ []

  abbrev Stops : Cmd → Type 0
  Stops c = (s' : State) × (c s ≡ use_after_free s') × (s'.log ≡ s.log ++ banner page ∷ rest)

  page_locate_anon-Stops : is_anon page ≡ true → Stops (page_locate_anon machine page)
  unfolding page_locate_anon page_lock_anon_vma_user
  page_locate_anon-Stops anon = elim (Bool-cases page.mapped) [
    | inr m ↦ absurd (
        let none_there : mappings machine page ≡ some [] =
          if_of_true _ _ anon ∙ ap some (if_of_false _ _ m) in
        cc (none_there, maps))
    | inl m ↦
        let s0 : State = record s { log = s.log ++ on_anon ∷ [] } in
        let s1 : State = record s0 { rcu = s.rcu + 1; locks = (page.mapping - 1) ∷ s.locks } in
        let locked : page_lock_anon_vma_user page s0 ≡ (some (page.mapping - 1), s1) =
          if_of_true _ _ anon ∙ if_of_true _ _ m in
        let both : ◌≡◌ {A = Option (List Vma)} (some (machine.anon_vma_head (page.mapping - 1)))
            (some (v ∷ vs)) =
          sym (if_of_true _ _ anon ∙ ap some (if_of_true _ _ m)) ∙ maps in
        let there : machine.anon_vma_head (page.mapping - 1) ≡ v ∷ vs = cc in
        let after : Option Addr × State → Outcome = λ r. elim r.0 [
          | none ↦ done r.1
          | some head ↦ locate machine.vmallocs (machine.anon_vma_head head) (unlock head) r.1
        ] in
        let (s', run, log) =
          locate-stops machine.vmallocs v vs (unlock (page.mapping - 1)) s1 enough (inl empty)
            (unlock-IsQuiet (page.mapping - 1)) in
        (
          s',
          ap after locked
              ∙ ap (λ l. locate machine.vmallocs l (unlock (page.mapping - 1)) s1) there
              ∙ run,
          log
              ∙ append_assoc s.log (on_anon ∷ []) rest
              ∙ ap (λ (l : Line). s.log ++ l ∷ rest) (sym (if_of_true _ _ anon)),
        )
  ]

  page_locate_file-Stops : is_anon page ≡ false → Stops (page_locate_file machine page)
  unfolding page_locate_file
  page_locate_file-Stops file =
      let s0 : State = record s { log = s.log ++ on_file ∷ [] } in
      let there : file_vmas (machine.i_mmap page.mapping) page.index ≡ some (v ∷ vs) =
        sym (if_of_false _ _ file) ∙ maps in
      let (s', run, log) =
        locate-stops machine.vmallocs v vs done s0 enough (inl empty)
          (λ s. (s, refl, refl, refl, refl)) in
      (
        s',
        ap
              (λ o.
                (elim o as (λ _. Cmd) [
                  | none ↦ bug
                  | some vmas ↦ locate machine.vmallocs vmas done
                ])
                  s0)
              there
            ∙ run,
        log
            ∙ append_assoc s.log (on_file ∷ []) rest
            ∙ ap (λ (l : Line). s.log ++ l ∷ rest) (sym (if_of_false _ _ file)),
      )

-- Where `task_head` is empty, `vmalloc` does not fail and at least one process maps the page of the
-- frame, `get_process_info` prints one process only, that of the last mapping, and then reads the
-- structure that it has just freed.
pub get_process_info_stops :
    (machine : Machine) (paddr : ℕ) (v : Vma) (vs : List Vma) (s : State)
    → let page : Page = machine.pfn_to_page (paddr / 2 ^ 12) in
      page.mapping ≢ null
      → mappings machine page ≡ some (v ∷ vs)
      → Enough machine.vmallocs (v ∷ vs)
      → s.task_head ≡ none
      → (s' : State) × (get_process_info machine paddr s ≡ use_after_free s')
        × (s'.log ≡ s.log ++ banner page ∷ related ∷ process (last v vs).pid (last v vs).comm ∷ [])
unfolding get_process_info
get_process_info_stops machine paddr v vs s there maps enough empty =
    let page : Page = machine.pfn_to_page (paddr / 2 ^ 12) in
    elim (Bool-cases (is_anon page)) [
      | inl anon ↦
          let (s', run, log) = page_locate_anon-Stops machine page v vs s maps enough empty anon in
          (s', rw (==_of_ne page.mapping null there, anon) run, log)
      | inr file ↦
          let (s', run, log) = page_locate_file-Stops machine page v vs s maps enough empty file in
          (s', rw (==_of_ne page.mapping null there, file) run, log)
    ]
