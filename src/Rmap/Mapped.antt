-- ===== src/Rmap/Mapped.antt =====
-- What mem_leak/rmap/rmap.c prints of a page, by the mappings that the kernel keeps of it.
use linux_project.Base.{
  ℕ, ◌/◌, ◌-◌, ◌^◌, ◌≤◌, ◌≡◌, refl, ap, ◌∙◌, Bool-cases, inl, inr, none, some, List, [], ◌∷◌, ◌++◌,
  if◌then◌else◌, ◌==◌, arith, Bool, false, subst, sym, if_of_true, if_of_false,
}
use linux_project.Kernel.{null}
use linux_project.Rmap.{
  Page, Machine, Cmd, page_locate_anon, page_locate_file, related, swapped, process, State, Outcome,
  use_after_free, is_anon, get_process_info,
}
use linux_project.Rmap.Info.{mappings, banner, get_process_info_stops}
use linux_project.Rmap.Unmapped.{Prints, lines, page_locate_anon-Prints, page_locate_file-Prints}
use linux_project.Rmap.Locate.{last, Enough}
use linux_project.Rmap.PrioTree.{Vma, PrioTreeRoot}
use linux_project.Rmap.PrioTree.Foreach.{vmas_of, vma_prio_tree_foreach_user-overlapping}
use linux_project.Rmap.PrioTree.Level.{keyed}
use linux_project.Rmap.PrioTree.Order.{IsPst, nodes, overlapping}

-- The kernel keeps the tree of the file in order.
abbrev pub IsOrdered : PrioTreeRoot → Type 0
IsOrdered root = (root.index_bits ≤ 64) × IsPst root.raw (keyed (root.index_bits - 1)) 0 root.tree

-- The mappings of a page: of an anonymous one those in the list of its `anon_vma`, of a page of a file
-- those of the file that the page lies in.
abbrev pub mapped_by : Machine → Page → List Vma
mapped_by machine page =
    if is_anon page
    then (if page.mapped then machine.anon_vma_head (page.mapping - 1) else [])
    else (let root = machine.i_mmap page.mapping in
        vmas_of (overlapping root.raw page.index page.index (nodes root.tree)))

pub mappings-mapped_by :
    (machine : Machine) (page : Page)
    → IsOrdered (machine.i_mmap page.mapping)
    → mappings machine page ≡ some (mapped_by machine page)
mappings-mapped_by machine page (small, order) = elim (Bool-cases (is_anon page)) [
  | inl e ↦ rw e refl
  | inr e ↦ rw e (
      vma_prio_tree_foreach_user-overlapping (machine.i_mmap page.mapping) page.index page.index
        small order)
]

-- What `get_process_info` comes to with these mappings.
abbrev pub Ends : Page → State → List Vma → Outcome → Type 0
Ends page s [] r = Prints (lines page) s r
Ends page s (v ∷ vs) r =
    (s' : State) × (r ≡ use_after_free s')
    × (s'.log ≡ s.log ++ banner page ∷ related ∷ process (last v vs).pid (last v vs).comm ∷ [])

pub get_process_info-Ends :
    (machine : Machine) (paddr : ℕ) (s : State) (vmas : List Vma)
    → let page : Page = machine.pfn_to_page (paddr / 2 ^ 12) in
      (page.mapping == null) ≡ false
      → mappings machine page ≡ some vmas
      → Enough machine.vmallocs vmas
      → s.task_head ≡ none
      → Ends page s vmas (get_process_info machine paddr s)
unfolding get_process_info
get_process_info-Ends machine paddr s (v ∷ vs) there maps enough empty =
    get_process_info_stops machine paddr v vs s (λ e. ground arith) maps enough empty
get_process_info-Ends machine paddr s [] there maps enough empty =
    let page : Page = machine.pfn_to_page (paddr / 2 ^ 12) in
    let located : Cmd =
      if is_anon page then page_locate_anon machine page else page_locate_file machine page in
    let run : get_process_info machine paddr s ≡ located s =
      ap (λ (c : Cmd). c s) (if_of_false _ _ there) in
    elim (Bool-cases (is_anon page)) [
      | inl e ↦
          subst (Prints (lines page) s) (sym (run ∙ ap (λ (c : Cmd). c s) (if_of_true _ _ e)))
            (page_locate_anon-Prints machine page s empty e maps)
      | inr e ↦
          subst (Prints (lines page) s) (sym (run ∙ ap (λ (c : Cmd). c s) (if_of_false _ _ e)))
            (page_locate_file-Prints machine page s empty e maps)
    ]

-- Where `task_head` is empty, `vmalloc` does not fail and the tree of the file is in order, the search for
-- the mappings ends. Of a page without a mapping (NULL) `get_process_info` prints that it is swapped out, of
-- one that is in no mapping only what kind of page it is and, but for an anonymous page that is not
-- mapped at all, the headline, and it ends with the list of processes and the locks as they were. Of any
-- other page it prints one process only, that of the last mapping in the order of the list or the tree, and
-- then it reads the structure that it has just freed.
pub get_process_info-mapped_by :
    (machine : Machine) (paddr : ℕ) (s : State)
    → let page : Page = machine.pfn_to_page (paddr / 2 ^ 12) in
      IsOrdered (machine.i_mmap page.mapping)
      → Enough machine.vmallocs (mapped_by machine page)
      → s.task_head ≡ none
      → if page.mapping == null
        then Prints (swapped ∷ []) s (get_process_info machine paddr s)
        else Ends page s (mapped_by machine page) (get_process_info machine paddr s)
unfolding get_process_info
get_process_info-mapped_by machine paddr s order enough empty =
    let page : Page = machine.pfn_to_page (paddr / 2 ^ 12) in
    elim (Bool-cases (page.mapping == null)) [
      | inl e ↦ rw (e) (record s { log = s.log ++ swapped ∷ [] }, refl, refl, refl, refl, refl)
      | inr e ↦
          subst
            (λ (b : Bool).
              if b
              then Prints (swapped ∷ []) s (get_process_info machine paddr s)
              else Ends page s (mapped_by machine page) (get_process_info machine paddr s))
            (sym e)
            (get_process_info-Ends machine paddr s (mapped_by machine page) e
              (mappings-mapped_by machine page order) enough empty)
    ]
