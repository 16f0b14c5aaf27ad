-- ===== src/PageLog/Trace.antt =====
-- The call stack that huawei_log_page.c keeps with a block: `hw_save_stack_address`, which the
-- kernel's `dump_trace` calls with one return address after the other, and the modules on the stack.
use linux_project.Base.{
  ℕ, zero, suc, ◌+◌, ◌-◌, ◌≤◌, ◌<◌, ◌≡◌, ◌≢◌, refl, ap, ◌∙◌, true, false, ◌&&◌, List, [], ◌∷◌, ◌==◌,
  leb, ltb, if◌then◌else◌, Bool-cases, inl, inr, arith,
}
use linux_project.Kernel.{Addr, null, update}
use linux_project.PageLog.Pools.Supply.{length}

-- `struct st`; `entries` is the array that it points to.
pub record StackTrace : Type 0 where
  pub nr_entries : ℕ
  pub max_entries : ℕ
  pub entries : ℕ → ℕ
  pub skip : ℕ

abbrev pub log_page_trace_level : ℕ
log_page_trace_level = 26

abbrev pub kprobes_skip_num : ℕ
kprobes_skip_num = 8

abbrev pub log_module_max_num : ℕ
log_module_max_num = 4

unfoldable pub hw_save_stack_address : StackTrace → ℕ → StackTrace
hw_save_stack_address trace addr =
    if ltb 0 trace.skip
    then record trace { skip = trace.skip - 1 }
    else if ltb trace.nr_entries trace.max_entries
    then record trace {
      entries = update trace.entries trace.nr_entries addr;
      nr_entries = trace.nr_entries + 1;
    }
    else trace

-- The calls that `dump_trace` makes, one for each return address of `addrs`.
unfoldable pub save_addresses : List ℕ → StackTrace → StackTrace
save_addresses [] trace = trace
save_addresses (addr ∷ addrs) trace = save_addresses addrs (hw_save_stack_address trace addr)

-- The loop over the entries: `n` are left from `i` on. A module that comes again right behind itself
-- is left out, and the fourth one ends the loop.
unfoldable pub modules : (ℕ → Addr) → (ℕ → ℕ) → (n i module_index : ℕ) → Addr → List Addr
modules module_address entries zero i module_index last_mod = []
modules module_address entries (suc n) i module_index last_mod =
    let owner = module_address (entries i) in
    let skipped = modules module_address entries n (i + 1) module_index last_mod in
    let later = modules module_address entries n (i + 1) (module_index + 1) owner in
    if owner == null
    then skipped
    else if owner == last_mod
    then skipped
    else if module_index + 1 == log_module_max_num
    then owner ∷ []
    else owner ∷ later

-- What `get_lp_call_stack` writes into a record whose `entries` hold `old`. The `struct st` is taken
-- from its pool and put back (see Pools), and serves this call alone.
unfoldable pub get_lp_call_stack : (ℕ → Addr) → List ℕ → (ℕ → ℕ) → (ℕ → ℕ) × List Addr
get_lp_call_stack module_address addrs old =
    let st = save_addresses addrs (record {
      nr_entries = 0;
      max_entries = log_page_trace_level;
      entries = old;
      skip = kprobes_skip_num;
    }) in
    (st.entries, modules module_address st.entries log_page_trace_level 0 0 null)

-- The entry at `i`, or `d` behind the end.
abbrev pub entry_at : ℕ → List ℕ → ℕ → ℕ
entry_at i [] d = d
entry_at i (x ∷ xs) d = if i == 0 then x else entry_at (i - 1) xs d

-- The three cases of `hw_save_stack_address`.
address_skipped :
    (st : StackTrace) (a : ℕ)
    → ltb 0 st.skip ≡ true
    → hw_save_stack_address st a ≡ record st { skip = st.skip - 1 }
unfolding hw_save_stack_address
address_skipped st a e = rw e refl

address_kept :
    (st : StackTrace) (a : ℕ)
    → ltb 0 st.skip ≡ false
    → ltb st.nr_entries st.max_entries ≡ true
    → hw_save_stack_address st a
      ≡ record st { entries = update st.entries st.nr_entries a; nr_entries = st.nr_entries + 1 }
unfolding hw_save_stack_address
address_kept st a e f = rw (e, f) refl

address_lost :
    (st : StackTrace) (a : ℕ)
    → ltb 0 st.skip ≡ false
    → ltb st.nr_entries st.max_entries ≡ false
    → hw_save_stack_address st a ≡ st
unfolding hw_save_stack_address
address_lost st a e f = rw (e, f) refl

-- What the array holds at `i` once the addresses have been handed over.
abbrev final : List ℕ → StackTrace → ℕ → ℕ
final addrs st i =
    if leb st.nr_entries i && ltb i st.max_entries
    then entry_at (st.skip + (i - st.nr_entries)) addrs (st.entries i)
    else st.entries i

after :
    (addrs : List ℕ) (i : ℕ) {u t : StackTrace}
    → u ≡ t
    → (save_addresses addrs t).entries i ≡ final addrs t i
    → (save_addresses addrs u).entries i ≡ final addrs t i
after addrs i e h = ap (λ v. (save_addresses addrs v).entries i) e ∙ h

kept :
    (addrs : List ℕ) (a : ℕ) (st : StackTrace) (i : ℕ)
    → st.skip ≡ 0
    → ltb st.nr_entries st.max_entries ≡ true
    → final addrs
        (record st { entries = update st.entries st.nr_entries a; nr_entries = st.nr_entries + 1 })
        i
      ≡ final (a ∷ addrs) st i
kept addrs a st i none f =
    let k : st.skip + (i - (st.nr_entries + 1)) ≡ st.skip + (i - st.nr_entries) - 1 = omega arith in
    elim (Bool-cases (i == st.nr_entries)) [
      | inl e ↦
          let low : leb (st.nr_entries + 1) i ≡ false = ground arith in
          let here : (leb st.nr_entries i && ltb i st.max_entries) ≡ true = ground arith in
          let z : (st.skip + (i - st.nr_entries) == 0) ≡ true = ground arith in
          rw (low, here, e, z) refl
      | inr e ↦ elim (Bool-cases (leb st.nr_entries i)) [
        | inl g ↦
            let low : leb (st.nr_entries + 1) i ≡ true = ground arith in
            let z : (st.skip + (i - st.nr_entries) == 0) ≡ false = ground arith in
            rw (k, low, g, e, z) refl
        | inr g ↦ let low : leb (st.nr_entries + 1) i ≡ false = ground arith in rw (low, g, e) refl
      ]
    ]

entry_at-save_addresses :
    (addrs : List ℕ) (st : StackTrace) (i : ℕ)
    → (save_addresses addrs st).entries i ≡ final addrs st i
unfolding save_addresses
entry_at-save_addresses [] st i = ground arith
entry_at-save_addresses (a ∷ addrs) st i = elim (Bool-cases (ltb 0 st.skip)) [
  | inl e ↦
      let k : st.skip - 1 + (i - st.nr_entries) ≡ st.skip + (i - st.nr_entries) - 1 =
        ground arith in
      let z : (st.skip + (i - st.nr_entries) == 0) ≡ false = ground arith in
      after addrs i (address_skipped st a e)
        (entry_at-save_addresses addrs (record st { skip = st.skip - 1 }) i)
      ∙ rw (k, z) refl
  | inr e ↦
      let none : st.skip ≡ 0 = ground arith in
      elim (Bool-cases (ltb st.nr_entries st.max_entries)) [
        | inl f ↦
            after addrs i (address_kept st a e f) (
              entry_at-save_addresses addrs
                (record st {
                  entries = update st.entries st.nr_entries a;
                  nr_entries = st.nr_entries + 1;
                })
                i)
            ∙ kept addrs a st i none f
        | inr f ↦
            let out : (leb st.nr_entries i && ltb i st.max_entries) ≡ false = ground arith in
            after addrs i (address_lost st a e f) (entry_at-save_addresses addrs st i) ∙ rw out refl
      ]
]

-- Each module that is kept is one, differs from the one kept before it, and there are at most four.
abbrev pub Changes : Addr → List Addr → Type 0
Changes last [] = Unit
Changes last (m ∷ ms) = (m ≢ null) × (m ≢ last) × Changes m ms

modules-Changes :
    (module_address : ℕ → Addr) (entries : ℕ → ℕ) (n i module_index : ℕ) (last_mod : Addr)
    → module_index < 4
    → Changes last_mod (modules module_address entries n i module_index last_mod)
      × (length (modules module_address entries n i module_index last_mod) + module_index ≤ 4)
unfolding modules
modules-Changes module_address entries zero i k last h = (tt, omega arith)
modules-Changes module_address entries (suc n) i k last h =
    let owner = module_address (entries i) in
    elim (Bool-cases (owner == null)) [
      | inl a ↦ rw a (modules-Changes module_address entries n (i + 1) k last h)
      | inr a ↦ elim (Bool-cases (owner == last)) [
        | inl b ↦ rw (a, b) (modules-Changes module_address entries n (i + 1) k last h)
        | inr b ↦ elim (Bool-cases (k + 1 == 4)) [
          | inl c ↦ rw (a, b, c) (((λ e. ground arith), (λ e. ground arith), tt), ground arith)
          | inr c ↦
              let go =
                modules-Changes module_address entries n (i + 1) (k + 1) owner (ground arith) in
              rw (a, b, c) (((λ e. ground arith), (λ e. ground arith), go.0), omega (arith, go.1))
        ]
      ]
    ]

-- Of the return addresses on the stack, the first eight are left out and the next 26 are kept in
-- their order; where the stack is shorter the entries stay as they were, and nothing is written
-- behind the 26 entries of the record. The modules that are kept are none of them null, no two that
-- follow each other are the same, and there are at most four.
pub get_lp_call_stack_lem :
    (module_address : ℕ → Addr) (addrs : List ℕ) (old : ℕ → ℕ)
    → let (entries, found) = get_lp_call_stack module_address addrs old in
      ((i : ℕ) → i < 26 → entries i ≡ entry_at (8 + i) addrs (old i))
      × ((i : ℕ) → 26 ≤ i → entries i ≡ old i)
      × Changes null found
      × (length found ≤ 4)
unfolding get_lp_call_stack
get_lp_call_stack_lem module_address addrs old =
    let st : StackTrace = record { nr_entries = 0; max_entries = 26; entries = old; skip = 8 } in
    let full =
      modules-Changes module_address (save_addresses addrs st).entries 26 0 0 null (omega arith) in
    (
      λ i lo.
          let inside : ltb i 26 ≡ true = ground arith in
          let above : leb 0 i ≡ true = ground arith in
          let same : i - 0 ≡ i = omega arith in
          entry_at-save_addresses addrs st i ∙ rw (above, inside, same) refl,
      λ i hi.
          let outside : (leb 0 i && ltb i 26) ≡ false = ground arith in
          entry_at-save_addresses addrs st i ∙ rw outside refl,
      full.0,
      omega (arith, full.1),
    )
