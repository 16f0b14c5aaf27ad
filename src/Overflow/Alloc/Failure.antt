-- ===== src/Overflow/Alloc/Failure.antt =====
-- The part that the allocation functions share, when one of its allocations fails.
use linux_project.Base.{
  ℕ, ◌≡◌, refl, inl, inr, Bool, true, ◌||◌, [], ◌∷◌, ◌++◌, ◌==◌, Bool-cases, if◌then◌else◌, arith,
}
use linux_project.Kernel.{
  Addr, null, Block, State, ok, Wrapper, buffer_failed, zones_failed, update, allocate,
}
use linux_project.Kernel.Memory.{fill_both}
use linux_project.Overflow.{Zone, Answers}
use linux_project.Overflow.Alloc.Steps.{after_memory}
use linux_project.Overflow.Guard.{guard_block}
use linux_project.Overflow.Invariant.Extend.{with_memory, with_buffer}

-- `kmalloc` fails for the buffer or for the structures, or the caller's address is not known.
abbrev pub fails : Answers → Bool
fails ans = (ans.buffer == null) || ((ans.caller == 0) || (ans.zones == null))

-- No name could be written out.
abbrev pub unnamed : Answers → Bool
unnamed ans = (ans.buffer == null) || (ans.caller == 0)

-- What a failed call leaves: the memory, and the buffer if there is one, are still allocated.
abbrev pub after_failure : Wrapper → Answers → Block → ℕ → Addr → State Zone → State Zone
after_failure w ans block count second s = record s {
  bytes = fill_both count 0 ans.memory second s.bytes;
  symbols = if unnamed ans then s.symbols else update s.symbols ans.buffer ans.caller;
  blocks =
      if ans.buffer == null then with_memory ans block s.blocks else with_buffer ans block s.blocks;
  log = s.log ++ (if unnamed ans then buffer_failed w else zones_failed w) ∷ [];
}

pub guard_block-fails :
    (w : Wrapper) (ans : Answers) (block : Block) (count : ℕ) (second ret : Addr) (s : State Zone)
    → fails ans ≡ true
    → guard_block w ans count ans.memory second ret (after_memory ans block s)
      ≡ ok null (after_failure w ans block count second s)
unfolding guard_block allocate
guard_block-fails w ans block count second ret s h = elim (Bool-cases (ans.buffer == null)) [
  | inl b ↦ rw b refl
  | inr b ↦ elim (Bool-cases (ans.caller == 0)) [
    | inl c ↦ rw (b, b, c) refl
    | inr c ↦ elim (Bool-cases (ans.zones == null)) [
      | inl z ↦ rw (b, b, c, z) refl
      | inr z ↦ absurd (ground arith)
    ]
  ]
]
