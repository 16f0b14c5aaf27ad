-- ===== src/Trailing/Requests/Failure.antt =====
-- The calls of mem_overflow_del_firstiso/code/mem_overflow_check.c that go wrong: an allocation
-- function that runs out of memory half way, and a release function given a pointer from elsewhere.
use linux_project.Base.{
  ℕ, Bool, false, ◌+◌, ◌≤◌, ◌≡◌, ◌≢◌, refl, ◌∙◌, inl, inr, true, ◌||◌, Option, none, some, List, [],
  ◌∷◌, ◌++◌, ◌==◌, ==_of_ne, Bool-cases, if◌then◌else◌, All, arith,
}
use linux_project.Kernel.{
  Addr, Block, null, word, State, ok, fault, bad_free, kmallocs, is_from, kfree, allocate, Wrapper,
  buffer_failed, zones_failed, update,
}
use linux_project.Kernel.Memory.{fill}
use linux_project.Kernel.Steps.{spin_lock-ok, spin_unlock-ok, give_back-none}
use linux_project.Trailing.{Zone, Answers}
use linux_project.Trailing.Guard.{guard_block, take_out, free_zone, unguard}
use linux_project.Trailing.Guard.Search.{last_entry, walk-missing, without_zone, free_zone-ok}
use linux_project.Trailing.Invariant.{Guarded, Inv, entry, entries}
use linux_project.Trailing.Invariant.Extend.{with_memory, with_buffer}
use linux_project.Trailing.Invariant.Frame.{Elsewhere, held_of}
use linux_project.Trailing.Release.{skfree}
use linux_project.Trailing.Requests.{
  Request, obtain, request_block, request_guard, request_room, request_wrapper, IsSmall,
}
use linux_project.Trailing.Requests.Steps.{after_memory, obtain-guard_block}

-- `kmalloc` fails for the buffer or for the structure, or the caller's address is not known.
abbrev pub fails : Answers → Bool
fails ans = (ans.buffer == null) || ((ans.caller == 0) || (ans.node == null))

-- No name could be written out.
abbrev pub unnamed : Answers → Bool
unnamed ans = (ans.buffer == null) || (ans.caller == 0)

-- What a failed call leaves: the memory, and the buffer if there is one, are still allocated.
abbrev pub after_failure : Wrapper → Answers → Block → ℕ → Addr → State Zone → State Zone
after_failure w ans block count zone s = record s {
  bytes = fill count 0 zone s.bytes;
  symbols = if unnamed ans then s.symbols else update s.symbols ans.buffer ans.caller;
  blocks =
      if ans.buffer == null then with_memory ans block s.blocks else with_buffer ans block s.blocks;
  log = s.log ++ (if unnamed ans then buffer_failed w else zones_failed w) ∷ [];
}

guard_block-fails :
    (w : Wrapper) (ans : Answers) (block : Block) (count : ℕ) (zone ret : Addr) (s : State Zone)
    → fails ans ≡ true
    → guard_block w ans count zone ret (after_memory ans block s)
      ≡ ok null (after_failure w ans block count zone s)
unfolding guard_block allocate
guard_block-fails w ans block count zone ret s h = elim (Bool-cases (ans.buffer == null)) [
  | inl b ↦ rw b refl
  | inr b ↦ elim (Bool-cases (ans.caller == 0)) [
    | inl c ↦ rw (b, b, c) refl
    | inr c ↦ elim (Bool-cases (ans.node == null)) [
      | inl z ↦ rw (b, b, c, z) refl
      | inr z ↦ absurd (ground arith)
    ]
  ]
]

abbrev pub request_failed : Request → Answers → State Zone → State Zone
request_failed r ans s =
    after_failure (request_wrapper r) ans (request_block r) (request_guard r)
      (ans.memory + request_room r) s

-- If the memory is there but the buffer, the caller's address or the structure is not, every
-- allocation function returns NULL, leaves the zone list alone, and never gives the memory back.
pub obtain_leaks :
    (r : Request) (ans : Answers) (s : State Zone)
    → ans.memory ≢ null
    → IsSmall r
    → ans.memory + (request_block r).size ≤ word
    → ans.buffer ≢ ans.memory
    → fails ans ≡ true
    → let t : State Zone = request_failed r ans s in
      (obtain r ans s ≡ ok null t)
      × (t.zones ≡ s.zones)
      × (t.blocks ans.memory ≡ some (request_block r))
obtain_leaks r ans s ne small fits other h = (
  obtain-guard_block r ans s ne small fits
      ∙ guard_block-fails (request_wrapper r) ans (request_block r) (request_guard r)
          (ans.memory + request_room r) ans.memory s h,
  refl,
  ground arith,
)

-- The search finds nothing: what is then in `temp` is the last entry of the list.
unguard-missing :
    {s : State Zone} (a : Addr) (gs : List Guarded)
    → Inv s gs
    → All (Elsewhere a) gs
    → unguard a s ≡ free_zone (last_entry none gs) (record s { locked = false })
unfolding unguard take_out
unguard-missing {s} a gs inv away =
    rw (spin_lock-ok s inv.unlocked, inv.linked)
      (rw (walk-missing none a gs away) (rw spin_unlock-ok))

last_entry-append :
    (temp : Option Zone) (xs : List Guarded) (g : Guarded)
    → last_entry temp (xs ++ g ∷ []) ≡ some (entry g)
last_entry-append temp [] g = refl
last_entry-append temp (x ∷ xs) g = last_entry-append (some (entry x)) xs g

-- Given a pointer that is neither NULL nor that of a tracked allocation or of any other block,
-- `skfree` gives back the name buffer and the structure of the oldest tracked allocation, whose entry
-- stays in the list; then it fails in `kfree`.
pub skfree_dangling :
    {s : State Zone} (objp : Addr) (xs : List Guarded) (g : Guarded)
    → Inv s (xs ++ g ∷ [])
    → objp ≢ null
    → All (Elsewhere objp) (xs ++ g ∷ [])
    → s.blocks objp ≡ none
    → let t : State Zone = without_zone g s s.zones in
      (unguard objp s ≡ ok tt t)
      × (t.zones ≡ entries (xs ++ g ∷ []))
      × (t.blocks g.node ≡ none)
      × (skfree objp s ≡ fault bad_free)
unfolding skfree kfree
skfree_dangling {s} objp xs g inv ne away unknown =
    let t : State Zone = without_zone g s s.zones in
    let loosened : unguard objp s ≡ ok tt t =
      unguard-missing objp (xs ++ g ∷ []) inv away
      ∙ rw (last_entry-append none xs g)
          (free_zone-ok g (record s { locked = false }) (held_of g xs [] inv)) in
    let gone : t.blocks objp ≡ none = ground arith in
    (
      loosened,
      inv.linked,
      ground arith,
      rw (==_of_ne objp null ne, loosened) (give_back-none t (is_from kmallocs) objp gone),
    )
