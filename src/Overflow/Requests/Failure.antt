-- ===== src/Overflow/Requests/Failure.antt =====
-- The calls that go wrong: an allocation function that runs out of memory half way, and a release
-- function that is given a pointer from elsewhere.
use linux_project.Base.{
  ◌+◌, ◌≤◌, ◌<◌, ◌≡◌, ◌≢◌, refl, ◌∙◌, true, false, ◌||◌, Option, none, some, List, [], ◌∷◌, ◌++◌,
  ◌==◌, ==_of_ne, if◌then◌else◌, All, arith,
}
use native.Mathlib.Decide.{ℕ_discrete}
use linux_project.Overflow.Alloc.{
  skmalloc, svmalloc, sget_free_pages, nget_free_pages, get_free_pages_ex,
}
use linux_project.Kernel.{
  Blocks, memory_failed, allocate, Addr, null, word, back, State, ok, fault, bad_free,
  null_dereference, update, kmallocs, kfree, is_from,
}
use linux_project.Kernel.Fresh.{IsFresh}
use linux_project.Kernel.Steps.{spin_lock-ok, spin_unlock-ok, give_back-none}
use linux_project.Overflow.{Zone, Answers, isosize_kmalloc}
use linux_project.Overflow.Alloc.Dma.{sdma_alloc_coherent-null}
use linux_project.Overflow.Alloc.Failure.{fails, after_failure, guard_block-fails}
use linux_project.Overflow.Alloc.Steps.{after_memory}
use linux_project.Overflow.Guard.{unguard, take_out, free_zone}
use linux_project.Overflow.Guard.Search.{Elsewhere, last_entry, walk-missing}
use linux_project.Overflow.Guard.Unguard.{free_zone-ok}
use linux_project.Overflow.Invariant.{Guarded, Inv, before, entries, kmalloc_block}
use linux_project.Overflow.Invariant.Extend.{Inv-add, with_memory}
use linux_project.Overflow.Invariant.Frame.{held_of}
use linux_project.Overflow.Release.{skfree}
use linux_project.Overflow.Requests.{
  Request, dma_of, ledger, prepared, Prepared, prepared-Inv, kmalloc_of, vmalloc_of, pages_of,
  narrow_pages_of, exact_pages_of, request, request_block, request_guard, request_second,
  request_wrapper, IsSmall, request-guard_block, request-FitsZones,
}

abbrev pub request_failed : Request → Answers → State Zone → State Zone
request_failed r ans s =
    after_failure (request_wrapper r) ans (request_block r) (request_guard r)
      (request_second r ans.memory) (prepared r s)

-- If the memory is there (and the cell of `sdma_alloc_coherent`) but the buffer, the caller's address or
-- the structures are not, each of the six allocation functions returns NULL, leaves the zone list alone,
-- and never gives the memory back: the caller has no pointer to it, and it stays allocated, as do all
-- blocks that were held before and the cell. The size does not wrap (or the order is below 20), the memory
-- does not either, and the buffer is not at its address.
pub request_leaks :
    (r : Request) (ans : Answers) (s : State Zone)
    → Prepared r s.blocks
    → ans.memory ≢ null
    → IsSmall r
    → ans.memory + (request_block r).size ≤ word
    → ans.buffer ≢ ans.memory
    → fails ans ≡ true
    → let t : State Zone = request_failed r ans s in
      (request r ans s ≡ ok null t)
      × (t.zones ≡ s.zones)
      × (t.blocks ans.memory ≡ some (request_block r))
      × ((p : Addr) → p ≢ ans.memory → p ≢ ans.buffer → t.blocks p ≡ ledger r s.blocks p)
request_leaks r ans s cell ne small fits other h = (
  request-guard_block r ans s cell ne small fits
      ∙ guard_block-fails (request_wrapper r) ans (request_block r) (request_guard r)
          (request_second r ans.memory) (ans.memory + request_guard r) (prepared r s) h,
  refl,
  ground arith,
  λ p out outside. ground arith,
)

-- Not everything is there, but for the cell of `sdma_alloc_coherent`, and what is there is fresh.
pub record Refuses (b : Blocks) (r : Request) (ans : Answers) : Type 0 where
  pub cell : Prepared r b
  pub small : IsSmall r
  pub short : ((ans.memory == null) || fails ans) ≡ true
  pub memory_fresh : ans.memory ≢ null → IsFresh (ledger r b) ans.memory (request_block r).size
  pub buffer_fresh :
      ans.buffer ≢ null → IsFresh (with_memory ans (request_block r) (ledger r b)) ans.buffer 200

-- Without memory nothing but the message is left, and the cell.
abbrev without_memory : Request → State Zone → State Zone
without_memory r s = record (prepared r s) { log = s.log ++ memory_failed (request_wrapper r) ∷ [] }

request-null :
    (r : Request) (ans : Answers) (s : State Zone)
    → Prepared r s.blocks
    → ans.memory ≡ null
    → request r ans s ≡ ok null (without_memory r s)
unfolding request skmalloc svmalloc sget_free_pages nget_free_pages get_free_pages_ex allocate
request-null (kmalloc_of size flags) ans s cell e = rw e
request-null (vmalloc_of size) ans s cell e = rw e
request-null (dma_of size gfp bus bus_handle old) ans s cell e =
    sdma_alloc_coherent-null ans s size gfp bus bus_handle old cell.ne_null e
request-null (pages_of order gfp_mask) ans s cell e = rw e
request-null (narrow_pages_of order gfp_mask) ans s cell e = rw e
request-null (exact_pages_of size gfp_mask) ans s cell e = rw e

abbrev pub after_refusal : Request → Answers → State Zone → State Zone
after_refusal r ans s = if ans.memory == null then without_memory r s else request_failed r ans s

-- An allocation function that is refused anything returns NULL, whatever it was refused.
pub request-refused :
    (r : Request) (ans : Answers) (s : State Zone)
    → Refuses s.blocks r ans
    → request r ans s ≡ ok null (after_refusal r ans s)
request-refused r ans s f = elim (ℕ_discrete ans.memory null) [
  | yes e ↦ rw (request-null r ans s f.cell e, e)
  | no ne ↦ rw (==_of_ne ans.memory null ne) (
      request-guard_block r ans s f.cell ne f.small (f.memory_fresh ne).fits
      ∙ guard_block-fails (request_wrapper r) ans (request_block r) (request_guard r)
          (request_second r ans.memory) (ans.memory + request_guard r) (prepared r s)
          (ground (arith, f.short)))
]

-- The tracked allocations are left as they were.
pub refused-Inv :
    (r : Request) (ans : Answers) (s : State Zone) (gs : List Guarded)
    → Inv s gs
    → Refuses s.blocks r ans
    → Inv (after_refusal r ans s) gs
refused-Inv r ans s gs before f = elim (ℕ_discrete ans.memory null) [
  | yes e ↦
      rw e (record {
        linked = inv.linked;
        held = inv.held;
        apart = inv.apart;
        unlocked = inv.unlocked;
      })
  | no ne ↦ rw (==_of_ne ans.memory null ne) (failed_inv ne)
]
  where
    inv : Inv (prepared r s) gs
    inv = prepared-Inv r gs s f.cell before

    size_pos : 0 < (request_block r).size
    size_pos = let fits = request-FitsZones r ans f.small in omega arith

    memory_inv : ans.memory ≢ null → Inv (after_memory ans (request_block r) (prepared r s)) gs
    memory_inv ne =
        Inv-add (prepared r s) (after_memory ans (request_block r) (prepared r s)) gs ans.memory
          (request_block r).size (request_block r) (f.memory_fresh ne) size_pos inv refl refl
          (λ q h. refl) inv.unlocked

    failed_inv : ans.memory ≢ null → Inv (request_failed r ans s) gs
    failed_inv ne = elim (ℕ_discrete ans.buffer null) [
      | yes e ↦
          let base = memory_inv ne in
          rw e (record {
            linked = base.linked;
            held = base.held;
            apart = base.apart;
            unlocked = base.unlocked;
          })
      | no nb ↦
          Inv-add (after_memory ans (request_block r) (prepared r s)) (request_failed r ans s) gs
            ans.buffer 200 (kmalloc_block 200) (f.buffer_fresh nb) (omega arith) (memory_inv ne)
            refl (rw (==_of_ne ans.buffer null nb)) (λ q h. ground arith) inv.unlocked
    ]

-- The search finds nothing: what is then in `temp` is the last entry of the list.
unguard-missing :
    {s : State Zone} (a : Addr) (gs : List Guarded)
    → Inv s gs
    → All (Elsewhere a) gs
    → unguard a s ≡ free_zone (last_entry none gs) (record s { locked = false })
unfolding unguard take_out
unguard-missing {s} a gs inv away =
    rw (spin_lock-ok s inv.unlocked, inv.linked)
      (rw (walk-missing none a gs away) (rw spin_unlock-ok))

last_entry-append :
    (prev : Option Zone) (xs : List Guarded) (g : Guarded)
    → last_entry prev (xs ++ g ∷ []) ≡ some (before g)
last_entry-append prev [] g = refl
last_entry-append prev (x ∷ xs) g = last_entry-append (some (before x)) xs g

-- The state in which the name buffer and the structures of `g` are gone, and its entries are not.
abbrev pub dangling : Guarded → State Zone → State Zone
dangling g s = record s {
  locked = false;
  blocks = update (update s.blocks g.buffer none) g.node none;
}

-- Given a pointer, neither NULL nor the address 20, such that no zone in the list and no block that is
-- held begins 20 bytes before it, `skfree` gives back the name buffer and the structures of the oldest
-- tracked allocation, whose two entries stay in the list; then it fails in `kfree`.
pub skfree_untracked :
    {s : State Zone} (objp : Addr) (xs : List Guarded) (g : Guarded)
    → Inv s (xs ++ g ∷ [])
    → objp ≢ null
    → back objp isosize_kmalloc ≢ null
    → All (Elsewhere (back objp isosize_kmalloc)) (xs ++ g ∷ [])
    → s.blocks (back objp isosize_kmalloc) ≡ none
    → (unguard (back objp isosize_kmalloc) s ≡ ok tt (dangling g s))
      × ((dangling g s).zones ≡ entries (xs ++ g ∷ []))
      × ((dangling g s).blocks g.node ≡ none)
      × (skfree objp s ≡ fault bad_free)
unfolding skfree kfree
skfree_untracked {s} objp xs g inv ne ne' away unknown =
    let held = held_of g xs [] inv in
    let a : Addr = back objp isosize_kmalloc in
    let loosened : unguard a s ≡ ok tt (dangling g s) =
      unguard-missing a (xs ++ g ∷ []) inv away
      ∙ rw (last_entry-append none xs g) (free_zone-ok g (record s { locked = false }) held) in
    let gone : (dangling g s).blocks a ≡ none = ground arith in
    (
      loosened,
      inv.linked,
      ground arith,
      rw (==_of_ne objp null ne, loosened, ==_of_ne a null ne')
          (give_back-none (dangling g s) (is_from kmallocs) a gone),
    )

-- With no entry in the list, `skfree` of any pointer but NULL reads through a null pointer.
pub skfree_empty :
    (s : State Zone) (objp : Addr) → Inv s [] → objp ≢ null → skfree objp s ≡ fault null_dereference
unfolding skfree free_zone
skfree_empty s objp inv ne =
    rw (==_of_ne objp null ne, unguard-missing (back objp isosize_kmalloc) [] inv tt)
