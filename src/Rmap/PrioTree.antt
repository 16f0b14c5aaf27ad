-- ===== src/Rmap/PrioTree.antt =====
-- The walk of the kernel's priority search tree in mem_leak/rmap/rmap.c: all mappings of a file that
-- overlap a range of pages. The tree is the kernel's; a mapping with the range of one that is in the
-- tree already hangs in a list (`vm_set`) behind that one.
pub mod Zipper
pub mod First
pub mod Bits
pub mod Level
pub mod Order
pub mod Steps
pub mod Sees
pub mod Start
pub mod Rounds
pub mod Foreach
pub mod Vmas
use Prim.Native.Nat.{bit_and, bit_or, bit_xor}
use linux_project.Base.{
  ℕ, zero, suc, ◌+◌, ◌-◌, ◌*◌, ◌/◌, ◌%◌, ◌^◌, Bool, true, false, ◌&&◌, Option, none, some, List, [],
  ◌∷◌, ◌++◌, ◌==◌, leb, ltb, if◌then◌else◌,
}
use linux_project.Kernel.{word}

-- `struct vm_area_struct`, as far as it is printed: the process that is the owner of its address space,
-- which it is taken to have.
pub record Vma : Type 0 where
  pub pid : ℕ
  pub comm : ℕ

-- `struct prio_tree_node`, with what is read of the mapping around it, and the list behind
-- that.
pub record PrioNode : Type 0 where
  pub start : ℕ
  pub last : ℕ
  pub vm_pgoff : ℕ
  pub vm_start : ℕ
  pub vm_end : ℕ
  pub vma : Vma
  pub vm_set : List Vma

pub data Pst : Type 0 where
  leaf : Pst
  node : Pst → PrioNode → Pst → Pst

pub record PrioTreeRoot : Type 0 where
  pub raw : Bool
  pub index_bits : ℕ
  pub tree : Pst

-- `iter->cur`: a node with the trees below it, and the way up, of which each step tells on which side
-- the node hangs and what else hangs there.
pub data Above : Type 0 where
  from_left : PrioNode → Pst → Above
  from_right : Pst → PrioNode → Above

pub record Cursor : Type 0 where
  pub left : Pst
  pub this : PrioNode
  pub right : Pst
  pub above : List Above

-- `struct prio_tree_iter`, with its root apart.
pub record PrioTreeIter : Type 0 where
  pub mask : ℕ
  pub value : ℕ
  pub size_level : ℕ
  pub r_index : ℕ
  pub h_index : ℕ

-- The radix index and the heap index.
unfoldable pub get_index_user : Bool → PrioNode → ℕ × ℕ
get_index_user raw n =
    if raw
    then (
      n.vm_pgoff,
      (n.vm_pgoff + ((n.vm_end + word - n.vm_start) % word / 2 ^ 12 + word - 1) % word) % word,
    )
    else (n.start, n.last)

abbrev pub size : Pst → ℕ
size leaf = 0
size (node l n r) = suc (size l + size r)

abbrev pub is_empty : Pst → Bool
is_empty leaf = true
is_empty (node l n r) = false

-- What `prio_tree_left_user` and `prio_tree_right_user` come to: the node below with its two indices,
-- NULL, or a `BUG_ON`.
pub data Step : Type 0 where
  down : PrioTreeIter → Cursor → (r_index h_index : ℕ) → Step
  stay bug : Step

-- The text that both share: one level further down.
unfoldable pub enter : PrioTreeIter → Cursor → (r_index h_index : ℕ) → Step
enter it c r h =
    let mask : ℕ = it.mask / 2 in
    if mask == 0
    then (if it.size_level == 0
        then down (record it { mask = 2 ^ 63; size_level = 1 }) c r h
        else if is_empty c.left && is_empty c.right
        then down (record it { mask = word - 1; size_level = it.size_level + 1 }) c r h
        else bug)
    else if it.size_level == 0
    then down (record it { mask = mask }) c r h
    else down (record it { mask = mask; size_level = it.size_level + 1 }) c r h

unfoldable pub prio_tree_left_user : Bool → PrioTreeIter → Cursor → Step
prio_tree_left_user raw it c = elim c.left [
  | leaf ↦ stay
  | node l n r ↦
      let (r_index, h_index) = get_index_user raw n in
      let below : Cursor = record {
        left = l;
        this = n;
        right = r;
        above = from_left c.this c.right ∷ c.above;
      } in
      if leb it.r_index h_index then enter it below r_index h_index else stay
]

unfoldable pub prio_tree_right_user : Bool → PrioTreeIter → Cursor → Step
prio_tree_right_user raw it c = elim c.right [
  | leaf ↦ stay
  | node l n r ↦
      let value : ℕ = if it.size_level == 0 then bit_or it.value it.mask else it.value in
      let (r_index, h_index) = get_index_user raw n in
      let below : Cursor = record {
        left = l;
        this = n;
        right = r;
        above = from_right c.left c.this ∷ c.above;
      } in
      if ltb it.h_index value
      then stay
      else if leb it.r_index h_index
      then enter (record it { value = value }) below r_index h_index
      else stay
]

-- What `prio_tree_parent_user` does to the iterator, of which `cur` has gone up.
unfoldable pub prio_tree_parent_user : PrioTreeIter → PrioTreeIter
prio_tree_parent_user it =
    let mask : ℕ =
      if it.mask == word - 1 then 1 else if it.size_level == 1 then 1 else it.mask * 2 % word in
    let size_level : ℕ = it.size_level - 1 in
    let value : ℕ =
      if size_level == 0
      then (if bit_and it.value mask == 0 then it.value else bit_xor it.value mask)
      else it.value in
    record it { mask = mask; size_level = size_level; value = value }

unfoldable pub overlap_user : PrioTreeIter → (r_index h_index : ℕ) → Bool
overlap_user it r_index h_index = leb r_index it.h_index && leb it.r_index h_index

-- `iter->cur` and the iterator, the NULL at the end, or what should not be.
pub data Next : Type 0 where
  found : PrioTreeIter → Cursor → Next
  ended bug_on unfinished : Next

-- `while (1)` in `prio_tree_first_user`, at a node with these indices.
unfoldable pub first_loop : ℕ → Bool → PrioTreeIter → Cursor → (r_index h_index : ℕ) → Next
first_loop zero raw it c r h = unfinished
first_loop (suc n) raw it c r h = elim (overlap_user it r h) [
  | true ↦ found it c
  | false ↦ elim (prio_tree_left_user raw it c) [
    | down it' c' r' h' ↦ first_loop n raw it' c' r' h'
    | bug ↦ bug_on
    | stay ↦ elim (prio_tree_right_user raw it c) [
      | down it' c' r' h' ↦ first_loop n raw it' c' r' h'
      | bug ↦ bug_on
      | stay ↦ ended
    ]
  ]
]

-- `prio_tree_iter_init` and `INIT_PRIO_TREE_ITER` clear the other fields.
unfoldable pub prio_tree_first_user : ℕ → PrioTreeRoot → (r_index h_index : ℕ) → Next
prio_tree_first_user fuel root r_index h_index = elim root.tree [
  | leaf ↦ ended
  | node left n right ↦
      let (r, h) = get_index_user root.raw n in
      let it : PrioTreeIter = record {
        mask = 2 ^ (root.index_bits - 1);
        value = 0;
        size_level = 0;
        r_index = r_index;
        h_index = h_index;
      } in
      let top : Cursor = record { left = left; this = n; right = right; above = [] } in
      if ltb h r_index then ended else first_loop fuel root.raw it top r h
]

-- Where `prio_tree_next_user` stands: in its first loop, in the test of its second one, or in the loop
-- inside that.
pub data Phase : Type 0 where
  going_left going_right climbing : Phase

unfoldable pub next_loop : ℕ → Phase → Bool → PrioTreeIter → Cursor → Next
next_loop zero phase raw it c = unfinished
next_loop (suc n) going_left raw it c = elim (prio_tree_left_user raw it c) [
  | down it' c' r h ↦ elim (overlap_user it' r h) [
    | true ↦ found it' c'
    | false ↦ next_loop n going_left raw it' c'
  ]
  | bug ↦ bug_on
  | stay ↦ next_loop n going_right raw it c
]
next_loop (suc n) going_right raw it c = elim (prio_tree_right_user raw it c) [
  | down it' c' r h ↦ elim (overlap_user it' r h) [
    | true ↦ found it' c'
    | false ↦ next_loop n going_left raw it' c'
  ]
  | bug ↦ bug_on
  | stay ↦ next_loop n climbing raw it c
]
next_loop (suc n) climbing raw it c = elim c.above [
  | [] ↦ ended
  | a ∷ above ↦ elim a [
    | from_right l p ↦
        next_loop n climbing raw (prio_tree_parent_user it)
          (record { left = l; this = p; right = node c.left c.this c.right; above = above })
    | from_left p r ↦
        next_loop n going_right raw (prio_tree_parent_user it)
          (record { left = node c.left c.this c.right; this = p; right = r; above = above })
  ]
]

-- `prio_tree_next_user` where `iter->cur` is not NULL.
unfoldable pub prio_tree_next_user : ℕ → Bool → PrioTreeIter → Cursor → Next
prio_tree_next_user fuel raw it c = next_loop fuel going_left raw it c
