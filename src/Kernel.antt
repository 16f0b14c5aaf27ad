-- ===== src/Kernel.antt =====
-- What the modules mem_overflow/code and mem_overflow_del_firstiso/code see of the kernel: byte
-- memory, the blocks that the allocators have handed out, the spinlock on the zone list, and the
-- text printed. Nothing of the kernel is defined here: each allocator's answer is an argument of the
-- call, and the ledger `blocks` only remembers which answers have not been given back, so that
-- giving back what was never handed out is a fault. `Z` is the module's own `struct iso_zone`.
pub mod Memory
pub mod Fresh
pub mod Pages
pub mod Steps
pub mod Rounds
pub mod Threads
use linux_project.Base.{
  ℕ, ◌+◌, ◌-◌, ◌%◌, ◌^◌, Bool, true, false, ◌&&◌, Option, none, some, List, ◌++◌, [], ◌∷◌, ◌==◌,
  if◌then◌else◌, if_of_true, ==-refl, ◌≡◌,
}

-- An `unsigned long`, or a pointer, of the 64-bit machine.
abbrev pub Addr : Type 0
Addr = ℕ

abbrev pub null : Addr
null = 0

abbrev pub word : ℕ
word = 2 ^ 64

-- `p + n` and `p - n` on pointers, `size_t` and `unsigned long`.
abbrev pub offset : Addr → ℕ → Addr
offset p n = (p + n) % word

abbrev pub back : Addr → ℕ → Addr
back p n = (p + word - n) % word

-- An `unsigned long` stored in an `int`: its low 32 bits.
abbrev pub to_int : ℕ → ℕ
to_int n = n % 2 ^ 32

abbrev pub page_size : ℕ
page_size = 4096

abbrev pub gfp_kernel : ℕ
gfp_kernel = 0xd0

abbrev pub gfp_dma : ℕ
gfp_dma = 1

-- The allocator that a block came from.
pub data Api : Type 0 where
  kmallocs vmallocs dmas pages exacts : Api

abbrev pub api_eq : Api → Api → Bool
api_eq kmallocs kmallocs = true
api_eq vmallocs vmallocs = true
api_eq dmas dmas = true
api_eq pages pages = true
api_eq exacts exacts = true
api_eq _ _ = false

-- What a call asked for: `size` counts bytes, `gfp` holds the flags that the call passed on, and
-- `bus` the bus address of a DMA block.
pub record Block : Type 0 where
  pub api : Api
  pub size : ℕ
  pub gfp : ℕ
  pub bus : ℕ

abbrev pub Blocks : Type 0
Blocks = Addr → Option Block

abbrev pub Bytes : Type 0
Bytes = Addr → ℕ

-- The allocation functions that the modules offer in place of the kernel's.
pub data Wrapper : Type 0 where
  by_kmalloc by_vmalloc by_dma by_pages by_narrow_pages by_exact_pages : Wrapper

-- The `printk` and `seq_printf` calls. `more_information` holds the return address whose symbol
-- stands in the buffer that the call prints.
pub data Message : Type 0 where
  memory_failed buffer_failed zones_failed : Wrapper → Message
  handle_failed : Message
  overflow_banner : Message
  more_information : Addr → Message
  blank_line : Message
  thread_failed : Message

pub data Fault : Type 0 where
  null_dereference bad_free head_unlinked deadlock : Fault

module _ (Z : Type 0) where
  -- `symbols b` is the return address that `sprint_symbol` last wrote out into the buffer `b`.
  pub record State : Type 0 where
    pub bytes : Bytes
    pub symbols : Addr → Addr
    pub blocks : Blocks
    pub zones : List Z
    pub locked : Bool
    pub log : List Message

  pub data Run (A : Type 0) : Type 0 where
    ok : A → State → Run A
    fault : Fault → Run A

module _ {Z : Type 0} where
  abbrev pub pure : {A : Type 0} → A → State Z → Run Z A
  pure = ok

  infixl 5 ◌>>=◌ ◌>>◌
  abbrev pub and_then : {A B : Type 0} → Run Z A → (A → State Z → Run Z B) → Run Z B
  and_then (ok a s) k = k a s
  and_then (fault f) k = fault f

  abbrev pub ◌>>=◌ :
      {A B : Type 0} → (State Z → Run Z A) → (A → State Z → Run Z B) → State Z → Run Z B
  m >>= k = λ s. and_then (m s) k

  abbrev pub ◌>>◌ : {A B : Type 0} → (State Z → Run Z A) → (State Z → Run Z B) → State Z → Run Z B
  m >> n = m >>= λ _. n

abbrev pub Cmd : Type 0 → Type 0 → Type 0
Cmd Z A = State Z → Run Z A

abbrev pub update {ℓ} : {A : Type ℓ} → (Addr → A) → Addr → A → Addr → A
update f p v q = if q == p then v else f q

-- The latest of what is held under this address or number is given back.
abbrev pub let_go : ℕ → List ℕ → List ℕ
let_go a [] = []
let_go a (b ∷ bs) = if a == b then bs else b ∷ let_go a bs

pub let_go-held : (a : ℕ) (bs : List ℕ) → let_go a (a ∷ bs) ≡ bs
let_go-held a bs = if_of_true _ _ (==-refl a)

abbrev pub is_from : Api → Block → Bool
is_from a b = api_eq a b.api

abbrev pub is_sized : Api → ℕ → Block → Bool
is_sized a n b = api_eq a b.api && (n == b.size)

module _ {Z : Type 0} where
  abbrev pub modify : (State Z → State Z) → Cmd Z (Unit {0})
  modify f s = ok tt (f s)

  -- An allocator's call: the answer `p` is NULL, or becomes a block.
  unfoldable pub allocate : Addr → Block → Cmd Z Addr
  allocate p b s =
      if p == null then ok null s else ok p (record s { blocks = update s.blocks p (some b) })

  -- Giving back the block that starts at `p`; `fits` says which block the call may be made on.
  unfoldable pub give_back : (Block → Bool) → Addr → Cmd Z (Unit {0})
  give_back fits p s = elim (s.blocks p) [
    | none ↦ fault bad_free
    | some b ↦
        if fits b then ok tt (record s { blocks = update s.blocks p none }) else fault bad_free
  ]

  abbrev pub kmalloc : Addr → ℕ → ℕ → Cmd Z Addr
  kmalloc p size gfp = allocate p (record { api = kmallocs; size = size; gfp = gfp; bus = 0 })

  -- `kfree(NULL)` and `vfree(NULL)` do nothing.
  unfoldable pub kfree : Addr → Cmd Z (Unit {0})
  kfree p = if p == null then pure tt else give_back (is_from kmallocs) p

  unfoldable pub vfree : Addr → Cmd Z (Unit {0})
  vfree p = if p == null then pure tt else give_back (is_from vmallocs) p

  -- `sprint_symbol(buffer, address)`.
  abbrev pub sprint_symbol : Addr → Addr → Cmd Z (Unit {0})
  sprint_symbol p a = modify λ s. record s { symbols = update s.symbols p a }

  abbrev pub printk : Message → Cmd Z (Unit {0})
  printk m = modify λ s. record s { log = s.log ++ m ∷ [] }

  -- Taking the lock twice on one processor never returns.
  unfoldable pub spin_lock : Cmd Z (Unit {0})
  spin_lock s = if s.locked then fault deadlock else ok tt (record s { locked = true })

  unfoldable pub spin_unlock : Cmd Z (Unit {0})
  spin_unlock s = ok tt (record s { locked = false })

  -- `list_add(entry, &iso_head)`: the entry becomes the first behind the head.
  abbrev pub list_add : Z → Cmd Z (Unit {0})
  list_add z = modify λ s. record s { zones = z ∷ s.zones }
