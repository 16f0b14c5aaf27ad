-- ===== src/Trailing/Invariant/Frame.antt =====
-- What of `Inv` survives a change to the blocks of one allocation.
use linux_project.Base.{
  ◌≡◌, ◌≢◌, refl, ◌∙◌, inl, inr, true, false, none, List, ◌∷◌, ◌++◌, if◌then◌else◌, All, All-drop,
  All-take, All-without, All-zip, Pairs-without, Pairs-others, arith, Bool-cases,
}
use linux_project.Kernel.{Addr, Blocks, Bytes, State}
use linux_project.Trailing.{Zone}
use linux_project.Trailing.Invariant.{Guarded, Held, Apart, Inv, owns, entries}

pub Apart-symm : (g h : Guarded) → Apart g h → Apart h g
Apart-symm g h a = record {
  memories = elim a.memories [ inl e ↦ inr e | inr e ↦ inl e ];
  owners = λ p o. elim (Bool-cases (owns g p)) [ inl e ↦ ground (arith, a.owners p) | inr e ↦ e ];
}

-- An allocation stays held while the blocks that it owns and the name in its buffer stay.
pub Held-frame :
    (b c : Blocks) (u v : Addr → Addr) (g : Guarded)
    → Held b u g
    → ((p : Addr) → owns g p ≡ true → c p ≡ b p)
    → v g.buffer ≡ u g.buffer
    → Held c v g
Held-frame b c u v g h same name = record {
  layout = h.layout;
  memory_held = same g.memory (ground arith) ∙ h.memory_held;
  buffer_held = same g.buffer (ground arith) ∙ h.buffer_held;
  node_held = same g.node (ground arith) ∙ h.node_held;
  named = name ∙ h.named;
}

-- The ledger without the blocks of `g`.
abbrev pub without : Guarded → Blocks → Blocks
without g b p = if owns g p then none else b p

pub Held-without :
    (b : Blocks) (u : Addr → Addr) (g h : Guarded) → Apart g h → Held b u h → Held (without g b) u h
Held-without b u g h apart held =
    Held-frame b (without g b) u u h held (λ p o. ground (arith, (Apart-symm g h apart).owners p))
      refl

-- The memory of another allocation starts elsewhere.
abbrev pub Elsewhere : Addr → Guarded → Type 0
Elsewhere a g = a ≢ g.memory

module _ {s : State Zone} (g : Guarded) (xs ys : List Guarded) (inv : Inv s (xs ++ g ∷ ys)) where
  pub held_of : Held s.blocks s.symbols g
  held_of = (All-drop (Held s.blocks s.symbols) xs (g ∷ ys) inv.held).0

  pub others_held : All (Held s.blocks s.symbols) (xs ++ ys)
  others_held = All-without (Held s.blocks s.symbols) xs g ys inv.held

  pub others-Apart : All (Apart g) (xs ++ ys)
  others-Apart = Pairs-others Apart xs g ys Apart-symm inv.apart

  pub earlier-Elsewhere : All (Elsewhere g.memory) xs
  earlier-Elsewhere =
      All-take (Elsewhere g.memory) xs ys (
        All-zip (xs ++ ys) (λ h a held. ground (arith, a.owners g.memory)) others-Apart others_held)

  -- The state in which `g` and its blocks are gone.
  pub Inv-without :
      (t : State Zone)
      → t.zones ≡ entries (xs ++ ys)
      → ((p : Addr) → t.blocks p ≡ without g s.blocks p)
      → t.symbols ≡ s.symbols
      → t.locked ≡ false
      → Inv t (xs ++ ys)
  Inv-without t linked gone named unlocked = record {
    linked = linked;
    held =
        All-zip (xs ++ ys)
          (λ h a held.
            Held-frame s.blocks t.blocks s.symbols t.symbols h held
              (λ p o. gone p ∙ ground (arith, (Apart-symm g h a).owners p)) (ground arith))
          others-Apart others_held;
    apart = Pairs-without Apart xs g ys inv.apart;
    unlocked = unlocked;
  }

-- Bytes may change: the invariant does not speak of them.
pub Inv-written :
    (s : State Zone) (gs : List Guarded) (m : Bytes) → Inv s gs → Inv (record s { bytes = m }) gs
Inv-written s gs m inv = record {
  linked = inv.linked;
  held = inv.held;
  apart = inv.apart;
  unlocked = inv.unlocked;
}
