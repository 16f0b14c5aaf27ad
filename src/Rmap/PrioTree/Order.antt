-- ===== src/Rmap/PrioTree/Order.antt =====
-- The order that the kernel keeps in a priority search tree, which the walk in rmap.c relies on, and the
-- mappings of a tree that overlap a range.
use native.Mathlib.Nat.{pow-suc}
use linux_project.Base.{
  Bool-cases, inl, inr, ℕ, zero, suc, ◌+◌, ◌*◌, ◌^◌, ◌≤◌, ◌<◌, ◌≡◌, refl, ap, Bool, true, false,
  ◌&&◌, List, [], ◌∷◌, ◌++◌, append_assoc, leb, if◌then◌else◌, arith, All, All-append, All-map,
}
use linux_project.Rmap.PrioTree.{Pst, leaf, node, PrioNode, get_index_user}
use linux_project.Rmap.PrioTree.Level.{Level, keyed, overflow, next, right_value, AtEnd}

-- The nodes, a node before those below it and the left ones before the right ones.
abbrev pub nodes : Pst → List PrioNode
nodes leaf = []
nodes (node l n r) = n ∷ (nodes l ++ nodes r)

module _ (raw : Bool) where
  abbrev pub radix : PrioNode → ℕ
  radix n = (get_index_user raw n).0

  abbrev pub heap : PrioNode → ℕ
  heap n = (get_index_user raw n).1

  -- The radix index is one that belongs there.
  abbrev pub InRange : Level → (value : ℕ) → PrioNode → Type 0
  InRange (keyed k) v n = (v ≤ radix n) × (radix n < v + 2 * 2 ^ k)
  InRange (overflow s) v n = radix n ≡ v

  abbrev pub IsUnder : ℕ → Pst → Type 0
  IsUnder h leaf = Unit
  IsUnder h (node l n r) = heap n ≤ h

  -- A heap in the heap index, in which the bits of the radix index say on which side a node is, and which
  -- ends at the last level.
  abbrev pub IsPst : Level → (value : ℕ) → Pst → Type 0
  IsPst lvl v leaf = Unit
  IsPst lvl v (node l n r) =
      InRange lvl v n
      × IsUnder (heap n) l
      × IsUnder (heap n) r
      × AtEnd lvl l r
      × IsPst (next lvl) v l
      × IsPst (next lvl) (right_value lvl v) r

  InRange-least : (lvl : Level) (v : ℕ) (n : PrioNode) → InRange lvl v n → v ≤ radix n
  InRange-least (keyed k) v n h = h.0
  InRange-least (overflow s) v n h = omega (arith, h)

  right_value-least : (lvl : Level) (v : ℕ) → v ≤ right_value lvl v
  right_value-least (keyed k) v = omega arith
  right_value-least (overflow s) v = omega arith

  pub InRange-left :
      (lvl : Level) (v : ℕ) (n : PrioNode) → InRange (next lvl) v n → radix n ≤ right_value lvl v
  InRange-left (keyed zero) v n h = omega (arith, h)
  InRange-left (keyed (suc k)) v n h = omega (arith, h.1, pow-suc 2 k)
  InRange-left (overflow zero) v n h = omega (arith, h)
  InRange-left (overflow (suc s)) v n h = omega (arith, h)

  nodes-least : (lvl : Level) (v : ℕ) (t : Pst) → IsPst lvl v t → All (λ n. v ≤ radix n) (nodes t)
  nodes-least lvl v leaf h = tt
  nodes-least lvl v (node l n r) (here, ul, ur, last, hl, hr) =
      let more = right_value-least lvl v in
      (
        InRange-least lvl v n here,
        All-append _ (nodes l) (nodes r) (nodes-least (next lvl) v l hl) (
            All-map (nodes r) (λ m h. omega (arith, h, more))
              (nodes-least (next lvl) (right_value lvl v) r hr)),
      )

  nodes-under :
      (lvl : Level) (v h : ℕ) (t : Pst)
      → IsPst lvl v t
      → IsUnder h t
      → All (λ n. heap n ≤ h) (nodes t)
  nodes-under lvl v h leaf pst u = tt
  nodes-under lvl v h (node l n r) (here, ul, ur, last, hl, hr) u =
      let up : (m : PrioNode) → heap m ≤ heap n → heap m ≤ h = λ m e. omega (arith, e, u) in
      (
        u,
        All-append _ (nodes l) (nodes r)
            (All-map (nodes l) up (nodes-under (next lvl) v (heap n) l hl ul))
            (All-map (nodes r) up (nodes-under (next lvl) (right_value lvl v) (heap n) r hr ur)),
      )

  module _ (from upto : ℕ) where
    -- The mapping has a page of the range.
    abbrev pub overlaps : PrioNode → Bool
    overlaps n = leb (radix n) upto && leb from (heap n)

    abbrev pub overlapping : List PrioNode → List PrioNode
    overlapping [] = []
    overlapping (n ∷ ns) = let rest = overlapping ns in if overlaps n then n ∷ rest else rest

    pub overlapping-append :
        (xs ys : List PrioNode) → overlapping (xs ++ ys) ≡ overlapping xs ++ overlapping ys
    overlapping-append [] ys = refl
    overlapping-append (x ∷ xs) ys = elim (Bool-cases (overlaps x)) [
      | inl e ↦ rw (e) (ap (λ l. x ∷ l) (overlapping-append xs ys))
      | inr e ↦ rw (e) (overlapping-append xs ys)
    ]

    none_later : (ns : List PrioNode) → All (λ n. upto < radix n) ns → overlapping ns ≡ []
    none_later [] h = refl
    none_later (n ∷ ns) h =
        let late : leb (radix n) upto ≡ false = ground (arith, h.0) in rw (late) (none_later ns h.1)

    none_earlier : (ns : List PrioNode) → All (λ n. heap n < from) ns → overlapping ns ≡ []
    none_earlier [] h = refl
    none_earlier (n ∷ ns) h =
        let early : overlaps n ≡ false = ground (arith, h.0) in rw (early) (none_earlier ns h.1)

    -- Those of a tree.
    abbrev pub hits : Pst → List PrioNode
    hits t = overlapping (nodes t)

    pub hits-here :
        (l : Pst) (n : PrioNode) (r : Pst) (more : List PrioNode)
        → overlaps n ≡ true
        → hits (node l n r) ++ more ≡ n ∷ (hits l ++ (hits r ++ more))
    hits-here l n r more e =
        let both = overlapping-append (nodes l) (nodes r) in
        rw (e, both) (ap (λ x. n ∷ x) (append_assoc (hits l) (hits r) more))

    pub hits-below :
        (l : Pst) (n : PrioNode) (r : Pst) (more : List PrioNode)
        → overlaps n ≡ false
        → hits (node l n r) ++ more ≡ hits l ++ (hits r ++ more)
    hits-below l n r more e =
        let both = overlapping-append (nodes l) (nodes r) in
        rw (e, both) (append_assoc (hits l) (hits r) more)

    pub hits-early :
        (lvl : Level) (v : ℕ) (l : Pst) (n : PrioNode) (r : Pst)
        → IsPst lvl v (node l n r)
        → heap n < from
        → hits (node l n r) ≡ []
    hits-early lvl v l n r pst early = none_earlier (nodes (node l n r)) (
        All-map (nodes (node l n r)) (λ m h. omega (arith, h, early))
          (nodes-under lvl v (heap n) (node l n r) pst (omega arith)))

    pub hits-late : (lvl : Level) (v : ℕ) (t : Pst) → IsPst lvl v t → upto < v → hits t ≡ []
    hits-late lvl v t pst late =
        none_later (nodes t)
          (All-map (nodes t) (λ m h. omega (arith, h, late)) (nodes-least lvl v t pst))
