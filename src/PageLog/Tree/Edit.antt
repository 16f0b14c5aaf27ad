-- ===== src/PageLog/Tree/Edit.antt =====
-- The entries of the tree in huawei_log_page.c after one of them has been written to, or taken out.
use linux_project.Base.{
  ℕ, ◌+◌, ◌≤◌, ◌≡◌, refl, ap, true, false, not, ◌&&◌, Option, none, some, List, [], ◌∷◌, ◌++◌,
  Pairs-without, ◌==◌, ==-refl, if◌then◌else◌, All, All-append, All-drop, All-take, All-map, Pairs,
  Bool-cases, inl, inr, arith, All-without,
}
use linux_project.Kernel.{Addr}
use linux_project.PageLog.Pools.Supply.{count}
use linux_project.PageLog.Tree.{LogPage, Tree, leaf, node, inorder, alter, without}
use linux_project.PageLog.Tree.Found.{holds, lookup, lookup-append, lookup-none}
use linux_project.PageLog.Tree.Order.{
  Before, IsProper, IsOrdered, Pairs-middle, middle-Pairs, Clear,
}

abbrev pub indices : List LogPage → List ℕ
indices [] = []
indices (x ∷ xs) = x.index ∷ indices xs

abbrev pub altered : ℕ → (LogPage → LogPage) → List LogPage → List LogPage
altered i f [] = []
altered i f (x ∷ xs) = (if x.index == i then f x else x) ∷ altered i f xs

altered-append :
    (i : ℕ) (f : LogPage → LogPage) (xs ys : List LogPage)
    → altered i f (xs ++ ys) ≡ altered i f xs ++ altered i f ys
altered-append i f [] ys = refl
altered-append i f (x ∷ xs) ys =
    ap (λ zs. (if x.index == i then f x else x) ∷ zs) (altered-append i f xs ys)

without-append :
    (i : ℕ) (xs ys : List LogPage) → without i (xs ++ ys) ≡ without i xs ++ without i ys
without-append i [] ys = refl
without-append i (x ∷ xs) ys = elim (Bool-cases (x.index == i)) [
  | inl e ↦ rw e (without-append i xs ys)
  | inr e ↦ rw e (ap (λ zs. x ∷ zs) (without-append i xs ys))
]

pub inorder-alter :
    (i : ℕ) (f : LogPage → LogPage) (t : Tree) → inorder (alter i f t) ≡ altered i f (inorder t)
unfolding alter
inorder-alter i f leaf = refl
inorder-alter i f (node l x r) =
    rw (inorder-alter i f l, inorder-alter i f r, altered-append i f (inorder l) (x ∷ inorder r))
      refl

altered-absent :
    (i : ℕ) (f : LogPage → LogPage) (xs : List LogPage)
    → count i (indices xs) ≡ 0
    → altered i f xs ≡ xs
altered-absent i f [] h = refl
altered-absent i f (x ∷ xs) h =
    let other : (x.index == i) ≡ false = ground arith in
    rw other (ap (λ zs. x ∷ zs) (altered-absent i f xs (ground arith)))

without-absent : (i : ℕ) (xs : List LogPage) → count i (indices xs) ≡ 0 → without i xs ≡ xs
without-absent i [] h = refl
without-absent i (x ∷ xs) h =
    let other : (x.index == i) ≡ false = ground arith in
    rw other (ap (λ zs. x ∷ zs) (without-absent i xs (ground arith)))

pub count-indices :
    (i : ℕ) (xs ys : List LogPage)
    → count i (indices (xs ++ ys)) ≡ count i (indices xs) + count i (indices ys)
count-indices i [] ys = omega arith
count-indices i (x ∷ xs) ys = omega (arith, count-indices i xs ys)

-- The entry stands where the search has found it.
pub record Found (p : ℕ) (xs : List LogPage) (x : LogPage) : Type 0 where
  pub earlier : List LogPage
  pub later : List LogPage
  pub split : xs ≡ earlier ++ x ∷ later
  pub held : holds x p ≡ true

pub lookup-Found : (p : ℕ) (xs : List LogPage) (x : LogPage) → lookup p xs ≡ some x → Found p xs x
lookup-Found p [] x h = absurd (cc)
lookup-Found p (y ∷ ys) x h = elim (Bool-cases (holds y p)) [
  | inl e ↦
      let same : y ≡ x = some_inj (rw e at h) in
      record { earlier = []; later = ys; split = ap (λ z. z ∷ ys) same; held = rw (← same) e }
  | inr e ↦
      let f = lookup-Found p ys x (rw e at h) in
      record {
        earlier = y ∷ f.earlier;
        later = f.later;
        split = ap (λ zs. y ∷ zs) f.split;
        held = f.held;
      }
]
  where
    some_inj : {a b : LogPage} → ◌≡◌ {A = Option LogPage} (some a) (some b) → a ≡ b
    some_inj h = cc

module _ (xs : List LogPage) (x : LogPage) (ys : List LogPage)
    (once : count x.index (indices (xs ++ x ∷ ys)) ≤ 1) where
  absent : (count x.index (indices xs) ≡ 0) × (count x.index (indices ys) ≡ 0)
  absent =
      let parts = count-indices x.index xs (x ∷ ys) in let itself = ==-refl x.index in ground arith

  -- A write reaches the entry that it is meant for, and no other.
  pub altered_one : (f : LogPage → LogPage) → altered x.index f (xs ++ x ∷ ys) ≡ xs ++ f x ∷ ys
  altered_one f =
      rw
        (
          altered-append x.index f xs (x ∷ ys),
          ==-refl x.index,
          altered-absent x.index f xs absent.0,
          altered-absent x.index f ys absent.1,
        )
        refl

  pub without_one : without x.index (xs ++ x ∷ ys) ≡ xs ++ ys
  without_one =
      rw
        (
          without-append x.index xs (x ∷ ys),
          ==-refl x.index,
          without-absent x.index xs absent.0,
          without-absent x.index ys absent.1,
        )
        refl

-- What is kept of a block whatever its frames are.
pub record Origin : Type 0 where
  pub order : ℕ
  pub entries : ℕ → ℕ
  pub modules : List Addr

abbrev pub origin : LogPage → Origin
origin x = record { order = x.order; entries = x.entries; modules = x.modules }

abbrev pub origin_of : Option LogPage → Option Origin
origin_of none = none
origin_of (some x) = some (origin x)

module _ (xs : List LogPage) (x : LogPage) (ys : List LogPage)
    (ordered : IsOrdered (xs ++ x ∷ ys)) where
  parts : Pairs Before xs × Pairs Before ys × All (λ z. Before z x) xs × All (Before x) ys
  parts = Pairs-middle xs x ys ordered.0

  pub found-IsProper : IsProper x
  found-IsProper = (All-drop IsProper xs (x ∷ ys) ordered.1).0

  pub removed-IsOrdered : IsOrdered (xs ++ ys)
  removed-IsOrdered =
      (Pairs-without Before xs x ys ordered.0, All-without IsProper xs x ys ordered.1)

  -- An entry that has shrunk stands in the order as before.
  pub shrunk-IsOrdered :
      (y : LogPage)
      → x.start_page ≤ y.start_page
      → y.end_page ≤ x.end_page
      → IsProper y
      → IsOrdered (xs ++ y ∷ ys)
  shrunk-IsOrdered y lo hi proper = (
    middle-Pairs xs y ys parts.0 parts.1 (All-map xs (λ z b. omega (arith, b)) parts.2)
        (All-map ys (λ z b. omega (arith, b)) parts.3) proper,
    All-append IsProper xs (y ∷ ys) (All-take IsProper xs (x ∷ ys) ordered.1)
        (proper, (All-drop IsProper xs (x ∷ ys) ordered.1).1),
  )

  -- A block that lies in what the entry has given up is clear of all that is left.
  pub shrunk-Clear :
      (y new : LogPage)
      → x.start_page ≤ new.start_page
      → new.end_page ≤ x.end_page
      → y.end_page ≤ new.start_page
      → All (Clear new) (xs ++ y ∷ ys)
  shrunk-Clear y new lo hi apart =
      All-append (Clear new) xs (y ∷ ys) (All-map xs (λ z b. inr (omega (arith, b))) parts.2)
        (inr apart, All-map ys (λ z b. inl (omega (arith, b))) parts.3)

  -- No other entry holds a frame of this one.
  alone : (p : ℕ) → holds x p ≡ true → (lookup p xs ≡ none) × (lookup p ys ≡ none)
  alone p e = (
    lookup-none p xs (All-map xs (λ z b. ground (arith, b)) parts.2),
    lookup-none p ys (All-map ys (λ z b. ground (arith, b)) parts.3),
  )

  pub lookup-found : (p : ℕ) → holds x p ≡ true → lookup p (xs ++ x ∷ ys) ≡ some x
  lookup-found p e = rw (lookup-append p xs (x ∷ ys), (alone p e).0, e) refl

  pub lookup-removed :
      (p : ℕ) → lookup p (xs ++ ys) ≡ (if holds x p then none else lookup p (xs ++ x ∷ ys))
  lookup-removed p = elim (Bool-cases (holds x p)) [
    | inl e ↦ rw (e, lookup-append p xs ys, (alone p e).0, (alone p e).1) refl
    | inr e ↦ rw (e, lookup-append p xs ys, lookup-append p xs (x ∷ ys), e) refl
  ]

  pub lookup-shrunk :
      (p : ℕ) (y : LogPage)
      → x.start_page ≤ y.start_page
      → y.end_page ≤ x.end_page
      → origin y ≡ origin x
      → origin_of (lookup p (xs ++ y ∷ ys))
        ≡ (if holds x p && not (holds y p) then none else origin_of (lookup p (xs ++ x ∷ ys)))
  lookup-shrunk p y lo hi same = elim (Bool-cases (holds x p)) [
    | inl e ↦ elim (Bool-cases (holds y p)) [
      | inl f ↦
          rw
            (
              e,
              f,
              lookup-append p xs (y ∷ ys),
              (alone p e).0,
              f,
              lookup-append p xs (x ∷ ys),
              (alone p e).0,
              e,
            )
            (ap some same)
      | inr f ↦ rw (e, f, lookup-append p xs (y ∷ ys), (alone p e).0, f, (alone p e).1) refl
    ]
    | inr e ↦
        let f : holds y p ≡ false = ground arith in
        rw (e, lookup-append p xs (y ∷ ys), lookup-append p xs (x ∷ ys), e, f) refl
  ]
