-- ===== src/Base/Lists.antt =====
-- Predicates on lists by recursion, so that the tactics read and build them.
use mathlib.Core.List.{List, [], ◌∷◌, ◌++◌}

module _ {ℓ κ} {A : Type ℓ} (P : A → Type κ) where
  abbrev pub All : List A → Type κ
  All [] = Unit
  All (x ∷ xs) = P x × All xs

  pub All-append : (xs ys : List A) → All xs → All ys → All (xs ++ ys)
  All-append [] ys hx hy = hy
  All-append (x ∷ xs) ys hx hy = (hx.0, All-append xs ys hx.1 hy)

  pub All-drop : (xs ys : List A) → All (xs ++ ys) → All ys
  All-drop [] ys h = h
  All-drop (x ∷ xs) ys h = All-drop xs ys h.1

  pub All-take : (xs ys : List A) → All (xs ++ ys) → All xs
  All-take [] ys h = tt
  All-take (x ∷ xs) ys h = (h.0, All-take xs ys h.1)

  pub All-without : (xs : List A) (a : A) (ys : List A) → All (xs ++ a ∷ ys) → All (xs ++ ys)
  All-without [] a ys h = h.1
  All-without (x ∷ xs) a ys h = (h.0, All-without xs a ys h.1)

pub All-map {ℓ κ μ} :
    {A : Type ℓ} {P : A → Type κ} {Q : A → Type μ} (xs : List A)
    → ((a : A) → P a → Q a)
    → All P xs
    → All Q xs
All-map [] f h = tt
All-map (x ∷ xs) f h = (f x h.0, All-map xs f h.1)

pub All-zip {ℓ κ μ ν} :
    {A : Type ℓ} {P : A → Type κ} {Q : A → Type μ} {R : A → Type ν} (xs : List A)
    → ((a : A) → P a → Q a → R a)
    → All P xs
    → All Q xs
    → All R xs
All-zip [] f h k = tt
All-zip (x ∷ xs) f h k = (f x h.0 k.0, All-zip xs f h.1 k.1)

-- Every two entries are related, the earlier one first.
module _ {ℓ κ} {A : Type ℓ} (R : A → A → Type κ) where
  abbrev pub Pairs : List A → Type κ
  Pairs [] = Unit
  Pairs (x ∷ xs) = All (R x) xs × Pairs xs

  pub Pairs-without : (xs : List A) (a : A) (ys : List A) → Pairs (xs ++ a ∷ ys) → Pairs (xs ++ ys)
  Pairs-without [] a ys h = h.1
  Pairs-without (x ∷ xs) a ys h = (All-without (R x) xs a ys h.0, Pairs-without xs a ys h.1)

  -- Under a symmetric relation, one entry is related to all the others.
  pub Pairs-others :
      (xs : List A) (a : A) (ys : List A)
      → ((x y : A) → R x y → R y x)
      → Pairs (xs ++ a ∷ ys)
      → All (R a) (xs ++ ys)
  Pairs-others [] a ys turn h = h.0
  Pairs-others (x ∷ xs) a ys turn h =
      (turn x a (All-drop (R x) xs (a ∷ ys) h.0).0, Pairs-others xs a ys turn h.1)

  pub Pairs-append :
      (xs ys : List A) → Pairs xs → Pairs ys → All (λ x. All (R x) ys) xs → Pairs (xs ++ ys)
  Pairs-append [] ys hx hy across = hy
  Pairs-append (x ∷ xs) ys hx hy across =
      (All-append (R x) xs ys hx.0 across.0, Pairs-append xs ys hx.1 hy across.1)
