-- ===== src/PageLog/Tree/Found.antt =====
-- What `find_lp` of huawei_log_page.c finds: the recorded block that holds the frame.
use linux_project.Base.{
  ℕ, ◌≤◌, ◌<◌, ◌≡◌, refl, ap, sym, ◌∙◌, Bool, true, false, ◌&&◌, inl, inr, Option, none, some, List,
  [], ◌∷◌, ◌++◌, leb, ltb, if◌then◌else◌, All, All-drop, All-take, All-map, Bool-cases, arith,
}
use linux_project.PageLog.Tree.{
  LogPage, Tree, RbTree, leaf, node, inorder, find_lp, link, log_page_insert,
}
use linux_project.PageLog.Tree.Order.{
  Before, IsProper, IsOrdered, IsSearch, Clear, inorder-IsSearch, inorder-IsOrdered, link-IsSearch,
}

abbrev pub holds : LogPage → ℕ → Bool
holds lp p = leb lp.start_page p && ltb p lp.end_page

-- The reference: the first entry that holds the frame.
abbrev pub lookup : ℕ → List LogPage → Option LogPage
lookup p [] = none
lookup p (x ∷ xs) = if holds x p then some x else lookup p xs

abbrev pub or_else : Option LogPage → Option LogPage → Option LogPage
or_else none b = b
or_else (some x) b = some x

or_else-none : (a : Option LogPage) → or_else a none ≡ a
or_else-none none = refl
or_else-none (some x) = refl

pub lookup-append :
    (p : ℕ) (xs ys : List LogPage) → lookup p (xs ++ ys) ≡ or_else (lookup p xs) (lookup p ys)
lookup-append p [] ys = refl
lookup-append p (x ∷ xs) ys = elim (Bool-cases (holds x p)) [
  | inl e ↦ rw e refl
  | inr e ↦ rw e (lookup-append p xs ys)
]

pub lookup-none : (p : ℕ) (xs : List LogPage) → All (λ x. holds x p ≡ false) xs → lookup p xs ≡ none
lookup-none p [] h = refl
lookup-none p (x ∷ xs) h = rw h.0 (lookup-none p xs h.1)

module _ (p : ℕ) (x : LogPage) (proper : IsProper x) where
  missed_left :
      (xs : List LogPage) → All (λ y. Before y x) xs → x.start_page ≤ p → lookup p xs ≡ none
  missed_left xs h at = lookup-none p xs (All-map xs (λ y b. ground (arith, b)) h)

  missed_right : (xs : List LogPage) → All (Before x) xs → p < x.end_page → lookup p xs ≡ none
  missed_right xs h at = lookup-none p xs (All-map xs (λ y b. ground (arith, b)) h)

find_lp-search : (p : ℕ) (t : Tree) → IsSearch t → find_lp p t ≡ lookup p (inorder t)
unfolding find_lp
find_lp-search p leaf h = refl
find_lp-search p (node l x r) h =
    let proper : x.start_page < x.end_page = h.1 in
    let split = lookup-append p (inorder l) (x ∷ inorder r) in
    elim (Bool-cases (ltb p x.start_page)) [
      | inl e ↦
          let out : holds x p ≡ false = ground arith in
          let right = missed_right p x h.1 (inorder r) h.3 (ground arith) in
          rw (e, split, out, right)
            (find_lp-search p l h.0.0 ∙ sym (or_else-none (lookup p (inorder l))))
      | inr e ↦
          let left = missed_left p x h.1 (inorder l) h.2 (ground arith) in
          elim (Bool-cases (leb x.end_page p)) [
            | inl f ↦
                let out : holds x p ≡ false = ground arith in
                rw (e, f, split, left, out) (find_lp-search p r h.0.1)
            | inr f ↦ let hit : holds x p ≡ true = ground arith in rw (e, f, split, left, hit) refl
          ]
    ]

-- In an ordered tree, however it is balanced, `find_lp` finds the same block as a search through all
-- entries one after the other: the one that holds the frame, if any does.
pub find_lp-lookup : (p : ℕ) (t : Tree) → IsOrdered (inorder t) → find_lp p t ≡ lookup p (inorder t)
find_lp-lookup p t h = find_lp-search p t (inorder-IsSearch t h)

-- Where the new block holds the frame, no entry that is clear of it does.
lookup-Clear :
    (p : ℕ) (lp : LogPage) (xs : List LogPage)
    → holds lp p ≡ true
    → All (Clear lp) xs
    → lookup p xs ≡ none
lookup-Clear p lp xs e h = lookup-none p xs (All-map xs (λ y c. ground (arith, c)) h)

lookup-link :
    (p : ℕ) (lp : LogPage) (t : Tree)
    → All (Clear lp) (inorder t)
    → lookup p (inorder (link lp t)) ≡ (if holds lp p then some lp else lookup p (inorder t))
unfolding link
lookup-link p lp leaf h = refl
lookup-link p lp (node l x r) h = elim (Bool-cases (leb lp.end_page x.start_page)) [
  | inl e ↦
      let go = lookup-link p lp l (All-take (Clear lp) (inorder l) (x ∷ inorder r) h) in
      let new = lookup-append p (inorder (link lp l)) (x ∷ inorder r) in
      let old = lookup-append p (inorder l) (x ∷ inorder r) in
      elim (Bool-cases (holds lp p)) [
        | inl c ↦ rw (e, new, go, c) refl
        | inr c ↦ rw (e, new, go, c, old) refl
      ]
  | inr e ↦
      let rest = All-drop (Clear lp) (inorder l) (x ∷ inorder r) h in
      let go = lookup-link p lp r rest.1 in
      let new = lookup-append p (inorder l) (x ∷ inorder (link lp r)) in
      let old = lookup-append p (inorder l) (x ∷ inorder r) in
      elim (Bool-cases (holds lp p)) [
        | inl c ↦
            let none_left =
              lookup-Clear p lp (inorder l) c (All-take (Clear lp) (inorder l) (x ∷ inorder r) h) in
            let out : holds x p ≡ false = ground (arith, rest.0) in
            rw (e, new, none_left, out, go, c) refl
        | inr c ↦ rw (e, new, go, c, old) refl
      ]
]

-- Whatever rebalancing does, as long as it keeps the order of the entries: a block that overlaps none
-- of those recorded is entered so that the tree stays ordered, `find_lp` answers the new block for
-- each of its frames, and the same as before for every other frame.
pub find_lp-log_page_insert :
    (rb : RbTree) (lp : LogPage) (t : Tree)
    → IsProper lp
    → IsOrdered (inorder t)
    → All (Clear lp) (inorder t)
    → let u : Tree = log_page_insert rb lp t in
      IsOrdered (inorder u)
      × ((p : ℕ) → find_lp p u ≡ (if holds lp p then some lp else find_lp p t))
unfolding log_page_insert
find_lp-log_page_insert rb lp t proper ordered clear =
    let keeps = rb.inorder-rb_insert_color (link lp t) in
    let linked : IsOrdered (inorder (link lp t)) =
      inorder-IsOrdered (link lp t)
        (link-IsSearch lp t proper (inorder-IsSearch t ordered) clear) in
    let whole : IsOrdered (inorder (rb.rb_insert_color (link lp t))) = rw keeps linked in
    (
      whole,
      λ p.
          find_lp-lookup p (rb.rb_insert_color (link lp t)) whole
          ∙ ap (lookup p) keeps
          ∙ lookup-link p lp t clear
          ∙ ap (λ a. if holds lp p then some lp else a) (sym (find_lp-lookup p t ordered)),
    )
