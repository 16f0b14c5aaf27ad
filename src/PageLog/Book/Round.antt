-- ===== src/PageLog/Book/Round.antt =====
-- One round of the loop in `do_log_page_free` of huawei_log_page.c, in each of its cases.
use linux_project.Base.{
  ℕ, ◌+◌, ◌≤◌, ◌<◌, ◌≡◌, ◌⊎◌, refl, ap, sym, ◌∙◌, true, false, not, ◌&&◌, Option, none, some, List,
  ◌==◌, leb, ltb, if◌then◌else◌, Bool-cases, inl, inr, arith,
}
use linux_project.PageLog.Book.{Book, write, drop, split, free_from, free_round}
use linux_project.PageLog.Book.Edit.{
  IsKept, recorded, hit_inside, recorded_there, write-IsKept, recorded-write, drop-IsKept,
  recorded-drop, write-Clear,
}
use linux_project.PageLog.Book.Enter.{insert-IsKept, recorded-insert, alloc_some, alloc-IsKept}
use linux_project.PageLog.Pools.{free_record}
use linux_project.PageLog.Pools.Supply.{length}
use linux_project.PageLog.Tree.{LogPage, RbTree, find_lp, log_page_insert}
use linux_project.PageLog.Tree.Edit.{origin_of}
use linux_project.PageLog.Tree.Found.{holds}

pub Option-cases {ℓ} : {A : Type ℓ} (a : Option A) → (a ≡ none) ⊎ ((x : A) × (a ≡ some x))
Option-cases none = inl refl
Option-cases (some x) = inr (x, refl)

-- The frames from `lo` up to `hi` are no longer recorded, and nothing else has changed.
abbrev pub Forgets : Book → Book → ℕ → ℕ → Type 0
Forgets b b' lo hi = (p : ℕ) → recorded b' p ≡ (if leb lo p && ltb p hi then none else recorded b p)

-- A round has dealt with the frames from `start` up to the new `start`; or it has cut a block in two,
-- and so dealt with all that are left.
pub data Round (n : ℕ) (flying : List ℕ) (start end_page : ℕ) (b : Book) (start' : ℕ) (b' : Book)
    : Type 0 where
  advanced :
      IsKept n flying b'
      → start < start'
      → start' ≤ end_page
      → Forgets b b' start start'
      → length b.pool.free ≤ length b'.pool.free
      → Round n flying start end_page b start' b'
  halved :
      IsKept n flying b'
      → start' ≡ start
      → Forgets b b' start end_page
      → Round n flying start end_page b start' b'

-- The outcome of a round.
abbrev pub Goes :
    (n : ℕ) → List ℕ → RbTree → (start end_page : ℕ) → Book → Option (ℕ × Book) → Type 0
Goes n flying rb start end_page b r =
    (start' : ℕ) × (b' : Book) × (r ≡ some (start', b')) × Round n flying start end_page b start' b'

module _ {n : ℕ} {flying : List ℕ} {b : Book} (rb : RbTree) (start end_page : ℕ)
    (below : start < end_page) (kept : IsKept n flying b) where
  module _ (lp : LogPage) (hit : find_lp start b.tree ≡ some lp) where
    inside : (lp.start_page ≤ start) × (start < lp.end_page)
    inside = hit_inside start lp kept hit

    -- What a shorter block no longer holds.
    write-Forgets :
        (f : LogPage → LogPage) (lo hi : ℕ)
        → ((p : ℕ)
            → recorded (write lp.index f b) p
              ≡ (if holds lp p && not (holds (f lp) p) then none else recorded b p))
        → ((p : ℕ) → (holds lp p && not (holds (f lp) p)) ≡ (leb lo p && ltb p hi))
        → Forgets b (write lp.index f b) lo hi
    write-Forgets f lo hi changed window p =
        changed p ∙ ap (λ t. if t then none else recorded b p) (window p)

    front_cut :
        (start ≡ lp.start_page)
        → end_page < lp.end_page
        → Round n flying start end_page b end_page
            (write lp.index (λ x. record x { start_page = end_page }) b)
    front_cut same short =
        let f : LogPage → LogPage = λ x. record x { start_page = end_page } in
        let lo : lp.start_page ≤ end_page = omega (arith, inside) in
        let hi : lp.end_page ≤ lp.end_page = omega arith in
        advanced (write-IsKept start lp kept hit f refl refl lo hi short) below (omega arith)
          (write-Forgets f start end_page (recorded-write start lp kept hit f refl refl lo hi short)
            (λ p. ground arith))
          (omega arith)

    back_cut :
        lp.start_page < start
        → lp.end_page ≤ end_page
        → Round n flying start end_page b lp.end_page
            (write lp.index (λ x. record x { end_page = start }) b)
    back_cut later long =
        let f : LogPage → LogPage = λ x. record x { end_page = start } in
        let lo : lp.start_page ≤ lp.start_page = omega arith in
        let hi : start ≤ lp.end_page = omega (arith, inside) in
        advanced (write-IsKept start lp kept hit f refl refl lo hi later) (inside.1) long
          (write-Forgets f start lp.end_page
            (recorded-write start lp kept hit f refl refl lo hi later) (λ p. ground arith))
          (omega arith)

    whole :
        (start ≡ lp.start_page)
        → lp.end_page ≤ end_page
        → Round n flying start end_page b lp.end_page (drop rb lp b)
    unfolding free_record
    whole same long =
        advanced (drop-IsKept start lp kept hit rb) (inside.1) long
          (λ p.
            let window : holds lp p ≡ (leb start p && ltb p lp.end_page) = ground arith in
            recorded-drop start lp kept hit rb p
            ∙ ap (λ t. if t then none else recorded b p) window)
          (omega arith)

    halves :
        lp.start_page < start
        → end_page < lp.end_page
        → 0 < length b.pool.free
        → Goes n flying rb start end_page b (split rb start end_page lp b)
    unfolding split
    halves later short room =
        let (i, q, e) = alloc_some b.pool room in
        let f : LogPage → LogPage = λ x. record x { end_page = start } in
        let new : LogPage = record lp { index = i; start_page = end_page } in
        let lo : lp.start_page ≤ lp.start_page = omega arith in
        let hi : start ≤ lp.end_page = omega (arith, inside) in
        let cut : Book = write lp.index f b in
        let kept' =
          alloc-IsKept {b = cut} e (write-IsKept start lp kept hit f refl refl lo hi later) in
        let clear =
          write-Clear start lp kept hit f refl refl lo hi later new (omega arith) (omega arith)
            (omega arith) in
        (
          start,
          record { tree = log_page_insert rb new cut.tree; pool = q },
          rw (e, split) refl,
          halved (insert-IsKept rb new kept' short clear) refl (λ p.
              recorded-insert rb new kept' short clear p ∙ elim (Bool-cases (holds new p)) [
                | inl h ↦
                    let outside : (leb start p && ltb p end_page) ≡ false = ground arith in
                    rw (h, outside) (sym (recorded_there start lp kept hit p (ground arith)))
                | inr h ↦
                    let window : (holds lp p && not (holds (f lp) p))
                        ≡ (leb start p && ltb p end_page) =
                      ground arith in
                    rw h (
                      recorded-write start lp kept hit f refl refl lo hi later p
                      ∙ ap (λ t. if t then none else recorded b p) window)
              ]),
        )

    -- Every case of the comment in the source.
    free_from-Goes :
        0 < length b.pool.free
        → Goes n flying rb start end_page b (free_from rb start end_page lp b)
    unfolding free_from
    free_from-Goes room = elim (Bool-cases (start == lp.start_page)) [
      | inl a ↦
          let same : start ≡ lp.start_page = ground arith in
          elim (Bool-cases (ltb end_page lp.end_page)) [
            | inl c ↦ (
              end_page,
              write lp.index (λ x. record x { start_page = end_page }) b,
              rw (a, c) refl,
              front_cut same (ground arith),
            )
            | inr c ↦
                let long : lp.end_page ≤ end_page = ground arith in
                (lp.end_page, drop rb lp b, reached a c, whole same long)
          ]
      | inr a ↦
          let later : lp.start_page < start = ground (arith, inside) in
          elim (Bool-cases (ltb end_page lp.end_page)) [
            | inl c ↦ rw (a, c) (halves later (ground arith) room)
            | inr c ↦
                let long : lp.end_page ≤ end_page = ground arith in
                (
                  lp.end_page,
                  write lp.index (λ x. record x { end_page = start }) b,
                  reached' a c,
                  back_cut later long,
                )
          ]
    ]
      where
        reached :
            (start == lp.start_page) ≡ true
            → ltb end_page lp.end_page ≡ false
            → free_from rb start end_page lp b ≡ some (lp.end_page, drop rb lp b)
        reached a c = elim (Bool-cases (end_page == lp.end_page)) [
          | inl d ↦
              let e : end_page ≡ lp.end_page = ground arith in
              rw (a, c, d) (ap (λ (u : ℕ). some (u, drop rb lp b)) e)
          | inr d ↦ rw (a, c, d) refl
        ]

        reached' :
            (start == lp.start_page) ≡ false
            → ltb end_page lp.end_page ≡ false
            → free_from rb start end_page lp b
              ≡ some (lp.end_page, write lp.index (λ x. record x { end_page = start }) b)
        reached' a c = elim (Bool-cases (end_page == lp.end_page)) [
          | inl d ↦
              let e : end_page ≡ lp.end_page = ground arith in
              rw (a, c, d)
                (ap (λ (u : ℕ). some (u, write lp.index (λ x. record x { end_page = start }) b)) e)
          | inr d ↦ rw (a, c, d) refl
        ]

  missed : find_lp start b.tree ≡ none → Forgets b b start (start + 1)
  missed e p = elim (Bool-cases (p == start)) [
    | inl h ↦
        let same : p ≡ start = ground arith in
        let within : (leb start p && ltb p (start + 1)) ≡ true = ground arith in
        rw within (rw same (ap origin_of e))
    | inr h ↦
        let outside : (leb start p && ltb p (start + 1)) ≡ false = ground arith in rw outside refl
  ]

  pub free_round-Goes :
      0 < length b.pool.free → Goes n flying rb start end_page b (free_round rb start end_page b)
  unfolding free_round
  free_round-Goes room = elim (Option-cases (find_lp start b.tree)) [
    | inl e ↦ (
      start + 1,
      b,
      rw (e, free_round) refl,
      advanced kept (omega arith) (omega arith) (missed e) (omega arith),
    )
    | inr (lp, e) ↦ rw (e, free_round) (free_from-Goes lp e room)
  ]
