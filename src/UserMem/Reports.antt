-- ===== src/UserMem/Reports.antt =====
-- Commands of huawei_user_space_mem.c that print what there is to print of a set of mappings.
use linux_project.Base.{
  Pairs, Pairs-append, Bool-cases, ◌==◌, subst, ℕ, zero, suc, ◌+◌, ◌≤◌, ◌<◌, ◌≡◌, refl, ap, sym,
  Bool, true, false, some, List, [], ◌∷◌, ◌++◌, append-nil, append_assoc, All, All-append, All-map,
  if◌then◌else◌, ◌⊎◌, inl, inr, arith,
}
use mathlib.Core.List.{Memᴰ}
use mathlib.Core.List.Memᴰ
use linux_project.UserMem.{
  title, PageSize, Line, mapped, Task, State, Cmd, skip, ◌>>◌, for_each, print_mapped,
}

abbrev pub Mappings : Type 1
Mappings = PageSize → ℕ → Type 0

abbrev pub IsLine : ℕ → Task → Mappings → Line → Type 0
IsLine paddr t Q l = (size : PageSize) × (v : ℕ) × (l ≡ mapped paddr t size v) × Q size v

-- The first line's address is the lower one.
abbrev pub Precedes : Line → Line → Type 0
Precedes title m = Unit
Precedes (mapped p t size v) title = Unit
Precedes (mapped p t size v) (mapped p' t' size' v') = v < v'

-- Every address of the first set lies below every one of the second.
abbrev pub Below : Mappings → Mappings → Type 0
Below Q R = (size size' : PageSize) (v v' : ℕ) → Q size v → R size' v' → v < v'

-- The lines are those of the mappings in the set.
pub record Shows (paddr : ℕ) (t : Task) (Q : Mappings) (ls : List Line) : Type 0 where
  pub sound : All (IsLine paddr t Q) ls
  pub ascending : Pairs Precedes ls
  pub complete : (size : PageSize) (v : ℕ) → Q size v → Memᴰ (mapped paddr t size v) ls

-- The command prints them for the task that is looked at, and changes nothing else.
abbrev pub Reports : ℕ → Task → Cmd → Mappings → Type 0
Reports paddr t c Q =
    (s : State)
    → s.now_task ≡ some t
    → (ls : List Line) × (c s ≡ some (record s { log = s.log ++ ls })) × Shows paddr t Q ls

module _ {paddr : ℕ} {t : Task} where
  pub skip-Reports : Reports paddr t skip (λ size v. ⊥)
  skip-Reports s now = (
    [],
    ap (λ l. some (record s { log = l })) (sym (append-nil s.log)),
    record { sound = tt; ascending = tt; complete = λ size v h. absurd h },
  )

  pub print_mapped-Reports :
      (size : PageSize) (v : ℕ)
      → Reports paddr t (print_mapped paddr size v) (λ size' v'. (size' ≡ size) × (v' ≡ v))
  unfolding print_mapped
  print_mapped-Reports size v s now = (
    mapped paddr t size v ∷ [],
    rw now refl,
    record {
      sound = ((size, v, refl, (refl, refl)), tt);
      ascending = (tt, tt);
      complete = λ size' v' h. Memᴰ.head (cc);
    },
  )

  pub Reports-weaken :
      {c : Cmd} {Q R : Mappings}
      → ((size : PageSize) (v : ℕ) → Q size v → R size v)
      → ((size : PageSize) (v : ℕ) → R size v → Q size v)
      → Reports paddr t c Q
      → Reports paddr t c R
  Reports-weaken {c} {Q} {R} to from h s now =
      let (ls, run, shows) = h s now in
      (
        ls,
        run,
        record {
          sound = All-map ls (λ l (size, v, e, q). (size, v, e, to size v q)) shows.sound;
          ascending = shows.ascending;
          complete = λ size v r. shows.complete size v (from size v r);
        },
      )

  Precedes-lines :
      {l m : Line} {size size' : PageSize} (v v' : ℕ)
      → l ≡ mapped paddr t size v
      → m ≡ mapped paddr t size' v'
      → v < v'
      → Precedes l m
  Precedes-lines v v' e e' h = rw (e, e') h

  pub Reports-then :
      {c d : Cmd} {Q R : Mappings}
      → Below Q R
      → Reports paddr t c Q
      → Reports paddr t d R
      → Reports paddr t (c >> d) (λ size v. Q size v ⊎ R size v)
  Reports-then {c} {d} {Q} {R} apart h k s now =
      let (ls, run, shows) = h s now in
      let (ms, run', shows') = k (record s { log = s.log ++ ls }) now in
      (
        ls ++ ms,
        rw (run, ◌>>◌, run', append_assoc s.log ls ms) refl,
        record {
          sound =
              All-append (IsLine paddr t (λ size v. Q size v ⊎ R size v)) ls ms
                (All-map ls (λ l (size, v, e, q). (size, v, e, inl q)) shows.sound)
                (All-map ms (λ l (size, v, e, q). (size, v, e, inr q)) shows'.sound);
          ascending = Pairs-append Precedes ls ms shows.ascending shows'.ascending (
              All-map ls
                (λ l (size, v, e, q).
                  All-map ms
                    (λ m (size', v', e', r). Precedes-lines v v' e e' (apart size size' v v' q r))
                    shows'.sound)
                shows.sound);
          complete = λ size v h. elim h [
            | inl q ↦ Memᴰ.append_left ms (shows.complete size v q)
            | inr q ↦ Memᴰ.append_right ls (shows'.complete size v q)
          ];
        },
      )

  -- A test in front of a command.
  pub Reports-if :
      {c : Cmd} {Q : Mappings} (b : Bool)
      → Reports paddr t c Q
      → Reports paddr t (if b then c else skip) (λ size v. (b ≡ true) × Q size v)
  Reports-if true h = Reports-weaken (λ size v q. (refl, q)) (λ size v q. q.1) h
  Reports-if false h =
      Reports-weaken (λ size v q. absurd q) (λ size v q. absurd (cc (q.0))) skip-Reports

  -- A loop prints what its rounds print.
  pub for_each-Reports :
      {body : ℕ → Cmd} {Q : ℕ → Mappings} (n i : ℕ)
      → ((j k : ℕ) → j < k → k < i + n → Below (Q j) (Q k))
      → ((j : ℕ) → j < i + n → Reports paddr t (body j) (Q j))
      → Reports paddr t (for_each n i body) (λ size v. (j : ℕ) × (i ≤ j) × (j < i + n) × Q j size v)
  unfolding for_each
  for_each-Reports zero i apart each =
      Reports-weaken (λ size v q. absurd q) (λ size v (j, lo, hi, q). absurd (omega arith))
        skip-Reports
  for_each-Reports {body} {Q} (suc n) i apart each =
      Reports-weaken
        (λ size v h. elim h [
          | inl q ↦ (i, omega arith, omega arith, q)
          | inr (j, lo, hi, q) ↦ (j, omega arith, omega arith, q)
        ])
        (λ size v (j, lo, hi, q). elim (Bool-cases (i == j)) [
          | inl e ↦ inl (let same : i ≡ j = ground arith in subst (λ u. Q u size v) (sym same) q)
          | inr e ↦ inr (j, ground arith, omega arith, q)
        ])
        (Reports-then
          (λ size size' v v' q (k, lo, hi, r).
            apart i k (omega arith) (omega arith) size size' v v' q r)
          (each i (omega arith))
          (for_each-Reports n (i + 1) (λ j k h l. apart j k h (omega arith))
            (λ j h. each j (omega arith))))
