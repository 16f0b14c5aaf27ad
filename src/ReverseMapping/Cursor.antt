-- ===== src/ReverseMapping/Cursor.antt =====
-- Reading /proc/rmap of reverse_mapping.c from its start to its end.
use linux_project.Base.{
  subst, if_of_true, if_of_false, ℕ, zero, suc, ◌+◌, ◌^◌, ◌<◌, ◌≡◌, refl, ap, sym, true, false,
  Option, none, some, List, [], ◌++◌, leb, arith,
}
use linux_project.ReverseMapping.{
  Machine, Line, handler_seq_start, handler_seq_next, handler_seq_show, int_as_long,
}

-- One reading: an entry is shown, and then the cursor is moved, until there is no entry.
pub data Read (machine : Machine) : Option ℕ → List Line → Type 0 where
  ended : Read machine none []
  shown :
      {pos : ℕ} {ls : List Line}
      → Read machine (handler_seq_next machine pos).0 ls
      → Read machine (some pos) (handler_seq_show machine pos ++ ls)

-- The entries of `n` frames from `pos` on.
abbrev pub entries : Machine → (n pos : ℕ) → List Line
entries machine zero pos = []
entries machine (suc n) pos = handler_seq_show machine pos ++ entries machine n (pos + 1)

Read-Read :
    (machine : Machine) {o : Option ℕ} {ls ms : List Line}
    → Read machine o ls
    → Read machine o ms
    → ms ≡ ls
Read-Read machine ended ended = refl
Read-Read machine (shown {pos} r) (shown r') =
    ap (λ l. handler_seq_show machine pos ++ l) (Read-Read machine r r')

entries-Read :
    (machine : Machine) (n pos : ℕ)
    → pos + n ≡ machine.totalram_pages
    → Read machine (some pos) (entries machine (suc n) pos)
unfolding handler_seq_next
entries-Read machine zero pos e =
    let past : leb (pos + 1) machine.totalram_pages ≡ false = ground arith in
    shown (subst (λ o. Read machine o []) (sym (if_of_false _ _ past)) ended)
entries-Read machine (suc n) pos e =
    let within : leb (pos + 1) machine.totalram_pages ≡ true = ground arith in
    shown (
      subst (λ o. Read machine o (entries machine (suc n) (pos + 1))) (sym (if_of_true _ _ within))
        (entries-Read machine n (pos + 1) (omega arith)))

-- Up to 2 ^ 31 page frames: a reading that is started at a frame up to `totalram_pages` comes to an end,
-- and what it has shown are the entries of all frames from there up to and with `totalram_pages`, each
-- once.
pub read_lem :
    (machine : Machine) (n pos : ℕ)
    → pos + n ≡ machine.totalram_pages
    → machine.totalram_pages < 2 ^ 31
    → Read machine (handler_seq_start machine pos) (entries machine (suc n) pos)
      × ((ls : List Line)
          → Read machine (handler_seq_start machine pos) ls
          → ls ≡ entries machine (suc n) pos)
unfolding handler_seq_start
read_lem machine n pos e small =
    let within : leb (int_as_long pos) machine.totalram_pages ≡ true = ground arith in
    let whole =
      subst (λ o. Read machine o (entries machine (suc n) pos)) (sym (if_of_true _ _ within))
        (entries-Read machine n pos e) in
    (whole, λ ls r. Read-Read machine whole r)
