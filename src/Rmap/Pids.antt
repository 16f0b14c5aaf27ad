-- ===== src/Rmap/Pids.antt =====
-- The array of pids in mem_leak/rmap/rmap.c.
use linux_project.Base.{
  ℕ, zero, suc, ◌-◌, ◌^◌, Option, none, some, List, [], ◌∷◌, ◌==◌, if◌then◌else◌,
}

abbrev pub vm_num : ℕ
vm_num = 20

-- The `int` -1 marks a free place.
abbrev pub free_place : ℕ
free_place = 2 ^ 32 - 1

abbrev pub replicate : ℕ → ℕ → List ℕ
replicate zero x = []
replicate (suc n) x = x ∷ replicate n x

unfoldable pub init_pid_arr : List ℕ
init_pid_arr = replicate vm_num free_place

-- The loop ends at a free place, at the pid, or behind the array; the answer is 1 in the first two cases.
unfoldable pub check_exist : ℕ → List ℕ → ℕ
check_exist id [] = 0
check_exist id (x ∷ xs) =
    let rest = check_exist id xs in if x == free_place then 1 else if x == id then 1 else rest

-- `pid_arr[i]` is read before `i` is compared with the length of the array: none is the read behind it.
unfoldable pub insert_arr : ℕ → List ℕ → Option (List ℕ)
insert_arr id [] = none
insert_arr id (x ∷ xs) =
    let rest = insert_arr id xs in
    if x == free_place then some (id ∷ xs) else elim rest [ none ↦ none | some ys ↦ some (x ∷ ys) ]
