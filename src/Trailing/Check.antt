-- ===== src/Trailing/Check.antt =====
-- The scans of the zone list in mem_overflow_del_firstiso/code/mem_overflow_check.c: `check_iso`, the
-- kernel thread that runs it, and the report through /proc.
pub mod Reports
pub mod Detect
pub mod Rounds
use linux_project.Base.{Bool, true, List, [], ◌∷◌, ◌++◌, if◌then◌else◌}
use linux_project.Kernel.{
  Addr, Bytes, State, Cmd, Message, overflow_banner, more_information, blank_line, pure, ◌>>=◌,
  ◌>>◌, modify, spin_lock, spin_unlock,
}
use linux_project.Kernel.Memory.{is_broken}
use linux_project.Trailing.{Zone}

abbrev pub is_changed : Bytes → Zone → Bool
is_changed m z = is_broken z.size z.addr m

-- The body of the loop in `check_iso`: the entry as it is left, and what is printed.
unfoldable pub check_zone : Bytes → (Addr → Addr) → Zone → Zone × List Message
check_zone m symbols z =
    if z.flag
    then (z, [])
    else if is_changed m z
    then (record z { flag = true }, overflow_banner ∷ more_information (symbols z.callerinfo) ∷ [])
    else (z, [])

-- `list_for_each(pos, &iso_head)`; on an empty list the loop does nothing, as the test for
-- `list_empty` before it would have it.
unfoldable pub check_zones : Bytes → (Addr → Addr) → List Zone → List Zone × List Message
check_zones m symbols [] = ([], [])
check_zones m symbols (z ∷ zs) =
    let (z', out) = check_zone m symbols z in
    let (zs', rest) = check_zones m symbols zs in (z' ∷ zs', out ++ rest)

unfoldable pub check_iso : Cmd Zone (Unit {0})
check_iso = do
  spin_lock
  modify λ s.
      let (zones', out) = check_zones s.bytes s.symbols s.zones in
      record s { zones = zones'; log = s.log ++ out }
  spin_unlock

-- The body of the loop in `my_seq_show`: it leaves the flag alone, and ends the line of every entry
-- that it has looked at.
unfoldable pub show_zone : Bytes → (Addr → Addr) → Zone → List Message
show_zone m symbols z =
    if z.flag
    then []
    else if is_changed m z
    then overflow_banner ∷ more_information (symbols z.callerinfo) ∷ blank_line ∷ []
    else blank_line ∷ []

unfoldable pub show_zones : Bytes → (Addr → Addr) → List Zone → List Message
show_zones m symbols [] = []
show_zones m symbols (z ∷ zs) = show_zone m symbols z ++ show_zones m symbols zs

-- What `my_seq_show` writes into the file.
unfoldable pub my_seq_show : Cmd Zone (List Message)
my_seq_show = do
  spin_lock
  out ← λ s. pure (show_zones s.bytes s.symbols s.zones) s
  spin_unlock
  pure out

-- `checklist_func`: a round for each time that `kthread_should_stop` says no. An entry of the list is
-- what the other threads do while this one sleeps for a second.
unfoldable pub checklist_func : List (State Zone → State Zone) → Cmd Zone (Unit {0})
checklist_func [] = pure tt
checklist_func (meanwhile ∷ rounds) = do modify meanwhile; check_iso; checklist_func rounds
