-- ===== src/Trailing/Check/Reports.antt =====
-- `check_iso` of mem_overflow_del_firstiso/code/mem_overflow_check.c as a function of the state.
use mathlib.Core.List.{Mem, mem-append_right, mem-cons_self, mem-cons_of_mem}
use linux_project.Base.{
  ◌≡◌, refl, ap, sym, ◌∙◌, true, false, List, [], ◌∷◌, ◌++◌, append-nil, All, arith,
}
use linux_project.Kernel.{Addr, Bytes, State, ok, Message, overflow_banner, more_information}
use linux_project.Kernel.Steps.{spin_lock-ok, spin_unlock-ok}
use linux_project.Trailing.{Zone}
use linux_project.Trailing.Check.{is_changed, check_zone, check_zones, check_iso}

-- The state that a scan leaves.
abbrev pub checked : State Zone → State Zone
checked s = record s {
  zones = (check_zones s.bytes s.symbols s.zones).0;
  locked = false;
  log = s.log ++ (check_zones s.bytes s.symbols s.zones).1;
}

pub check_iso-ok : (s : State Zone) → s.locked ≡ false → check_iso s ≡ ok tt (checked s)
unfolding check_iso
check_iso-ok s unlocked = rw (spin_lock-ok s unlocked, spin_unlock-ok)

module _ (m : Bytes) (u : Addr → Addr) where
  -- An entry that is not flagged and whose zone has changed is reported, wherever it stands.
  pub check_zones-reports :
      (xs : List Zone) (z : Zone) (ys : List Zone)
      → z.flag ≡ false
      → is_changed m z ≡ true
      → Mem (more_information (u z.callerinfo)) (check_zones m u (xs ++ z ∷ ys)).1
  unfolding check_zones check_zone
  check_zones-reports [] z ys f c = rw (f, c) (mem-cons_of_mem overflow_banner mem-cons_self)
  check_zones-reports (x ∷ xs) z ys f c =
      mem-append_right (check_zone m u x).1 (check_zones-reports xs z ys f c)

  check_zones-quiet :
      (zs : List Zone) → All (λ z. is_changed m z ≡ false) zs → check_zones m u zs ≡ (zs, [])
  unfolding check_zones check_zone
  check_zones-quiet [] h = refl
  check_zones-quiet (z ∷ zs) h = ground (arith, check_zones-quiet zs h.1)

-- A scan that meets no change leaves the state as it is.
pub checked_same :
    (s : State Zone)
    → s.locked ≡ false
    → All (λ z. is_changed s.bytes z ≡ false) s.zones
    → checked s ≡ s
checked_same s unlocked h =
    let e : check_zones s.bytes s.symbols s.zones ≡ (s.zones, []) =
      check_zones-quiet s.bytes s.symbols s.zones h in
    let silent : s.log ++ (check_zones s.bytes s.symbols s.zones).1 ≡ s.log =
      ap (λ (o : List Zone × List Message). s.log ++ o.1) e ∙ append-nil s.log in
    λ i. record s { zones = (e i).0; locked = sym unlocked i; log = silent i }
