-- ===== src/Overflow/Check/Reports.antt =====
-- `check_iso` and `my_seq_show` as functions of the state, for any list of zones.
use mathlib.Core.List.{Mem, mem-append_right, mem-cons_self, mem-cons_of_mem}
use linux_project.Base.{
  ◌≡◌, refl, sym, true, false, List, [], ◌∷◌, ◌++◌, if◌then◌else◌, All, All-append, Bool-cases, inl,
  inr, arith,
}
use linux_project.Kernel.{Addr, Bytes, State, ok, overflow_banner, more_information, blank_line}
use linux_project.Kernel.Steps.{spin_lock-ok, spin_unlock-ok}
use linux_project.Overflow.{Zone}
use linux_project.Overflow.Check.{
  is_changed, check_zone, check_zones, check_iso, show_zone, show_zones, my_seq_show,
}

-- The state that a scan leaves.
abbrev pub checked : State Zone → State Zone
checked s = record s {
  zones = (check_zones s.bytes s.symbols s.zones).0;
  locked = false;
  log = s.log ++ (check_zones s.bytes s.symbols s.zones).1;
}

pub check_iso-ok : (s : State Zone) → s.locked ≡ false → check_iso s ≡ ok tt (checked s)
unfolding check_iso
check_iso-ok s unlocked = rw (spin_lock-ok s unlocked, spin_unlock-ok)

-- The report through /proc leaves the state as it was.
pub my_seq_show-ok :
    (s : State Zone)
    → s.locked ≡ false
    → my_seq_show s ≡ ok (show_zones s.bytes s.symbols s.zones) s
unfolding my_seq_show
my_seq_show-ok s unlocked =
    rw (spin_lock-ok s unlocked, spin_unlock-ok)
      (λ i. ok (show_zones s.bytes s.symbols s.zones) (record s { locked = sym unlocked i }))

module _ (m : Bytes) (u : Addr → Addr) where
  -- An entry that is not flagged and whose zone has changed is reported, wherever it stands.
  pub check_zones-reports :
      (xs : List Zone) (z : Zone) (ys : List Zone)
      → z.flag ≡ false
      → is_changed m z ≡ true
      → Mem (more_information (u z.callerinfo)) (check_zones m u (xs ++ z ∷ ys)).1
  unfolding check_zones check_zone
  check_zones-reports [] z ys f c = rw (f, c) (mem-cons_of_mem overflow_banner mem-cons_self)
  check_zones-reports (x ∷ xs) z ys f c =
      mem-append_right (check_zone m u x).1 (check_zones-reports xs z ys f c)

  -- A scan that finds every zone as it was filled changes nothing and prints nothing.
  pub check_zones-quiet :
      (zs : List Zone) → All (λ z. is_changed m z ≡ false) zs → check_zones m u zs ≡ (zs, [])
  unfolding check_zones check_zone
  check_zones-quiet [] h = refl
  check_zones-quiet (z ∷ zs) h = ground (arith, check_zones-quiet zs h.1)

  -- A second scan of what the first one left.
  pub check_zones-twice :
      (zs : List Zone) → check_zones m u (check_zones m u zs).0 ≡ ((check_zones m u zs).0, [])
  unfolding check_zones check_zone
  check_zones-twice [] = refl
  check_zones-twice (z ∷ zs) = ground (arith, check_zones-twice zs)

  show_zone-check_zone :
      (z : Zone)
      → show_zone m u (check_zone m u z).0
        ≡ (if z.flag then [] else if is_changed m z then [] else blank_line ∷ [])
  unfolding check_zone show_zone
  show_zone-check_zone z = ground arith

  show_zone-blank : (z : Zone) → All (λ k. k ≡ blank_line) (show_zone m u (check_zone m u z).0)
  show_zone-blank z = rw (show_zone-check_zone z) (elim (Bool-cases z.flag) [
    | inl f ↦ rw f tt
    | inr f ↦ elim (Bool-cases (is_changed m z)) [
      | inl c ↦ rw (f, c) tt
      | inr c ↦ rw (f, c) (refl, tt)
    ]
  ])

  -- After a scan, the report through /proc has nothing but ends of lines.
  pub show_zones-check_zones :
      (zs : List Zone) → All (λ k. k ≡ blank_line) (show_zones m u (check_zones m u zs).0)
  unfolding check_zones show_zones
  show_zones-check_zones [] = tt
  show_zones-check_zones (z ∷ zs) =
      All-append (λ k. k ≡ blank_line) (show_zone m u (check_zone m u z).0)
        (show_zones m u (check_zones m u zs).0) (show_zone-blank z) (show_zones-check_zones zs)
