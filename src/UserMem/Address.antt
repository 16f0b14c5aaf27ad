-- ===== src/UserMem/Address.antt =====
-- The indices that make up an address of huawei_user_space_mem.c.
use linux_project.Base.{ℕ, ◌/◌, ◌%◌, ◌^◌, ◌<◌, ◌≡◌, arith}
use linux_project.UserMem.Walk.{at_indices}

-- The indices are found in the address again, which lies in user space.
pub indices_of :
    (g u m e : ℕ)
    → g < 256
    → u < 512
    → m < 512
    → e < 512
    → let v = at_indices g u m e in
      (v < 2 ^ 47)
      × (v / 2 ^ 39 % 512 ≡ g)
      × (v / 2 ^ 30 % 512 ≡ u)
      × (v / 2 ^ 21 % 512 ≡ m)
      × (v / 2 ^ 12 % 512 ≡ e)
      × (v % 2 ^ 12 ≡ 0)
indices_of g u m e hg hu hm he = omega arith

-- The address of a page is made up of its indices.
pub of_indices :
    (v : ℕ)
    → v < 2 ^ 47
    → v % 2 ^ 12 ≡ 0
    → v ≡ at_indices (v / 2 ^ 39 % 512) (v / 2 ^ 30 % 512) (v / 2 ^ 21 % 512) (v / 2 ^ 12 % 512)
of_indices v h a = omega arith

pub top_index : (v : ℕ) → v < 2 ^ 47 → v / 2 ^ 39 % 512 < 256
top_index v h = omega arith
