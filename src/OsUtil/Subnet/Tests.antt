-- ===== src/OsUtil/Subnet/Tests.antt =====
-- `calc_subnet_prefix_len` on a few masks.
use universal_system_program.Prelude.{ℕ, ◌≤◌, ◌≡◌, ◌≢◌, ◌⊎◌, refl, some, pos, minus_one, arith}
use universal_system_program.OsUtil.Subnet.{count_ones, calc_subnet_prefix_len}
use universal_system_program.OsUtil.Subnet.Exact.{netmask, calc_subnet_prefix_len-Exact}

calc_24 : calc_subnet_prefix_len 33 0xFFFFFF00 ≡ some (pos 24)
unfolding calc_subnet_prefix_len count_ones
calc_24 = refl

calc_0 : calc_subnet_prefix_len 33 0 ≡ some (pos 0)
unfolding calc_subnet_prefix_len count_ones
calc_0 = refl

calc_split : calc_subnet_prefix_len 33 0xFF00FF00 ≡ some minus_one
unfolding calc_subnet_prefix_len count_ones
calc_split = refl

calc_subnet_prefix_len-Exact_example :
    ((n : ℕ) × (n ≤ 32)
      × (0xFFFFFF00 ≡ netmask n)
      × (calc_subnet_prefix_len 33 0xFFFFFF00 ≡ some (pos n)))
    ⊎ (((n : ℕ) → n ≤ 32 → 0xFFFFFF00 ≢ netmask n)
        × (calc_subnet_prefix_len 33 0xFFFFFF00 ≡ some minus_one))
calc_subnet_prefix_len-Exact_example =
    calc_subnet_prefix_len-Exact 33 0xFFFFFF00 (omega arith) (omega arith)
