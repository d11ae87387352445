-- ===== src/OsUtil/Subnet.antt =====
-- `calc_subnet_prefix_len`: the length of the prefix that a subnet mask stands for.
pub mod Exact
mod Tests
use universal_system_program.Prelude.{
  ℕ, zero, suc, ◌+◌, ◌-◌, ◌*◌, ◌%◌, ◌^◌, Option, none, some, if◌then◌else◌, ◌==◌, bit_and, ℤ, pos,
  minus_one,
}
use universal_system_program.Prelude.Monad.{◌>>=◌}

-- `while (mask & 0x80000000) { len++; mask <<= 1; }` with fuel; `none` means that it ran out.
pub count_ones : ℕ → ℕ → ℕ → Option ℕ
count_ones zero mask len = none
count_ones (suc f) mask len =
    let rest = count_ones f (mask * 2 % 2 ^ 32) (len + 1) in
    if bit_and mask 0x80000000 == 0 then some len else rest

pub calc_subnet_prefix_len : ℕ → ℕ → Option ℤ
calc_subnet_prefix_len fuel mask =
    let inv = 2 ^ 32 - 1 - mask in
    if bit_and inv ((inv + 1) % 2 ^ 32) == 0
    then (do n ← count_ones fuel mask 0; some (pos n))
    else some minus_one
