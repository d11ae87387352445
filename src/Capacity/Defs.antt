-- ===== src/Capacity/Defs.antt =====
-- The code: `size_t` arithmetic and the rounding loop.
use universal_system_program.Prelude.{
  ℕ, zero, suc, ◌-◌, ◌+◌, ◌*◌, ◌%◌, ◌^◌, Option, none, some, bit_and, ltb, ◌==◌, if◌then◌else◌,
}

-- A `size_t` has 64 bits, and its arithmetic wraps.
abbrev pub size_mod : ℕ
size_mod = 2 ^ 64

abbrev pub add_size : ℕ → ℕ → ℕ
add_size a b = (a + b) % 2 ^ 64

abbrev pub sub_size : ℕ → ℕ → ℕ
sub_size a b = (a + 2 ^ 64 - b) % 2 ^ 64

-- `while (cap < size) cap <<= 1;` with fuel; `none` means that the fuel ran out.
unfoldable pub double_until : ℕ → ℕ → ℕ → Option ℕ
double_until zero cap size = none
double_until (suc f) cap size =
    let rest = double_until f (cap * 2 % 2 ^ 64) size in if ltb cap size then rest else some cap

-- `if (size < 2) size = 2;`
abbrev pub at_least_two : ℕ → ℕ
at_least_two size = if ltb size 2 then 2 else size

-- The whole rounding, with fuel for its loop.
unfoldable pub round_up : ℕ → ℕ → Option ℕ
round_up fuel size =
    let n = at_least_two size in
    if bit_and n (sub_size n 1) == 0 then some n else double_until fuel 1 n

-- `i & (size - 1)`
abbrev pub mask_index : ℕ → ℕ → ℕ
mask_index i size = bit_and i (sub_size size 1)
