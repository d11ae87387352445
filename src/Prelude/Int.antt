-- ===== src/Prelude/Int.antt =====
-- Signed results: the `int32_t` and `int` that the functions return.
use Prim.Native.Nat.{ℕ, ◌-◌, ◌%◌, ◌^◌, ◌<◌}
use mathlib.Core.Path.{◌≡◌}
use native.Mathlib.Omega.{arith}
use universal_system_program.Prelude.Tests.{ltb, if◌then◌else◌}

-- `negsuc n` is -(n + 1).
pub data ℤ : Type 0 where
  pos : ℕ → ℤ
  negsuc : ℕ → ℤ

abbrev pub minus_one : ℤ
minus_one = negsuc 0

-- `static_cast<int32_t>` of a `size_t`: the low 32 bits, read in two's complement.
abbrev pub to_int32 : ℕ → ℤ
to_int32 n = let m = n % 2 ^ 32 in if ltb m (2 ^ 31) then pos m else negsuc (2 ^ 32 - m - 1)

-- The same for an `int16_t`.
abbrev pub to_int16 : ℕ → ℤ
to_int16 n = let m = n % 2 ^ 16 in if ltb m (2 ^ 15) then pos m else negsuc (2 ^ 16 - m - 1)

-- `a - b` of two small numbers in an `int`.
abbrev pub sub_int : ℕ → ℕ → ℤ
sub_int a b = if ltb a b then negsuc (b - a - 1) else pos (a - b)

pub to_int32_small : (n : ℕ) → n < 2 ^ 31 → to_int32 n ≡ pos n
to_int32_small n h = ground arith
