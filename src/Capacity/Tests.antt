-- ===== src/Capacity/Tests.antt =====
-- The rounding at small and at extreme sizes.
use universal_system_program.Prelude.{ℕ, ◌+◌, ◌^◌, ◌≤◌, ◌≡◌, refl, none, some, arith}
use universal_system_program.Capacity.Defs.{double_until, round_up}
use universal_system_program.Capacity.Rounding.{round_up-least, round_up-diverges}

rounded :
    (round_up 64 0 ≡ some 2)
    × (round_up 64 5 ≡ some 8)
    × (round_up 64 8 ≡ some 8)
    × (round_up 64 (2 ^ 63) ≡ some (2 ^ 63))
    × (round_up 64 (2 ^ 63 + 1) ≡ none)
unfolding round_up double_until
rounded = (refl, refl, refl, refl, refl)

round_up-least_example :
    (k : ℕ) × (round_up 64 5 ≡ some (2 ^ k))
    × (1 ≤ k)
    × (k ≤ 63)
    × (5 ≤ 2 ^ k)
    × ((m : ℕ) → 1 ≤ m → 5 ≤ 2 ^ m → 2 ^ k ≤ 2 ^ m)
round_up-least_example = round_up-least 64 5 (omega arith) (omega arith)

round_up-diverges_example : round_up 1000 (2 ^ 63 + 1) ≡ none
round_up-diverges_example = round_up-diverges 1000 (2 ^ 63 + 1) (omega arith) (omega arith)
