-- ===== src/Prelude/Text.antt =====
-- Text as a list of character codes, and the decimal numbers of `printf` and `std::to_string`.
use Prim.Native.Nat.{ℕ, zero, suc, ◌+◌, ◌/◌, ◌%◌}
use Prim.Native.Char.{code}
use Prim.Native.String.{String}
use mathlib.Core.List.{List, [], ◌∷◌, ◌++◌}
use universal_system_program.Prelude.Tests.{ltb, if◌then◌else◌}
use universal_system_program.Prelude.Int.{ℤ, pos, negsuc}

abbrev pub codes : String → List ℕ
codes String.[] = []
codes (String.◌∷◌ c s) = code c ∷ codes s

-- The digits of `n`, of which there are at most `fuel`.
unfoldable pub digits_of : ℕ → ℕ → List ℕ
digits_of zero n = []
digits_of (suc f) n =
    let rest = digits_of f (n / 10) in
    if ltb n 10 then (48 + n) ∷ [] else rest ++ ((48 + n % 10) ∷ [])

-- `%u`: a 64-bit number has at most 20 digits.
unfoldable pub decimal : ℕ → List ℕ
unfolding digits_of
decimal n = digits_of 20 n

-- `%d`
unfoldable pub signed_decimal : ℤ → List ℕ
unfolding decimal
signed_decimal (pos n) = decimal n
signed_decimal (negsuc n) = 45 ∷ decimal (n + 1)
