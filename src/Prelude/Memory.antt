-- ===== src/Prelude/Memory.antt =====
-- Byte arrays of a fixed size, and `memcpy` into and out of them.
use Prim.Native.Nat.{ℕ, zero, suc, ◌+◌, ◌≤◌, ◌<◌}
use mathlib.Core.Path.{◌≡◌, refl, ap, ap₂, ◌∙◌}
use mathlib.Core.Bool.{◌&&◌}
use mathlib.Core.List.{List, [], ◌∷◌}
use mathlib.Core.Option.{Option, none, some}
use native.Mathlib.Omega.{arith}
use universal_system_program.Prelude.Tests.{ltb, leb, if◌then◌else◌}
use universal_system_program.Prelude.Lists.{length, take, get_or}

-- The bytes of an array by index. What an index past the array's end gives is never used.
abbrev pub Bytes : Type 0
Bytes = ℕ → ℕ

-- `memcpy(dst, src, len)` into an array of `cap` bytes. `none` is undefined behaviour: a read
-- past the caller's bytes, or a write past the array.
abbrev pub memcpy : ℕ → Bytes → List ℕ → ℕ → Option Bytes
memcpy cap dst src len =
    if leb len (length src) && leb len cap
    then some (λ i. if ltb i len then get_or src i 0 else dst i)
    else none

-- The `n` bytes from index `i` on, as `memcpy` hands them out.
unfoldable pub bytes_from : Bytes → ℕ → ℕ → List ℕ
bytes_from f i zero = []
bytes_from f i (suc n) = f i ∷ bytes_from f (i + 1) n

pub length-bytes_from : (f : Bytes) (i n : ℕ) → length (bytes_from f i n) ≡ n
unfolding bytes_from
length-bytes_from f i zero = refl
length-bytes_from f i (suc n) = ap suc (length-bytes_from f (i + 1) n)

pub take-bytes_from : (f : Bytes) (i m n : ℕ) → m ≤ n → take m (bytes_from f i n) ≡ bytes_from f i m
unfolding bytes_from
take-bytes_from f i zero n h = refl
take-bytes_from f i (suc m) zero h = absurd (omega arith)
take-bytes_from f i (suc m) (suc n) h =
    ap (λ ys. f i ∷ ys) (take-bytes_from f (i + 1) m n (omega arith))

-- An array that agrees with a list from index `i` on hands out the list's prefix.
pub bytes_from-eq-take :
    (f : Bytes) (i n : ℕ) (xs : List ℕ)
    → n ≤ length xs
    → ((j : ℕ) → j < n → f (i + j) ≡ get_or xs j 0)
    → bytes_from f i n ≡ take n xs
unfolding bytes_from
bytes_from-eq-take f i zero xs h same = refl
bytes_from-eq-take f i (suc n) [] h same = absurd (omega arith)
bytes_from-eq-take f i (suc n) (x ∷ xs) h same =
    ap₂ ◌∷◌ (ap f (omega arith) ∙ same 0 (omega arith)) (
      bytes_from-eq-take f (i + 1) n xs (omega arith)
        (λ j lt. ap f (omega arith) ∙ same (suc j) (omega arith)))
