-- ===== src/DataType/Mac.antt =====
-- data-type/mac.h: a MAC address, six bytes.
pub mod Order
mod Tests
use universal_system_program.Prelude.{
  ℕ, zero, ◌+◌, ◌*◌, ◌%◌, ◌^◌, Bool, true, false, not, ◌&&◌, if◌then◌else◌, ◌==◌, ltb, bit_and, ℤ,
  pos, negsuc, minus_one, List, [], ◌∷◌, get_or,
}

abbrev pub null_mac : List ℕ
null_mac = 0 ∷ 0 ∷ 0 ∷ 0 ∷ 0 ∷ 0 ∷ []

abbrev pub broadcast_mac : List ℕ
broadcast_mac = 0xFF ∷ 0xFF ∷ 0xFF ∷ 0xFF ∷ 0xFF ∷ 0xFF ∷ []

-- The sign of `memcmp` on blocks of one size.
unfoldable pub memcmp : List ℕ → List ℕ → ℤ
memcmp (x ∷ xs) (y ∷ ys) =
    let rest = memcmp xs ys in if x == y then rest else (if ltb x y then minus_one else pos 1)
memcmp _ _ = pos 0

abbrev pub is_zero : ℤ → Bool
is_zero (pos zero) = true
is_zero _ = false

abbrev pub is_negative : ℤ → Bool
is_negative (negsuc n) = true
is_negative _ = false

unfoldable pub equal : List ℕ → List ℕ → Bool
unfolding memcmp
equal a b = is_zero (memcmp a b)

unfoldable pub less : List ℕ → List ℕ → Bool
unfolding memcmp
less a b = is_negative (memcmp a b)

pub is_null : List ℕ → Bool
unfolding equal
is_null a = equal a null_mac

pub is_broadcast : List ℕ → Bool
unfolding equal
is_broadcast a = equal a broadcast_mac

pub is_multicast : List ℕ → Bool
is_multicast a =
    (get_or a 0 0 == 0x01)
    && (get_or a 1 0 == 0x00)
    && (get_or a 2 0 == 0x5E)
    && (bit_and (get_or a 3 0) 0x80 == 0x00)

-- `h = (h << 8) | byte` over the bytes; the shift leaves the low eight bits clear, so `|` adds.
unfoldable pub hash_from : ℕ → List ℕ → ℕ
hash_from h [] = h
hash_from h (x ∷ xs) = hash_from (h * 256 % 2 ^ 64 + x) xs

unfoldable pub hash : List ℕ → ℕ
unfolding hash_from
hash a = hash_from 0 a
