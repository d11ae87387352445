-- ===== src/DataFormat/Wire.antt =====
-- The memory of a packet, and the byte order of `ntohs`, `htons` and `ntohl` (arpa/inet.h). The
-- host's order is a parameter, so what is proved holds on every platform.
use universal_system_program.Prelude.{
  ℕ, zero, suc, List, [], ◌∷◌, get_or, ◌+◌, ◌*◌, ◌/◌, ◌%◌, ◌^◌, ◌<◌, ◌≡◌, ◌≢◌, refl, if◌then◌else◌,
  ◌==◌, Bytes, arith, fun_ext,
}

pub data Endian : Type 0 where
  little big : Endian

-- Every cell is a byte.
abbrev pub IsBytes : Bytes → Type 0
IsBytes m = (p : ℕ) → m p < 256

abbrev pub update : Bytes → ℕ → ℕ → Bytes
update m p v q = if p == q then v else m q

-- A `uint16_t` field of a packed struct.
abbrev pub load16 : Endian → Bytes → ℕ → ℕ
load16 little m p = m p + 256 * m (p + 1)
load16 big m p = m p * 256 + m (p + 1)

abbrev pub store16 : Endian → Bytes → ℕ → ℕ → Bytes
store16 little m p v = update (update m p (v % 256)) (p + 1) (v / 256 % 256)
store16 big m p v = update (update m p (v / 256 % 256)) (p + 1) (v % 256)

abbrev pub swap16 : ℕ → ℕ
swap16 x = x % 256 * 256 + x / 256 % 256

-- `ntohs` and `htons` are one function.
abbrev pub ntohs : Endian → ℕ → ℕ
ntohs little x = swap16 x
ntohs big x = x

abbrev pub htons : Endian → ℕ → ℕ
htons = ntohs

abbrev pub load32 : Endian → Bytes → ℕ → ℕ
load32 little m p = m p + 256 * m (p + 1) + 2 ^ 16 * m (p + 2) + 2 ^ 24 * m (p + 3)
load32 big m p = 2 ^ 24 * m p + 2 ^ 16 * m (p + 1) + 256 * m (p + 2) + m (p + 3)

abbrev pub swap32 : ℕ → ℕ
swap32 x = x % 256 * 2 ^ 24 + x / 256 % 256 * 2 ^ 16 + x / 2 ^ 16 % 256 * 256 + x / 2 ^ 24 % 256

abbrev pub ntohl : Endian → ℕ → ℕ
ntohl little x = swap32 x
ntohl big x = x

-- The number that two bytes stand for on the wire.
abbrev pub be16 : Bytes → ℕ → ℕ
be16 m p = m p * 256 + m (p + 1)

abbrev pub be32 : Bytes → ℕ → ℕ
be32 m p = 2 ^ 24 * m p + 2 ^ 16 * m (p + 1) + 256 * m (p + 2) + m (p + 3)

-- Loading a field and `ntohs` give its number on the wire, on either host.
pub ntohs-load16 : (e : Endian) (m : Bytes) (p : ℕ) → IsBytes m → ntohs e (load16 e m p) ≡ be16 m p
ntohs-load16 little m p h = omega (arith, h p, h (p + 1))
ntohs-load16 big m p h = refl

pub ntohl-load32 : (e : Endian) (m : Bytes) (p : ℕ) → IsBytes m → ntohl e (load32 e m p) ≡ be32 m p
ntohl-load32 little m p h = omega (arith, h p, h (p + 1), h (p + 2), h (p + 3))
ntohl-load32 big m p h = refl

-- Two bytes, the high one first.
abbrev pub put16 : Bytes → ℕ → ℕ → Bytes
put16 m p v = update (update m p (v / 256 % 256)) (p + 1) (v % 256)

-- Storing what `htons` gives puts the high byte first, on either host.
pub store16-htons :
    (e : Endian) (m : Bytes) (p v q : ℕ) → v < 2 ^ 16 → store16 e m p (htons e v) q ≡ put16 m p v q
store16-htons little m p v q h = ground arith
store16-htons big m p v q h = refl

pub store16-eq-put16 :
    (e : Endian) (m : Bytes) (p v : ℕ) → v < 2 ^ 16 → store16 e m p (htons e v) ≡ put16 m p v
store16-eq-put16 e m p v h = fun_ext (λ q. store16-htons e m p v q h)

-- `field = 0;` needs no `htons`.
pub store16-zero : (e : Endian) (m : Bytes) (p : ℕ) → store16 e m p 0 ≡ put16 m p 0
store16-zero little m p = fun_ext (λ q. ground arith)
store16-zero big m p = refl

pub ntohs-htons : (e : Endian) (v : ℕ) → v < 2 ^ 16 → ntohs e (htons e v) ≡ v
ntohs-htons little v h = omega arith
ntohs-htons big v h = refl

pub put16-IsBytes : (m : Bytes) (p v : ℕ) → IsBytes m → IsBytes (put16 m p v)
put16-IsBytes m p v h q = ground (arith, h q)

pub be16-put16 : (m : Bytes) (p v : ℕ) → v < 2 ^ 16 → be16 (put16 m p v) p ≡ v
be16-put16 m p v h = ground arith

-- A field at least two bytes away is untouched.
pub be16-put16_ne :
    (m : Bytes) (p q v : ℕ) → (q ≢ p) → (q ≢ p + 1) → (q + 1 ≢ p) → be16 (put16 m p v) q ≡ be16 m q
be16-put16_ne m p q v a b c = ground arith

-- A memory given by its first bytes.
abbrev pub of_list : List ℕ → Bytes
of_list xs p = get_or xs p 0

abbrev pub AllBytes : List ℕ → Type 0
AllBytes [] = Unit {0}
AllBytes (x ∷ xs) = (x < 256) × AllBytes xs

pub of_list-IsBytes : (xs : List ℕ) → AllBytes xs → IsBytes (of_list xs)
of_list-IsBytes [] h p = omega arith
of_list-IsBytes (x ∷ xs) h zero = h.0
of_list-IsBytes (x ∷ xs) h (suc p) = of_list-IsBytes xs h.1 p
