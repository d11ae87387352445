-- ===== src/DataType/Mac/Order.antt =====
-- The order of MAC addresses and their hash.
use universal_system_program.Prelude.{
  ℕ, ◌+◌, ◌*◌, ◌<◌, ◌≡◌, ap, ap₂, sym, ◌∙◌, if◌then◌else◌, ◌==◌, ltb, ℤ, pos, minus_one, List, [],
  ◌∷◌, length, arith, ℕ_discrete, dec_lt,
}
use universal_system_program.DataType.Mac.{
  memcmp, equal, less, is_zero, is_negative, hash, hash_from,
}

abbrev pub Small : List ℕ → Type 0
Small [] = 0 < 1
Small (x ∷ xs) = (x < 256) × Small xs

-- The number that bytes stand for, the highest first.
abbrev value : ℕ → List ℕ → ℕ
value h [] = h
value h (x ∷ xs) = value (h * 256 + x) xs

abbrev pub sign_of : ℕ → ℕ → ℤ
sign_of m n = if m == n then pos 0 else (if ltb m n then minus_one else pos 1)

value_lt :
    (xs ys : List ℕ) (h k : ℕ) → length xs ≡ length ys → Small xs → h < k → value h xs < value k ys
value_lt [] [] h k len small lt = lt
value_lt [] (y ∷ ys) h k len small lt = absurd (omega arith)
value_lt (x ∷ xs) [] h k len small lt = absurd (omega arith)
value_lt (x ∷ xs) (y ∷ ys) h k len (byte, small) lt =
    value_lt xs ys (h * 256 + x) (k * 256 + y) (omega arith) small (omega arith)

memcmp-value :
    (xs ys : List ℕ) (h : ℕ)
    → length xs ≡ length ys
    → Small xs
    → Small ys
    → memcmp xs ys ≡ sign_of (value h xs) (value h ys)
unfolding memcmp
memcmp-value [] [] h len sx sy = ground arith
memcmp-value [] (y ∷ ys) h len sx sy = absurd (omega arith)
memcmp-value (x ∷ xs) [] h len sx sy = absurd (omega arith)
memcmp-value (x ∷ xs) (y ∷ ys) h len (bx, sx) (by, sy) =
    let tails : length xs ≡ length ys = omega arith in
    elim (ℕ_discrete x y) [
      | yes e ↦
          let rest = memcmp-value xs ys (h * 256 + x) tails sx sy in
          let same : value (h * 256 + x) ys ≡ value (h * 256 + y) ys =
            ap (λ b. value (h * 256 + b) ys) e in
          ground (arith, rest, same)
      | no ne ↦ elim (dec_lt x y) [
        | yes lt ↦
            let below = value_lt xs ys (h * 256 + x) (h * 256 + y) tails sx (omega arith) in
            ground (arith, below)
        | no ge ↦
            let above = value_lt ys xs (h * 256 + y) (h * 256 + x) (sym tails) sy (omega arith) in
            ground (arith, above)
      ]
    ]

-- Six bytes.
abbrev pub IsMac : List ℕ → Type 0
IsMac m = (length m ≡ 6) × Small m

hash-value :
    (a b c d e f : ℕ)
    → Small (a ∷ b ∷ c ∷ d ∷ e ∷ f ∷ [])
    → hash (a ∷ b ∷ c ∷ d ∷ e ∷ f ∷ []) ≡ value 0 (a ∷ b ∷ c ∷ d ∷ e ∷ f ∷ [])
unfolding hash hash_from
hash-value a b c d e f (la, (lb, (lc, (ld, (le, (lf, end)))))) = omega arith

mac_hash : (m : List ℕ) → IsMac m → hash m ≡ value 0 m
mac_hash [] (len, small) = absurd (omega arith)
mac_hash (a ∷ []) (len, small) = absurd (omega arith)
mac_hash (a ∷ b ∷ []) (len, small) = absurd (omega arith)
mac_hash (a ∷ b ∷ c ∷ []) (len, small) = absurd (omega arith)
mac_hash (a ∷ b ∷ c ∷ d ∷ []) (len, small) = absurd (omega arith)
mac_hash (a ∷ b ∷ c ∷ d ∷ e ∷ []) (len, small) = absurd (omega arith)
mac_hash (a ∷ b ∷ c ∷ d ∷ e ∷ f ∷ g ∷ r) (len, small) = absurd (omega arith)
mac_hash (a ∷ b ∷ c ∷ d ∷ e ∷ f ∷ []) (len, small) = hash-value a b c d e f small

hash_sign : (m n : ℕ) → (is_zero (sign_of m n) ≡ (m == n)) × (is_negative (sign_of m n) ≡ ltb m n)
hash_sign m n = ground arith

-- For two MAC addresses, of six bytes each, `==` and `<` say of them what they say of their hashes,
-- so that the hash is injective and keeps the order.
pub mac_order-hash :
    (m n : List ℕ)
    → IsMac m
    → IsMac n
    → (equal m n ≡ (hash m == hash n)) × (less m n ≡ ltb (hash m) (hash n))
unfolding equal less
mac_order-hash m n hm hn =
    let hashes = ap₂ sign_of (mac_hash m hm) (mac_hash n hn) in
    let sign = memcmp-value m n 0 (hm.0 ∙ sym hn.0) hm.1 hn.1 ∙ sym hashes in
    let (zero_iff, negative_iff) = hash_sign (hash m) (hash n) in
    (ap is_zero sign ∙ zero_iff, ap is_negative sign ∙ negative_iff)
