-- ===== src/DataFormat/Checksum/Sum.antt =====
-- The sums of the loops as sums of words, and how writing one word changes them.
use universal_system_program.Prelude.{
  ℕ, zero, suc, ◌+◌, ◌-◌, ◌*◌, ◌/◌, ◌%◌, ◌^◌, ◌≤◌, ◌<◌, ◌≡◌, refl, ap, ap₂, ◌∙◌, Bytes, arith, pos,
  some, if◌then◌else◌, ◌==◌, Bool-cases, inl, inr, ◌⊎◌,
}
use universal_system_program.DataFormat.Wire.{IsBytes, be16, put16, be16-put16, be16-put16_ne}
use universal_system_program.DataFormat.Checksum.Defs.{add32, sum_words, sum_bytes}

-- The `n` words from `p` on, with no wrap.
unfoldable pub words : Bytes → ℕ → ℕ → ℕ
words m p zero = 0
words m p (suc n) = be16 m p + words m (p + 2) n

pub sum_words-eq-words :
    (m : Bytes) (p n ret : ℕ) → ret + words m p n < 2 ^ 32 → sum_words m p n ret ≡ ret + words m p n
unfolding words sum_words
sum_words-eq-words m p zero ret small = omega arith
sum_words-eq-words m p (suc n) ret small =
    let e : add32 ret (be16 m p) ≡ ret + be16 m p = omega arith in
    rw e (sum_words-eq-words m (p + 2) n (ret + be16 m p) (omega arith) ∙ omega arith)

pub words-le : (m : Bytes) (p n : ℕ) → IsBytes m → words m p n ≤ 0xFFFF * n
unfolding words
words-le m p zero h = omega arith
words-le m p (suc n) h = omega (arith, h p, h (p + 1), words-le m (p + 2) n h)

pub be16-le-words : (m : Bytes) (p n : ℕ) → 1 ≤ n → be16 m p ≤ words m p n
unfolding words
be16-le-words m p zero h = absurd (omega arith)
be16-le-words m p (suc n) h = omega arith

-- Two memories with the same words there.
pub words-congr :
    (m m' : Bytes) (p n : ℕ)
    → ((k : ℕ) → k < n → be16 m' (p + 2 * k) ≡ be16 m (p + 2 * k))
    → words m' p n ≡ words m p n
unfolding words
words-congr m m' p zero same = refl
words-congr m m' p (suc n) same =
    ap₂ ◌+◌ (ap (be16 m') (omega arith) ∙ same 0 (omega arith) ∙ ap (be16 m) (omega arith)) (
      words-congr m m' (p + 2) n (λ k lt.
        ap (be16 m') (omega arith) ∙ same (suc k) (omega arith) ∙ ap (be16 m) (omega arith)))

-- Writing the word at `q`, which is word `k` of the range, changes the sum by the difference.
pub words-put16 :
    (m : Bytes) (p n k q v : ℕ)
    → q ≡ p + 2 * k
    → k < n
    → v < 2 ^ 16
    → words (put16 m q v) p n + be16 m q ≡ words m p n + v
unfolding words
words-put16 m p zero k q v e lt small = absurd (omega arith)
words-put16 m p (suc n) zero q v e lt small =
    let at : q ≡ p = omega arith in
    let rest : words (put16 m q v) (p + 2) n ≡ words m (p + 2) n =
      words-congr m (put16 m q v) (p + 2) n
        (λ j lt. be16-put16_ne m q (p + 2 + 2 * j) v (omega arith) (omega arith) (omega arith)) in
    omega (arith, rest, ap (be16 (put16 m q v)) at, ap (be16 m) at, be16-put16 m q v small)
words-put16 m p (suc n) (suc k) q v e lt small = omega (
  arith,
  be16-put16_ne m q p v (omega arith) (omega arith) (omega arith),
  words-put16 m (p + 2) n k q v (omega arith) (omega arith) small,
)

pub word-le-words : (m : Bytes) (p n k q : ℕ) → q ≡ p + 2 * k → k < n → be16 m q ≤ words m p n
word-le-words m p n k q e lt = omega (arith, words-put16 m p n k q 0 e lt (omega arith))

-- Away from the range the sum stays.
pub words-put16_outside :
    (m : Bytes) (p n q v : ℕ)
    → (q + 2 ≤ p) ⊎ (p + 2 * n ≤ q)
    → words (put16 m q v) p n ≡ words m p n
words-put16_outside m p n q v out =
    words-congr m (put16 m q v) p n
      (λ j lt. be16-put16_ne m q (p + 2 * j) v (omega arith) (omega arith) (omega arith))

-- The odd byte behind the words, as a high byte.
abbrev pub odd_byte : Bytes → ℕ → ℕ → ℕ
odd_byte m p n = if n % 2 == 1 then m (p + n - 1) * 256 else 0

-- What the `n` bytes from `p` on add to a sum.
abbrev pub total : Bytes → ℕ → ℕ → ℕ
total m p n = words m p (n / 2) + odd_byte m p n

pub total-le : (m : Bytes) (p n : ℕ) → IsBytes m → total m p n ≤ 0xFFFF * (n / 2) + 0xFF00
total-le m p n h = ground (arith, words-le m p (n / 2) h, h (p + n - 1))

-- `sum_bytes` adds the bytes' total, as long as the `uint32_t` does not wrap.
pub sum_bytes-eq-total :
    (m : Bytes) (p n ret : ℕ)
    → ret + total m p n < 2 ^ 32
    → sum_bytes m p (pos n) ret ≡ some (ret + total m p n)
unfolding sum_bytes
sum_bytes-eq-total m p n ret small =
    let fits : ret + words m p (n / 2) < 2 ^ 32 = ground arith in
    let e = sum_words-eq-words m p (n / 2) ret fits in
    elim (Bool-cases (n % 2 == 1)) [ inl odd ↦ ground arith | inr even ↦ ground arith ]

-- Writing a word that lies in the range moves its total by the difference.
pub total-put16 :
    (m : Bytes) (p n k q v : ℕ)
    → q ≡ p + 2 * k
    → 2 * k + 2 ≤ n
    → v < 2 ^ 16
    → total (put16 m q v) p n + be16 m q ≡ total m p n + v
total-put16 m p n k q v e inside small =
    let odd : odd_byte (put16 m q v) p n ≡ odd_byte m p n = ground arith in
    omega (arith, odd, words-put16 m p (n / 2) k q v e (omega arith) small)

-- A range behind the word keeps its total.
pub total-put16_below :
    (m : Bytes) (p n q v : ℕ) → q + 2 ≤ p → total (put16 m q v) p n ≡ total m p n
total-put16_below m p n q v out =
    let odd : odd_byte (put16 m q v) p n ≡ odd_byte m p n = ground arith in
    omega (arith, odd, words-put16_outside m p (n / 2) q v (inl out))
