-- ===== src/OsUtil/Subnet/Exact.antt =====
-- Which masks `calc_subnet_prefix_len` accepts, and with what length.
use native.Mathlib.Nat.{pow-suc, one-le-pow}
use universal_system_program.Prelude.{
  ℕ, zero, suc, ◌+◌, ◌-◌, ◌*◌, ◌%◌, ◌^◌, ◌≤◌, ◌<◌, ◌≡◌, ◌≢◌, ◌⊎◌, inl, inr, refl, ap, ◌∙◌, sym,
  some, ◌==◌, bit_and, pos, minus_one, arith, dec_lt, ℕ_discrete, ltb, le→ltb,
}
use universal_system_program.Prelude.Bits.{bit_and-pow, bit_and-zero, bit_and_comm}
use universal_system_program.Capacity.Powers.{IsPow2-of_and_pred, and_pred_pow, pow_le_pow}
use universal_system_program.OsUtil.Subnet.{count_ones, calc_subnet_prefix_len}

-- The mask of the `n` high bits.
pub netmask : ℕ → ℕ
netmask n = 2 ^ 32 - 2 ^ (32 - n)

-- The top bit of a mask.
top_bit : (mask : ℕ) → mask < 2 ^ 32 → (bit_and mask 0x80000000 == 0) ≡ ltb mask (2 ^ 31)
top_bit mask h = ground (arith, bit_and-pow 31 mask)

-- Of `2 ^ 32 - 2 ^ j` the loop counts the `32 - j` high bits.
count_ones_lem :
    (f j len : ℕ) → j ≤ 32 → 32 < f + j → count_ones f (2 ^ 32 - 2 ^ j) len ≡ some (len + (32 - j))
unfolding count_ones
count_ones_lem zero j len small fuel = absurd (omega arith)
count_ones_lem (suc f) j len small fuel = elim (dec_lt j 32) [
  | yes more ↦
      let half = pow_le_pow j 31 (omega arith) in
      let mask = 2 ^ 32 - 2 ^ j in
      let test =
        top_bit mask (omega (arith, one-le-pow j 2)) ∙ le→ltb mask (2 ^ 31) (omega arith) in
      let shift : mask * 2 % 2 ^ 32 ≡ 2 ^ 32 - 2 ^ suc j =
        omega (arith, pow-suc 2 j, pow_le_pow (suc j) 32 more, one-le-pow j 2) in
      rw (test, shift)
        (count_ones_lem f (suc j) (len + 1) more (omega arith) ∙ ap some (omega arith))
  | no done ↦ let e : j ≡ 32 = omega arith in rw e (ap some (omega arith))
]

-- The test that the complement is a run of low bits.
inv_test :
    (inv : ℕ)
    → inv < 2 ^ 32 - 1
    → bit_and inv ((inv + 1) % 2 ^ 32) ≡ bit_and (inv + 1) (inv + 1 - 1)
inv_test inv h =
    let wrap : (inv + 1) % 2 ^ 32 ≡ inv + 1 = omega arith in
    let back : inv + 1 - 1 ≡ inv = omega arith in rw (wrap, back) (bit_and_comm inv (inv + 1))

exponent_le : (k b : ℕ) → 2 ^ k ≤ 2 ^ b → k ≤ b
exponent_le k b h = elim (dec_lt b k) [
  | yes gt ↦ absurd (omega (arith, pow_le_pow (suc b) k gt, pow-suc 2 b, one-le-pow b 2))
  | no le ↦ omega arith
]

-- What a mask that passes the test looks like.
netmask_of_test :
    (mask : ℕ)
    → mask < 2 ^ 32
    → bit_and (2 ^ 32 - 1 - mask) ((2 ^ 32 - 1 - mask + 1) % 2 ^ 32) ≡ 0
    → (n : ℕ) × (n ≤ 32) × (mask ≡ netmask n)
unfolding netmask
netmask_of_test mask h clear = elim (ℕ_discrete mask 0) [
  | yes e ↦ (0, omega arith, omega arith)
  | no ne ↦
      let inv = 2 ^ 32 - 1 - mask in
      let (k, e) =
        IsPow2-of_and_pred (inv + 1) (omega arith) (sym (inv_test inv (omega arith)) ∙ clear) in
      let small = exponent_le k 32 (omega arith) in
      (
        32 - k,
        omega arith,
        omega (arith, ap (λ n. 2 ^ n) (let q : 32 - (32 - k) ≡ k = omega arith in q)),
      )
]

test_of_netmask :
    (n : ℕ) → n ≤ 32 → bit_and (2 ^ 32 - 1 - netmask n) ((2 ^ 32 - 1 - netmask n + 1) % 2 ^ 32) ≡ 0
unfolding netmask
test_of_netmask zero h = bit_and-zero (2 ^ 32 - 1)
test_of_netmask (suc n) h =
    let k = 32 - suc n in
    let small = pow_le_pow k 31 (omega arith) in
    let low = one-le-pow k 2 (omega arith) in
    let inv : 2 ^ 32 - 1 - (2 ^ 32 - 2 ^ k) ≡ 2 ^ k - 1 = omega (arith, small, low) in
    let next : 2 ^ k - 1 + 1 ≡ 2 ^ k = omega (arith, low) in
    rw inv (inv_test (2 ^ k - 1) (omega (arith, small, low)) ∙ rw next (and_pred_pow k))

-- What the test leaves: a code of -1 unless the mask is a netmask.
count_netmask :
    (fuel n : ℕ) → 33 ≤ fuel → n ≤ 32 → calc_subnet_prefix_len fuel (netmask n) ≡ some (pos n)
unfolding netmask calc_subnet_prefix_len
count_netmask fuel n enough h =
    let counted = count_ones_lem fuel (32 - n) 0 (omega arith) (omega arith) in
    let len : 0 + (32 - (32 - n)) ≡ n = omega arith in
    rw (ap (λ z. z == 0) (test_of_netmask n h), counted, len) refl

-- For a 32-bit mask and at least 33 rounds, `calc_subnet_prefix_len` returns: the number `n`, where
-- the mask is the `n` high bits for an `n` of at most 32, and -1 where the mask is no such one.
pub calc_subnet_prefix_len-Exact :
    (fuel mask : ℕ)
    → 33 ≤ fuel
    → mask < 2 ^ 32
    → ((n : ℕ) × (n ≤ 32) × (mask ≡ netmask n) × (calc_subnet_prefix_len fuel mask ≡ some (pos n)))
      ⊎ (((n : ℕ) → n ≤ 32 → mask ≢ netmask n)
          × (calc_subnet_prefix_len fuel mask ≡ some minus_one))
unfolding calc_subnet_prefix_len
calc_subnet_prefix_len-Exact fuel mask enough h =
    let inv = 2 ^ 32 - 1 - mask in
    elim (ℕ_discrete (bit_and inv ((inv + 1) % 2 ^ 32)) 0) [
      | yes clear ↦
          let (n, le, e) = netmask_of_test mask h clear in
          inl (n, le, e, ap (calc_subnet_prefix_len fuel) e ∙ count_netmask fuel n enough le)
      | no dirty ↦ inr (
        (λ n le e. dirty (
            ap (λ m. bit_and (2 ^ 32 - 1 - m) ((2 ^ 32 - 1 - m + 1) % 2 ^ 32)) e
            ∙ test_of_netmask n le)),
        ground arith,
      )
    ]
