-- ===== src/Capacity/Powers.antt =====
-- `n & (n - 1)` is zero exactly at the powers of two, and powers of two are ordered as their
-- exponents.
use mathlib.Core.WellFounded
use native.Mathlib.Decide.{dec_le}
use native.Mathlib.Nat.{pow-suc, one-le-pow, pow-le-pow_right}
use universal_system_program.Prelude.{
  ℕ, zero, suc, ◌-◌, ◌+◌, ◌*◌, ◌%◌, ◌^◌, ◌≤◌, ◌<◌, ◌≡◌, ◌⊎◌, inl, inr, refl, bit_and, arith, lt_wf,
  ◌∙◌,
}
use universal_system_program.Prelude.Bits.{bit_and_halves, bit_and_self, bit_and-mask}

abbrev pub IsPow2 : ℕ → Type 0
IsPow2 n = (k : ℕ) × (n ≡ 2 ^ k)

parity : (n : ℕ) → ((m : ℕ) × (n ≡ m + m)) ⊎ ((m : ℕ) × (n ≡ suc (m + m)))
parity zero = inl (0, refl)
parity (suc n) = elim (parity n) [
  | inl (m, e) ↦ inr (m, omega arith)
  | inr (m, e) ↦ inl (suc m, omega arith)
]

-- An even number keeps the question at its half; an odd one answers it.
and_pred_double : (m : ℕ) → 0 < m → bit_and (m + m) (m + m - 1) ≡ bit_and m (m - 1) * 2
and_pred_double m h = ground (arith, bit_and_halves (m + m) (m + m - 1))

and_pred_odd : (m : ℕ) → bit_and (suc (m + m)) (suc (m + m) - 1) ≡ m * 2
and_pred_odd m = ground (arith, bit_and_halves (suc (m + m)) (suc (m + m) - 1), bit_and_self m)

pub IsPow2-of_and_pred : (n : ℕ) → 0 < n → bit_and n (n - 1) ≡ 0 → IsPow2 n
IsPow2-of_and_pred n =
    WellFounded.induction lt_wf {C = λ n. 0 < n → bit_and n (n - 1) ≡ 0 → IsPow2 n} n halve
  where
    halve :
        (n : ℕ)
        → ((m : ℕ) → m < n → 0 < m → bit_and m (m - 1) ≡ 0 → IsPow2 m)
        → 0 < n
        → bit_and n (n - 1) ≡ 0
        → IsPow2 n
    halve n ih pos_n clear = elim (parity n) [
      | inl (m, e) ↦
          let (k, e') = ih m (omega arith) (omega arith) (ground (arith, and_pred_double m)) in
          (suc k, omega (arith, pow-suc 2 k))
      | inr (m, e) ↦ (0, ground (arith, and_pred_odd m))
    ]

mod_self : (n : ℕ) → 1 ≤ n → n % n ≡ 0
mod_self n h = grind arith

pub and_pred_pow : (k : ℕ) → bit_and (2 ^ k) (2 ^ k - 1) ≡ 0
and_pred_pow k = bit_and-mask k (2 ^ k) ∙ mod_self (2 ^ k) (one-le-pow k 2 (omega arith))

pub pow_le_pow : (a b : ℕ) → a ≤ b → 2 ^ a ≤ 2 ^ b
pow_le_pow a b h = pow-le-pow_right (omega arith) h

-- A power below the double of another is at most that one.
pub pow_le_of_lt_double : (a b : ℕ) → 2 ^ a < 2 * 2 ^ b → 2 ^ a ≤ 2 ^ b
pow_le_of_lt_double a b h = elim (dec_le a b) [
  | yes le ↦ pow_le_pow a b le
  | no gt ↦ absurd (omega (arith, pow_le_pow (suc b) a (omega arith), pow-suc 2 b))
]
