-- ===== src/Prelude/Bits.antt =====
-- `&` with a mask, at variables: how the native operation halves its arguments, and what follows.
use Prim.Native.Nat.{
  ℕ, zero, suc, ◌+◌, ◌-◌, ◌*◌, ◌/◌, ◌%◌, ◌^◌, ◌≤◌, ◌<◌, min, bit_and, digits, bit_and-bitwise,
}
use mathlib.Core.Path.{◌≡◌, refl, ap, sym, ◌∙◌}
use mathlib.Core.WellFounded
use native.Mathlib.Decide.{ℕ_discrete}
use native.Mathlib.Omega.{arith}
use native.Mathlib.Nat.{pow-suc, one-le-pow, mul_comm, div-div-eq-div-mul}
use universal_system_program.Prelude.Order.{lt_wf}

-- The conjunction with `fuel` digits to go; the operation itself takes its left argument for fuel.
abbrev conj : (fuel x y : ℕ) → ℕ
conj fuel x y = digits (λ _. 0) min fuel x y

-- One digit more than needed changes nothing.
conj-suc : (fuel x y : ℕ) → x ≤ fuel → conj (suc fuel) x y ≡ conj fuel x y
conj-suc zero zero y enough = refl
conj-suc zero (suc x) y enough = absurd (omega arith)
conj-suc (suc fuel) zero y enough = refl
conj-suc (suc fuel) (suc x) y enough =
    let half : suc x / 2 ≤ fuel = omega arith in
    omega (arith, conj-suc fuel (suc x / 2) (y / 2) half)

conj_enough : (fuel x y : ℕ) → x ≤ fuel → conj fuel x y ≡ bit_and x y
conj_enough zero x y enough =
    let e : x ≡ 0 = omega arith in ap (λ z. conj z x y) (sym e) ∙ sym (bit_and-bitwise x y)
conj_enough (suc fuel) x y enough = elim (ℕ_discrete x (suc fuel)) [
  | yes e ↦ ap (λ z. conj z x y) (sym e) ∙ sym (bit_and-bitwise x y)
  | no ne ↦ conj-suc fuel x y (omega arith) ∙ conj_enough fuel x y (omega arith)
]

-- The last digits apart, the conjunction of two numbers is twice that of their halves.
pub bit_and_halves : (x y : ℕ) → bit_and x y ≡ 2 * bit_and (x / 2) (y / 2) + min (x % 2) (y % 2)
bit_and_halves zero y =
    let none_left = λ (z : ℕ). conj_enough 0 0 z (omega arith) in
    omega (arith, none_left y, none_left (y / 2))
bit_and_halves (suc x) y =
    let rest = conj_enough x (suc x / 2) (y / 2) (omega arith) in
    omega (arith, bit_and-bitwise (suc x) y, rest)

-- A conjunction is settled by its value at half the number, for all numbers from 1 on.
by_halves : (P : ℕ → Type 0) → P 0 → ((x : ℕ) → 0 < x → P (x / 2) → P x) → (x : ℕ) → P x
by_halves P base half x = WellFounded.induction lt_wf {C = P} x go
  where
    go : (y : ℕ) → ((z : ℕ) → z < y → P z) → P y
    go zero below = base
    go (suc y) below = half (suc y) (omega arith) (below (suc y / 2) (omega arith))

-- Nothing is in common with 0.
pub bit_and-zero : (x : ℕ) → bit_and x 0 ≡ 0
bit_and-zero =
    by_halves (λ x. bit_and x 0 ≡ 0) refl (λ x up ih. omega (arith, bit_and_halves x 0, ih))

pub bit_and_self : (x : ℕ) → bit_and x x ≡ x
bit_and_self =
    by_halves (λ x. bit_and x x ≡ x) refl (λ x up ih. omega (arith, bit_and_halves x x, ih))

-- Of `q * 2 ^ k + r` a mask of `k` ones keeps `r`.
keep_low : (k q r : ℕ) → r < 2 ^ k → bit_and (q * 2 ^ k + r) (2 ^ k - 1) ≡ r
keep_low zero q r below = rw bit_and-zero (omega arith)
keep_low (suc k) q r below =
    let double = pow-suc 2 k in
    let scaled = ap (λ (t : ℕ). q * t) double in
    ground (
      arith,
      bit_and_halves (q * 2 ^ suc k + r) (2 ^ suc k - 1),
      keep_low k q (r / 2) (omega arith),
    )

-- A mask of `k` low bits is the remainder by `2 ^ k`.
pub bit_and-mask : (k x : ℕ) → bit_and x (2 ^ k - 1) ≡ x % 2 ^ k
bit_and-mask k x =
    let one_le = one-le-pow k 2 (omega arith) in
    ground (arith, keep_low k (x / 2 ^ k) (x % 2 ^ k) (omega arith))

pub bit_and_comm : (x y : ℕ) → bit_and x y ≡ bit_and y x
bit_and_comm =
    by_halves (λ x. (y : ℕ) → bit_and x y ≡ bit_and y x)
      (λ y. sym (conj_enough 0 0 y (omega arith)) ∙ sym (bit_and-zero y))
      (λ x up ih y. omega (arith, bit_and_halves x y, bit_and_halves y x, ih (y / 2)))

-- A mask of one bit reads that bit.
pub bit_and-pow : (k x : ℕ) → bit_and x (2 ^ k) ≡ x / 2 ^ k % 2 * 2 ^ k
bit_and-pow zero x = omega (arith, bit_and_halves x 1, bit_and-zero (x / 2))
bit_and-pow (suc k) x =
    let half : 2 ^ suc k / 2 ≡ 2 ^ k = omega (arith, pow-suc 2 k) in
    let quot : x / 2 ^ suc k ≡ x / 2 / 2 ^ k =
      ap (λ n. x / n) (pow-suc 2 k ∙ mul_comm (2 ^ k) 2) ∙ sym (div-div-eq-div-mul x 2 (2 ^ k)) in
    let ih = bit_and-pow k (x / 2) in
    let scaled = ap (λ n. x / 2 / 2 ^ k % 2 * n) (pow-suc 2 k) in
    ground (arith, bit_and_halves x (2 ^ suc k))
