-- ===== src/Capacity/Rounding.antt =====
-- What the rounding returns, and when its loop does not end.
use native.Mathlib.Nat.{pow-suc, one-le-pow}
use universal_system_program.Prelude.{
  ℕ, zero, suc, ◌-◌, ◌+◌, ◌*◌, ◌%◌, ◌^◌, ◌≤◌, ◌<◌, ◌≡◌, inl, inr, refl, bit_and, arith, Option,
  none, some, dec_lt, ap, false, Bool-cases, ◌==◌, if◌then◌else◌, lt→ltb, le→ltb, ==_iff, ◌∙◌, sym,
}
use universal_system_program.Prelude.Bits.{bit_and-mask}
use universal_system_program.Capacity.Defs.{
  double_until, add_size, sub_size, round_up, at_least_two, mask_index,
}
use universal_system_program.Capacity.Powers.{
  IsPow2, IsPow2-of_and_pred, pow_le_pow, pow_le_of_lt_double,
}

-- A round that doubles, and a round that stops.
double_until-suc :
    (f j size : ℕ)
    → 2 ^ j < size
    → j < 63
    → double_until (suc f) (2 ^ j) size ≡ double_until f (2 ^ suc j) size
unfolding double_until
double_until-suc f j size below up =
    let shift : 2 ^ j * 2 % 2 ^ 64 ≡ 2 ^ suc j =
      omega (arith, pow-suc 2 j, pow_le_pow (suc j) 63 up) in
    rw (lt→ltb (2 ^ j) size below, shift)

double_until_done : (f cap size : ℕ) → size ≤ cap → double_until (suc f) cap size ≡ some cap
unfolding double_until
double_until_done f cap size done = rw (le→ltb cap size done)

exponent_below : (j size : ℕ) → 2 ^ j < size → size ≤ 2 ^ 63 → j < 63
exponent_below j size below small = elim (dec_lt j 63) [
  | yes h ↦ h
  | no h ↦ absurd (omega (arith, pow_le_pow 63 j (omega arith)))
]

-- The power of two that the loop returns for `size`.
abbrev Stops : Option ℕ → ℕ → Type 0
Stops r size = (k : ℕ) × (r ≡ some (2 ^ k)) × (k ≤ 63) × (size ≤ 2 ^ k) × (2 ^ k < 2 * size)

double_until-Stops :
    (f j size : ℕ)
    → size ≤ 2 ^ 63
    → 63 < f + j
    → j ≤ 63
    → 2 ^ j < 2 * size
    → Stops (double_until f (2 ^ j) size) size
double_until-Stops zero j size small fuel hj hs = absurd (omega arith)
double_until-Stops (suc f) j size small fuel hj hs = elim (dec_lt (2 ^ j) size) [
  | yes below ↦
      let up = exponent_below j size below small in
      let (k, e, bounds, above, under) =
        double_until-Stops f (suc j) size small (omega arith) up (omega (arith, pow-suc 2 j)) in
      (k, double_until-suc f j size below up ∙ e, bounds, above, under)
  | no done ↦
      let enough : size ≤ 2 ^ j = omega arith in
      (j, double_until_done f (2 ^ j) size enough, hj, enough, hs)
]

-- At a power of two the test already passes.
and_size_pred : (n : ℕ) → 1 ≤ n → n < 2 ^ 64 → bit_and n (sub_size n 1) ≡ bit_and n (n - 1)
and_size_pred n h small = let e : sub_size n 1 ≡ n - 1 = omega arith in rw e

exponent_le : (k : ℕ) → 2 ^ k ≤ 2 ^ 63 → k ≤ 63
exponent_le k h = elim (dec_lt 63 k) [
  | yes gt ↦ absurd (omega (arith, pow_le_pow 64 k gt))
  | no le ↦ omega arith
]

Stops-IsPow2 : (n : ℕ) → 1 ≤ n → n ≤ 2 ^ 63 → IsPow2 n → Stops (some n) n
Stops-IsPow2 n one small (k, e) =
    (k, ap some e, exponent_le k (omega arith), omega arith, omega arith)

-- The rounding of a size that is at least 2.
round_loop : ℕ → ℕ → Option ℕ
round_loop fuel n = if bit_and n (sub_size n 1) == 0 then some n else double_until fuel 1 n

round_loop-Stops : (fuel n : ℕ) → 64 ≤ fuel → 2 ≤ n → n ≤ 2 ^ 63 → Stops (round_loop fuel n) n
unfolding round_loop
round_loop-Stops fuel n enough two small = elim (Bool-cases (bit_and n (sub_size n 1) == 0)) [
  | inl e ↦
      let clear : bit_and n (n - 1) ≡ 0 =
        sym (and_size_pred n (omega arith) (omega arith)) ∙ (==_iff _ 0).0 e in
      rw e (Stops-IsPow2 n (omega arith) small (IsPow2-of_and_pred n (omega arith) clear))
  | inr e ↦ rw e (double_until-Stops fuel 0 n small (omega arith) (omega arith) (omega arith))
]

at_least_two_bounds :
    (size : ℕ)
    → (2 ≤ at_least_two size)
      × (size ≤ at_least_two size)
      × (size ≤ 2 ^ 63 → at_least_two size ≤ 2 ^ 63)
      × ((n : ℕ) → 2 ≤ n → size ≤ n → at_least_two size ≤ n)
at_least_two_bounds size = ground arith

one_le_exponent : (k : ℕ) → 2 ≤ 2 ^ k → 1 ≤ k
one_le_exponent zero h = absurd (omega arith)
one_le_exponent (suc k) h = omega arith

-- For a size of at most 2 ^ 63, and 64 rounds of fuel or more, the rounding returns the least
-- power of two that is at least 2 and at least the size.
pub round_up-least :
    (fuel size : ℕ)
    → 64 ≤ fuel
    → size ≤ 2 ^ 63
    → (k : ℕ) × (round_up fuel size ≡ some (2 ^ k))
      × (1 ≤ k)
      × (k ≤ 63)
      × (size ≤ 2 ^ k)
      × ((m : ℕ) → 1 ≤ m → size ≤ 2 ^ m → 2 ^ k ≤ 2 ^ m)
unfolding round_up round_loop
round_up-least fuel size enough small =
    let (two, above_size, fits, least) = at_least_two_bounds size in
    let (k, e, bounds, above, under) =
      round_loop-Stops fuel (at_least_two size) enough two (fits small) in
    (
      k,
      e,
      one_le_exponent k (omega arith),
      bounds,
      omega arith,
      λ m one h. pow_le_of_lt_double k m (omega (arith, least (2 ^ m) (pow_le_pow 1 m one) h)),
    )

-- A shifted-out capacity is 0, and stays below the size for ever.
double_until-zero : (f size : ℕ) → 0 < size → double_until f 0 size ≡ none
unfolding double_until
double_until-zero zero size h = refl
double_until-zero (suc f) size h = rw (lt→ltb 0 size h) (double_until-zero f size h)

double_until_runs_on : (f j size : ℕ) → 2 ^ 63 < size → j ≤ 63 → double_until f (2 ^ j) size ≡ none
unfolding double_until
double_until_runs_on zero j size big hj = refl
double_until_runs_on (suc f) j size big hj = elim (dec_lt j 63) [
  | yes h ↦
      double_until-suc f j size (omega (arith, pow_le_pow j 63 hj)) h
      ∙ double_until_runs_on f (suc j) size big h
  | no h ↦
      let e : j ≡ 63 = omega arith in
      rw (e, lt→ltb (2 ^ 63) size big) (double_until-zero f size (omega arith))
]

-- Between 2 ^ 63 and 2 ^ 64 there is no power of two.
not_pow2 : (n : ℕ) → 2 ^ 63 < n → n < 2 ^ 64 → (bit_and n (sub_size n 1) == 0) ≡ false
not_pow2 n big small = elim (Bool-cases (bit_and n (sub_size n 1) == 0)) [
  | inl e ↦
      let clear : bit_and n (n - 1) ≡ 0 =
        sym (and_size_pred n (omega arith) small) ∙ (==_iff _ 0).0 e in
      absurd (between (IsPow2-of_and_pred n (omega arith) clear))
  | inr e ↦ e
]
  where
    between : ¬ (IsPow2 n)
    between (k, e) = elim (dec_lt 63 k) [
      | yes gt ↦ absurd (omega (arith, pow_le_pow 64 k gt))
      | no le ↦ absurd (omega (arith, pow_le_pow k 63 (omega arith)))
    ]

-- For a size above 2 ^ 63 the loop shifts its capacity out and never ends, whatever the fuel.
pub round_up-diverges : (fuel size : ℕ) → 2 ^ 63 < size → size < 2 ^ 64 → round_up fuel size ≡ none
unfolding round_up
round_up-diverges fuel size big small =
    let same : at_least_two size ≡ size = ground arith in
    rw (same, not_pow2 size big small) (double_until_runs_on fuel 0 size big (omega arith))

-- The mask of a power of two is the remainder.
pub mask_index-mod : (i k : ℕ) → k ≤ 63 → mask_index i (2 ^ k) ≡ i % 2 ^ k
mask_index-mod i k h =
    let e : sub_size (2 ^ k) 1 ≡ 2 ^ k - 1 =
      omega (arith, pow_le_pow k 63 h, one-le-pow k 2 (omega arith)) in
    rw e (bit_and-mask k i)

-- The index behind `i`, round a power of two.
pub mask_index-add_size :
    (i size k : ℕ)
    → size ≡ 2 ^ k
    → k ≤ 63
    → i < size
    → mask_index (add_size i 1) size ≡ (i + 1) % size
mask_index-add_size i size k e h lt = rw e (
    mask_index-mod (add_size i 1) k h
    ∙ ap (λ (n : ℕ). n % 2 ^ k)
        (let f : add_size i 1 ≡ i + 1 = omega (arith, pow_le_pow k 63 h) in f))
