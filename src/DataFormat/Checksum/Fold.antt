-- ===== src/DataFormat/Checksum/Fold.antt =====
-- Folding the carries: the loop ends with 16 bits, and keeps the number modulo 65535.
use mathlib.Core.Logic.{dif_pos, dif_neg}
use mathlib.Core.WellFounded.{Acc}
use universal_system_program.Prelude.{
  ℕ, ◌+◌, ◌/◌, ◌%◌, ◌^◌, ◌≤◌, ◌<◌, ◌≡◌, ◌↔◌, arith, dec_lt, lt_wf, subst, sym,
}
use native.Mathlib.Bridge.{le_prop}
use universal_system_program.DataFormat.Checksum.Defs.{
  add32, fold_acc, fold_carries, not32, low16, nonzero_complement,
}

-- What folding leaves of a sum: 16 bits, the same remainder, and zero only from zero.
pub record IsFolded (n ret : ℕ) : Type 0 where
  pub short : ret ≤ 0xFFFF
  pub same : ret % 0xFFFF ≡ n % 0xFFFF
  pub positive : 0 < n → 0 < ret
  pub zeroed : n ≡ 0 → ret ≡ 0

-- One round keeps what `IsFolded` says.
IsFolded-round :
    (n ret : ℕ)
    → n < 2 ^ 32
    → IsFolded (add32 (n % 2 ^ 16) (n / 2 ^ 16)) ret
    → 0 < n / 2 ^ 16
    → IsFolded n ret
IsFolded-round n ret h f carry = record {
  short = f.short;
  same = omega (arith, f.same);
  positive = λ p. f.positive (omega arith);
  zeroed = λ e. absurd (omega arith);
}

fold_acc-IsFolded : (n : ℕ) (w : Acc ◌<◌ n) → n < 2 ^ 32 → IsFolded n (fold_acc n w)
unfolding fold_acc
fold_acc-IsFolded n (Acc.intro _ smaller) h = elim (dec_lt 0 (n / 2 ^ 16)) [
  | yes carry ↦ subst (IsFolded n) (sym (dif_pos (dec_lt 0 (n / 2 ^ 16)) le_prop carry _ _)) (
      IsFolded-round n _ h
        (fold_acc-IsFolded (add32 (n % 2 ^ 16) (n / 2 ^ 16))
          (smaller (add32 (n % 2 ^ 16) (n / 2 ^ 16)) (omega arith)) (omega arith))
        carry)
  | no done ↦
      subst (IsFolded n) (sym (dif_neg (dec_lt 0 (n / 2 ^ 16)) done _ _))
        (record { short = omega arith; same = omega arith; positive = λ p. p; zeroed = λ e. e })
]

pub fold_carries-IsFolded : (n : ℕ) → n < 2 ^ 32 → IsFolded n (fold_carries n)
unfolding fold_carries
fold_carries-IsFolded n h = fold_acc-IsFolded n (lt_wf.apply n) h

-- Adding the complement of the folded sum brings the folded sum to 0xFFFF.
pub fold_carries-add_not :
    (n : ℕ) → n + 0xFFFF < 2 ^ 32 → fold_carries (n + low16 (not32 (fold_carries n))) ≡ 0xFFFF
fold_carries-add_not n h =
    let f = fold_carries-IsFolded n (omega arith) in
    let g = fold_carries-IsFolded (n + low16 (not32 (fold_carries n))) (omega (arith, f.short)) in
    let up : 0 < n + low16 (not32 (fold_carries n)) = elim (dec_lt 0 n) [
      | yes p ↦ omega arith
      | no z ↦ omega (arith, f.zeroed (omega arith))
    ] in
    omega (arith, f.short, f.same, g.short, g.same, g.positive up)

-- Folding gives 0xFFFF exactly for the positive multiples of it.
pub fold_carries-eq-full :
    (n : ℕ) → n < 2 ^ 32 → (fold_carries n ≡ 0xFFFF) ↔ ((0 < n) × (n % 0xFFFF ≡ 0))
fold_carries-eq-full n h =
    let f = fold_carries-IsFolded n h in
    (
      λ e. (
        elim (dec_lt 0 n) [ yes p ↦ p | no z ↦ absurd (omega (arith, f.zeroed (omega arith))) ],
        omega (arith, f.same),
      ),
      λ g. let up = f.positive g.0 in omega (arith, f.short, f.same),
    )

-- The complement of 16 bits is never 0 in a `uint32_t`, so the test for it never fires.
pub nonzero_complement-eq : (ret : ℕ) → ret ≤ 0xFFFF → nonzero_complement ret ≡ low16 (not32 ret)
nonzero_complement-eq ret h = ground arith
