-- ===== src/SharedBuffer/Mpmc/Start.antt =====
-- A new queue is good, and stays good through a schedule.
use native.Mathlib.Nat.{add-mod_right, div-add-mod, mod-eq_of_lt, mul-le-mul_left, mul-suc}
use universal_system_program.Prelude.{
  ℕ, zero, suc, ◌+◌, ◌*◌, ◌/◌, ◌%◌, ◌^◌, ◌≤◌, ◌<◌, ◌≡◌, inl, inr, refl, ap, sym, ◌∙◌, subst, List,
  [], ◌∷◌, length, get_elem?, set, some, arith, dec_lt, replicate, of_some, Option-cases,
}
use universal_system_program.Capacity.Defs.{round_up}
use universal_system_program.Capacity.Powers.{pow_le_pow}
use universal_system_program.Capacity.Rounding.{round_up-least, mask_index-mod}
use universal_system_program.Locks.Threads.{Schedule, step, run, run_keeps, count-replicate}
use universal_system_program.SharedBuffer.Mpmc.{Queue, Point, idle, Choice, act, fresh, use_queue}
use universal_system_program.SharedBuffer.Mpmc.Invariant.{writes, reads, Knows, IsGood}
use universal_system_program.SharedBuffer.Mpmc.Keep.{IsKept, act-IsKept, act-Grows}

-- Numbers of one round and one remainder are equal.
same_round : (m a b t u r : ℕ) → m * a + r ≡ t → m * b + r ≡ u → t ≤ u → u < t + m → t ≡ u
same_round m a b t u r et eu le lt = elim (dec_lt a b) [
  | yes up ↦ absurd (omega (arith, mul-le-mul_left m up, mul-suc m a))
  | no flat ↦ elim (dec_lt b a) [
    | yes down ↦ absurd (omega (arith, mul-le-mul_left m down, mul-suc m b))
    | no same ↦ let e : a ≡ b = omega arith in sym et ∙ ap (λ n. m * n + r) e ∙ eu
  ]
]

pub mod_near : (m t u : ℕ) → t % m ≡ u % m → t ≤ u → u < t + m → t ≡ u
mod_near m t u same =
    same_round m (t / m) (u / m) t u (t % m) (div-add-mod t m)
      (ap (λ r. m * (u / m) + r) same ∙ div-add-mod u m)

pub fresh-IsGood :
    (k threads : ℕ) → 1 ≤ k → k ≤ 62 → IsGood (fresh (2 ^ k)) (replicate threads idle)
fresh-IsGood k threads one small =
    let k_63 : k ≤ 63 = omega arith in
    record {
      wide = omega (arith, pow_le_pow 1 k one);
      short = pow_le_pow k 62 small;
      near = λ t u same.
          mod_near (2 ^ k) t u (sym (mask_index-mod t k k_63) ∙ same ∙ mask_index-mod u k k_63);
      around = λ t.
          mask_index-mod (t + 2 ^ k) k k_63
          ∙ add-mod_right t (2 ^ k)
          ∙ sym (mask_index-mod t k k_63);
      counted = refl;
      narrow = omega arith;
      order = omega arith;
      current = λ u lt ge. absurd (omega arith);
      unused = λ u ge lt. mask_index-mod u k k_63 ∙ mod-eq_of_lt lt;
      future = λ u ge. (
        count-replicate (writes u) threads idle refl,
        count-replicate (reads u) threads idle refl,
      );
      past = λ u lt. absurd (omega arith);
      knows = λ i p at. subst (Knows (fresh (2 ^ k))) (replicate-at threads i p at) tt;
      received = tt;
      once =
          λ u. let nobody = count-replicate (reads u) threads idle refl in ground (arith, nobody);
    }
  where
    replicate-at : (n i : ℕ) (p : Point) → get_elem? (replicate n idle) i ≡ some p → idle ≡ p
    replicate-at zero i p e = cc
    replicate-at (suc n) zero p e = of_some e
    replicate-at (suc n) (suc i) p e = replicate-at n i p e

-- A schedule sends no more blocks than it has steps.
pub sent_count-run :
    (schedule : Schedule Choice) (q : Queue) (ts : List Point)
    → (run act schedule (q, ts)).0.sent_count ≤ q.sent_count + length schedule
unfolding run
sent_count-run [] q ts = omega arith
sent_count-run ((i, c) ∷ rest) q ts = elim (Option-cases (get_elem? ts i)) [
  | inl e ↦ rw (e, run, step) (omega (arith, sent_count-run rest q ts))
  | inr (p, e) ↦
      rw (e, run, step)
        (omega (arith, sent_count-run rest (act c q p).0 (set ts i (act c q p).1), act-Grows c q p))
]

-- A size of at most 2 ^ 62 is rounded to no more.
pub round_up-small :
    (fuel size : ℕ)
    → 64 ≤ fuel
    → size ≤ 2 ^ 62
    → (k : ℕ) × (1 ≤ k) × (k ≤ 62) × (round_up fuel size ≡ some (2 ^ k))
round_up-small fuel size enough small =
    let (k, e, one, _, above, least) = round_up-least fuel size enough (omega arith) in
    let k_62 : k ≤ 62 = elim (dec_lt 62 k) [
      | yes big ↦ absurd (omega (arith, least 62 (omega arith) small, pow_le_pow 63 k big))
      | no h ↦ omega arith
    ] in
    (k, one, k_62, e)

-- Every queue of at most 2 ^ 62 slots, and a schedule of at most 2 ^ 62 steps.
pub use_queue-IsGood :
    (fuel size threads : ℕ) (schedule : Schedule Choice)
    → 64 ≤ fuel
    → size ≤ 2 ^ 62
    → length schedule ≤ 2 ^ 62
    → (w : Queue × List Point) × (use_queue fuel size threads schedule ≡ some w) × IsGood w.0 w.1
use_queue-IsGood fuel size threads schedule enough small short =
    let (k, one, k_62, e) = round_up-small fuel size enough small in
    let q = fresh (2 ^ k) in
    let ts = replicate threads idle in
    (
      run act schedule (q, ts),
      rw e refl,
      run_keeps act IsKept (λ q ts i c p. act-IsKept q ts i c p) schedule (q, ts)
          (λ few. fresh-IsGood k threads one k_62) (omega (arith, sent_count-run schedule q ts)),
    )

pub after-IsGood :
    (fuel size threads : ℕ) (schedule : Schedule Choice) (q : Queue) (ts : List Point)
    → 64 ≤ fuel
    → size ≤ 2 ^ 62
    → length schedule ≤ 2 ^ 62
    → use_queue fuel size threads schedule ≡ some (q, ts)
    → IsGood q ts
after-IsGood fuel size threads schedule q ts enough small short made =
    let (w, e, good) = use_queue-IsGood fuel size threads schedule enough small short in
    subst (λ (v : Queue × List Point). IsGood v.0 v.1) (of_some (sym e ∙ made)) good
