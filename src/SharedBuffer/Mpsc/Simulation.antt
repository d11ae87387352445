-- ===== src/SharedBuffer/Mpsc/Simulation.antt =====
-- Each step of a queue for one consumer is steps of a queue for many consumers.
use universal_system_program.Prelude.{
  ℕ, ◌+◌, ◌^◌, ◌≤◌, ◌≡◌, inl, inr, refl, Bool, true, false, ◌==◌, arith, Bool-cases,
}
use universal_system_program.SharedBuffer.Mpmc.{
  Queue, Block, index, add64, is_behind, Choice, enqueue, dequeue, go, fail, may_swap, Point, act,
  compare_write, swap_tail,
}
use universal_system_program.SharedBuffer.Mpsc.{
  Writer, resting, loads_tail, loads_seq, claims, writes_block, fills_slot, compare_claim,
  swap_claim, write_step, writer_point,
}

-- What a producer does to the queue does not depend on the head.
abbrev pub Matches : ℕ → Queue × Writer → Queue × Point → Type 0
Matches n r r' = (r'.0 ≡ (record (r.0) { head = n })) × (r'.1 ≡ writer_point r.1)

abbrev pub writer_choice : Choice → Choice
writer_choice (dequeue len) = go
writer_choice c = c

compare_point :
    (b : Block) (t seq : ℕ) → compare_write b t seq ≡ writer_point (compare_claim b t seq)
compare_point b t seq = elim (Bool-cases (seq == t)) [
  | inl same ↦ rw same refl
  | inr ne ↦ elim (Bool-cases (is_behind seq t)) [
    | inl late ↦ rw (ne, late) refl
    | inr ahead ↦ rw (ne, ahead) refl
  ]
]

swap_claim-Matches :
    (ok : Bool) (b : Block) (t n : ℕ) (q : Queue)
    → Matches n (swap_claim ok b t q) (swap_tail ok b t (record q { head = n }))
swap_claim-Matches false b t n q = (refl, refl)
swap_claim-Matches true b t n q = elim (Bool-cases (q.tail == t)) [
  | inl won ↦ rw won (refl, refl)
  | inr lost ↦ rw lost (refl, refl)
]

same_swap : (c : Choice) → may_swap (writer_choice c) ≡ may_swap c
same_swap (enqueue b) = refl
same_swap (dequeue len) = refl
same_swap go = refl
same_swap fail = refl

pub write_step-Matches :
    (c : Choice) (n : ℕ) (q : Queue) (p : Writer)
    → Matches n (write_step c q p) (act (writer_choice c) (record q { head = n }) (writer_point p))
write_step-Matches (enqueue b) n q resting = (refl, refl)
write_step-Matches (dequeue len) n q resting = (refl, refl)
write_step-Matches go n q resting = (refl, refl)
write_step-Matches fail n q resting = (refl, refl)
write_step-Matches c n q (loads_tail b) = (refl, refl)
write_step-Matches c n q (loads_seq b t) = (refl, compare_point b t (q.seq (index q t)))
write_step-Matches c n q (claims b t) = rw (same_swap c) (swap_claim-Matches (may_swap c) b t n q)
write_step-Matches c n q (writes_block b t) = (refl, refl)
write_step-Matches c n q (fills_slot b t) = (refl, refl)

pub full_test :
    (seq h : ℕ) → h ≤ 2 ^ 62 → seq ≤ h + 1 → is_behind seq (add64 h 1) ≡ false → seq ≡ add64 h 1
full_test seq h small le e = ground arith

pub late_test :
    (seq h : ℕ)
    → h ≤ 2 ^ 62
    → seq ≤ h + 1
    → is_behind seq (add64 h 1) ≡ true
    → (seq == add64 h 1) ≡ false
late_test seq h small le e = ground arith
