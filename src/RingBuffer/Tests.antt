-- ===== src/RingBuffer/Tests.antt =====
-- `RingBuffer` at small inputs, and its theorems there.
use universal_system_program.Prelude.{
  ℕ, ◌≤◌, ◌≡◌, refl, List, [], ◌∷◌, none, some, false, pos, arith, length, Bytes, bytes_from,
  get_or, zero, suc,
}
use universal_system_program.Capacity.Defs.{round_up, double_until}
use universal_system_program.RingBuffer.{
  RingBuffer, Slot, zero_slot, ring_pull, make, moved_from, evict, push_infinite, push_finite, pop,
  step, run, store, empty,
}
use universal_system_program.RingBuffer.Queue
use universal_system_program.RingBuffer.Queue.{Op}
use universal_system_program.RingBuffer.Inv.{IsValid, contents}
use universal_system_program.RingBuffer.Refine.{run_refines}
use universal_system_program.RingBuffer.Make.{make_lem}

abbrev bytes_of : List ℕ → Bytes
bytes_of xs i = get_or xs i 0

abbrev slot_of : List ℕ → Slot
slot_of xs = record { len = length xs; slot = bytes_of xs }

-- Two slots, both filled, the oldest at index 1.
abbrev full : RingBuffer
full = record {
  buf = slot_of (3 ∷ 4 ∷ []) ∷ slot_of (1 ∷ 2 ∷ []) ∷ [];
  head = 1;
  tail = 1;
  cnt = 2;
  size = 2;
}

full_lens : (i : ℕ) → (get_or full.buf i zero_slot).len ≤ 65535
full_lens zero = omega arith
full_lens (suc zero) = omega arith
full_lens (suc (suc i)) = omega arith

abbrev full-IsValid : IsValid full
full-IsValid = record {
  width = 1;
  narrow = omega arith;
  sized = refl;
  storage = refl;
  head_in = omega arith;
  cnt_in = omega arith;
  tail_at = refl;
  lens = full_lens;
}

abbrev script : List Op
script =
    Op.push_finite (9 ∷ []) 1
    ∷ Op.push_infinite (5 ∷ 6 ∷ 7 ∷ []) 2
    ∷ Op.pop 1
    ∷ Op.pop 9
    ∷ Op.pop 9
    ∷ []

script_replies :
    run full script
    ≡ some
        ((ring_pull, []) ∷ (pos 2, []) ∷ (pos 1, 3 ∷ []) ∷ (pos 2, 5 ∷ 6 ∷ []) ∷ (pos 0, []) ∷ [])
unfolding run step push_finite push_infinite pop store bytes_from
script_replies = refl

make_rounds : (make 64 5 ≡ make 64 8) × (make 64 0 ≡ make 64 2)
unfolding make round_up double_until
make_rounds = (refl, refl)

full_not_empty : empty full ≡ false
unfolding empty
full_not_empty = refl

run_refines_example : run full script ≡ some (Queue.run 2 (contents full) script)
run_refines_example = run_refines script full-IsValid (omega arith)

make_lem_example :
    (r : RingBuffer) × (make 64 5 ≡ some r)
    × IsValid r
    × (contents r ≡ [])
    × (2 ≤ r.size)
    × (5 ≤ r.size)
make_lem_example = make_lem 64 5 (omega arith) (omega arith)

-- A ring that was moved from refuses a block and has none to give; to store one regardless is a fault.
moved_from_refuses : push_finite moved_from (7 ∷ []) 1 ≡ some (ring_pull, moved_from)
unfolding push_finite
moved_from_refuses = refl

moved_from_empty : pop moved_from 1 ≡ some (pos 0, [], moved_from)
unfolding pop
moved_from_empty = refl

moved_from_faults : push_infinite moved_from (7 ∷ []) 1 ≡ none
unfolding push_infinite store evict
moved_from_faults = refl
