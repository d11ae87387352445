-- ===== src/SharedBuffer/Spmc/Tests.antt =====
-- A producer and two consumers on a queue of two slots.
use universal_system_program.Prelude.{
  ℕ, ◌^◌, ◌≤◌, ◌≡◌, ◌++◌, refl, [], ◌∷◌, length, some, arith, replicate,
}
use universal_system_program.Locks.Threads.{Schedule, run_steps}
use universal_system_program.SharedBuffer.Mpmc
use universal_system_program.SharedBuffer.Mpmc.{Choice, enqueue, dequeue, go, fail, fresh}
use universal_system_program.SharedBuffer.Mpmc.Safe.{Delivers}
use universal_system_program.SharedBuffer.Spmc.{World, resting, outside, step, use_queue, as_mpmc}
use universal_system_program.SharedBuffer.Spmc.Refines.{one_producer-Refines}

abbrev steps : ℕ → ℕ → Schedule Choice
steps thread n = replicate n (thread, go)

abbrev after : Schedule Choice → World
after schedule = run_steps step schedule (fresh 2, resting, replicate 2 outside)

-- The third block finds the queue full.
abbrev three_blocks : Schedule Choice
three_blocks =
    ((0, enqueue (4 ∷ 5 ∷ [])) ∷ steps 0 5)
    ++ ((0, enqueue (6 ∷ [])) ∷ steps 0 5)
    ++ ((0, enqueue (7 ∷ [])) ∷ steps 0 5)

two_kept : (after three_blocks).0.tail ≡ 2
unfolding run_steps
two_kept = refl

-- Both consumers look for the same ticket; the second has to try again.
abbrev two_consumers : Schedule Choice
two_consumers =
    three_blocks
    ++ ((1, dequeue 9) ∷ (2, dequeue 1) ∷ steps 1 2)
    ++ steps 2 2
    ++ ((1, fail) ∷ [])
    ++ steps 2 1
    ++ steps 1 3
    ++ steps 2 2
    ++ steps 1 2

both_received : (after two_consumers).0.received ≡ (1, 9, 6 ∷ []) ∷ (0, 1, 4 ∷ []) ∷ []
unfolding run_steps
both_received = refl

one_producer-Refines_example :
    (w : World) × (use_queue 64 1 2 two_consumers ≡ some w)
    × (s : Schedule Choice) × (length s ≤ 2 ^ 62)
    × (Mpmc.use_queue 64 1 3 s ≡ some (as_mpmc w))
    × Delivers (as_mpmc w).0 (as_mpmc w).1
one_producer-Refines_example =
    one_producer-Refines 64 1 2 two_consumers (omega arith) (omega arith) (omega arith)
