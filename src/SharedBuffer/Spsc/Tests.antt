-- ===== src/SharedBuffer/Spsc/Tests.antt =====
-- A producer and a consumer on a buffer of two slots, of which one can be used.
use universal_system_program.Prelude.{
  ◌-◌, ◌≤◌, ◌<◌, ◌≡◌, ◌++◌, refl, List, [], ◌∷◌, length, some, arith, replicate,
}
use universal_system_program.Locks.Threads.{Schedule, run_steps}
use universal_system_program.SharedBuffer.Mpmc.{Block, Choice, enqueue, dequeue, go}
use universal_system_program.SharedBuffer.Spsc.{World, resting, outside, step, fresh, use_queue}
use universal_system_program.SharedBuffer.Spsc.Fifo.{
  Explains, pushed, rejected, popped, found_empty,
}
use universal_system_program.SharedBuffer.Spsc.Refines.{use_queue-Explains}

-- The consumer finds nothing, then a block; while it reads, the producer finds the buffer full.
abbrev taking_turns : Schedule Choice
taking_turns =
    ((1, dequeue 9) ∷ (0, enqueue (1 ∷ 2 ∷ [])) ∷ replicate 2 (1, go))
    ++ replicate 4 (0, go)
    ++ ((1, dequeue 1) ∷ replicate 3 (1, go))
    ++ ((0, enqueue (3 ∷ [])) ∷ replicate 2 (0, go))
    ++ ((1, go) ∷ [])

abbrev after : World
after = run_steps step taking_turns (fresh 2, resting, outside)

calls_made : after.0.log ≡ popped 1 (1 ∷ []) ∷ rejected ∷ pushed (1 ∷ 2 ∷ []) ∷ found_empty ∷ []
unfolding run_steps
calls_made = refl

use_queue-Explains_example :
    (w : World) × (use_queue 64 1 taking_turns ≡ some w)
    × (1 ≤ w.0.size)
    × (blocks : List Block) × Explains (w.0.size - 1) w.0.log blocks
    × (length blocks < w.0.size)
use_queue-Explains_example = use_queue-Explains 64 1 taking_turns (omega arith) (omega arith)
