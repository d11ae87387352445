-- ===== src/SignalBuffer/Futex/Tests.antt =====
-- A producer and a consumer on a buffer of one block.
use universal_system_program.Prelude.{◌+◌, ◌≤◌, ◌≡◌, ◌⊎◌, refl, [], ◌∷◌, arith}
use universal_system_program.Locks.Threads.{Schedule, run_steps, count}
use universal_system_program.SignalBuffer.Futex.{
  Choice, enqueue_wake, wakes, asleep, ready, storing, outside, step, start,
}
use universal_system_program.SignalBuffer.Futex.Kernel.{kernel_wake, kernel_wake-IsWake}
use universal_system_program.SignalBuffer.Futex.Wakes.{stores, calls_wake, is_awake, blocks-IsAlert}

-- The consumer finds nothing; the producer's block comes before it sleeps, and its flag after.
abbrev late_flag : Schedule Choice
late_flag = (1, wakes 0) ∷ (0, enqueue_wake (5 ∷ [])) ∷ (1, wakes 0) ∷ (1, wakes 0) ∷ []

sleeps : (run_steps (step kernel_wake) late_flag (start 1 1 1)).1 ≡ storing ∷ asleep ∷ []
unfolding run_steps
sleeps = refl

abbrev flag_and_wake : Schedule Choice
flag_and_wake =
    (1, wakes 0)
    ∷ (0, enqueue_wake (5 ∷ []))
    ∷ (1, wakes 0)
    ∷ (1, wakes 0)
    ∷ (0, wakes 0)
    ∷ (0, wakes 1)
    ∷ []

wakes_up : (run_steps (step kernel_wake) flag_and_wake (start 1 1 1)).1 ≡ outside ∷ ready ∷ []
unfolding run_steps
wakes_up = refl

blocks-IsAlert_example :
    let (s, ts) = run_steps (step kernel_wake) flag_and_wake (start 1 1 1) in
    (s.blocks ≡ []) ⊎ (1 ≤ count stores ts + count calls_wake ts + count is_awake ts)
blocks-IsAlert_example =
    blocks-IsAlert kernel_wake 1 1 1 flag_and_wake kernel_wake-IsWake (omega arith)
