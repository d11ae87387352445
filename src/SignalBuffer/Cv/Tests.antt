-- ===== src/SignalBuffer/Cv/Tests.antt =====
-- A producer and a consumer on a buffer of one block.
use universal_system_program.Prelude.{◌≡◌, refl, List, [], ◌∷◌, map}
use universal_system_program.Locks.Threads.{Schedule, run_steps}
use universal_system_program.SignalBuffer.Cv.{
  Shared, Point, outside, ready, found_none, asleep, Choice, enqueue_wake, wakes, Notify, step,
  start,
}

abbrev woken : Point → Point
woken asleep = ready
woken p = p

-- With one sleeper at most, one is all.
abbrev condition : Notify
condition = record { notify_one = λ j ts. map woken ts; notify_all = map woken }

abbrev after : Schedule Choice → Shared × List Point
after schedule = run_steps (step condition) schedule (start 1 1 1)

-- The producer's whole call lies between the consumer's look into the buffer and its look at the flag: the
-- consumer sleeps while there is a block, and the producer has left.
abbrev call_between : Schedule Choice
call_between =
    (1, wakes 0)
    ∷ (0, enqueue_wake (5 ∷ []))
    ∷ (0, wakes 0)
    ∷ (0, wakes 1)
    ∷ (1, wakes 0)
    ∷ (1, wakes 0)
    ∷ []

sleeps : (after call_between).1 ≡ outside ∷ asleep ∷ []
unfolding run_steps
sleeps = refl

block_waits : (after call_between).0.blocks ≡ (5 ∷ []) ∷ []
unfolding run_steps
block_waits = refl

-- A block of no bytes is taken from the buffer and not returned.
abbrev no_bytes : Schedule Choice
no_bytes = (0, enqueue_wake []) ∷ (0, wakes 0) ∷ (0, wakes 1) ∷ (1, wakes 0) ∷ []

block_lost : (after no_bytes).0.blocks ≡ []
unfolding run_steps
block_lost = refl

goes_to_wait : (after no_bytes).1 ≡ outside ∷ found_none ∷ []
unfolding run_steps
goes_to_wait = refl
