-- ===== src/SharedBuffer/Mpsc/Tests.antt =====
-- Two producers and a consumer on a queue of two slots.
use universal_system_program.Prelude.{
  ℕ, ◌^◌, ◌≤◌, ◌≡◌, ◌++◌, refl, [], ◌∷◌, length, some, arith, replicate,
}
use universal_system_program.Capacity.Defs.{round_up, double_until}
use universal_system_program.Locks.Threads.{Schedule, run_steps}
use universal_system_program.SharedBuffer.Mpmc
use universal_system_program.SharedBuffer.Mpmc.{Choice, enqueue, dequeue, go, fail, fresh}
use universal_system_program.SharedBuffer.Mpmc.Invariant.{AllSent}
use universal_system_program.SharedBuffer.Mpmc.Safe.{Delivers}
use universal_system_program.SharedBuffer.Mpsc.{World, resting, outside, step, use_queue, as_mpmc}
use universal_system_program.SharedBuffer.Mpsc.Refines.{one_consumer-Refines}
use universal_system_program.SharedBuffer.Mpsc.Order.{
  tickets, countdown, received_count, received-IsOrdered,
}

abbrev steps : ℕ → ℕ → Schedule Choice
steps thread n = replicate n (thread, go)

abbrev after : Schedule Choice → World
after schedule = run_steps step schedule (fresh 2, outside, replicate 2 resting)

after_made : (schedule : Schedule Choice) → use_queue 64 1 2 schedule ≡ some (after schedule)
unfolding round_up double_until
after_made schedule = refl

-- The second producer is faster; the consumer takes its block, and gets two bytes of the other.
abbrev two_producers : Schedule Choice
two_producers =
    ((1, enqueue (1 ∷ 2 ∷ 3 ∷ [])) ∷ (2, enqueue (9 ∷ [])) ∷ steps 1 2)
    ++ steps 2 5
    ++ steps 1 5
    ++ steps 1 3
    ++ ((0, dequeue 5) ∷ steps 0 5)
    ++ ((0, dequeue 2) ∷ steps 0 4)

both_received : (after two_producers).0.received ≡ (1, 2, 1 ∷ 2 ∷ []) ∷ (0, 5, 9 ∷ []) ∷ []
unfolding run_steps
both_received = refl

one_consumer-Refines_example :
    (w : World) × (use_queue 64 1 2 two_producers ≡ some w)
    × (s : Schedule Choice) × (length s ≤ 2 ^ 62)
    × (Mpmc.use_queue 64 1 3 s ≡ some (as_mpmc w))
    × Delivers (as_mpmc w).0 (as_mpmc w).1
one_consumer-Refines_example =
    one_consumer-Refines 64 1 2 two_producers (omega arith) (omega arith) (omega arith)

received-IsOrdered_example :
    let (q, r, ts) = after two_producers in
    (tickets q.received ≡ countdown (received_count q.head r))
    × AllSent (as_mpmc (q, r, ts)).0 q.received
received-IsOrdered_example =
    let (q, r, ts) = after two_producers in
    received-IsOrdered 64 1 2 two_producers q r ts (omega arith) (omega arith) (omega arith)
      (after_made two_producers)
