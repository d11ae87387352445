-- ===== src/SharedBuffer/Mpmc/Tests.antt =====
-- Threads on a queue of two slots.
use universal_system_program.Prelude.{
  ℕ, ◌+◌, ◌≡◌, ◌≢◌, ◌⊎◌, ◌++◌, refl, List, [], ◌∷◌, get_elem?, some, arith, replicate,
}
use universal_system_program.Capacity.Defs.{round_up, double_until}
use universal_system_program.Locks.Threads.{Schedule, run, count}
use universal_system_program.SharedBuffer.Mpmc.{
  Queue, index, Point, idle, load_write_seq, load_read_seq, write, Choice, enqueue, dequeue, go,
  fail, act, fresh, use_queue,
}
use universal_system_program.SharedBuffer.Mpmc.Invariant.{writes, reads}
use universal_system_program.SharedBuffer.Mpmc.Safe.{
  Delivers, use_queue-Delivers, use_queue-IsExclusive,
}
use universal_system_program.SharedBuffer.Mpmc.Refused.{enqueue-Full, dequeue-Empty}

-- A number of steps of one thread.
abbrev steps : ℕ → ℕ → Schedule Choice
steps thread n = replicate n (thread, go)

abbrev World : Type 0
World = Queue × List Point

abbrev after : Schedule Choice → World
after schedule = run act schedule (fresh 2, replicate 3 idle)

after_made : (schedule : Schedule Choice) → use_queue 64 1 3 schedule ≡ some (after schedule)
unfolding round_up double_until
after_made schedule = refl

-- Two producers take turns; a weak compare-and-swap of the first fails, and the second is first.
abbrev two_producers : Schedule Choice
two_producers =
    (0, enqueue (1 ∷ 2 ∷ 3 ∷ []))
    ∷ (1, enqueue (9 ∷ []))
    ∷ (0, go)
    ∷ (1, go)
    ∷ (0, go)
    ∷ (1, go)
    ∷ (0, fail)
    ∷ (1, go)
    ∷ (0, go)
    ∷ (0, go)
    ∷ (0, go)
    ∷ []

both_write : (after two_producers).1 ≡ write (1 ∷ 2 ∷ 3 ∷ []) 1 ∷ write (9 ∷ []) 0 ∷ idle ∷ []
unfolding run
both_write = refl

-- They publish, and the third thread takes a block and two bytes of the other.
abbrev all_three : Schedule Choice
all_three =
    two_producers
    ++ steps 0 2
    ++ steps 1 2
    ++ ((2, dequeue 5) ∷ steps 2 5)
    ++ ((2, dequeue 2) ∷ steps 2 5)

both_received : (after all_three).0.received ≡ (1, 2, 1 ∷ 2 ∷ []) ∷ (0, 5, 9 ∷ []) ∷ []
unfolding run
both_received = refl

-- Both slots are written, and the third thread comes to the comparison; none is, and it does.
abbrev two_written : Schedule Choice
two_written = two_producers ++ steps 0 2 ++ steps 1 2 ++ ((2, enqueue (7 ∷ [])) ∷ steps 2 1)

abbrev none_written : Schedule Choice
none_written = (2, dequeue 4) ∷ steps 2 1

about_to_fail : get_elem? (after two_written).1 2 ≡ some (load_write_seq (7 ∷ []) 2)
unfolding run
about_to_fail = refl

fails : (act go (after two_written).0 (load_write_seq (7 ∷ []) 2)).1 ≡ idle
unfolding run
fails = refl

about_to_be_empty : get_elem? (after none_written).1 2 ≡ some (load_read_seq 4 0)
unfolding run
about_to_be_empty = refl

is_empty : (act go (after none_written).0 (load_read_seq 4 0)).1 ≡ idle
unfolding run
is_empty = refl

use_queue-Delivers_example : (w : World) × (use_queue 64 1 3 all_three ≡ some w) × Delivers w.0 w.1
use_queue-Delivers_example =
    use_queue-Delivers 64 1 3 all_three (omega arith) (omega arith) (omega arith)

first_writes : get_elem? (after two_producers).1 0 ≡ some (write (1 ∷ 2 ∷ 3 ∷ []) 1)
unfolding run
first_writes = refl

second_writes : get_elem? (after two_producers).1 1 ≡ some (write (9 ∷ []) 0)
unfolding run
second_writes = refl

use_queue-IsExclusive_example : index (after two_producers).0 1 ≢ index (after two_producers).0 0
use_queue-IsExclusive_example =
    use_queue-IsExclusive 64 1 3 two_producers (after two_producers).0 (after two_producers).1
      (omega arith) (omega arith) (omega arith) (after_made two_producers) 0 1 1 0
      (write (1 ∷ 2 ∷ 3 ∷ []) 1) (write (9 ∷ []) 0) first_writes second_writes (omega arith) refl
      refl

enqueue-Full_example :
    let (q, ts) = after two_written in
    (2 ≡ q.tail)
    × (u : ℕ) × (u + q.size ≡ 2)
    × ((q.tail ≡ q.head + q.size) ⊎ (count (reads u) ts ≡ 1))
enqueue-Full_example =
    enqueue-Full 64 1 3 two_written (after two_written).0 (after two_written).1 (omega arith)
      (omega arith) (omega arith) (after_made two_written) 2 go (7 ∷ []) 2 about_to_fail fails

dequeue-Empty_example :
    let (q, ts) = after none_written in
    (0 ≡ q.head) × ((q.head ≡ q.tail) ⊎ (count (writes 0) ts ≡ 1))
dequeue-Empty_example =
    dequeue-Empty 64 1 3 none_written (after none_written).0 (after none_written).1 (omega arith)
      (omega arith) (omega arith) (after_made none_written) 2 go 4 0 about_to_be_empty is_empty
