-- ===== src/Locks/Tests.antt =====
-- Two threads on each lock.
use universal_system_program.Prelude.{
  Bool, ◌/◌, ◌%◌, ◌-◌, ◌⊎◌, ◌^◌, ◌≤◌, ◌≡◌, refl, true, false, [], ◌∷◌, get_elem?, some, arith,
}
use universal_system_program.Locks.Threads.{Schedule, run, count}
use universal_system_program.Locks.Spin
use universal_system_program.Locks.Spin.Excludes.{holds, spin_lock-Excludes}
use universal_system_program.Locks.ReadWrite
use universal_system_program.Locks.ReadWrite.Excludes.{
  reads, writes, rw_lock-Excludes, rw_lock_exact,
}

-- The first thread takes the lock as a writer; the second wants it as a reader, and waits.
abbrev writer_first : Schedule Bool
writer_first = (0, false) ∷ (0, true) ∷ (0, true) ∷ (1, true) ∷ (1, true) ∷ []

-- Both take it as readers.
abbrev two_readers : Schedule Bool
two_readers = (0, true) ∷ (1, true) ∷ (0, true) ∷ (0, true) ∷ (1, true) ∷ (1, true) ∷ []

writer_holds :
    get_elem? (run ReadWrite.act writer_first (ReadWrite.start 2)).1 0 ≡ some ReadWrite.writer
unfolding run
writer_holds = refl

reader_waits :
    get_elem? (run ReadWrite.act writer_first (ReadWrite.start 2)).1 1 ≡ some ReadWrite.want_shared
unfolding run
reader_waits = refl

both_read : (run ReadWrite.act two_readers (ReadWrite.start 2)).0 ≡ 2
unfolding run
both_read = refl

rw_lock-Excludes_example :
    (reads ReadWrite.want_shared ≡ 0)
    × (writes ReadWrite.want_shared ≡ 0)
    × ((ReadWrite.act true
          (run ReadWrite.act writer_first (ReadWrite.start 2)).0
          ReadWrite.waiting).1
        ≡ ReadWrite.writer)
rw_lock-Excludes_example =
    rw_lock-Excludes 2 writer_first 0 1 ReadWrite.writer ReadWrite.want_shared writer_holds
      reader_waits (omega arith) (omega arith)

rw_lock_exact_example :
    let w = run ReadWrite.act two_readers (ReadWrite.start 2) in
    (w.0 / 2 ^ 31 ≡ count writes w.1)
    × (w.0 % 2 ^ 31 ≡ count reads w.1)
    × (count reads w.1 ≤ 2 ^ 31 - 1)
    × ((count reads w.1 ≡ 0) ⊎ (count writes w.1 ≡ 0))
rw_lock_exact_example = rw_lock_exact 2 two_readers (omega arith)

-- Nothing stops one reader more than the counter is for: the word is then the writer's bit.
one_too_many :
    ReadWrite.enter_shared true (2 ^ 31 - 1) (2 ^ 31 - 1) ≡ (ReadWrite.writer_bit, ReadWrite.reader)
one_too_many = refl

-- The first thread takes the lock; the second tries it and goes away.
abbrev holder_first : Schedule Bool
holder_first = (0, true) ∷ (0, true) ∷ (1, false) ∷ (1, true) ∷ []

first_holds : get_elem? (run Spin.act holder_first (Spin.start 2)).1 0 ≡ some Spin.holder
unfolding run
first_holds = refl

second_leaves : get_elem? (run Spin.act holder_first (Spin.start 2)).1 1 ≡ some Spin.idle
unfolding run
second_leaves = refl

spin_lock-Excludes_example :
    (holds Spin.idle ≡ 0)
    × ((Spin.lock_once (run Spin.act holder_first (Spin.start 2)).0).1 ≡ Spin.want_lock)
    × ((Spin.try_lock (run Spin.act holder_first (Spin.start 2)).0).1 ≡ Spin.idle)
spin_lock-Excludes_example =
    spin_lock-Excludes 2 holder_first 0 1 Spin.idle first_holds second_leaves (omega arith)
