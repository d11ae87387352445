-- ===== src/Locks/ReadWrite.antt =====
-- synchronization/rwspinlock.h: `RWSpinLock`, a 32-bit word whose top bit is the writer's and whose
-- other bits count the readers.
pub mod Excludes
use universal_system_program.Prelude.{
  ℕ, ◌+◌, ◌-◌, ◌%◌, ◌^◌, Bool, true, false, ◌&&◌, ◌==◌, if◌then◌else◌, bit_and, List, replicate,
}

abbrev pub writer_bit : ℕ
writer_bit = 2 ^ 31

abbrev pub reader_inc : ℕ
reader_inc = 1

-- Where a thread is: outside; at the load of `lock_shared`, and at its compare-and-swap with the
-- word that it loaded; holding the lock as a reader; at the compare-and-swap of `lock`, and in its
-- second loop; holding the lock as a writer.
pub data Point : Type 0 where
  idle want_shared reader want_lock waiting writer : Point
  loaded : (old : ℕ) → Point

-- The atomic steps. A weak compare-and-swap may fail although the words are equal, where the
-- choice is `false`.
abbrev pub load_shared : ℕ → ℕ × Point
load_shared state = (state, if bit_and state writer_bit == 0 then loaded state else want_shared)

abbrev pub enter_shared : Bool → ℕ → ℕ → ℕ × Point
enter_shared choice old state =
    if choice && (state == old) then ((old + reader_inc) % 2 ^ 32, reader) else (state, want_shared)

abbrev pub unlock_shared : ℕ → ℕ × Point
unlock_shared state = ((state + 2 ^ 32 - reader_inc) % 2 ^ 32, idle)

abbrev pub enter_lock : Bool → ℕ → ℕ × Point
enter_lock choice state =
    if choice && (state == 0) then (writer_bit, waiting) else (state, want_lock)

abbrev pub await_readers : ℕ → ℕ × Point
await_readers state = (state, if state == writer_bit then writer else waiting)

abbrev pub unlock : ℕ → ℕ × Point
unlock state = (0, idle)

-- A thread outside chooses which lock it wants.
abbrev pub act : Bool → ℕ → Point → ℕ × Point
act choice state idle = (state, if choice then want_shared else want_lock)
act choice state want_shared = load_shared state
act choice state (loaded old) = enter_shared choice old state
act choice state reader = unlock_shared state
act choice state want_lock = enter_lock choice state
act choice state waiting = await_readers state
act choice state writer = unlock state

-- All threads outside.
abbrev pub start : (threads : ℕ) → ℕ × List Point
start threads = (0, replicate threads idle)
