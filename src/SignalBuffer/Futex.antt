-- ===== src/SignalBuffer/Futex.antt =====
-- signalbuffer/futexsignalbuffer.h: `FutexSignalBuffer`, for any number of producers and consumers in atomic
-- steps. The buffer inside is a bounded queue of blocks, each of whose calls is one step; the
-- kernel's futex compares the flag and puts a thread to sleep in one step; how it wakes sleepers is a
-- parameter, futex_wake.
pub mod Wakes
pub mod Kernel
mod Tests
use universal_system_program.Prelude.{
  ℕ, zero, suc, Bool, true, false, List, [], ◌∷◌, ◌++◌, length, if◌then◌else◌, ltb, Option, none,
  some, get_elem?, set, replicate,
}
use universal_system_program.Locks.Threads.{Schedule}

-- The class's members: the buffer inside and `flag_`.
pub record Shared : Type 0 where
  pub capacity : ℕ
  pub blocks : List (List ℕ)
  pub flag : Bool

-- A producer is outside, or before it stores the flag or wakes one or all. A consumer calls `dequeue_wait`
-- in a loop: it is ready to take a block, has found none, is about to sleep, or sleeps.
pub data Point : Type 0 where
  outside storing waking storing_all waking_all : Point
  ready found_none waiting asleep : Point

-- A producer's call, or which sleeper the kernel wakes.
pub data Choice : Type 0 where
  enqueue_wake : List ℕ → Choice
  wake_all : Choice
  wakes : ℕ → Choice

-- `shared_buf_->enqueue` and `shared_buf_->dequeue`
abbrev pub enqueue : List ℕ → Shared → Shared
enqueue b s =
    if ltb (length s.blocks) s.capacity then record s { blocks = s.blocks ++ (b ∷ []) } else s

abbrev pub dequeue : Shared → List (List ℕ) → Shared × Point
dequeue s [] = (s, found_none)
dequeue s (b ∷ rest) = (record s { blocks = rest }, ready)

abbrev pub begin : Choice → Shared → Shared × Point
begin (enqueue_wake b) s = (enqueue b s, storing)
begin wake_all s = (s, storing_all)
begin (wakes j) s = (s, outside)

-- The compare-and-swap of 1 by 0, and `FUTEX_WAIT` at 0.
abbrev pub take_flag : Shared → Bool → Shared × Point
take_flag s true = (record s { flag = false }, ready)
take_flag s false = (s, waiting)

abbrev pub sleep_at_zero : Bool → Point
sleep_at_zero true = ready
sleep_at_zero false = asleep

-- One step of `enqueue_wake`, `wake_all` or `dequeue_wait`, on the thread's own point.
abbrev pub act : Choice → Shared → Point → Shared × Point
act c s outside = begin c s
act c s storing = (record s { flag = true }, waking)
act c s waking = (s, outside)
act c s storing_all = (record s { flag = true }, waking_all)
act c s waking_all = (s, outside)
act c s ready = dequeue s s.blocks
act c s found_none = take_flag s s.flag
act c s waiting = (s, sleep_at_zero s.flag)
act c s asleep = (s, asleep)

abbrev pub int_max : ℕ
int_max = 2147483647

abbrev pub choose : Choice → ℕ
choose (wakes j) = j
choose _ = 0

-- `FUTEX_WAKE`, of at most so many sleepers, is the kernel's: which it wakes is its choice.
abbrev pub Wake : Type 0
Wake = (count : ℕ) → (choice : ℕ) → List Point → List Point

module _ (futex_wake : Wake) where
  -- What the step does to the other threads.
  abbrev pub wake : Choice → Point → List Point → List Point
  wake c waking ts = futex_wake 1 (choose c) ts
  wake c waking_all ts = futex_wake int_max (choose c) ts
  wake c _ ts = ts

  abbrev pub step_at : ℕ → Choice → Shared × List Point → Option Point → Shared × List Point
  step_at i c (s, ts) none = (s, ts)
  step_at i c (s, ts) (some p) = ((act c s p).0, wake c p (set ts i (act c s p).1))

  abbrev pub step : ℕ → Choice → Shared × List Point → Shared × List Point
  step i c (s, ts) = step_at i c (s, ts) (get_elem? ts i)

-- The constructor, with producers outside their calls and consumers before their first.
abbrev pub start : (capacity producers consumers : ℕ) → Shared × List Point
start capacity producers consumers = (
  record { capacity = capacity; blocks = []; flag = false },
  replicate producers outside ++ replicate consumers ready,
)
