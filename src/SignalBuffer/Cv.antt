-- ===== src/SignalBuffer/Cv.antt =====
-- signalbuffer/cvsignalbuffer.h: `CVSignalbuffer`, for any number of producers and consumers in atomic steps.
-- The buffer inside is a bounded queue of blocks, each of whose calls is one step; what is done under
-- the mutex is one step, and so is the wait, which gives the mutex up as it begins. How the condition
-- variable wakes sleepers is a parameter, notify.
mod Tests
use universal_system_program.Prelude.{
  ℕ, zero, suc, ◌+◌, ◌%◌, ◌^◌, List, [], ◌∷◌, ◌++◌, length, if◌then◌else◌, ltb, ◌==◌, Option, none,
  some, get_elem?, set, replicate,
}

-- The class's members: the buffer inside and `flag_`, a counter of 64 bits.
pub record Shared : Type 0 where
  pub capacity : ℕ
  pub blocks : List (List ℕ)
  pub flag : ℕ

-- A producer is outside, or before it counts or notifies one or all. A consumer calls `dequeue_wait` in
-- a loop: it is ready to take a block, has found none, has read the flag, or sleeps.
pub data Point : Type 0 where
  outside counting notifying counting_all notifying_all : Point
  ready found_none : Point
  comparing : (expected : ℕ) → Point
  asleep : Point

-- A producer's call, or which sleeper is woken.
pub data Choice : Type 0 where
  enqueue_wake : List ℕ → Choice
  wake_all : Choice
  wakes : ℕ → Choice

abbrev pub enqueue : List ℕ → Shared → Shared
enqueue b s =
    if ltb (length s.blocks) s.capacity then record s { blocks = s.blocks ++ (b ∷ []) } else s

-- `if (n > 0) return n;`: a block of no bytes is taken, and not returned.
abbrev pub dequeue : Shared → List (List ℕ) → Shared × Point
dequeue s [] = (s, found_none)
dequeue s (b ∷ rest) = (record s { blocks = rest }, if ltb 0 (length b) then ready else found_none)

abbrev pub count_up : Shared → Shared
count_up s = record s { flag = (s.flag + 1) % 2 ^ 64 }

abbrev pub begin : Choice → Shared → Shared × Point
begin (enqueue_wake b) s = (enqueue b s, counting)
begin wake_all s = (s, counting_all)
begin (wakes j) s = (s, outside)

-- One step of `enqueue_wake`, `wake_all` or `dequeue_wait`, on the thread's own point.
abbrev pub act : Choice → Shared → Point → Shared × Point
act c s outside = begin c s
act c s counting = (count_up s, notifying)
act c s notifying = (s, outside)
act c s counting_all = (count_up s, notifying_all)
act c s notifying_all = (s, outside)
act c s ready = dequeue s s.blocks
act c s found_none = (s, comparing s.flag)
act c s (comparing expected) = (s, if s.flag == expected then asleep else ready)
act c s asleep = (s, asleep)

abbrev pub choose : Choice → ℕ
choose (wakes j) = j
choose _ = 0

-- `notify_one` and `notify_all` of the condition variable.
pub record Notify : Type 0 where
  pub notify_one : (choice : ℕ) → List Point → List Point
  pub notify_all : List Point → List Point

module _ (condition : Notify) where
  abbrev pub wake : Choice → Point → List Point → List Point
  wake c notifying ts = condition.notify_one (choose c) ts
  wake c notifying_all ts = condition.notify_all ts
  wake c _ ts = ts

  abbrev pub step_at : ℕ → Choice → Shared × List Point → Option Point → Shared × List Point
  step_at i c (s, ts) none = (s, ts)
  step_at i c (s, ts) (some p) = ((act c s p).0, wake c p (set ts i (act c s p).1))

  abbrev pub step : ℕ → Choice → Shared × List Point → Shared × List Point
  step i c (s, ts) = step_at i c (s, ts) (get_elem? ts i)

-- The constructor, with producers outside their calls and consumers before their first.
abbrev pub start : (capacity producers consumers : ℕ) → Shared × List Point
start capacity producers consumers = (
  record { capacity = capacity; blocks = []; flag = 0 },
  replicate producers outside ++ replicate consumers ready,
)
