-- ===== src/Locks/Spin.antt =====
-- synchronization/spinlock.h: `SpinLock`, one atomic flag.
pub mod Excludes
use universal_system_program.Prelude.{ℕ, Bool, true, false, if◌then◌else◌, List, replicate}

-- Where a thread is: outside, at the test-and-set of `lock` or of `try_lock`, or holding the lock.
pub data Point : Type 0 where
  idle want_lock want_try holder : Point

-- `flag_.test_and_set()`, with the point that its answer leads to.
abbrev pub lock_once : Bool → Bool × Point
lock_once flag = (true, if flag then want_lock else holder)

abbrev pub try_lock : Bool → Bool × Point
try_lock flag = (true, if flag then idle else holder)

abbrev pub unlock : Bool → Bool × Point
unlock flag = (false, idle)

-- A thread outside chooses between `lock` and `try_lock`.
abbrev pub act : Bool → Bool → Point → Bool × Point
act choice flag idle = (flag, if choice then want_lock else want_try)
act choice flag want_lock = lock_once flag
act choice flag want_try = try_lock flag
act choice flag holder = unlock flag

abbrev pub start : (threads : ℕ) → Bool × List Point
start threads = (false, replicate threads idle)
