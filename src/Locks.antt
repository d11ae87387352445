-- ===== src/Locks.antt =====
-- synchronization/spinlock.h and synchronization/rwspinlock.h: locks, as threads that take turns in
-- atomic steps.
pub mod Threads
pub mod Spin
pub mod ReadWrite
mod Tests
