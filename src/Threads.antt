-- ===== src/Threads.antt =====
-- thread/: threads that are set up, started, stopped and cleaned up, and pools of them.
pub mod Class
pub mod Std
pub mod Posix
pub mod Pool
mod Tests
