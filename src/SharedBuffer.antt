-- ===== src/SharedBuffer.antt =====
-- sharedbuffer/: queues of byte blocks between threads, in rings of slots.
pub mod Mpmc
pub mod Mpsc
pub mod Spmc
pub mod Spsc
