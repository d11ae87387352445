-- ===== src/SignalBuffer.antt =====
-- signalbuffer/: queues whose consumers sleep while there is nothing to take.
pub mod Futex
pub mod Cv
