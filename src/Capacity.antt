-- ===== src/Capacity.antt =====
-- The capacity that the constructors of logical-datastructure/ringbuffer.h and of the four
-- buffers of sharedbuffer/ compute from the size they are asked for, and the index mask.
pub mod Defs
pub mod Powers
pub mod Rounding
mod Tests
