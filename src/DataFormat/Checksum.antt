-- ===== src/DataFormat/Checksum.antt =====
-- The Internet checksum, as the headers of data-format/ compute it: 16-bit words are added in a
-- `uint32_t`, the carries are folded in, and the complement is taken.
pub mod Defs
pub mod Fold
pub mod Sum
pub mod Pseudo
