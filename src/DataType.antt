-- ===== src/DataType.antt =====
-- data-type/: addresses.
pub mod Ip
pub mod Mac
