-- ===== src/DataFormat.antt =====
-- data-format/: the packet headers, read and written in the memory of one packet.
pub mod Wire
pub mod Checksum
pub mod IpHdr
pub mod IcmpHdr
pub mod TcpHdr
pub mod UdpHdr
