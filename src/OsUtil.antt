-- ===== src/OsUtil.antt =====
-- os-util/osutil.cpp, its Linux half: functions that wrap system calls. The calls themselves are
-- answered by an oracle. A result of -1, or a null handle, is `none`; a result of 0 is `true` and
-- of -1 `false` where there are no others. What goes to the standard streams is left out.
pub mod System
pub mod Resources
pub mod Subnet
pub mod Sockets
pub mod Interface
pub mod Filter
pub mod Nfq
pub mod Tun
pub mod Ownership
