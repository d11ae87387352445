-- ===== src/DataFormat/IcmpHdr.antt =====
-- data-format/icmphdr.h: the ICMP header at address `ic`, behind the IPv4 header at `ip`.
-- `none` is a read before the packet's memory.
pub mod Valid
mod Tests
use universal_system_program.Prelude.{
  ℕ, ◌+◌, ◌-◌, ◌*◌, ◌%◌, ◌^◌, Bool, ◌==◌, Bytes, Option, some, ℤ, to_int16,
}
use universal_system_program.Prelude.Monad.{◌>>=◌}
use universal_system_program.DataFormat.Wire.{Endian, load16, store16, ntohs, htons}
use universal_system_program.DataFormat.Checksum.Defs.{sum_bytes, fold_carries, not32, low16}
use universal_system_program.DataFormat.IpHdr.{hdr_len, total_len}

-- The accessors. `checksum_` stands at offset 2.
abbrev pub type : Bytes → ℕ → ℕ
type m ic = m ic

abbrev pub code : Bytes → ℕ → ℕ
code m ic = m (ic + 1)

abbrev pub checksum : Endian → Bytes → ℕ → ℕ
checksum e m ic = ntohs e (load16 e m (ic + 2))

abbrev pub unused : Endian → Bytes → ℕ → ℕ
unused e m ic = ntohs e (load16 e m (ic + 4))

abbrev pub next_hop_mtu : Endian → Bytes → ℕ → ℕ
next_hop_mtu e m ic = ntohs e (load16 e m (ic + 6))

abbrev pub set_checksum : Endian → Bytes → ℕ → ℕ → Bytes
set_checksum e m ic v = store16 e m (ic + 2) v

-- `int16_t icmp_len = iphdr->totalLen() - (iphdr->hdrLen()*4);`
abbrev pub icmp_len : Endian → Bytes → ℕ → ℤ
icmp_len e m ip = to_int16 (total_len e m ip + 2 ^ 16 - hdr_len m ip * 4)

-- The checksum in network order, and the memory, where `checksum_` is now 0.
pub calc_checksum : Endian → Bytes → ℕ → ℕ → Option (ℕ × Bytes)
calc_checksum e m ip ic = do
  let m' = set_checksum e m ic 0
  ret ← sum_bytes m' ic (icmp_len e m' ip) 0
  some (htons e (low16 (not32 (fold_carries ret))), m')

pub verify_checksum : Endian → Bytes → ℕ → ℕ → Option Bool
verify_checksum e m ip ic = do
  ret ← sum_bytes m ic (icmp_len e m ip) 0
  some (fold_carries ret == 0xFFFF)
