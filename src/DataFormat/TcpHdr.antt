-- ===== src/DataFormat/TcpHdr.antt =====
-- data-format/tcphdr.h: the TCP header at address `th`, behind the IPv4 header at `ip`.
pub mod Valid
mod Tests
use universal_system_program.Prelude.{
  ℕ, ◌+◌, ◌-◌, ◌*◌, ◌/◌, ◌%◌, ◌^◌, Bool, ◌==◌, Bytes, Option, some, ℤ, pos,
}
use universal_system_program.Prelude.Monad.{◌>>=◌}
use universal_system_program.DataFormat.Wire.{Endian, load16, load32, store16, ntohs, ntohl, htons}
use universal_system_program.DataFormat.Checksum.Defs.{sum_bytes, fold_carries, nonzero_complement}
use universal_system_program.DataFormat.Checksum.Pseudo.{sum_pseudo}
use universal_system_program.DataFormat.IpHdr.{hdr_len, total_len}

-- The accessors. `checksum_` stands at offset 16.
abbrev pub sport : Endian → Bytes → ℕ → ℕ
sport e m th = ntohs e (load16 e m th)

abbrev pub dport : Endian → Bytes → ℕ → ℕ
dport e m th = ntohs e (load16 e m (th + 2))

abbrev pub seq : Endian → Bytes → ℕ → ℕ
seq e m th = ntohl e (load32 e m (th + 4))

abbrev pub ack : Endian → Bytes → ℕ → ℕ
ack e m th = ntohl e (load32 e m (th + 8))

-- In words of four bytes.
abbrev pub data_offset : Bytes → ℕ → ℕ
data_offset m th = m (th + 12) / 16

abbrev pub reserved : Bytes → ℕ → ℕ
reserved m th = m (th + 12) % 16

abbrev pub flags : Bytes → ℕ → ℕ
flags m th = m (th + 13)

abbrev pub win : Endian → Bytes → ℕ → ℕ
win e m th = ntohs e (load16 e m (th + 14))

abbrev pub checksum : Endian → Bytes → ℕ → ℕ
checksum e m th = ntohs e (load16 e m (th + 16))

abbrev pub urp : Endian → Bytes → ℕ → ℕ
urp e m th = ntohs e (load16 e m (th + 18))

abbrev pub set_checksum : Endian → Bytes → ℕ → ℕ → Bytes
set_checksum e m th v = store16 e m (th + 16) v

-- A `uint16_t`, so a header longer than the packet wraps it.
abbrev pub payload_len : Endian → Bytes → ℕ → ℕ → ℕ
payload_len e m ip th =
    (total_len e m ip + 2 ^ 16 - hdr_len m ip * 4 - data_offset m th * 4) % 2 ^ 16

abbrev pub tcp_len : Endian → Bytes → ℕ → ℕ → ℕ
tcp_len e m ip th = data_offset m th * 4 + payload_len e m ip th

-- The sum that both functions take: pseudo-header, header and payload.
pub segment_sum : Endian → Bytes → ℕ → ℕ → Option ℕ
segment_sum e m ip th = do
  let hdr = data_offset m th * 4
  ret ← sum_pseudo e m ip (tcp_len e m ip th) 0
  ret ← sum_bytes m th (pos hdr) ret
  sum_bytes m (th + hdr) (pos (payload_len e m ip th)) ret

-- The checksum in network order, and the memory, where `checksum_` is now 0.
pub calc_checksum : Endian → Bytes → ℕ → ℕ → Option (ℕ × Bytes)
calc_checksum e m ip th = do
  let m' = set_checksum e m th 0
  ret ← segment_sum e m' ip th
  some (htons e (nonzero_complement (fold_carries ret)), m')

pub verify_checksum : Endian → Bytes → ℕ → ℕ → Option Bool
verify_checksum e m ip th = do ret ← segment_sum e m ip th; some (fold_carries ret == 0xFFFF)
