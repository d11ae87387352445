-- ===== src/DataFormat/UdpHdr.antt =====
-- data-format/udphdr.h: the UDP header at address `uh`, behind the IPv4 header at `ip`.
-- `none` is a read before the packet's memory.
pub mod Valid
mod Tests
use universal_system_program.Prelude.{ℕ, ◌+◌, Bool, ◌==◌, Bytes, Option, some, ℤ, pos, sub_int}
use universal_system_program.Prelude.Monad.{◌>>=◌}
use universal_system_program.DataFormat.Wire.{Endian, load16, store16, ntohs, htons}
use universal_system_program.DataFormat.Checksum.Defs.{sum_bytes, fold_carries, nonzero_complement}
use universal_system_program.DataFormat.Checksum.Pseudo.{sum_pseudo}

-- The accessors. `checksum_` stands at offset 6.
abbrev pub sport : Endian → Bytes → ℕ → ℕ
sport e m uh = ntohs e (load16 e m uh)

abbrev pub dport : Endian → Bytes → ℕ → ℕ
dport e m uh = ntohs e (load16 e m (uh + 2))

abbrev pub len : Endian → Bytes → ℕ → ℕ
len e m uh = ntohs e (load16 e m (uh + 4))

abbrev pub checksum : Endian → Bytes → ℕ → ℕ
checksum e m uh = ntohs e (load16 e m (uh + 6))

abbrev pub set_checksum : Endian → Bytes → ℕ → ℕ → Bytes
set_checksum e m uh v = store16 e m (uh + 6) v

-- `sizeof(UdpHdr)`
abbrev pub sizeof_hdr : ℕ
sizeof_hdr = 8

-- An `int`: below 0 for a length that is shorter than the header.
abbrev pub payload_len : Endian → Bytes → ℕ → ℤ
payload_len e m uh = sub_int (len e m uh) sizeof_hdr

-- The sum that both functions take: pseudo-header, header and payload.
pub datagram_sum : Endian → Bytes → ℕ → ℕ → Option ℕ
datagram_sum e m ip uh = do
  ret ← sum_pseudo e m ip (len e m uh) 0
  ret ← sum_bytes m uh (pos sizeof_hdr) ret
  sum_bytes m (uh + sizeof_hdr) (payload_len e m uh) ret

-- The checksum in network order, and the memory, where `checksum_` is now 0.
pub calc_checksum : Endian → Bytes → ℕ → ℕ → Option (ℕ × Bytes)
calc_checksum e m ip uh = do
  let m' = set_checksum e m uh 0
  ret ← datagram_sum e m' ip uh
  some (htons e (nonzero_complement (fold_carries ret)), m')

pub verify_checksum : Endian → Bytes → ℕ → ℕ → Option Bool
verify_checksum e m ip uh = do ret ← datagram_sum e m ip uh; some (fold_carries ret == 0xFFFF)
