-- ===== src/DataFormat/IpHdr.antt =====
-- data-format/iphdr.h: the IPv4 header at address `ip` of a packet's memory, and its checksum.
pub mod Valid
mod Tests
use universal_system_program.Prelude.{ℕ, zero, suc, ◌+◌, ◌*◌, ◌/◌, ◌%◌, ◌^◌, Bool, ◌==◌, Bytes}
use universal_system_program.DataFormat.Wire.{Endian, load16, load32, store16, ntohs, ntohl, htons}
use universal_system_program.DataFormat.Checksum.Defs.{add32, fold_carries, not32, low16}

-- The accessors. `checksum_` stands at offset 10, `sip_` at 12 and `dip_` at 16.
abbrev pub ver : Bytes → ℕ → ℕ
ver m ip = m ip / 16

-- In words of four bytes.
abbrev pub hdr_len : Bytes → ℕ → ℕ
hdr_len m ip = m ip % 16

abbrev pub tos : Bytes → ℕ → ℕ
tos m ip = m (ip + 1)

abbrev pub total_len : Endian → Bytes → ℕ → ℕ
total_len e m ip = ntohs e (load16 e m (ip + 2))

abbrev pub id : Endian → Bytes → ℕ → ℕ
id e m ip = ntohs e (load16 e m (ip + 4))

abbrev pub flags : Endian → Bytes → ℕ → ℕ
flags e m ip = ntohs e (load16 e m (ip + 6)) / 2 ^ 13 % 256

abbrev pub frag_offset : Endian → Bytes → ℕ → ℕ
frag_offset e m ip = ntohs e (load16 e m (ip + 6)) % 2 ^ 13

abbrev pub ttl : Bytes → ℕ → ℕ
ttl m ip = m (ip + 8)

abbrev pub proto : Bytes → ℕ → ℕ
proto m ip = m (ip + 9)

abbrev pub checksum : Endian → Bytes → ℕ → ℕ
checksum e m ip = ntohs e (load16 e m (ip + 10))

abbrev pub sip : Endian → Bytes → ℕ → ℕ
sip e m ip = ntohl e (load32 e m (ip + 12))

abbrev pub dip : Endian → Bytes → ℕ → ℕ
dip e m ip = ntohl e (load32 e m (ip + 16))

-- `iphdr->checksum_ = v;`
abbrev pub set_checksum : Endian → Bytes → ℕ → ℕ → Bytes
set_checksum e m ip v = store16 e m (ip + 10) v

-- `for (i = 0; i < n; ++i) { ret += ntohs(*pword); pword++; }`
pub sum_fields : Endian → Bytes → ℕ → ℕ → ℕ → ℕ
sum_fields e m p zero ret = ret
sum_fields e m p (suc n) ret = sum_fields e m (p + 2) n (add32 ret (ntohs e (load16 e m p)))

-- The checksum in network order, and the memory, where `checksum_` is now 0.
pub calc_checksum : Endian → Bytes → ℕ → ℕ × Bytes
calc_checksum e m ip =
    let m' = set_checksum e m ip 0 in
    let ret = fold_carries (sum_fields e m' ip (hdr_len m' ip * 4 / 2) 0) in
    (htons e (low16 (not32 ret)), m')

pub verify_checksum : Endian → Bytes → ℕ → Bool
verify_checksum e m ip = fold_carries (sum_fields e m ip (hdr_len m ip * 4 / 2) 0) == 0xFFFF
