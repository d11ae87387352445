-- ===== src/DataFormat/IpHdr/Tests.antt =====
-- An IPv4 header from a capture.
use universal_system_program.Prelude.{ℕ, ◌%◌, ◌≡◌, ◌↔◌, refl, List, [], ◌∷◌, Bytes, true, arith}
use universal_system_program.DataFormat.Wire.{little, big, IsBytes, of_list, of_list-IsBytes, ntohs}
use universal_system_program.DataFormat.Checksum.Defs.{fold_carries}
use universal_system_program.DataFormat.IpHdr.{
  ver, hdr_len, total_len, proto, sip, checksum, set_checksum, sum_fields, calc_checksum,
  verify_checksum,
}
use universal_system_program.DataFormat.IpHdr.Valid.{ip_verify-calc, ip_verify_iff}

abbrev header : List ℕ
header =
    0x45 ∷ 0x00 ∷ 0x00 ∷ 0x3c ∷ 0x1c ∷ 0x46 ∷ 0x40 ∷ 0x00 ∷ 0x40 ∷ 0x06 ∷ 0xb1 ∷ 0xe6 ∷ 0xac ∷ 0x10
    ∷ 0x0a ∷ 0x63 ∷ 0xac ∷ 0x10 ∷ 0x0a ∷ 0x0c ∷ []

abbrev packet : Bytes
packet = of_list header

packet-IsBytes : IsBytes packet
packet-IsBytes = of_list-IsBytes header (omega arith)

packet_fields :
    (ver packet 0 ≡ 4)
    × (hdr_len packet 0 ≡ 5)
    × (total_len little packet 0 ≡ 60)
    × (proto packet 0 ≡ 6)
    × (sip little packet 0 ≡ 0xac100a63)
    × (checksum big packet 0 ≡ 0xb1e6)
packet_fields = (refl, refl, refl, refl, refl, refl)

packet_checksum :
    (verify_checksum little packet 0 ≡ true)
    × (ntohs little (calc_checksum little packet 0).0 ≡ 0xb1e6)
unfolding verify_checksum calc_checksum sum_fields fold_carries
packet_checksum = (refl, refl)

ip_verify-calc_example :
    verify_checksum little
      (set_checksum little (calc_checksum little packet 0).1 0 (calc_checksum little packet 0).0)
      0
    ≡ true
ip_verify-calc_example = ip_verify-calc little packet 0 packet-IsBytes (omega arith)

ip_verify_iff_example :
    (verify_checksum little packet 0 ≡ true)
    ↔ (checksum little packet 0 % 0xFFFF ≡ ntohs little (calc_checksum little packet 0).0 % 0xFFFF)
ip_verify_iff_example = ip_verify_iff little packet 0 packet-IsBytes (omega arith)
