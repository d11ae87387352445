-- ===== src/DataFormat/UdpHdr/Tests.antt =====
-- A UDP datagram with three bytes of payload.
use universal_system_program.Prelude.{
  ℕ, ◌%◌, ◌≡◌, ◌↔◌, refl, List, [], ◌∷◌, Bytes, true, some, arith,
}
use universal_system_program.DataFormat.Wire.{little, big, of_list, of_list-IsBytes}
use universal_system_program.DataFormat.UdpHdr.{len, set_checksum, calc_checksum, verify_checksum}
use universal_system_program.DataFormat.UdpHdr.Valid.{
  IsDatagram, datagram_total, udp_verify-calc, udp_calc-zero_iff,
}

abbrev bytes : List ℕ
bytes =
    69 ∷ 0 ∷ 0 ∷ 31 ∷ 0 ∷ 1 ∷ 0 ∷ 0 ∷ 64 ∷ 17 ∷ 0 ∷ 0 ∷ 10 ∷ 0 ∷ 0 ∷ 1 ∷ 10 ∷ 0 ∷ 0 ∷ 2 ∷ 31 ∷ 144
    ∷ 0 ∷ 53 ∷ 0 ∷ 11 ∷ 0 ∷ 0 ∷ 1 ∷ 2 ∷ 3 ∷ []

abbrev packet : Bytes
packet = of_list bytes

packet-IsDatagram : IsDatagram packet 0 20
packet-IsDatagram = record {
  bytes = of_list-IsBytes bytes (omega arith);
  behind = omega arith;
  long = omega arith;
}

packet_len : len little packet 20 ≡ 11
packet_len = refl

udp_verify-calc_example :
    (c : ℕ) × (m' : Bytes) × (calc_checksum big packet 0 20 ≡ some (c, m'))
    × (verify_checksum big (set_checksum big m' 20 c) 0 20 ≡ some true)
udp_verify-calc_example = udp_verify-calc big packet-IsDatagram

udp_calc-zero_iff_example :
    (c : ℕ) × (m' : Bytes) × (calc_checksum little packet 0 20 ≡ some (c, m'))
    × ((c ≡ 0) ↔ (datagram_total m' 0 20 11 % 0xFFFF ≡ 0))
udp_calc-zero_iff_example = udp_calc-zero_iff little packet-IsDatagram
