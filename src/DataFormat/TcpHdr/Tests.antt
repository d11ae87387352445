-- ===== src/DataFormat/TcpHdr/Tests.antt =====
-- A TCP segment with three bytes of payload.
use universal_system_program.Prelude.{
  ℕ, ◌%◌, ◌≡◌, ◌↔◌, refl, List, [], ◌∷◌, Bytes, true, Bool, some, arith,
}
use universal_system_program.DataFormat.Wire.{little, big, of_list, of_list-IsBytes, ntohs}
use universal_system_program.DataFormat.Checksum.Defs.{sum_bytes, sum_words, fold_carries}
use universal_system_program.DataFormat.Checksum.Pseudo.{sum_pseudo}
use universal_system_program.DataFormat.TcpHdr.{
  data_offset, payload_len, sport, checksum, set_checksum, segment_sum, calc_checksum,
  verify_checksum,
}
use universal_system_program.DataFormat.TcpHdr.Valid.{IsSegment, tcp_verify-calc, tcp_verify_iff}

abbrev bytes : List ℕ
bytes =
    69 ∷ 0 ∷ 0 ∷ 43 ∷ 0 ∷ 1 ∷ 0 ∷ 0 ∷ 64 ∷ 6 ∷ 0 ∷ 0 ∷ 10 ∷ 0 ∷ 0 ∷ 1 ∷ 10 ∷ 0 ∷ 0 ∷ 2 ∷ 31 ∷ 144
    ∷ 0 ∷ 80 ∷ 0 ∷ 0 ∷ 0 ∷ 1 ∷ 0 ∷ 0 ∷ 0 ∷ 2 ∷ 80 ∷ 24 ∷ 32 ∷ 0 ∷ 0 ∷ 0 ∷ 0 ∷ 0 ∷ 104 ∷ 105 ∷ 33
    ∷ []

abbrev packet : Bytes
packet = of_list bytes

packet-IsSegment : IsSegment packet 0 20
packet-IsSegment = record {
  bytes = of_list-IsBytes bytes (omega arith);
  behind = omega arith;
  long = omega arith;
}

packet_fields :
    (data_offset packet 20 ≡ 5)
    × (payload_len little packet 0 20 ≡ 3)
    × (sport big packet 20 ≡ 8080)
packet_fields = (refl, refl, refl)

packet_unchecked : verify_checksum little packet 0 20 ≡ some Bool.false
unfolding verify_checksum segment_sum sum_pseudo sum_bytes sum_words fold_carries
packet_unchecked = refl

tcp_verify-calc_example :
    (c : ℕ) × (m' : Bytes) × (calc_checksum little packet 0 20 ≡ some (c, m'))
    × (verify_checksum little (set_checksum little m' 20 c) 0 20 ≡ some true)
tcp_verify-calc_example = tcp_verify-calc little packet-IsSegment

tcp_verify_iff_example :
    (c : ℕ) × (m' : Bytes) × (calc_checksum little packet 0 20 ≡ some (c, m'))
    × ((verify_checksum little packet 0 20 ≡ some true)
        ↔ (checksum little packet 20 % 0xFFFF ≡ ntohs little c % 0xFFFF))
tcp_verify_iff_example = tcp_verify_iff little packet-IsSegment
