-- ===== src/DataFormat/IcmpHdr/Tests.antt =====
-- An ICMP message of nine bytes, and one that is said to have 40000.
use universal_system_program.Prelude.{ℕ, ◌≡◌, ◌≢◌, refl, List, [], ◌∷◌, Bytes, true, some, arith}
use universal_system_program.DataFormat.Wire.{little, of_list, of_list-IsBytes}
use universal_system_program.DataFormat.IcmpHdr.{set_checksum, calc_checksum, verify_checksum}
use universal_system_program.DataFormat.IcmpHdr.Valid.{
  IsMessage, icmp_verify-calc, icmp_verify_long,
}

abbrev bytes : List ℕ
bytes =
    69 ∷ 0 ∷ 0 ∷ 29 ∷ 0 ∷ 1 ∷ 0 ∷ 0 ∷ 64 ∷ 1 ∷ 0 ∷ 0 ∷ 10 ∷ 0 ∷ 0 ∷ 1 ∷ 10 ∷ 0 ∷ 0 ∷ 2 ∷ 8 ∷ 0 ∷ 0
    ∷ 0 ∷ 0 ∷ 1 ∷ 0 ∷ 2 ∷ 7 ∷ []

abbrev packet : Bytes
packet = of_list bytes

packet-IsMessage : IsMessage packet 0 20 9
packet-IsMessage = record {
  bytes = of_list-IsBytes bytes (omega arith);
  behind = omega arith;
  counted = refl;
}

abbrev long_bytes : List ℕ
long_bytes =
    69 ∷ 0 ∷ 156 ∷ 84 ∷ 0 ∷ 1 ∷ 0 ∷ 0 ∷ 64 ∷ 1 ∷ 0 ∷ 0 ∷ 10 ∷ 0 ∷ 0 ∷ 1 ∷ 10 ∷ 0 ∷ 0 ∷ 2 ∷ 8 ∷ 0
    ∷ 18 ∷ 52 ∷ []

abbrev long_packet : Bytes
long_packet = of_list long_bytes

long_packet-IsMessage : IsMessage long_packet 0 20 40000
long_packet-IsMessage = record {
  bytes = of_list-IsBytes long_bytes (omega arith);
  behind = omega arith;
  counted = refl;
}

icmp_verify-calc_example :
    (c : ℕ) × (m' : Bytes) × (calc_checksum little packet 0 20 ≡ some (c, m'))
    × (verify_checksum little (set_checksum little m' 20 c) 0 20 ≡ some true)
icmp_verify-calc_example = icmp_verify-calc little packet-IsMessage (omega arith) (omega arith)

icmp_verify_long_example : verify_checksum little long_packet 0 20 ≢ some true
icmp_verify_long_example = icmp_verify_long little long_packet-IsMessage (omega arith)
