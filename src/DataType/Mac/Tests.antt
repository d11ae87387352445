-- ===== src/DataType/Mac/Tests.antt =====
-- MAC addresses on a few values.
use universal_system_program.Prelude.{ℕ, ◌≡◌, refl, true, false, ◌==◌, ltb, List, [], ◌∷◌, arith}
use universal_system_program.DataType.Mac.{
  null_mac, broadcast_mac, memcmp, equal, less, is_null, is_broadcast, is_multicast, hash,
}
use universal_system_program.DataType.Mac.Order.{IsMac, mac_order-hash}

null_is_null : is_null null_mac ≡ true
unfolding is_null equal memcmp
null_is_null = refl

null_is_no_broadcast : is_broadcast null_mac ≡ false
unfolding is_broadcast equal memcmp
null_is_no_broadcast = refl

-- The comment of `isMulticast` says `01:00:5E:0*`; the test reads the top bit of the fourth byte alone.
multicast_7f : is_multicast (0x01 ∷ 0x00 ∷ 0x5E ∷ 0x7F ∷ 0 ∷ 0 ∷ []) ≡ true
unfolding is_multicast
multicast_7f = refl

abbrev some_mac : List ℕ
some_mac = 0x00 ∷ 0x1B ∷ 0x44 ∷ 0x11 ∷ 0x3A ∷ 0xB7 ∷ []

some_mac-IsMac : IsMac some_mac
some_mac-IsMac = (
  refl,
  (
    omega arith,
    (omega arith, (omega arith, (omega arith, (omega arith, (omega arith, omega arith))))),
  ),
)

broadcast-IsMac : IsMac broadcast_mac
broadcast-IsMac = (
  refl,
  (
    omega arith,
    (omega arith, (omega arith, (omega arith, (omega arith, (omega arith, omega arith))))),
  ),
)

mac_order-hash_example :
    (equal some_mac broadcast_mac ≡ (hash some_mac == hash broadcast_mac))
    × (less some_mac broadcast_mac ≡ ltb (hash some_mac) (hash broadcast_mac))
mac_order-hash_example = mac_order-hash some_mac broadcast_mac some_mac-IsMac broadcast-IsMac
