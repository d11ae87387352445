-- ===== src/DataType/Ip.antt =====
-- data-type/ip.h: an IPv4 address, a `uint32_t`.
use universal_system_program.Prelude.{ℕ, ◌/◌, ◌%◌, ◌^◌, Bool, ◌==◌, ltb, leb, ◌&&◌, List, ◌∷◌, ◌++◌}
use universal_system_program.Prelude.Text.{decimal}

-- `operator std::string`: `"%u.%u.%u.%u"`
unfoldable pub to_string : ℕ → List ℕ
unfolding decimal
to_string ip =
    decimal (ip / 2 ^ 24 % 256)
    ++ (b'.' ∷ decimal (ip / 2 ^ 16 % 256)
        ++ (b'.' ∷ decimal (ip / 2 ^ 8 % 256) ++ (b'.' ∷ decimal (ip % 256))))

-- The first byte.
abbrev pub prefix : ℕ → ℕ
prefix ip = ip / 2 ^ 24 % 256

pub is_local_host : ℕ → Bool
is_local_host ip = prefix ip == 0x7F

pub is_broadcast : ℕ → Bool
is_broadcast ip = ip == 0xFFFFFFFF

pub is_multicast : ℕ → Bool
is_multicast ip = leb 0xE0 (prefix ip) && ltb (prefix ip) 0xF0
