-- ===== src/OsUtil/Interface.antt =====
-- The functions of osutil.cpp that ask an interface for its addresses or set it up.
use universal_system_program.Prelude.{ℕ, Bool, true, false, Option, none, some, List, if◌then◌else◌}
use universal_system_program.DataFormat.Wire.{Endian, ntohl}
use universal_system_program.OsUtil.System.{
  af_inet, sock_dgram, socket, siocgifaddr, siocgifhwaddr, siocgifmtu, siocethtool, release,
  descriptor, Prog, ret, acquire, query, call,
}
use universal_system_program.OsUtil.Sockets.{ifr_name, or_fail, or_close_query}

-- `IPPROTO_IP` is 0. The address is as the interface gives it, in the order of the wire.
abbrev pub get_source_ip : Endian → (source_nic : List ℕ) → Prog ℕ
get_source_ip e source_nic = acquire (socket af_inet sock_dgram 0) (λ r. or_fail 0 r (λ fd.
    query (siocgifaddr fd (ifr_name source_nic)) (λ a.
      or_close_query 0 fd a
        (λ s_addr. call (release descriptor fd) (λ closed. ret (ntohl e s_addr))))))

-- The six bytes of a `Mac` are one number here; 0 is `Mac::nullMac()`.
abbrev pub get_source_mac : (source_nic : List ℕ) → Prog ℕ
get_source_mac source_nic = acquire (socket af_inet sock_dgram 0) (λ r. or_fail 0 r (λ fd.
    query (siocgifhwaddr fd (ifr_name source_nic))
      (λ a. or_close_query 0 fd a (λ mac. call (release descriptor fd) (λ closed. ret mac)))))

-- On success the descriptor is not closed.
abbrev pub get_source_mtu : (source_nic : List ℕ) → Prog (Option ℕ)
get_source_mtu source_nic = acquire (socket af_inet sock_dgram 0) (λ r. or_fail none r (λ fd.
    query (siocgifmtu fd (ifr_name source_nic))
      (λ m. or_close_query none fd m (λ mtu. ret (some mtu)))))

-- The parameter `name` is only printed.
abbrev pub set_offload : (source_nic : List ℕ) → (cmd : ℕ) → (enable : Bool) → Prog Bool
set_offload source_nic cmd enable = acquire (socket af_inet sock_dgram 0) (λ r.
    or_fail false r (λ fd.
      call (siocethtool fd (ifr_name source_nic) cmd (if enable then 1 else 0))
        (λ printed. call (release descriptor fd) (λ closed. ret true))))
