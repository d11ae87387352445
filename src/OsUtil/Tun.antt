-- ===== src/OsUtil/Tun.antt =====
-- The functions of osutil.cpp that set up a tunnel, and the commands they run.
use universal_system_program.Prelude.{
  ℕ, zero, ◌+◌, ◌/◌, ◌%◌, Option, none, some, List, [], ◌∷◌, ◌++◌, if◌then◌else◌, ◌==◌, ℤ, pos,
  negsuc,
}
use universal_system_program.Prelude.Text.{codes, decimal, signed_decimal}
use universal_system_program.DataType.Ip.{to_string}
use universal_system_program.OsUtil.System.{
  open_tun, posix_spawnp, waitpid, tunsetiff, Prog, ret, acquire, query, call, ◌>>=◌,
}
use universal_system_program.OsUtil.Sockets.{ifr_name, or_fail, or_close, give_up}
use universal_system_program.OsUtil.Subnet.{calc_subnet_prefix_len}

-- `WIFEXITED` and `WEXITSTATUS`.
abbrev pub exit_status : (status : ℕ) → Option ℕ
exit_status status = if status % 128 == 0 then some (status / 256 % 256) else none

abbrev pub exec_cmd_util : (args : List (List ℕ)) → Prog (Option ℕ)
exec_cmd_util args = query (posix_spawnp args) (λ r.
    or_fail none r
      (λ pid. query (waitpid pid) (λ r. or_fail none r (λ status. ret (exit_status status)))))

-- `if (exec_cmd_util(args) == 0) { result++; }`
abbrev pub succeeded : Option ℕ → ℕ
succeeded (some zero) = 1
succeeded _ = 0

abbrev pub run_all : List (List (List ℕ)) → (result : ℕ) → Prog ℕ
run_all [] result = ret result
run_all (args ∷ rest) result = exec_cmd_util args >>= (λ r. run_all rest (result + succeeded r))

abbrev pub tun_commands : (nic : List ℕ) → (mtu : ℤ) → (ip prefix_len : ℕ) → List (List (List ℕ))
tun_commands nic mtu ip prefix_len =
    (codes "sysctl"
      ∷ codes "-w"
      ∷ (codes "net.ipv6.conf." ++ (nic ++ codes ".disable_ipv6=1"))
      ∷ [])
    ∷ (codes "ip"
        ∷ codes "link"
        ∷ codes "set"
        ∷ codes "dev"
        ∷ nic
        ∷ codes "mtu"
        ∷ signed_decimal mtu
        ∷ [])
    ∷ (codes "ip"
        ∷ codes "addr"
        ∷ codes "add"
        ∷ (to_string ip ++ (codes "/" ++ decimal prefix_len))
        ∷ codes "dev"
        ∷ nic
        ∷ [])
    ∷ (codes "ip" ∷ codes "link" ∷ codes "set" ∷ nic ∷ codes "up" ∷ [])
    ∷ []

-- `get_tun_fd(const char*)`
abbrev pub open_tun_fd : (virtual_nic : List ℕ) → Prog (Option ℕ)
open_tun_fd virtual_nic = acquire open_tun (λ r.
    or_fail none r (λ fd.
      call (tunsetiff fd (ifr_name virtual_nic)) (λ ok. or_close none fd ok (ret (some fd)))))

abbrev pub set_up_tun : (nic : List ℕ) → (mtu : ℤ) → (ip prefix_len : ℕ) → Prog (Option ℕ)
set_up_tun nic mtu ip prefix_len = acquire open_tun (λ r. or_fail none r (λ fd.
    call (tunsetiff fd (ifr_name nic)) (λ ok. or_close none fd ok (
      run_all (tun_commands nic mtu ip prefix_len) 0
      >>= (λ result. if result == 4 then ret (some fd) else give_up none fd)))))

-- The loop of `calc_subnet_prefix_len` runs at most 32 times, so 33 rounds never run out.
abbrev pub with_prefix_len : Option ℤ → (ℕ → Prog (Option ℕ)) → Prog (Option ℕ)
with_prefix_len (some (pos n)) next = next n
with_prefix_len (some (negsuc n)) next = ret none
with_prefix_len none next = ret none

-- `get_tun_fd(const char*, int, Ip, Ip)`
abbrev pub get_tun_fd :
    (virtual_nic : List ℕ)
    → (virtual_nic_mtu : ℤ) → (virtual_ip virtual_subnet : ℕ) → Prog (Option ℕ)
get_tun_fd virtual_nic virtual_nic_mtu virtual_ip virtual_subnet =
    with_prefix_len (calc_subnet_prefix_len 33 virtual_subnet)
      (set_up_tun virtual_nic virtual_nic_mtu virtual_ip)
