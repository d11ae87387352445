-- ===== src/OsUtil/Ownership/Tests.antt =====
-- The functions of osutil.cpp against systems that answer in fixed ways.
use universal_system_program.Prelude.{ℕ, ◌≡◌, refl, true, false, none, some, List, [], ◌∷◌, pos}
use universal_system_program.DataFormat.Wire.{little}
use universal_system_program.OsUtil.System.{descriptor, nfq_handle, nfq_queue, Oracle, exec}
use universal_system_program.OsUtil.Resources.{GivesOutOrRefused, held, GivesOut, Keeps}
use universal_system_program.OsUtil.Sockets.{
  get_tcp_socket_fd, get_udp_socket_fd, get_l2_raw_socket_fd, get_can_socket_fd,
  get_canfd_socket_fd, get_epoll_fd,
}
use universal_system_program.OsUtil.Interface.{
  get_source_ip, get_source_mac, get_source_mtu, set_offload,
}
use universal_system_program.OsUtil.Filter.{set_bpf_filter}
use universal_system_program.OsUtil.Nfq.{open_nfq_ipv4_handle, create_nfq_q_ipv4_handle}
use universal_system_program.OsUtil.Tun.{get_tun_fd, open_tun_fd}
use universal_system_program.OsUtil.Ownership.{Run}
use universal_system_program.OsUtil.Ownership.Given.{descriptors-Given}
use universal_system_program.OsUtil.Ownership.Queues.{nfq-Given}
use universal_system_program.OsUtil.Ownership.Kept.{
  queries-Kept, LeaksOnSuccess, get_source_mtu-Leaks,
}

-- Every call succeeds, with the number 7.
abbrev working : Oracle
working = record { give = λ t c. some 7; tell = λ t c. some 7; allow = λ t c. true }

-- Descriptors are given, and nothing else works.
abbrev failing : Oracle
failing = record { give = λ t c. some 7; tell = λ t c. none; allow = λ t c. false }

abbrev nic : List ℕ
nic = b'e' ∷ b't' ∷ b'h' ∷ b'0' ∷ []

tcp_works : (exec working (get_tcp_socket_fd little 0 80) []).0 ≡ some 7
unfolding exec
tcp_works = refl

tcp_fails : held (exec failing (get_tcp_socket_fd little 0 80) []).1 ≡ []
unfolding exec
tcp_fails = refl

mtu_leaks : held (exec working (get_source_mtu nic) []).1 ≡ ((descriptor, 7) ∷ [])
unfolding exec
mtu_leaks = refl

descriptors-Given_example :
    Run (GivesOut descriptor) (get_tcp_socket_fd little 0 80) failing []
    × Run (GivesOut descriptor) (get_udp_socket_fd little 0 80) failing []
    × Run (GivesOut descriptor) (get_l2_raw_socket_fd little nic) failing []
    × Run (GivesOut descriptor) (get_can_socket_fd nic) failing []
    × Run (GivesOut descriptor) (get_canfd_socket_fd nic) failing []
    × Run (GivesOut descriptor) get_epoll_fd failing []
    × Run (GivesOut descriptor) (open_tun_fd nic) failing []
    × Run (GivesOut descriptor) (get_tun_fd nic (pos 1500) 0 0xFFFFFF00) failing []
descriptors-Given_example = descriptors-Given little 0 80 0xFFFFFF00 nic (pos 1500) failing []

nfq-Given_example :
    Run (GivesOutOrRefused nfq_handle) open_nfq_ipv4_handle failing []
    × Run (GivesOutOrRefused nfq_queue) (create_nfq_q_ipv4_handle 7 0) failing []
nfq-Given_example = nfq-Given 7 0 failing []

queries-Kept_example :
    Run Keeps (get_source_ip little nic) working []
    × Run Keeps (get_source_mac nic) working []
    × Run Keeps (set_offload nic 1 true) working []
    × Run Keeps (set_bpf_filter 3 (b'i' ∷ b'p' ∷ [])) working []
queries-Kept_example = queries-Kept little nic (b'i' ∷ b'p' ∷ []) 1 3 true working []

get_source_mtu-Leaks_example : Run LeaksOnSuccess (get_source_mtu nic) working []
get_source_mtu-Leaks_example = get_source_mtu-Leaks nic working []
