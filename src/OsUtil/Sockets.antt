-- ===== src/OsUtil/Sockets.antt =====
-- The functions of osutil.cpp that create sockets, and those on a descriptor.
use universal_system_program.Prelude.{
  ℕ, Bool, true, false, Option, none, some, List, if◌then◌else◌, ◌==◌, take, bit_or,
}
use universal_system_program.DataFormat.Wire.{Endian, htons, ntohs, ntohl}
use universal_system_program.OsUtil.System.{
  af_inet, af_packet, af_can, sock_stream, sock_dgram, sock_raw, inet, link, can, so_reuseaddr,
  can_raw_fd_frames, socket, epoll_create1, siocgifindex, f_getfl, getsockname_port, bind,
  setsockopt, f_setfl, sigaction, epoll_ctl, release, descriptor, Prog, ret, acquire, query, call,
}

-- `strncpy(ifr.ifr_name, nic, IFNAMSIZ - 1)`
abbrev pub ifr_name : List ℕ → List ℕ
ifr_name nic = take 15 nic

-- `close(fd); return -1;`
abbrev pub give_up : {A : Type 0} → A → (fd : ℕ) → Prog A
give_up r fd = call (release descriptor fd) (λ closed. ret r)

-- What a function that creates a descriptor does when that call fails, and when a later one does.
abbrev pub or_fail : {A : Type 0} → A → Option ℕ → (ℕ → Prog A) → Prog A
or_fail r none next = ret r
or_fail r (some fd) next = next fd

abbrev pub or_close : {A : Type 0} → A → (fd : ℕ) → Bool → Prog A → Prog A
or_close r fd true next = next
or_close r fd false next = give_up r fd

abbrev pub or_close_query : {A : Type 0} → A → (fd : ℕ) → Option ℕ → (ℕ → Prog A) → Prog A
or_close_query r fd none next = give_up r fd
or_close_query r fd (some x) next = next x

module _ (e : Endian) where
  -- `htonl` is `ntohl`.
  abbrev pub get_tcp_socket_fd : (source_ip source_port : ℕ) → Prog (Option ℕ)
  get_tcp_socket_fd source_ip source_port = acquire (socket af_inet sock_stream 0) (λ r.
      or_fail none r (λ fd. call (setsockopt fd so_reuseaddr) (λ ok. or_close none fd ok (
        call (bind fd (inet (ntohl e source_ip) (htons e source_port)))
          (λ ok. or_close none fd ok (ret (some fd)))))))

  abbrev pub get_udp_socket_fd : (source_ip source_port : ℕ) → Prog (Option ℕ)
  get_udp_socket_fd source_ip source_port = acquire (socket af_inet sock_dgram 0) (λ r.
      or_fail none r (λ fd. call (setsockopt fd so_reuseaddr) (λ ok. or_close none fd ok (
        call (bind fd (inet (ntohl e source_ip) (htons e source_port)))
          (λ ok. or_close none fd ok (ret (some fd)))))))

  -- `ETH_P_ALL` is 3.
  abbrev pub get_l2_raw_socket_fd : (source_nic : List ℕ) → Prog (Option ℕ)
  get_l2_raw_socket_fd source_nic = acquire (socket af_packet sock_raw (htons e 3)) (λ r.
      or_fail none r (λ fd. query (siocgifindex fd (ifr_name source_nic)) (λ i.
        or_close_query none fd i (λ ifindex.
          call (bind fd (link ifindex (htons e 3))) (λ ok. or_close none fd ok (ret (some fd)))))))

  abbrev pub get_port_from_l4_socket_fd : (l4_socket_fd : ℕ) → Prog (Option ℕ)
  get_port_from_l4_socket_fd fd =
      query (getsockname_port fd) (λ r. or_fail none r (λ port. ret (some (ntohs e port))))

-- `CAN_RAW` is 1.
abbrev pub get_can_socket_fd : (source_nic : List ℕ) → Prog (Option ℕ)
get_can_socket_fd source_nic = acquire (socket af_can sock_raw 1) (λ r. or_fail none r (λ fd.
    query (siocgifindex fd (ifr_name source_nic)) (λ i.
      or_close_query none fd i
        (λ ifindex. call (bind fd (can ifindex)) (λ ok. or_close none fd ok (ret (some fd)))))))

abbrev pub get_canfd_socket_fd : (source_nic : List ℕ) → Prog (Option ℕ)
get_canfd_socket_fd source_nic = acquire (socket af_can sock_raw 1) (λ r. or_fail none r (λ fd.
    call (setsockopt fd can_raw_fd_frames) (λ ok. or_close none fd ok (
      query (siocgifindex fd (ifr_name source_nic)) (λ i.
        or_close_query none fd i
          (λ ifindex. call (bind fd (can ifindex)) (λ ok. or_close none fd ok (ret (some fd)))))))))

abbrev pub get_epoll_fd : Prog (Option ℕ)
get_epoll_fd = acquire epoll_create1 (λ r. or_fail none r (λ fd. ret (some fd)))

abbrev pub close_fd : Option ℕ → Prog Bool
close_fd none = ret true
close_fd (some fd) = call (release descriptor fd) ret

-- `EPOLL_CTL_DEL` is 2.
abbrev pub ctl_epoll_fd : (epoll_fd option target_fd flags : ℕ) → Prog Bool
ctl_epoll_fd epoll_fd option target_fd flags =
    if option == 2
    then call (epoll_ctl epoll_fd option target_fd none) ret
    else call (epoll_ctl epoll_fd option target_fd (some flags)) ret

-- `O_NONBLOCK` is 2048.
abbrev pub set_nonblock_fd : (fd : ℕ) → Prog Bool
set_nonblock_fd fd =
    query (f_getfl fd) (λ r. or_fail false r (λ flags. call (f_setfl fd (bit_or flags 2048)) ret))

abbrev pub set_signal_handler : (signal : ℕ) → Prog Bool
set_signal_handler signal = call (sigaction signal) ret
