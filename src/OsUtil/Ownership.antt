-- ===== src/OsUtil/Ownership.antt =====
-- What the functions of osutil.cpp hold when they return, descriptors and library objects: the steps
-- that all of them share.
mod Given
mod Queues
mod Kept
mod Tests
use universal_system_program.Prelude.{
  ℕ, zero, suc, ◌+◌, ◌≡◌, refl, ap, ◌∙◌, Bool, true, false, Bool-cases, inl, inr, Option, none,
  some, List, [], ◌∷◌, if◌then◌else◌, ◌==◌, ◌&&◌, ℤ, pos, negsuc, arith,
}
use universal_system_program.DataFormat.Wire.{Endian}
use universal_system_program.OsUtil.System.{
  Sort, descriptor, pcap_handle, bpf_program, nfq_handle, nfq_queue, Acquire, acquired, called,
  queried, release, Trace, Prog, ret, Always, Always-exec, Oracle, exec, ◌>>=◌,
}
use universal_system_program.OsUtil.Resources.{erase, held, GivesOut, Keeps, erase_head}
use universal_system_program.OsUtil.Sockets.{
  get_tcp_socket_fd, get_udp_socket_fd, get_l2_raw_socket_fd, get_can_socket_fd,
  get_canfd_socket_fd, get_epoll_fd, or_fail, or_close, or_close_query, give_up,
}
use universal_system_program.OsUtil.Interface.{
  get_source_ip, get_source_mac, get_source_mtu, set_offload,
}
use universal_system_program.OsUtil.Filter.{set_bpf_filter, free_program}
use universal_system_program.OsUtil.Nfq.{open_nfq_ipv4_handle, create_nfq_q_ipv4_handle}
use universal_system_program.OsUtil.Subnet.{calc_subnet_prefix_len}
use universal_system_program.OsUtil.Tun.{
  get_tun_fd, open_tun_fd, set_up_tun, run_all, tun_commands, exec_cmd_util, with_prefix_len,
}

-- The run of a function after the calls `t`.
unfoldable pub Run : {A : Type 0} → (Trace → A → Trace → Type 0) → Prog A → Oracle → Trace → Type 0
Run P p o t = P t (exec o p t).0 (exec o p t).1

pub run :
    {A : Type 0} (P : Trace → A → Trace → Type 0) (p : Prog A) (t : Trace)
    → Always (P t) p t
    → (o : Oracle) → Run P p o t
unfolding Run
run P p t h o = Always-exec (P t) o p t h

pub dropped :
    (x : ℕ) (t : Trace) (sort : Sort) (ok : Bool) → erase (sort, x) ((sort, x) ∷ held t) ≡ held t
dropped x t sort ok = erase_head (sort, x) (held t)

pub answers : (P : Option ℕ → Type 0) → P none → ((x : ℕ) → P (some x)) → (r : Option ℕ) → P r
answers P base step none = base
answers P base step (some x) = step x

pub flags : (P : Bool → Type 0) → P true → P false → (b : Bool) → P b
flags P good bad true = good
flags P good bad false = bad
