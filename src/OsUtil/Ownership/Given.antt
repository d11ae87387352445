-- ===== src/OsUtil/Ownership/Given.antt =====
-- The functions of osutil.cpp that give out a descriptor.
use universal_system_program.Prelude.{
  ℕ, ◌≡◌, refl, Bool, true, false, Bool-cases, inl, inr, Option, none, some, List, [], ◌∷◌,
  if◌then◌else◌, ◌==◌, ℤ, pos, negsuc,
}
use universal_system_program.DataFormat.Wire.{Endian}
use universal_system_program.OsUtil.System.{
  descriptor, Acquire, acquired, called, release, Trace, Prog, ret, Always, Oracle, ◌>>=◌,
}
use universal_system_program.OsUtil.Resources.{held, GivesOut, erase_head}
use universal_system_program.OsUtil.Sockets.{
  get_tcp_socket_fd, get_udp_socket_fd, get_l2_raw_socket_fd, get_can_socket_fd,
  get_canfd_socket_fd, get_epoll_fd, or_fail, or_close, or_close_query, give_up,
}
use universal_system_program.OsUtil.Subnet.{calc_subnet_prefix_len}
use universal_system_program.OsUtil.Tun.{
  get_tun_fd, open_tun_fd, set_up_tun, run_all, tun_commands, with_prefix_len,
}
use universal_system_program.OsUtil.Ownership.{Run, run, answers}

module _ (t u : Trace) (fd : ℕ) (holds : held u ≡ ((descriptor, fd) ∷ held t)) where
  -- After `close` what was held at first is held.
  closes : (ok : Bool) → held (called (release descriptor fd) ok ∷ u) ≡ held t
  closes ok = rw holds (erase_head (descriptor, fd) (held t))

  checked :
      (ok : Bool) (p : Prog (Option ℕ))
      → Always (GivesOut descriptor t) p u
      → Always (GivesOut descriptor t) (or_close none fd ok p) u
  checked true p h = h
  checked false p h = closes

  asked :
      (r : Option ℕ) (p : ℕ → Prog (Option ℕ))
      → ((x : ℕ) → Always (GivesOut descriptor t) (p x) u)
      → Always (GivesOut descriptor t) (or_close_query none fd r p) u
  asked (some x) p h = h x
  asked none p h = closes

module _ (t : Trace) where
  opened :
      (a : Acquire) (next : ℕ → Prog (Option ℕ))
      → ((fd : ℕ) → Always (GivesOut descriptor t) (next fd) (acquired a (some fd) ∷ t))
      → (r : Option ℕ) → Always (GivesOut descriptor t) (or_fail none r next) (acquired a r ∷ t)
  opened a next h none = refl
  opened a next h (some fd) = h fd

  module _ (e : Endian) where
    tcp_lem : (ip port : ℕ) → Always (GivesOut descriptor t) (get_tcp_socket_fd e ip port) t
    tcp_lem ip port =
        opened _ _ (λ fd set. checked t _ fd refl set _ (λ bound. checked t _ fd refl bound _ refl))

    udp_lem : (ip port : ℕ) → Always (GivesOut descriptor t) (get_udp_socket_fd e ip port) t
    udp_lem ip port =
        opened _ _ (λ fd set. checked t _ fd refl set _ (λ bound. checked t _ fd refl bound _ refl))

    l2_lem : (nic : List ℕ) → Always (GivesOut descriptor t) (get_l2_raw_socket_fd e nic) t
    l2_lem nic =
        opened _ _
          (λ fd i. asked t _ fd refl i _ (λ ifindex bound. checked t _ fd refl bound _ refl))

  can_lem : (nic : List ℕ) → Always (GivesOut descriptor t) (get_can_socket_fd nic) t
  can_lem nic =
      opened _ _ (λ fd i. asked t _ fd refl i _ (λ ifindex bound. checked t _ fd refl bound _ refl))

  canfd_lem : (nic : List ℕ) → Always (GivesOut descriptor t) (get_canfd_socket_fd nic) t
  canfd_lem nic = opened _ _ (λ fd set.
      checked t _ fd refl set _
        (λ i. asked t _ fd refl i _ (λ ifindex bound. checked t _ fd refl bound _ refl)))

  open_tun_lem : (nic : List ℕ) → Always (GivesOut descriptor t) (open_tun_fd nic) t
  open_tun_lem nic = opened _ _ (λ fd ok. checked t _ fd refl ok _ refl)

-- Running commands leaves what is held as it is.
after_commands :
    (P : Option ℕ → Trace → Type 0) (commands : List (List (List ℕ))) (n : ℕ)
    (f : ℕ → Prog (Option ℕ)) (u : Trace)
    → ((m : ℕ) (v : Trace) → held v ≡ held u → Always P (f m) v)
    → Always P (run_all commands n >>= f) u
after_commands P [] n f u k = k n u refl
after_commands P (args ∷ rest) n f u k =
    answers _ (after_commands P rest _ f _ k)
      (λ pid. answers _ (after_commands P rest _ f _ k) (λ status. after_commands P rest _ f _ k))

all_ran :
    (t v : Trace) (fd result : ℕ)
    → held v ≡ ((descriptor, fd) ∷ held t)
    → Always (GivesOut descriptor t) (if result == 4 then ret (some fd) else give_up none fd) v
all_ran t v fd result h = elim (Bool-cases (result == 4)) [
  | inl full ↦ rw full h
  | inr short ↦ rw short (closes t v fd h)
]

set_up_lem :
    (t : Trace) (nic : List ℕ) (mtu : ℤ) (ip len : ℕ)
    → Always (GivesOut descriptor t) (set_up_tun nic mtu ip len) t
set_up_lem t nic mtu ip len = opened t _ _ (λ fd ok.
    checked t _ fd refl ok _
      (after_commands _ (tun_commands nic mtu ip len) 0 _ _ (λ m v h. all_ran t v fd m h)))

tun_lem :
    (t : Trace) (r : Option ℤ) (next : ℕ → Prog (Option ℕ))
    → ((n : ℕ) → Always (GivesOut descriptor t) (next n) t)
    → Always (GivesOut descriptor t) (with_prefix_len r next) t
tun_lem t (some (pos n)) next h = h n
tun_lem t (some (negsuc n)) next h = refl
tun_lem t none next h = refl

-- The eight functions of osutil.cpp that open a descriptor for their caller, whatever the system
-- answers, and where a `close` that fails closes all the same: on failure
-- it holds what was held before, on success also the descriptor that it returns, and nothing else.
pub descriptors-Given :
    (e : Endian) (ip port mask : ℕ) (nic : List ℕ) (mtu : ℤ) (o : Oracle) (t : Trace)
    → Run (GivesOut descriptor) (get_tcp_socket_fd e ip port) o t
      × Run (GivesOut descriptor) (get_udp_socket_fd e ip port) o t
      × Run (GivesOut descriptor) (get_l2_raw_socket_fd e nic) o t
      × Run (GivesOut descriptor) (get_can_socket_fd nic) o t
      × Run (GivesOut descriptor) (get_canfd_socket_fd nic) o t
      × Run (GivesOut descriptor) get_epoll_fd o t
      × Run (GivesOut descriptor) (open_tun_fd nic) o t
      × Run (GivesOut descriptor) (get_tun_fd nic mtu ip mask) o t
descriptors-Given e ip port mask nic mtu o t = (
  run _ _ _ (tcp_lem t e ip port) o,
  run _ _ _ (udp_lem t e ip port) o,
  run _ _ _ (l2_lem t e nic) o,
  run _ _ _ (can_lem t nic) o,
  run _ _ _ (canfd_lem t nic) o,
  run _ _ _ (opened t _ _ (λ fd. refl)) o,
  run _ _ _ (open_tun_lem t nic) o,
  run _ _ _ (tun_lem t (calc_subnet_prefix_len 33 mask) _ (set_up_lem t nic mtu ip)) o,
)
