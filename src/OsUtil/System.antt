-- ===== src/OsUtil/System.antt =====
-- The system calls that osutil.cpp makes, with what they answer, and programs over them.
-- An answer of -1 (or a null handle) is `none` or `false`, as the calls document.
use universal_system_program.Prelude.{ℕ, Bool, Option, List, ◌∷◌}

pub data Domain : Type 0 where
  af_inet af_packet af_can : Domain

pub data Kind : Type 0 where
  sock_stream sock_dgram sock_raw : Kind

-- A `sockaddr` for `bind`.
pub data Address : Type 0 where
  inet : (addr port : ℕ) → Address
  link : (ifindex protocol : ℕ) → Address
  can : (ifindex : ℕ) → Address

pub data SockOption : Type 0 where
  so_reuseaddr can_raw_fd_frames so_detach_filter : SockOption
  so_attach_filter : (filter : ℕ) → SockOption

-- The kinds of what a program must release: descriptors, and the objects of libpcap and of
-- libnetfilter_queue.
pub data Sort : Type 0 where
  descriptor pcap_handle bpf_program nfq_handle nfq_queue : Sort

-- Calls that give such a resource, by its number.
pub data Acquire : Type 0 where
  socket : Domain → Kind → (protocol : ℕ) → Acquire
  open_tun epoll_create1 pcap_open_dead nfq_open : Acquire
  -- The program compiled from the filter's text.
  pcap_compile : (handle : ℕ) → (filter : List ℕ) → Acquire
  nfq_create_queue : (handle queue_num : ℕ) → Acquire

-- Calls that give a number: `ioctl` with the name of an interface, and others.
pub data Query : Type 0 where
  siocgifindex siocgifaddr siocgifhwaddr siocgifmtu : (fd : ℕ) → (name : List ℕ) → Query
  f_getfl getsockname_port : (fd : ℕ) → Query
  -- The process that runs a command, and the status that it ended with.
  posix_spawnp : (argv : List (List ℕ)) → Query
  waitpid : (pid : ℕ) → Query
  nfq_fd : (handle : ℕ) → Query

-- Calls that succeed or fail.
pub data Call : Type 0 where
  bind : (fd : ℕ) → Address → Call
  setsockopt : (fd : ℕ) → SockOption → Call
  f_setfl : (fd flags : ℕ) → Call
  tunsetiff : (fd : ℕ) → (name : List ℕ) → Call
  siocethtool : (fd : ℕ) → (name : List ℕ) → (cmd value : ℕ) → Call
  sigaction : (signal : ℕ) → Call
  epoll_ctl : (epoll_fd option target_fd : ℕ) → (event : Option ℕ) → Call
  nfq_unbind_pf nfq_bind_pf : (handle : ℕ) → Call
  nfq_set_mode : (queue : ℕ) → Call
  -- `close`, `pcap_close`, `pcap_freecode`, `nfq_close` and `nfq_destroy_queue`.
  release : Sort → ℕ → Call

pub data Prog (A : Type 0) : Type 0 where
  ret : A → Prog A
  acquire : Acquire → (Option ℕ → Prog A) → Prog A
  query : Query → (Option ℕ → Prog A) → Prog A
  call : Call → (Bool → Prog A) → Prog A

infixl 5 ◌>>=◌
abbrev pub ◌>>=◌ : {A B : Type 0} → Prog A → (A → Prog B) → Prog B
ret a >>= f = f a
acquire c k >>= f = acquire c (λ r. k r >>= f)
query c k >>= f = query c (λ r. k r >>= f)
call c k >>= f = call c (λ r. k r >>= f)

pub data Event : Type 0 where
  acquired : Acquire → Option ℕ → Event
  queried : Query → Option ℕ → Event
  called : Call → Bool → Event

-- The calls made, the latest first.
abbrev pub Trace : Type 0
Trace = List Event

-- What answers the calls may depend on all that went before.
pub record Oracle : Type 0 where
  pub give : Trace → Acquire → Option ℕ
  pub tell : Trace → Query → Option ℕ
  pub allow : Trace → Call → Bool

module _ (o : Oracle) where
  unfoldable pub exec : {A : Type 0} → Prog A → Trace → A × Trace
  exec (ret a) t = (a, t)
  exec (acquire c k) t = let r = o.give t c in exec (k r) (acquired c r ∷ t)
  exec (query c k) t = let r = o.tell t c in exec (k r) (queried c r ∷ t)
  exec (call c k) t = let r = o.allow t c in exec (k r) (called c r ∷ t)

-- `P` holds of the result and the calls, whatever the answers are.
abbrev pub Always : {A : Type 0} → (A → Trace → Type 0) → Prog A → Trace → Type 0
Always P (ret a) t = P a t
Always P (acquire c k) t = (r : Option ℕ) → Always P (k r) (acquired c r ∷ t)
Always P (query c k) t = (r : Option ℕ) → Always P (k r) (queried c r ∷ t)
Always P (call c k) t = (r : Bool) → Always P (k r) (called c r ∷ t)

pub Always-exec :
    {A : Type 0} (P : A → Trace → Type 0) (o : Oracle) (p : Prog A) (t : Trace)
    → Always P p t
    → P (exec o p t).0 (exec o p t).1
unfolding exec
Always-exec P o (ret a) t h = h
Always-exec P o (acquire c k) t h = Always-exec P o (k (o.give t c)) _ (h (o.give t c))
Always-exec P o (query c k) t h = Always-exec P o (k (o.tell t c)) _ (h (o.tell t c))
Always-exec P o (call c k) t h = Always-exec P o (k (o.allow t c)) _ (h (o.allow t c))
