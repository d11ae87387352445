-- ===== src/OsUtil/Resources.antt =====
-- Which resources are held after a run, and what a function may do to them.
use universal_system_program.Prelude.{
  ℕ, ◌≡◌, ◌⊎◌, Bool, true, false, Option, none, some, List, [], ◌∷◌, if◌then◌else◌, ◌==◌, ◌&&◌,
  arith,
}
use universal_system_program.OsUtil.System.{
  Sort, descriptor, pcap_handle, bpf_program, nfq_handle, nfq_queue, Acquire, socket, open_tun,
  epoll_create1, pcap_open_dead, nfq_open, pcap_compile, nfq_create_queue, acquired, queried,
  called, Call, release, Trace,
}

abbrev pub index : Sort → ℕ
index descriptor = 0
index pcap_handle = 1
index bpf_program = 2
index nfq_handle = 3
index nfq_queue = 4

abbrev pub sort_of : Acquire → Sort
sort_of (socket domain kind protocol) = descriptor
sort_of open_tun = descriptor
sort_of epoll_create1 = descriptor
sort_of pcap_open_dead = pcap_handle
sort_of nfq_open = nfq_handle
sort_of (pcap_compile handle filter) = bpf_program
sort_of (nfq_create_queue handle queue_num) = nfq_queue

abbrev pub Resource : Type 0
Resource = Sort × ℕ

abbrev pub is_same : Resource → Resource → Bool
is_same x y = (index x.0 == index y.0) && (x.1 == y.1)

abbrev pub erase : Resource → List Resource → List Resource
erase x [] = []
erase x (y ∷ ys) = if is_same x y then ys else y ∷ erase x ys

-- Whether a release that answers `ok` frees: `close` on Linux does also where it fails, and the pcap
-- functions do not fail; libnetfilter_queue keeps what it could not close.
abbrev pub frees : Sort → (ok : Bool) → Bool
frees nfq_handle ok = ok
frees nfq_queue ok = ok
frees _ ok = true

abbrev pub released : Call → (ok : Bool) → List Resource → List Resource
released (release sort x) ok held = if frees sort ok then erase (sort, x) held else held
released _ ok held = held

-- The resources acquired and not yet released, the latest first.
abbrev pub held : Trace → List Resource
held [] = []
held (acquired c none ∷ t) = held t
held (acquired c (some x) ∷ t) = (sort_of c, x) ∷ held t
held (queried c r ∷ t) = held t
held (called c ok ∷ t) = released c ok (held t)

-- A run that began at `t` gave out a resource: on failure it holds what was held before, on
-- success the result more.
abbrev pub GivesOut : Sort → Trace → Option ℕ → Trace → Type 0
GivesOut sort t none u = held u ≡ held t
GivesOut sort t (some x) u = held u ≡ ((sort, x) ∷ held t)

-- The last call was a release of the one resource `x`, which the library did not free.
abbrev pub Refused : Sort → Trace → Trace → Type 0
Refused sort t u =
    (x : ℕ) × (v : Trace) × (u ≡ called (release sort x) false ∷ v)
    × (held u ≡ ((sort, x) ∷ held t))

-- The same of a resource whose release may be refused.
abbrev pub GivesOutOrRefused : Sort → Trace → Option ℕ → Trace → Type 0
GivesOutOrRefused sort t none u = (held u ≡ held t) ⊎ Refused sort t u
GivesOutOrRefused sort t (some x) u = held u ≡ ((sort, x) ∷ held t)

-- A run that began at `t` holds what was held before.
abbrev pub Keeps : {A : Type 0} → Trace → A → Trace → Type 0
Keeps t r u = held u ≡ held t

pub erase_head : (x : Resource) (xs : List Resource) → erase x (x ∷ xs) ≡ xs
erase_head x xs = ground arith
