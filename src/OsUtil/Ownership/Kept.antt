-- ===== src/OsUtil/Ownership/Kept.antt =====
-- The functions of osutil.cpp that need a resource while they run.
use universal_system_program.Prelude.{ℕ, ◌≡◌, refl, ap, ◌∙◌, Bool, Option, none, some, List, ◌∷◌}
use universal_system_program.DataFormat.Wire.{Endian}
use universal_system_program.OsUtil.System.{
  descriptor, pcap_handle, bpf_program, Trace, Always, Oracle,
}
use universal_system_program.OsUtil.Resources.{erase, held, Keeps, erase_head}
use universal_system_program.OsUtil.Interface.{
  get_source_ip, get_source_mac, get_source_mtu, set_offload,
}
use universal_system_program.OsUtil.Filter.{set_bpf_filter}
use universal_system_program.OsUtil.Ownership.{Run, run, answers, flags, dropped}

ip_lem : (t : Trace) (e : Endian) (nic : List ℕ) → Always (Keeps t) (get_source_ip e nic) t
ip_lem t e nic = answers _ refl (λ fd.
    answers _ (λ closed. dropped fd t descriptor closed)
      (λ a closed. dropped fd t descriptor closed))

mac_lem : (t : Trace) (nic : List ℕ) → Always (Keeps t) (get_source_mac nic) t
mac_lem t nic = answers _ refl (λ fd.
    answers _ (λ closed. dropped fd t descriptor closed)
      (λ a closed. dropped fd t descriptor closed))

offload_lem :
    (t : Trace) (nic : List ℕ) (cmd : ℕ) (enable : Bool)
    → Always (Keeps t) (set_offload nic cmd enable) t
offload_lem t nic cmd enable = answers _ refl (λ fd printed closed. dropped fd t descriptor closed)

bpf_lem : (t : Trace) (fd : ℕ) (filter : List ℕ) → Always (Keeps t) (set_bpf_filter fd filter) t
bpf_lem t fd filter = answers _ refl (λ handle.
    answers _ (λ closed. dropped handle t pcap_handle closed)
      (λ program.
        flags _ (λ freed closed. both handle program) (λ freed closed. both handle program)))
  where
    both :
        (handle program : ℕ)
        → erase
            (pcap_handle, handle)
            (erase (bpf_program, program) ((bpf_program, program) ∷ (pcap_handle, handle) ∷ held t))
          ≡ held t
    both handle program =
        ap (erase (pcap_handle, handle))
          (erase_head (bpf_program, program) ((pcap_handle, handle) ∷ held t))
        ∙ erase_head (pcap_handle, handle) (held t)

-- `get_source_ip`, `get_source_mac`, `set_offload` and `set_bpf_filter` release, whatever the system
-- answers, all that they acquired: on every path they hold what was held before.
pub queries-Kept :
    (e : Endian) (nic filter : List ℕ) (cmd fd : ℕ) (enable : Bool) (o : Oracle) (t : Trace)
    → Run Keeps (get_source_ip e nic) o t
      × Run Keeps (get_source_mac nic) o t
      × Run Keeps (set_offload nic cmd enable) o t
      × Run Keeps (set_bpf_filter fd filter) o t
queries-Kept e nic filter cmd fd enable o t = (
  run _ _ _ (ip_lem t e nic) o,
  run _ _ _ (mac_lem t nic) o,
  run _ _ _ (offload_lem t nic cmd enable) o,
  run _ _ _ (bpf_lem t fd filter) o,
)

-- Where the result is a number, some descriptor more is held than before.
abbrev pub LeaksOnSuccess : Trace → Option ℕ → Trace → Type 0
LeaksOnSuccess t none u = held u ≡ held t
LeaksOnSuccess t (some x) u = (fd : ℕ) × (held u ≡ ((descriptor, fd) ∷ held t))

mtu_lem : (t : Trace) (nic : List ℕ) → Always (LeaksOnSuccess t) (get_source_mtu nic) t
mtu_lem t nic =
    answers _ refl (λ fd. answers _ (λ closed. dropped fd t descriptor closed) (λ mtu. (fd, refl)))

-- Each successful `get_source_mtu` leaves its socket open: the caller, who gets the MTU alone, can
-- never close it. Where it fails nothing more is held than before.
pub get_source_mtu-Leaks :
    (nic : List ℕ) (o : Oracle) (t : Trace) → Run LeaksOnSuccess (get_source_mtu nic) o t
get_source_mtu-Leaks nic o t = run _ _ _ (mtu_lem t nic) o
