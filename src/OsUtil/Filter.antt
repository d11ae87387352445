-- ===== src/OsUtil/Filter.antt =====
-- The functions of osutil.cpp on socket filters, with libpcap as the compiler of their text.
use universal_system_program.Prelude.{ℕ, Bool, false, Option, none, some, List}
use universal_system_program.OsUtil.System.{
  pcap_open_dead, pcap_compile, setsockopt, so_attach_filter, so_detach_filter, release,
  pcap_handle, bpf_program, Prog, ret, acquire, call,
}

-- `pcap_freecode(&fp); pcap_close(dummy_handle);`
abbrev pub free_program : (result : Bool) → (handle program : ℕ) → Prog Bool
free_program result handle program =
    call (release bpf_program program)
      (λ freed. call (release pcap_handle handle) (λ closed. ret result))

abbrev pub attach : (fd handle : ℕ) → Option ℕ → Prog Bool
attach fd handle none = call (release pcap_handle handle) (λ closed. ret false)
attach fd handle (some program) =
    call (setsockopt fd (so_attach_filter program)) (λ ok. free_program ok handle program)

abbrev pub compile_filter : (fd : ℕ) → (filter_str : List ℕ) → Option ℕ → Prog Bool
compile_filter fd filter_str none = ret false
compile_filter fd filter_str (some handle) =
    acquire (pcap_compile handle filter_str) (attach fd handle)

abbrev pub set_bpf_filter : (fd : ℕ) → (filter_str : List ℕ) → Prog Bool
set_bpf_filter fd filter_str = acquire pcap_open_dead (compile_filter fd filter_str)

abbrev pub del_bpf_filter : (fd : ℕ) → Prog Bool
del_bpf_filter fd = call (setsockopt fd so_detach_filter) ret
