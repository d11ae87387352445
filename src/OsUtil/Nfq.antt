-- ===== src/OsUtil/Nfq.antt =====
-- The functions of osutil.cpp on netfilter queues.
use universal_system_program.Prelude.{ℕ, Bool, true, false, Option, none, some, ◌&&◌}
use universal_system_program.OsUtil.System.{
  nfq_open, nfq_create_queue, nfq_unbind_pf, nfq_bind_pf, nfq_set_mode, nfq_fd, release, nfq_handle,
  nfq_queue, Prog, ret, acquire, query, call, ◌>>=◌,
}

-- What follows a call on a handle or a queue: on failure it is released, and null is returned.
abbrev pub or_drop : Prog (Option ℕ) → Bool → Prog (Option ℕ) → Prog (Option ℕ)
or_drop drop true next = next
or_drop drop false next = drop

abbrev pub nfq_close : (handle : ℕ) → Prog (Option ℕ)
nfq_close handle = call (release nfq_handle handle) (λ closed. ret none)

abbrev pub bind_ipv4 : Option ℕ → Prog (Option ℕ)
bind_ipv4 none = ret none
bind_ipv4 (some handle) = call (nfq_unbind_pf handle) (λ ok.
    or_drop (nfq_close handle) ok
      (call (nfq_bind_pf handle) (λ ok. or_drop (nfq_close handle) ok (ret (some handle)))))

abbrev pub open_nfq_ipv4_handle : Prog (Option ℕ)
open_nfq_ipv4_handle = acquire nfq_open bind_ipv4

abbrev pub set_copy_mode : Option ℕ → Prog (Option ℕ)
set_copy_mode none = ret none
set_copy_mode (some queue) =
    call (nfq_set_mode queue)
      (λ ok. or_drop (call (release nfq_queue queue) (λ closed. ret none)) ok (ret (some queue)))

-- The callback and its argument are handed on to the library.
abbrev pub create_nfq_q_ipv4_handle : (handle nfq_q_num : ℕ) → Prog (Option ℕ)
create_nfq_q_ipv4_handle handle nfq_q_num =
    acquire (nfq_create_queue handle nfq_q_num) set_copy_mode

abbrev pub get_nfq_fd : (handle : ℕ) → Prog (Option ℕ)
get_nfq_fd handle = query (nfq_fd handle) ret

-- A null pointer is `none`. The handle is closed also where the queue cannot be destroyed.
abbrev pub destroy_queue : Option ℕ → Prog Bool
destroy_queue none = ret true
destroy_queue (some queue) = call (release nfq_queue queue) ret

abbrev pub close_handle : Option ℕ → Prog Bool
close_handle none = ret true
close_handle (some handle) = call (release nfq_handle handle) ret

abbrev pub close_nfq : (handle queue : Option ℕ) → Prog Bool
close_nfq handle queue = do
  queue_ok ← destroy_queue queue
  handle_ok ← close_handle handle
  ret (queue_ok && handle_ok)
