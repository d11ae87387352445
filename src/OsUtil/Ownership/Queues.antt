-- ===== src/OsUtil/Ownership/Queues.antt =====
-- The functions of osutil.cpp that give out a netfilter handle or queue.
use universal_system_program.Prelude.{ℕ, true, refl, inl, inr}
use universal_system_program.OsUtil.System.{nfq_handle, nfq_queue, Trace, Always, Oracle}
use universal_system_program.OsUtil.Resources.{GivesOutOrRefused}
use universal_system_program.OsUtil.Nfq.{open_nfq_ipv4_handle, create_nfq_q_ipv4_handle}
use universal_system_program.OsUtil.Ownership.{Run, run, answers, flags, dropped}

open_lem : (t : Trace) → Always (GivesOutOrRefused nfq_handle t) open_nfq_ipv4_handle t
open_lem t = answers _ (inl refl) (λ handle.
    flags _
      (flags _ refl
        (flags _ (inl (dropped handle t nfq_handle true)) (inr (handle, _, refl, refl))))
      (flags _ (inl (dropped handle t nfq_handle true)) (inr (handle, _, refl, refl))))

create_lem :
    (t : Trace) (handle queue_num : ℕ)
    → Always (GivesOutOrRefused nfq_queue t) (create_nfq_q_ipv4_handle handle queue_num) t
create_lem t handle queue_num = answers _ (inl refl) (λ queue.
    flags _ refl (flags _ (inl (dropped queue t nfq_queue true)) (inr (queue, _, refl, refl))))

-- The netfilter constructors, whatever the library answers, which frees a handle or a queue only where
-- its release succeeds: on success they hold what was held before and the handle or the queue that they
-- return; on failure they hold what was held before, or their last call was the release of what they
-- had acquired, which the library refused, and they hold that alone more.
pub nfq-Given :
    (handle queue_num : ℕ) (o : Oracle) (t : Trace)
    → Run (GivesOutOrRefused nfq_handle) open_nfq_ipv4_handle o t
      × Run (GivesOutOrRefused nfq_queue) (create_nfq_q_ipv4_handle handle queue_num) o t
nfq-Given handle queue_num o t =
    (run _ _ _ (open_lem t) o, run _ _ _ (create_lem t handle queue_num) o)
