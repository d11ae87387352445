-- ===== src/Threads/Posix.antt =====
-- thread/pthread.h: `PThread`; `joinable` is `thread_id_ != 0`. Where `pthread_create` fails, the
-- identifier may have been written or not. A `pthread_join` that fails is only reported, and the
-- identifier is cleared all the same.
use universal_system_program.Prelude.{◌≡◌, ◌⊎◌, inl, inr, refl, true, false, if◌then◌else◌, arith}
use universal_system_program.Threads.Class.{
  Thread, Outcome, setup_fails, create_fails, starts, Result, returned, cleanup, IsStopped,
  IsCreated, IsRunning, Class,
}

abbrev pub set_up_and_create : Outcome → Thread → Result × Thread
set_up_and_create setup_fails t = (returned false, cleanup t)
set_up_and_create (create_fails id_set) t =
    (returned false, cleanup (record { term = false; joinable = id_set; ready = true }))
set_up_and_create starts t = (returned true, record { term = false; joinable = true; ready = true })

unfoldable pub start_thread : Outcome → Thread → Result × Thread
start_thread c t = if t.joinable then (returned false, t) else set_up_and_create c t

unfoldable pub stop_thread : Thread → Thread
stop_thread t = cleanup (if t.joinable then record t { term = true; joinable = false } else t)

pub start_lem :
    (c : Outcome) (t : Thread)
    → IsStopped t
    → IsCreated c
    → ((c ≡ starts) × ((start_thread c t).0 ≡ returned true) × IsRunning (start_thread c t).1)
      ⊎ ((c ≡ setup_fails)
          × ((start_thread c t).0 ≡ returned false)
          × IsStopped (start_thread c t).1)
unfolding start_thread
start_lem setup_fails t h made = inr (refl, ground arith, ground arith)
start_lem starts t h made = inl (refl, ground arith, ground arith)
start_lem (create_fails id_set) t h made = absurd made

pub stop_stops : (t : Thread) → IsStopped (stop_thread t)
unfolding stop_thread
stop_stops t = ground arith

abbrev pub posix_thread : Class
posix_thread = record {
  start_thread = start_thread;
  stop_thread = stop_thread;
  start_lem = start_lem;
  stop_stops = stop_stops;
}
