-- ===== src/Threads/Std.antt =====
-- thread/stdthread.h: `STDThread`, on `std::thread`, whose constructor throws where the system has no
-- thread to give. `join` waits for the loop to end.
use universal_system_program.Prelude.{◌≡◌, ◌⊎◌, inl, inr, refl, true, false, if◌then◌else◌, arith}
use universal_system_program.Threads.Class.{
  Thread, Outcome, setup_fails, create_fails, starts, Result, threw, returned, cleanup, IsStopped,
  IsCreated, IsRunning, Class,
}

-- `setup` and what follows it.
abbrev pub set_up_and_start : Outcome → Thread → Result × Thread
set_up_and_start setup_fails t = (returned false, cleanup t)
set_up_and_start (create_fails id_set) t = (threw, record t { term = false; ready = true })
set_up_and_start starts t = (returned true, record { term = false; joinable = true; ready = true })

unfoldable pub start_thread : Outcome → Thread → Result × Thread
start_thread c t = if t.joinable then (returned false, t) else set_up_and_start c t

unfoldable pub stop_thread : Thread → Thread
stop_thread t = cleanup (if t.joinable then record t { term = true; joinable = false } else t)

pub start_lem :
    (c : Outcome) (t : Thread)
    → IsStopped t
    → IsCreated c
    → ((c ≡ starts) × ((start_thread c t).0 ≡ returned true) × IsRunning (start_thread c t).1)
      ⊎ ((c ≡ setup_fails)
          × ((start_thread c t).0 ≡ returned false)
          × IsStopped (start_thread c t).1)
unfolding start_thread
start_lem setup_fails t h made = inr (refl, ground arith, ground arith)
start_lem starts t h made = inl (refl, ground arith, ground arith)
start_lem (create_fails id_set) t h made = absurd made

pub stop_stops : (t : Thread) → IsStopped (stop_thread t)
unfolding stop_thread
stop_stops t = ground arith

abbrev pub std_thread : Class
std_thread = record {
  start_thread = start_thread;
  stop_thread = stop_thread;
  start_lem = start_lem;
  stop_stops = stop_stops;
}
