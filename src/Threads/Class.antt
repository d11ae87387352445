-- ===== src/Threads/Class.antt =====
-- thread/thread.h: what a pool knows of a thread class. The virtual functions `setup`, `cleanup`
-- and `thread_loop` are the caller's; how `setup` and the creation of the thread go is a choice.
use universal_system_program.Prelude.{◌≡◌, ◌⊎◌, Bool, true, false}

-- `term` is `thread_term_`, `joinable` says that there is a thread to join, and `ready` that `setup`
-- has succeeded and `cleanup` has not run since.
pub record Thread : Type 0 where
  pub term : Bool
  pub joinable : Bool
  pub ready : Bool

-- Where the thread cannot be created, `id_set` says whether an identifier was written all the same,
-- which POSIX leaves open for `pthread_create`.
pub data Outcome : Type 0 where
  setup_fails starts : Outcome
  create_fails : (id_set : Bool) → Outcome

-- What `start_thread` returns, unless an exception leaves it.
pub data Result : Type 0 where
  threw : Result
  returned : Bool → Result

-- `Thread::Thread()`
abbrev pub new_thread : Thread
new_thread = record { term = false; joinable = false; ready = false }

abbrev pub cleanup : Thread → Thread
cleanup t = record t { ready = false }

-- `thread_func` catches what `thread_loop` throws and sets the flag.
abbrev pub throw_in_loop : Thread → Thread
throw_in_loop t = record t { term = true }

pub record IsStopped (t : Thread) : Type 0 where
  pub joined : t.joinable ≡ false
  pub cleaned : t.ready ≡ false

-- A thread that was started; its loop may have ended by an exception.
pub record IsStarted (t : Thread) : Type 0 where
  pub created : t.joinable ≡ true
  pub set_up : t.ready ≡ true

pub record IsRunning (t : Thread) : Type 0 where
  pub started : IsStarted t
  pub going_on : t.term ≡ false

abbrev pub can_start : Outcome → Bool
can_start starts = true
can_start _ = false

-- The system has a thread to give.
abbrev pub IsCreated : Outcome → Type 0
IsCreated (create_fails id_set) = ⊥
IsCreated _ = Unit {0}

-- The interface of a class of threads.
pub record Class : Type 0 where
  pub start_thread : Outcome → Thread → Result × Thread
  pub stop_thread : Thread → Thread
  pub start_lem :
      (c : Outcome) (t : Thread)
      → IsStopped t
      → IsCreated c
      → ((c ≡ starts) × ((start_thread c t).0 ≡ returned true) × IsRunning (start_thread c t).1)
        ⊎ ((c ≡ setup_fails)
            × ((start_thread c t).0 ≡ returned false)
            × IsStopped (start_thread c t).1)
  pub stop_stops : (t : Thread) → IsStopped (stop_thread t)
