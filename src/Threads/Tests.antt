-- ===== src/Threads/Tests.antt =====
-- Pools of two and three threads.
use universal_system_program.Prelude.{
  ℕ, ◌≡◌, refl, Bool, true, false, Bool-cases, inl, inr, some, List, [], ◌∷◌, if◌then◌else◌, ◌==◌,
  length,
}
use universal_system_program.Threads.Class.{
  Thread, Outcome, setup_fails, create_fails, starts, threw, returned, new_thread, throw_in_loop,
  IsCreated, IsStopped, IsStarted,
}
use universal_system_program.Threads.Std
use universal_system_program.Threads.Std.{std_thread}
use universal_system_program.Threads.Posix
use universal_system_program.Threads.Posix.{posix_thread}
use universal_system_program.Threads.Pool.{Pool, new_pool, start_pool, monitor_pool}
use universal_system_program.Threads.Pool.Lifecycle.{
  Ends, all_start, all_revive, terms, start_pool_lem, monitor_pool_lem,
}
use universal_system_program.Threads.Pool.Session.{
  Event, start, monitor, throws, off, replies, last, Models, run, run-Models,
}

-- The third thread cannot be set up.
abbrev third_fails : ℕ → Outcome
third_fails i = if i == 2 then setup_fails else starts

third_fails_fine : (i : ℕ) → IsCreated (third_fails i)
third_fails_fine i = elim (Bool-cases (i == 2)) [ inl e ↦ rw e tt | inr e ↦ rw e tt ]

abbrev every_start : ℕ → Outcome
every_start i = starts

abbrev running : Thread
running = record { term = false; joinable = true; ready = true }

abbrev started_pool : Pool
started_pool = record { threads = running ∷ throw_in_loop running ∷ []; start_flag = true }

abbrev stopped_again : Thread
stopped_again = record { term = true; joinable = false; ready = false }

rollback :
    start_pool std_thread third_fails (new_pool 3)
    ≡ some (
      false,
      record { threads = stopped_again ∷ stopped_again ∷ new_thread ∷ []; start_flag = false },
    )
unfolding start_pool Std.start_thread Std.stop_thread
rollback = refl

revived :
    monitor_pool std_thread every_start started_pool
    ≡ some (true, record { threads = running ∷ running ∷ []; start_flag = true })
unfolding monitor_pool Std.start_thread Std.stop_thread
revived = refl

start_pool_lem_example :
    let b = all_start third_fails 0 3 in
    (ts : List Thread) × (start_pool std_thread third_fails (new_pool 3)
      ≡ some (b, record { threads = ts; start_flag = b }))
    × (length ts ≡ 3)
    × Ends b ts
start_pool_lem_example =
    start_pool_lem std_thread third_fails third_fails_fine (new_pool 3) refl
      (stopped_new, (stopped_new, (stopped_new, tt)))
  where
    stopped_new : IsStopped new_thread
    stopped_new = record { joined = refl; cleaned = refl }

monitor_pool_lem_example :
    let b = all_revive every_start 0 (terms started_pool.threads) in
    (ts : List Thread) × (monitor_pool std_thread every_start started_pool
      ≡ some (b, record { threads = ts; start_flag = b }))
    × (length ts ≡ 2)
    × Ends b ts
monitor_pool_lem_example =
    monitor_pool_lem std_thread every_start (λ i. tt) started_pool refl
      (was_started, (was_started, tt))
  where
    was_started : {term : Bool} → IsStarted (record { term = term; joinable = true; ready = true })
    was_started = record { created = refl; set_up = refl }

-- The second start succeeds, a thread throws and is restarted, it throws again and is not.
abbrev a_session : List Event
a_session =
    start third_fails
    ∷ start every_start
    ∷ throws 1
    ∷ monitor every_start
    ∷ throws 2
    ∷ monitor third_fails
    ∷ []

session_replies : replies 3 a_session off ≡ false ∷ true ∷ true ∷ true ∷ true ∷ false ∷ []
session_replies = refl

run-Models_example :
    (p : Pool) × (run posix_thread a_session (new_pool 3) ≡ some (replies 3 a_session off, p))
    × Models 3 (last 3 a_session off) p
run-Models_example =
    run-Models posix_thread 3 a_session
      (third_fails_fine, ((λ i. tt), ((λ i. tt), (third_fails_fine, tt))))

-- Where the thread cannot be created, `PThread` cleans up and returns false, with an identifier that may
-- have been written; in `STDThread` the exception leaves, and what was set up stays.
posix_fails :
    (id_set : Bool)
    → Posix.start_thread (create_fails id_set) new_thread
      ≡ (returned false, record { term = false; joinable = id_set; ready = false })
unfolding Posix.start_thread
posix_fails id_set = refl

std_throws :
    Std.start_thread (create_fails false) new_thread
    ≡ (threw, record { term = false; joinable = false; ready = true })
unfolding Std.start_thread
std_throws = refl
