-- ===== src/Threads/Pool/Session.antt =====
-- Sequences of calls on a pool, and of exceptions in the loops of its threads.
use universal_system_program.Prelude.{
  ℕ, zero, suc, ◌≡◌, refl, subst, Bool, true, false, Option, some, List, [], ◌∷◌, map, set, length,
  length-map, length-replicate, ap, ap₂, ◌∙◌, if◌then◌else◌, replicate, arith,
}
use universal_system_program.Prelude.Monad.{◌>>=◌}
use universal_system_program.Threads.Class.{
  Thread, Outcome, IsCreated, new_thread, throw_in_loop, IsStopped, IsStarted, IsRunning, Class,
}
use universal_system_program.Threads.Pool.{Pool, new_pool, start_pool, stop_pool, monitor_pool}
use universal_system_program.Threads.Pool.Lifecycle.{
  All, Ends, All-stop, all_start, all_revive, terms, start_pool_lem, monitor_pool_lem,
}

-- Calls of the pool, with how the starts of its threads go in this call, and an exception in the loop of
-- thread `i`.
pub data Event : Type 0 where
  start monitor : (outcome : ℕ → Outcome) → Event
  stop : Event
  throws : (i : ℕ) → Event

-- Only a thread that was started has a loop.
abbrev pub throw_at : ℕ → List Thread → List Thread
throw_at i [] = []
throw_at zero (t ∷ ts) = (if t.joinable then throw_in_loop t else t) ∷ ts
throw_at (suc i) (t ∷ ts) = t ∷ throw_at i ts

module _ (k : Class) where
  -- What a call returns; `stop_pool` and an exception in a loop return nothing, for which `true` stands.
  unfoldable pub step : Event → Pool → Option (Bool × Pool)
  unfolding start_pool stop_pool monitor_pool
  step (start outcome) p = start_pool k outcome p
  step (monitor outcome) p = monitor_pool k outcome p
  step stop p = some (true, stop_pool k p)
  step (throws i) p = some (true, record p { threads = throw_at i p.threads })

  unfoldable pub run : List Event → Pool → Option (List Bool × Pool)
  unfolding step
  run [] p = some ([], p)
  run (e ∷ es) p = do (b, q) ← step e p; (bs, r) ← run es q; some (b ∷ bs, r)

-- What a pool promises: it is off, or on with a list that says of each thread whether it has thrown.
pub data State : Type 0 where
  off : State
  on : (dead : List Bool) → State

abbrev all_alive : Bool → ℕ → State
all_alive true cnt = on (replicate cnt false)
all_alive false cnt = off

abbrev pub reply : (cnt : ℕ) → Event → State → Bool
reply cnt (start outcome) off = all_start outcome 0 cnt
reply cnt (start outcome) (on dead) = false
reply cnt (monitor outcome) off = false
reply cnt (monitor outcome) (on dead) = all_revive outcome 0 dead
reply cnt _ s = true

abbrev pub next : (cnt : ℕ) → Event → State → State
next cnt (start outcome) off = all_alive (all_start outcome 0 cnt) cnt
next cnt (start outcome) (on dead) = on dead
next cnt (monitor outcome) off = off
next cnt (monitor outcome) (on dead) = all_alive (all_revive outcome 0 dead) cnt
next cnt stop s = off
next cnt (throws i) off = off
next cnt (throws i) (on dead) = on (set dead i true)

abbrev pub replies : (cnt : ℕ) → List Event → State → List Bool
replies cnt [] s = []
replies cnt (e ∷ es) s = reply cnt e s ∷ replies cnt es (next cnt e s)

abbrev pub last : (cnt : ℕ) → List Event → State → State
last cnt [] s = s
last cnt (e ∷ es) s = last cnt es (next cnt e s)

-- A pool that is on has started all of its `cnt` threads, with all of them set up; one that is off has
-- none of them running and all of them cleaned up.
abbrev pub Models : (cnt : ℕ) → State → Pool → Type 0
Models cnt off p = (p.start_flag ≡ false) × (length p.threads ≡ cnt) × All IsStopped p.threads
Models cnt (on dead) p =
    (p.start_flag ≡ true)
    × (length p.threads ≡ cnt)
    × All IsStarted p.threads
    × (terms p.threads ≡ dead)

-- The system has threads to give in every call.
abbrev pub IsServed : List Event → Type 0
IsServed [] = Unit {0}
IsServed (start outcome ∷ es) = ((i : ℕ) → IsCreated (outcome i)) × IsServed es
IsServed (monitor outcome ∷ es) = ((i : ℕ) → IsCreated (outcome i)) × IsServed es
IsServed (_ ∷ es) = IsServed es

All-IsStarted : (ts : List Thread) → All IsRunning ts → All IsStarted ts
All-IsStarted [] hs = tt
All-IsStarted (t ∷ ts) hs = (hs.0.started, All-IsStarted ts hs.1)

terms-IsRunning : (ts : List Thread) → All IsRunning ts → terms ts ≡ replicate (length ts) false
terms-IsRunning [] hs = refl
terms-IsRunning (t ∷ ts) (h, hs) = ap₂ (λ b bs. b ∷ bs) h.going_on (terms-IsRunning ts hs)

throw-IsStopped : (i : ℕ) (ts : List Thread) → All IsStopped ts → throw_at i ts ≡ ts
throw-IsStopped i [] hs = refl
throw-IsStopped zero (t ∷ ts) (h, hs) = rw (h.joined) refl
throw-IsStopped (suc i) (t ∷ ts) (h, hs) = ap (λ us. t ∷ us) (throw-IsStopped i ts hs)

throw-IsStarted :
    (i : ℕ) (ts : List Thread)
    → All IsStarted ts
    → (length (throw_at i ts) ≡ length ts)
      × All IsStarted (throw_at i ts)
      × (terms (throw_at i ts) ≡ set (terms ts) i true)
throw-IsStarted i [] hs = (refl, tt, refl)
throw-IsStarted zero (t ∷ ts) (h, hs) =
    (refl, (ground arith, hs), ap (λ b. b ∷ terms ts) (ground arith))
throw-IsStarted (suc i) (t ∷ ts) (h, hs) =
    let (long, started, dead) = throw-IsStarted i ts hs in
    (ap suc long, (h, started), ap (λ bs. t.term ∷ bs) dead)

Models-Ends :
    (cnt : ℕ) (b : Bool) (ts : List Thread)
    → length ts ≡ cnt
    → Ends b ts
    → Models cnt (all_alive b cnt) (record { threads = ts; start_flag = b })
Models-Ends cnt true ts long hs =
    (refl, long, All-IsStarted ts hs, terms-IsRunning ts hs ∙ ap (λ n. replicate n false) long)
Models-Ends cnt false ts long hs = (refl, long, hs)

module _ (k : Class) (cnt : ℕ) where
  -- What a call returns and leaves, where the pool is as the state says.
  abbrev Does : Event → State → Pool → Type 0
  Does e s p = (p' : Pool) × (step k e p ≡ some (reply cnt e s, p')) × Models cnt (next cnt e s) p'

  ended :
      (r : Option (Bool × Pool)) (ts : List Thread) (b b' : Bool)
      → r ≡ some (b, record { threads = ts; start_flag = b })
      → length ts ≡ cnt
      → Ends b ts
      → b ≡ b'
      → (p' : Pool) × (r ≡ some (b', p')) × Models cnt (all_alive b' cnt) p'
  ended r ts b b' run long ends same =
      subst (λ x. (p' : Pool) × (r ≡ some (x, p')) × Models cnt (all_alive x cnt) p') same
        (record { threads = ts; start_flag = b }, run, Models-Ends cnt b ts long ends)

  start-Does :
      (outcome : ℕ → Outcome) (s : State) (p : Pool)
      → ((i : ℕ) → IsCreated (outcome i))
      → Models cnt s p
      → Does (start outcome) s p
  unfolding step start_pool
  start-Does outcome off p created (flag, long, hs) =
      let (ts, run, same, ends) = start_pool_lem k outcome created p flag hs in
      ended (start_pool k outcome p) ts _ (all_start outcome 0 cnt) run (same ∙ long) ends
        (ap (all_start outcome 0) long)
  start-Does outcome (on dead) p created (flag, long, hs, dead_ones) =
      (p, simp flag refl, (flag, long, hs, dead_ones))

  monitor-Does :
      (outcome : ℕ → Outcome) (s : State) (p : Pool)
      → ((i : ℕ) → IsCreated (outcome i))
      → Models cnt s p
      → Does (monitor outcome) s p
  unfolding step monitor_pool
  monitor-Does outcome off p created (flag, long, hs) = (p, simp flag refl, (flag, long, hs))
  monitor-Does outcome (on dead) p created (flag, long, hs, dead_ones) =
      let (ts, run, same, ends) = monitor_pool_lem k outcome created p flag hs in
      ended (monitor_pool k outcome p) ts _ (all_revive outcome 0 dead) run (same ∙ long) ends
        (ap (all_revive outcome 0) dead_ones)

  stop-Does : (s : State) (p : Pool) → Models cnt s p → Does stop s p
  unfolding step stop_pool
  stop-Does off p (flag, long, hs) = (p, simp flag refl, (flag, long, hs))
  stop-Does (on dead) p (flag, long, hs, dead_ones) = (
    record { threads = map k.stop_thread p.threads; start_flag = false },
    simp flag refl,
    (refl, length-map k.stop_thread p.threads ∙ long, All-stop k p.threads),
  )

  throws-Does : (i : ℕ) (s : State) (p : Pool) → Models cnt s p → Does (throws i) s p
  unfolding step
  throws-Does i off p (flag, long, hs) =
      let same = throw-IsStopped i p.threads hs in
      (record p { threads = throw_at i p.threads }, refl, (flag, rw same long, rw same hs))
  throws-Does i (on dead) p (flag, long, hs, dead_ones) =
      let (same, started, next_dead) = throw-IsStarted i p.threads hs in
      (
        record p { threads = throw_at i p.threads },
        refl,
        (flag, same ∙ long, started, next_dead ∙ ap (λ bs. set bs i true) dead_ones),
      )

  abbrev Goes : List Event → State → Pool → Type 0
  Goes es s p =
      (p' : Pool) × (run k es p ≡ some (replies cnt es s, p')) × Models cnt (last cnt es s) p'

  then_rest :
      (e : Event) (es : List Event) (s : State) (p : Pool)
      → Does e s p
      → ((q : Pool) → Models cnt (next cnt e s) q → Goes es (next cnt e s) q)
      → Goes (e ∷ es) s p
  unfolding run
  then_rest e es s p (q, one, q_ok) go_on =
      let (p', rest, p_ok) = go_on q q_ok in (p', rw (one, rest, ◌>>=◌) refl, p_ok)

  run_from-Models :
      (es : List Event) (s : State) (p : Pool) → IsServed es → Models cnt s p → Goes es s p
  unfolding run
  run_from-Models [] s p served h = (p, refl, h)
  run_from-Models (start outcome ∷ es) s p served h =
      then_rest (start outcome) es s p (start-Does outcome s p served.0 h)
        (λ q. run_from-Models es _ q served.1)
  run_from-Models (monitor outcome ∷ es) s p served h =
      then_rest (monitor outcome) es s p (monitor-Does outcome s p served.0 h)
        (λ q. run_from-Models es _ q served.1)
  run_from-Models (stop ∷ es) s p served h =
      then_rest stop es s p (stop-Does s p h) (λ q. run_from-Models es _ q served)
  run_from-Models (throws i ∷ es) s p served h =
      then_rest (throws i) es s p (throws-Does i s p h) (λ q. run_from-Models es _ q served)

-- A pool of any size, of either class of threads, goes through any sequence of starts, stops, checks by its
-- monitor and exceptions in the loops of its threads, in which the system always has a thread to give
-- and setups succeed or fail as they like, at each call anew: no exception leaves it; every
-- call returns what it returns for a pool that is off, or on with some threads ended, where starting
-- and restarting is all or nothing; and at the end it has all of its threads, all started and
-- set up, the ended ones among them, or all stopped and cleaned up, as that says.
pub run-Models :
    (k : Class) (cnt : ℕ) (es : List Event)
    → IsServed es
    → (p : Pool) × (run k es (new_pool cnt) ≡ some (replies cnt es off, p))
      × Models cnt (last cnt es off) p
run-Models k cnt es served =
    run_from-Models k cnt es off (new_pool cnt) served
      (refl, length-replicate cnt new_thread, fresh cnt)
  where
    fresh : (n : ℕ) → All IsStopped (replicate n new_thread)
    fresh zero = tt
    fresh (suc n) = (record { joined = refl; cleaned = refl }, fresh n)
