-- ===== src/Threads/Pool.antt =====
-- thread/threadpool.h and thread/stdworkerpool.h: a pool starts all of its threads or none, and
-- restarts the ones whose loop has thrown.
pub mod Lifecycle
pub mod Session
use universal_system_program.Prelude.{
  ℕ, zero, suc, ◌+◌, Bool, true, false, Option, none, some, List, [], ◌∷◌, ◌++◌, map, if◌then◌else◌,
  ◌==◌, ltb, replicate,
}
use universal_system_program.Threads.Class.{
  Thread, Outcome, Result, threw, returned, new_thread, Class,
}

pub record Pool : Type 0 where
  pub threads : List Thread
  pub start_flag : Bool

-- `STDWorkerPool(cnt)`
abbrev pub new_pool : (cnt : ℕ) → Pool
new_pool cnt = record { threads = replicate cnt new_thread; start_flag = false }

module _ (k : Class) where
  unfoldable pub stop_pool : Pool → Pool
  stop_pool p =
      if p.start_flag
      then record { threads = map k.stop_thread p.threads; start_flag = false }
      else p

-- `outcome i` is how the start of thread `i` goes; `none` means that an exception leaves the pool.
module _ (k : Class) (outcome : ℕ → Outcome) where
  open k use {start_thread, stop_thread}

  -- What the loop of `start_pool` does with the result of thread `i`: the threads before it, which
  -- are started, and the ones behind it.
  abbrev pub after_start :
      List Thread
      → List Thread
      → Result × Thread
      → Option (Bool × List Thread)
      → Option (Bool × List Thread)
  after_start started rest (threw, t) next = none
  after_start started rest (returned true, t) next = next
  after_start started rest (returned false, t) next =
      some (false, map stop_thread started ++ t ∷ rest)

  unfoldable pub start_from : (i : ℕ) → (started rest : List Thread) → Option (Bool × List Thread)
  start_from i started [] = some (true, started)
  start_from i started (t ∷ rest) =
      let r = start_thread (outcome i) t in
      after_start started rest r (start_from (suc i) (started ++ r.1 ∷ []) rest)

  abbrev pub set_started : Option (Bool × List Thread) → Option (Bool × Pool)
  set_started none = none
  set_started (some (ok, ts)) = some (ok, record { threads = ts; start_flag = ok })

  unfoldable pub start_pool : Pool → Option (Bool × Pool)
  unfolding start_from
  start_pool p = if p.start_flag then some (false, p) else set_started (start_from 0 [] p.threads)

  abbrev pub after_restart : Result × Thread → Option (ℕ × List Thread) → Option (ℕ × List Thread)
  after_restart (threw, t) next = none
  after_restart (returned ok, t) none = none
  after_restart (returned ok, t) (some (fails, ts)) =
      some ((if ok then fails else suc fails), t ∷ ts)

  abbrev pub keep_thread : Thread → Option (ℕ × List Thread) → Option (ℕ × List Thread)
  keep_thread t none = none
  keep_thread t (some (fails, ts)) = some (fails, t ∷ ts)

  -- The loop of `monitor_pool`, with `recovery_fail_cnt`; `dead_cnt` is only printed.
  unfoldable pub revive_from : (i : ℕ) → List Thread → Option (ℕ × List Thread)
  revive_from i [] = some (0, [])
  revive_from i (t ∷ rest) =
      let next = revive_from (suc i) rest in
      if t.term
      then after_restart (start_thread (outcome i) (stop_thread t)) next
      else keep_thread t next

  abbrev pub after_revival : Option (ℕ × List Thread) → Option (Bool × Pool)
  after_revival none = none
  after_revival (some (fails, ts)) =
      let p : Pool = record { threads = ts; start_flag = true } in
      if ltb 0 fails then some (false, stop_pool k p) else some (true, p)

  unfoldable pub monitor_pool : Pool → Option (Bool × Pool)
  unfolding revive_from stop_pool
  monitor_pool p = if p.start_flag then after_revival (revive_from 0 p.threads) else some (false, p)
