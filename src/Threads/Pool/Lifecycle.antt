-- ===== src/Threads/Pool/Lifecycle.antt =====
-- What the calls of a pool leave.
use universal_system_program.Prelude.{
  ℕ, zero, suc, ◌+◌, ◌≡◌, inl, inr, refl, Bool, true, false, Bool-cases, some, List, [], ◌∷◌, ◌++◌,
  map, ltb, ◌&&◌, length, length-append, length-map, ap, ◌∙◌, arith,
}
use universal_system_program.Threads.Class.{
  Thread, Outcome, can_start, IsCreated, IsStopped, IsStarted, IsRunning, Class,
}
use universal_system_program.Threads.Pool.{
  Pool, start_from, start_pool, stop_pool, revive_from, monitor_pool,
}

abbrev pub All : (Thread → Type 0) → List Thread → Type 0
All P [] = Unit {0}
All P (t ∷ ts) = P t × All P ts

All-snoc :
    (P : Thread → Type 0) (ts : List Thread) (t : Thread) → All P ts → P t → All P (ts ++ t ∷ [])
All-snoc P [] t hs h = (h, tt)
All-snoc P (s ∷ ts) t hs h = (hs.0, All-snoc P ts t hs.1 h)

All-append : (P : Thread → Type 0) (ts us : List Thread) → All P ts → All P us → All P (ts ++ us)
All-append P [] us hs ks = ks
All-append P (t ∷ ts) us hs ks = (hs.0, All-append P ts us hs.1 ks)

module _ (k : Class) where
  open k use {start_thread, stop_thread, start_lem, stop_stops}

  pub All-stop : (ts : List Thread) → All IsStopped (map stop_thread ts)
  All-stop [] = tt
  All-stop (t ∷ ts) = (stop_stops t, All-stop ts)

-- Whether all of `n` threads can be started, from the thread `i` on.
abbrev pub all_start : (ℕ → Outcome) → (i n : ℕ) → Bool
all_start outcome i zero = true
all_start outcome i (suc n) = can_start (outcome i) && all_start outcome (suc i) n

-- Whether those that have ended can be started again.
abbrev pub all_revive : (ℕ → Outcome) → (i : ℕ) → (dead : List Bool) → Bool
all_revive outcome i [] = true
all_revive outcome i (false ∷ rest) = all_revive outcome (suc i) rest
all_revive outcome i (true ∷ rest) = can_start (outcome i) && all_revive outcome (suc i) rest

abbrev pub terms : List Thread → List Bool
terms [] = []
terms (t ∷ ts) = t.term ∷ terms ts

-- All threads run, or all are stopped.
abbrev pub Ends : Bool → List Thread → Type 0
Ends true ts = All IsRunning ts
Ends false ts = All IsStopped ts

length-stop :
    (f : Thread → Thread) (ts us : List Thread) → length (map f ts ++ us) ≡ length ts + length us
length-stop f ts us = length-append (map f ts) us ∙ ap (λ n. n + length us) (length-map f ts)

module _ (k : Class) (outcome : ℕ → Outcome) (created : (i : ℕ) → IsCreated (outcome i)) where
  open k use {start_thread, stop_thread, start_lem, stop_stops}

  start_from_lem :
      (i : ℕ) (started rest : List Thread)
      → All IsRunning started
      → All IsStopped rest
      → (ts : List Thread) × (start_from k outcome i started rest
          ≡ some (all_start outcome i (length rest), ts))
        × (length ts ≡ length started + length rest)
        × Ends (all_start outcome i (length rest)) ts
  unfolding start_from
  start_from_lem i started [] hs ks = (started, refl, omega arith, hs)
  start_from_lem i started (t ∷ rest) hs ks = elim (start_lem (outcome i) t ks.0 (created i)) [
    | inl (o, e, running) ↦
        let t' = (start_thread (outcome i) t).1 in
        let (ts, run, long, ends) =
          start_from_lem (suc i) (started ++ t' ∷ []) rest
            (All-snoc IsRunning started t' hs running) ks.1 in
        (
          ts,
          rw (e, ap can_start o) run,
          omega (arith, long, length-append started (t' ∷ [])),
          rw (ap can_start o) ends,
        )
    | inr (o, e, stopped) ↦
        let us = (start_thread (outcome i) t).1 ∷ rest in
        (
          map stop_thread started ++ us,
          rw (e, ap can_start o) refl,
          length-stop stop_thread started us,
          rw (ap can_start o) (
              All-append IsStopped (map stop_thread started) us (All-stop k started)
                (stopped, ks.1)),
        )
  ]

  -- On a pool that is not started, whose threads are all stopped, and where the system has threads to
  -- give: `start_pool` returns, true if and only if every thread can be set up; it has as many threads as
  -- before, and its flag is what it returns. With true all of them run, with false all are stopped
  -- and cleaned up, also those that had been started before the one that could not be.
  pub start_pool_lem :
      (p : Pool)
      → p.start_flag ≡ false
      → All IsStopped p.threads
      → let b = all_start outcome 0 (length p.threads) in
        (ts : List Thread) × (start_pool k outcome p
          ≡ some (b, record { threads = ts; start_flag = b }))
        × (length ts ≡ length p.threads)
        × Ends b ts
  unfolding start_pool
  start_pool_lem p flag hs =
      let (ts, run, long, ends) = start_from_lem 0 [] p.threads tt hs in
      (ts, rw flag (rw run refl), omega (arith, long), ends)

  -- The threads after the loop of the monitor, of which `fails` could not be restarted.
  abbrev Revived : (fails : ℕ) → Bool → List Thread → Type 0
  Revived zero b us = (b ≡ true) × All IsRunning us
  Revived (suc fails) b us = b ≡ false

  Revived-cons :
      (fails : ℕ) (b : Bool) (us : List Thread) (t : Thread)
      → IsRunning t
      → Revived fails b us
      → Revived fails b (t ∷ us)
  Revived-cons zero b us t running (ok, hs) = (ok, (running, hs))
  Revived-cons (suc fails) b us t running h = h

  revive_from_lem :
      (i : ℕ) (ts : List Thread)
      → All IsStarted ts
      → (fails : ℕ) × (us : List Thread) × (revive_from k outcome i ts ≡ some (fails, us))
        × (length us ≡ length ts)
        × Revived fails (all_revive outcome i (terms ts)) us
  unfolding revive_from
  revive_from_lem i [] hs = (0, [], refl, refl, (refl, tt))
  revive_from_lem i (t ∷ ts) hs =
      let (fails, us, next, long, ends) = revive_from_lem (suc i) ts hs.1 in
      elim (Bool-cases t.term) [
        | inl dead ↦
            let t' = (start_thread (outcome i) (stop_thread t)).1 in
            elim (start_lem (outcome i) (stop_thread t) (stop_stops t) (created i)) [
              | inl (o, e, running) ↦ (
                fails,
                t' ∷ us,
                simp dead (rw e (rw next refl)),
                ap suc long,
                simp (dead, ap can_start o)
                    (Revived-cons fails (all_revive outcome (suc i) (terms ts)) us t' running ends),
              )
              | inr (o, e, stopped) ↦ (
                suc fails,
                t' ∷ us,
                simp dead (rw e (rw next refl)),
                ap suc long,
                simp (dead, ap can_start o) refl,
              )
            ]
        | inr alive ↦ (
          fails,
          t ∷ us,
          simp alive (rw next refl),
          ap suc long,
          simp alive (
              Revived-cons fails (all_revive outcome (suc i) (terms ts)) us t
                (record { started = hs.0; going_on = alive }) ends),
        )
      ]

  -- On a pool that is started, whose threads are all started, some of which may have thrown since, and where
  -- the system has threads to give: `monitor_pool` returns, true if and only if every thread that had
  -- thrown can be set up again; it has as many threads as before, and its flag is what it returns. With
  -- true all of them run, with false all are stopped and cleaned up.
  pub monitor_pool_lem :
      (p : Pool)
      → p.start_flag ≡ true
      → All IsStarted p.threads
      → let b = all_revive outcome 0 (terms p.threads) in
        (ts : List Thread) × (monitor_pool k outcome p
          ≡ some (b, record { threads = ts; start_flag = b }))
        × (length ts ≡ length p.threads)
        × Ends b ts
  unfolding monitor_pool stop_pool
  monitor_pool_lem p flag hs =
      let (fails, us, run, long, ends) = revive_from_lem 0 p.threads hs in
      after fails us run long ends
    where
      after :
          (fails : ℕ) (us : List Thread)
          → revive_from k outcome 0 p.threads ≡ some (fails, us)
          → length us ≡ length p.threads
          → Revived fails (all_revive outcome 0 (terms p.threads)) us
          → let b = all_revive outcome 0 (terms p.threads) in
            (ts : List Thread) × (monitor_pool k outcome p
              ≡ some (b, record { threads = ts; start_flag = b }))
            × (length ts ≡ length p.threads)
            × Ends b ts
      after zero us run long (all_ok, running) =
          (us, simp flag (rw run (rw all_ok refl)), long, rw all_ok running)
      after (suc fails) us run long failed = (
        map stop_thread us,
        simp flag (
            rw run (
              let some_failed : ltb 0 (suc fails) ≡ true = ground arith in
              rw (failed, some_failed) refl)),
        length-map stop_thread us ∙ long,
        rw failed (All-stop k us),
      )
