-- ===== src/SignalBuffer/Futex/Wakes.antt =====
-- While there is a block in the buffer, some thread is awake that will take it.
use universal_system_program.Prelude.{
  ℕ, zero, suc, ◌+◌, ◌≤◌, ◌≡◌, ◌⊎◌, inl, inr, refl, ap, Bool, true, false, List, [], ◌∷◌, ◌++◌,
  length, if◌then◌else◌, ltb, some, get_elem?, set, replicate, arith, Option-cases, dec_lt,
}
use universal_system_program.Locks.Threads.{Schedule, run_steps, count, count-set, count_ge}
use universal_system_program.SignalBuffer.Futex.{
  Shared, Point, outside, storing, waking, storing_all, waking_all, ready, found_none, waiting,
  asleep, Choice, enqueue_wake, wake_all, wakes, enqueue, dequeue, choose, int_max, Wake, begin,
  take_flag, sleep_at_zero, act, wake, step, start,
}

-- What the threads count for.
abbrev pub stores : Point → ℕ
stores storing = 1
stores storing_all = 1
stores _ = 0

abbrev pub calls_wake : Point → ℕ
calls_wake waking = 1
calls_wake waking_all = 1
calls_wake _ = 0

abbrev pub is_ready : Point → ℕ
is_ready ready = 1
is_ready _ = 0

abbrev pub is_awake : Point → ℕ
is_awake ready = 1
is_awake found_none = 1
is_awake waiting = 1
is_awake _ = 0

abbrev pub is_asleep : Point → ℕ
is_asleep asleep = 1
is_asleep _ = 0

abbrev number : List (List ℕ) → ℕ
number [] = 0
number (b ∷ bs) = 1

abbrev raised : Bool → ℕ
raised true = 1
raised false = 0

-- A block is still announced or seen, and an announcement still wakes somebody or finds him awake.
pub record IsAlert (s : Shared) (ts : List Point) : Type 0 where
  pub some_consumer : 1 ≤ count is_awake ts + count is_asleep ts
  pub announced : number s.blocks ≤ raised s.flag + count stores ts + count is_ready ts
  pub heard : raised s.flag ≤ count calls_wake ts + count is_awake ts

-- Sleepers are woken, one at least where there is one, and nothing else is changed.
abbrev pub Woken : List Point → List Point → Type 0
Woken ts ts' =
    (count stores ts' ≡ count stores ts)
    × (count calls_wake ts' ≡ count calls_wake ts)
    × (count is_ready ts ≤ count is_ready ts')
    × (count is_awake ts' + count is_asleep ts' ≡ count is_awake ts + count is_asleep ts)
    × (count is_awake ts ≤ count is_awake ts')
    × (1 ≤ count is_asleep ts → 1 ≤ count is_awake ts')

-- What the kernel documents: a call that may wake one sleeper or more does so.
abbrev pub IsWake : Wake → Type 0
IsWake futex_wake = (n j : ℕ) (ts : List Point) → 1 ≤ n → Woken ts (futex_wake n j ts)

-- One thread goes from a point to another.
abbrev pub Moves : List Point → Point → Point → List Point → Type 0
Moves ts p p' ts' =
    (count stores ts' + stores p ≡ count stores ts + stores p')
    × (count calls_wake ts' + calls_wake p ≡ count calls_wake ts + calls_wake p')
    × (count is_ready ts' + is_ready p ≡ count is_ready ts + is_ready p')
    × (count is_awake ts' + is_awake p ≡ count is_awake ts + is_awake p')
    × (count is_asleep ts' + is_asleep p ≡ count is_asleep ts + is_asleep p')
    × (is_ready p ≤ count is_ready ts)

pub set-Moves :
    (ts : List Point) (i : ℕ) (p p' : Point) → get_elem? ts i ≡ some p → Moves ts p p' (set ts i p')
set-Moves ts i p p' e = (
  count-set stores ts i p p' e,
  count-set calls_wake ts i p p' e,
  count-set is_ready ts i p p' e,
  count-set is_awake ts i p p' e,
  count-set is_asleep ts i p p' e,
  count_ge is_ready ts i p e,
)

number_le : (bs : List (List ℕ)) → number bs ≤ 1
number_le [] = omega arith
number_le (b ∷ bs) = omega arith

-- A step that leaves flag and blocks to the rest of the proof.
module _ (s : Shared) (ts : List Point) (good : IsAlert s ts) where
  -- A wake-up after the thread has left its point.
  heard_by :
      (p : Point) (ts' ts'' : List Point)
      → Moves ts p outside ts'
      → calls_wake p ≡ 1
      → stores p ≡ 0
      → is_ready p ≡ 0
      → is_awake p ≡ 0
      → is_asleep p ≡ 0
      → Woken ts' ts''
      → IsAlert s ts''
  heard_by p ts' ts'' (a, b, c, d, e, _) p1 p2 p3 p4 p5 (u, v, w, x, y, z) =
      let one_awake : 1 ≤ count is_awake ts'' = elim (dec_lt 0 (count is_asleep ts')) [
        | yes some_asleep ↦ z some_asleep
        | no none_asleep ↦ omega (arith, good.some_consumer)
      ] in
      record {
        some_consumer = omega (arith, good.some_consumer);
        announced = omega (arith, good.announced);
        heard = omega (arith, raised_le s.flag);
      }
    where
      raised_le : (b : Bool) → raised b ≤ 1
      raised_le true = omega arith
      raised_le false = omega arith

  begin-IsAlert :
      (c : Choice) (ts' : List Point)
      → Moves ts outside (begin c s).1 ts'
      → IsAlert (begin c s).0 ts'
  begin-IsAlert (enqueue_wake b) ts' (a1, a2, a3, a4, a5, _) = record {
    some_consumer = omega (arith, good.some_consumer);
    announced = omega (arith, number_le (enqueue b s).blocks);
    heard = same_flag (ltb (length s.blocks) s.capacity) (omega (arith, good.heard));
  }
    where
      same_flag :
          (room : Bool)
          → raised s.flag ≤ count calls_wake ts' + count is_awake ts'
          → raised (if room then record s { blocks = s.blocks ++ (b ∷ []) } else s).flag
            ≤ count calls_wake ts' + count is_awake ts'
      same_flag true h = h
      same_flag false h = h
  begin-IsAlert wake_all ts' (a1, a2, a3, a4, a5, _) = record {
    some_consumer = omega (arith, good.some_consumer);
    announced = omega (arith, good.announced);
    heard = omega (arith, good.heard);
  }
  begin-IsAlert (wakes j) ts' (a1, a2, a3, a4, a5, _) = record {
    some_consumer = omega (arith, good.some_consumer);
    announced = omega (arith, good.announced);
    heard = omega (arith, good.heard);
  }

  store-IsAlert :
      (p p' : Point) (ts' : List Point)
      → Moves ts p p' ts'
      → is_awake p + is_asleep p ≡ is_awake p' + is_asleep p'
      → calls_wake p ≡ 0
      → calls_wake p' ≡ 1
      → IsAlert (record s { flag = true }) ts'
  store-IsAlert p p' ts' (a1, a2, a3, a4, a5, _) same before wakes_next = record {
    some_consumer = omega (arith, good.some_consumer);
    announced = omega (arith, number_le s.blocks);
    heard = omega arith;
  }

  dequeue-IsAlert :
      (bs : List (List ℕ)) (ts' : List Point)
      → s.blocks ≡ bs
      → Moves ts ready (dequeue s bs).1 ts'
      → IsAlert (dequeue s bs).0 ts'
  dequeue-IsAlert [] ts' e (a1, a2, a3, a4, a5, _) = record {
    some_consumer = omega (arith, good.some_consumer);
    announced = omega (arith, ap number e);
    heard = omega (arith, good.heard);
  }
  dequeue-IsAlert (b ∷ rest) ts' e (a1, a2, a3, a4, a5, own) = record {
    some_consumer = omega (arith, good.some_consumer);
    announced = omega (arith, number_le rest);
    heard = omega (arith, good.heard);
  }

  take_flag-IsAlert :
      (b : Bool) (ts' : List Point)
      → s.flag ≡ b
      → Moves ts found_none (take_flag s b).1 ts'
      → IsAlert (take_flag s b).0 ts'
  take_flag-IsAlert true ts' e (a1, a2, a3, a4, a5, _) = record {
    some_consumer = omega (arith, good.some_consumer);
    announced = omega (arith, number_le s.blocks);
    heard = omega arith;
  }
  take_flag-IsAlert false ts' e (a1, a2, a3, a4, a5, _) = record {
    some_consumer = omega (arith, good.some_consumer);
    announced = omega (arith, good.announced);
    heard = omega (arith, good.heard);
  }

  sleep-IsAlert :
      (b : Bool) (ts' : List Point)
      → s.flag ≡ b
      → Moves ts waiting (sleep_at_zero b) ts'
      → IsAlert s ts'
  sleep-IsAlert true ts' e (a1, a2, a3, a4, a5, _) = record {
    some_consumer = omega (arith, good.some_consumer);
    announced = omega (arith, good.announced);
    heard = omega (arith, good.heard);
  }
  sleep-IsAlert false ts' e (a1, a2, a3, a4, a5, _) = record {
    some_consumer = omega (arith, good.some_consumer);
    announced = omega (arith, good.announced);
    heard = omega (arith, ap raised e);
  }

module _ (futex_wake : Wake) (wakes_up : IsWake futex_wake) where
  act-IsAlert :
      (s : Shared) (ts : List Point)
      → IsAlert s ts
      → (i : ℕ) (c : Choice) (p : Point) → get_elem? ts i ≡ some p
      → IsAlert (act c s p).0 (wake futex_wake c p (set ts i (act c s p).1))
  act-IsAlert s ts good i c outside at =
      begin-IsAlert s ts good c _ (set-Moves ts i outside (begin c s).1 at)
  act-IsAlert s ts good i c storing at =
      store-IsAlert s ts good storing waking _ (set-Moves ts i storing waking at) refl refl refl
  act-IsAlert s ts good i c waking at =
      heard_by s ts good waking _ _ (set-Moves ts i waking outside at) refl refl refl refl refl
        (wakes_up 1 (choose c) _ (omega arith))
  act-IsAlert s ts good i c storing_all at =
      store-IsAlert s ts good storing_all waking_all _ (set-Moves ts i storing_all waking_all at)
        refl refl refl
  act-IsAlert s ts good i c waking_all at =
      heard_by s ts good waking_all _ _ (set-Moves ts i waking_all outside at) refl refl refl refl
        refl (wakes_up int_max (choose c) _ (omega arith))
  act-IsAlert s ts good i c ready at =
      dequeue-IsAlert s ts good s.blocks _ refl (set-Moves ts i ready _ at)
  act-IsAlert s ts good i c found_none at =
      take_flag-IsAlert s ts good s.flag _ refl (set-Moves ts i found_none _ at)
  act-IsAlert s ts good i c waiting at =
      sleep-IsAlert s ts good s.flag _ refl (set-Moves ts i waiting _ at)
  act-IsAlert s ts good i c asleep at = still _ (set-Moves ts i asleep asleep at)
    where
      still : (ts' : List Point) → Moves ts asleep asleep ts' → IsAlert s ts'
      still ts' (a1, a2, a3, a4, a5, _) = record {
        some_consumer = omega (arith, good.some_consumer);
        announced = omega (arith, good.announced);
        heard = omega (arith, good.heard);
      }

  run-IsAlert :
      (schedule : Schedule Choice) (s : Shared) (ts : List Point)
      → IsAlert s ts
      → (let w = run_steps (step futex_wake) schedule (s, ts) in IsAlert w.0 w.1)
  unfolding run_steps
  run-IsAlert [] s ts good = good
  run-IsAlert ((i, c) ∷ rest) s ts good = elim (Option-cases (get_elem? ts i)) [
    | inl nobody ↦ rw (nobody, run_steps, step) (run-IsAlert rest s ts good)
    | inr (p, at) ↦
        rw (at, run_steps, step)
          (run-IsAlert rest (act c s p).0 (wake futex_wake c p (set ts i (act c s p).1))
            (act-IsAlert s ts good i c p at))
  ]

ready_awake : (ts : List Point) → count is_ready ts ≤ count is_awake ts
ready_awake [] = omega arith
ready_awake (p ∷ ts) = let rest = ready_awake ts in omega (arith, rest, at p)
  where
    at : (p : Point) → is_ready p ≤ is_awake p
    at outside = omega arith
    at storing = omega arith
    at waking = omega arith
    at storing_all = omega arith
    at waking_all = omega arith
    at ready = omega arith
    at found_none = omega arith
    at waiting = omega arith
    at asleep = omega arith

conclude :
    (s : Shared) (ts : List Point)
    → IsAlert s ts
    → (s.blocks ≡ []) ⊎ (1 ≤ count stores ts + count calls_wake ts + count is_awake ts)
conclude s ts good =
    by_blocks s.blocks
      (omega (arith, good.announced, good.heard, ready_awake ts, number_le s.blocks))
  where
    by_blocks :
        (bs : List (List ℕ))
        → number bs ≤ count stores ts + count calls_wake ts + count is_awake ts
        → (bs ≡ []) ⊎ (1 ≤ count stores ts + count calls_wake ts + count is_awake ts)
    by_blocks [] h = inl refl
    by_blocks (b ∷ bs) h = inr h

consumers_wait : (n : ℕ) → count is_awake (replicate n ready) ≡ n
consumers_wait zero = refl
consumers_wait (suc n) = omega (arith, consumers_wait n)

start-IsAlert :
    (capacity producers consumers : ℕ)
    → 1 ≤ consumers
    → (let w = start capacity producers consumers in IsAlert w.0 w.1)
start-IsAlert capacity zero consumers some_consumer = record {
  some_consumer = omega (arith, consumers_wait consumers);
  announced = omega arith;
  heard = omega arith;
}
start-IsAlert capacity (suc n) consumers some_consumer =
    let before = start-IsAlert capacity n consumers some_consumer in
    record {
      some_consumer = omega (arith, before.some_consumer);
      announced = omega arith;
      heard = omega arith;
    }

-- Where the kernel's FUTEX_WAKE wakes a sleeper if there is one: with at least one consumer and any number of producers, all outside their calls at first, and an empty
-- buffer of any capacity, after any interleaving of atomic steps: while there is a block in the buffer, a producer
-- is still in a call that will wake a consumer, or a consumer is awake.
pub blocks-IsAlert :
    (futex_wake : Wake) (capacity producers consumers : ℕ) (schedule : Schedule Choice)
    → IsWake futex_wake
    → 1 ≤ consumers
    → (let (s, ts) = run_steps (step futex_wake) schedule (start capacity producers consumers) in
        (s.blocks ≡ []) ⊎ (1 ≤ count stores ts + count calls_wake ts + count is_awake ts))
blocks-IsAlert futex_wake capacity producers consumers schedule wakes_up some_consumer =
    let (s, ts) = run_steps (step futex_wake) schedule (start capacity producers consumers) in
    conclude s ts (
      run-IsAlert futex_wake wakes_up schedule _ _
        (start-IsAlert capacity producers consumers some_consumer))
