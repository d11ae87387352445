-- ===== src/Locks/ReadWrite/Excludes.antt =====
-- What every schedule of lock and unlock calls keeps true of an `RWSpinLock`.
use universal_system_program.Prelude.{
  ℕ, ◌/◌, ◌%◌, ◌-◌, ◌⊎◌, inl, inr, dec_lt, length-replicate, ◌+◌, ◌*◌, ◌^◌, ◌≤◌, ◌<◌, ◌≡◌, ◌≢◌,
  refl, Bool, true, if◌then◌else◌, ltb, List, get_elem?, set, some, arith,
}
use universal_system_program.Prelude.Bits.{bit_and-pow}
use universal_system_program.Locks.Threads.{
  Schedule, run, run_keeps, count, count-set, count_ge, count_two, count-replicate, count_le,
  length-run,
}
use universal_system_program.Locks.ReadWrite.{
  Point, idle, want_shared, reader, want_lock, waiting, writer, loaded, act, start,
}

abbrev pub reads : Point → ℕ
reads reader = 1
reads _ = 0

-- A thread that waits for the readers has the writer's bit already.
abbrev pub writes : Point → ℕ
writes waiting = 1
writes writer = 1
writes _ = 0

-- A word with the writer's bit is never compared.
abbrev pub stale : Point → ℕ
stale (loaded old) = if ltb old (2 ^ 31) then 0 else 1
stale _ = 0

-- The word is exact: it counts the readers, and the writer's bit says that there is a writer.
pub record IsExact (w : ℕ × List Point) : Type 0 where
  pub exact : w.0 ≡ count reads w.1 + 2 ^ 31 * count writes w.1
  pub bounded : w.0 ≤ 2 ^ 31
  pub fresh : count stale w.1 ≡ 0

-- One step of a thread at `p`, by the numbers of readers, writers and stale words before and after.
abbrev StepIsExact : Bool → Point → Type 0
StepIsExact choice p =
    (s r w l r' w' l' : ℕ)
    → s ≡ r + 2 ^ 31 * w
    → s ≤ 2 ^ 31
    → l ≡ 0
    → reads p ≤ r
    → writes p ≤ w
    → stale p ≤ l
    → r' + reads p ≡ r + reads (act choice s p).1
    → w' + writes p ≡ w + writes (act choice s p).1
    → l' + stale p ≡ l + stale (act choice s p).1
    → ((act choice s p).0 ≡ r' + 2 ^ 31 * w') × ((act choice s p).0 ≤ 2 ^ 31) × (l' ≡ 0)

load_lem : (choice : Bool) → StepIsExact choice want_shared
load_lem choice s r w l r' w' l' exact bounded fresh a b c d e f =
    let top = bit_and-pow 31 s in ground (arith, top)

enter_shared_lem : (choice : Bool) (old : ℕ) → StepIsExact choice (loaded old)
enter_shared_lem choice old s r w l r' w' l' exact bounded fresh a b c d e f = ground arith

enter_lock_lem : (choice : Bool) → StepIsExact choice want_lock
enter_lock_lem choice s r w l r' w' l' exact bounded fresh a b c d e f = ground arith

idle_lem : (choice : Bool) → StepIsExact choice idle
idle_lem choice s r w l r' w' l' exact bounded fresh a b c d e f = ground arith

unlock_shared_lem : (choice : Bool) → StepIsExact choice reader
unlock_shared_lem choice s r w l r' w' l' exact bounded fresh a b c d e f = ground arith

await_readers_lem : (choice : Bool) → StepIsExact choice waiting
await_readers_lem choice s r w l r' w' l' exact bounded fresh a b c d e f = ground arith

unlock_lem : (choice : Bool) → StepIsExact choice writer
unlock_lem choice s r w l r' w' l' exact bounded fresh a b c d e f = ground arith

step_lem : (choice : Bool) (p : Point) → StepIsExact choice p
step_lem choice idle = idle_lem choice
step_lem choice want_shared = load_lem choice
step_lem choice (loaded old) = enter_shared_lem choice old
step_lem choice reader = unlock_shared_lem choice
step_lem choice want_lock = enter_lock_lem choice
step_lem choice waiting = await_readers_lem choice
step_lem choice writer = unlock_lem choice

keep :
    (s : ℕ) (ts : List Point) (i : ℕ) (choice : Bool) (p : Point)
    → get_elem? ts i ≡ some p
    → IsExact (s, ts)
    → IsExact ((act choice s p).0, set ts i (act choice s p).1)
keep s ts i choice p e h =
    let (exact, bounded, fresh) =
      step_lem choice p s _ _ _ _ _ _ h.exact h.bounded h.fresh (count_ge reads ts i p e)
        (count_ge writes ts i p e) (count_ge stale ts i p e) (count-set reads ts i p _ e)
        (count-set writes ts i p _ e) (count-set stale ts i p _ e) in
    record { exact = exact; bounded = bounded; fresh = fresh }

pub start-IsExact : (threads : ℕ) → IsExact (start threads)
start-IsExact n = record {
  exact = omega (arith, count-replicate reads n idle refl, count-replicate writes n idle refl);
  bounded = omega arith;
  fresh = count-replicate stale n idle refl;
}

pub run-IsExact :
    (threads : ℕ) (schedule : Schedule Bool) → IsExact (run act schedule (start threads))
run-IsExact n schedule = run_keeps act IsExact keep schedule (start n) (start-IsExact n)

module _ (w : ℕ × List Point) (h : IsExact w) (i : ℕ) (p : Point) (e : get_elem? w.1 i ≡ some p)
    (holds : 0 < writes p) where
  no_readers : count reads w.1 ≡ 0
  no_readers = omega (arith, h.exact, h.bounded, count_ge writes w.1 i p e)

  one_writer : count writes w.1 ≡ 1
  one_writer = omega (arith, h.exact, h.bounded, count_ge writes w.1 i p e)

  word : w.0 ≡ 2 ^ 31
  word = omega (arith, h.exact, no_readers, one_writer)

  others : (j : ℕ) (q : Point) → get_elem? w.1 j ≡ some q → i ≢ j → (reads q ≡ 0) × (writes q ≡ 0)
  others j q f ne = (
    omega (arith, no_readers, count_ge reads w.1 j q f),
    omega (arith, one_writer, count_two writes w.1 i j p q e f ne),
  )

-- For any number of threads, after any sequence of atomic steps of `lock_shared`, `unlock_shared`,
-- `lock` and `unlock`, with compare-and-swaps that may fail: where one thread has the writer's bit of
-- the `RWSpinLock`, another neither has it nor holds the lock as a reader, and the second loop of
-- `lock` ends at once.
pub rw_lock-Excludes :
    (threads : ℕ) (schedule : Schedule Bool) (i j : ℕ) (p q : Point)
    → get_elem? (run act schedule (start threads)).1 i ≡ some p
    → get_elem? (run act schedule (start threads)).1 j ≡ some q
    → i ≢ j
    → 0 < writes p
    → (reads q ≡ 0)
      × (writes q ≡ 0)
      × ((act true (run act schedule (start threads)).0 waiting).1 ≡ writer)
rw_lock-Excludes n schedule i j p q e f ne holds =
    let w = run act schedule (start n) in
    let h = run-IsExact n schedule in
    let (no_read, no_write) = others w h i p e holds j q f ne in
    (no_read, no_write, rw (word w h i p e holds) refl)

reads_le : (p : Point) → reads p ≤ 1
reads_le idle = omega arith
reads_le want_shared = omega arith
reads_le reader = omega arith
reads_le want_lock = omega arith
reads_le waiting = omega arith
reads_le writer = omega arith
reads_le (loaded old) = omega arith

-- After any sequence of these steps, with at most 2147483647 threads, which is the number of readers that
-- the counter is for: the top bit of the 32-bit word of the `RWSpinLock` is the number of threads
-- that have it as writers, and the other 31 bits are the number of threads that hold the lock as
-- readers, at most 2147483647; one of both is 0. So the word neither wraps nor drifts, and a full
-- counter is never taken for a writer.
pub rw_lock_exact :
    (threads : ℕ) (schedule : Schedule Bool)
    → threads < 2 ^ 31
    → let w = run act schedule (start threads) in
      (w.0 / 2 ^ 31 ≡ count writes w.1)
      × (w.0 % 2 ^ 31 ≡ count reads w.1)
      × (count reads w.1 ≤ 2 ^ 31 - 1)
      × ((count reads w.1 ≡ 0) ⊎ (count writes w.1 ≡ 0))
rw_lock_exact n schedule few =
    let w = run act schedule (start n) in
    let h = run-IsExact n schedule in
    let all_threads = count_le reads reads_le w.1 in
    let long = length-run act schedule (start n).0 (start n).1 in
    let number = length-replicate n idle in
    (
      omega (arith, h.exact, h.bounded, all_threads, long, number),
      omega (arith, h.exact, h.bounded, all_threads, long, number),
      omega (arith, all_threads, long, number),
      elim (dec_lt 0 (count writes w.1)) [
        | yes some_writer ↦ inl (omega (arith, h.exact, h.bounded))
        | no no_writer ↦ inr (omega arith)
      ],
    )
