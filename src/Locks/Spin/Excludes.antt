-- ===== src/Locks/Spin/Excludes.antt =====
-- What every schedule of lock and unlock calls keeps true of a `SpinLock`.
use universal_system_program.Prelude.{
  ℕ, zero, suc, ◌+◌, ◌≤◌, ◌≡◌, ◌≢◌, refl, Bool, true, false, if◌then◌else◌, List, get_elem?, set,
  some, arith,
}
use universal_system_program.Locks.Threads.{
  Schedule, run, run_keeps, count, count-set, count_ge, count_two,
}
use universal_system_program.Locks.Spin.{
  Point, idle, want_lock, want_try, holder, lock_once, try_lock, act, start,
}

abbrev pub holds : Point → ℕ
holds holder = 1
holds _ = 0

-- The flag says that one thread holds the lock.
abbrev pub IsExact : Bool × List Point → Type 0
IsExact (flag, ts) = count holds ts ≡ (if flag then 1 else 0)

step_lem :
    (choice flag : Bool) (p : Point) (n n' : ℕ)
    → n ≡ (if flag then 1 else 0)
    → holds p ≤ n
    → n' + holds p ≡ n + holds (act choice flag p).1
    → n' ≡ (if (act choice flag p).0 then 1 else 0)
step_lem true flag idle n n' h le e = omega (arith, h, e)
step_lem false flag idle n n' h le e = omega (arith, h, e)
step_lem choice true want_lock n n' h le e = omega arith
step_lem choice false want_lock n n' h le e = omega arith
step_lem choice true want_try n n' h le e = omega arith
step_lem choice false want_try n n' h le e = omega arith
step_lem choice true holder n n' h le e = omega arith
step_lem choice false holder n n' h le e = omega arith

keep :
    (flag : Bool) (ts : List Point) (i : ℕ) (choice : Bool) (p : Point)
    → get_elem? ts i ≡ some p
    → IsExact (flag, ts)
    → IsExact ((act choice flag p).0, set ts i (act choice flag p).1)
keep flag ts i choice p e h =
    step_lem choice flag p _ _ h (count_ge holds ts i p e) (count-set holds ts i p _ e)

start-IsExact : (threads : ℕ) → IsExact (start threads)
start-IsExact zero = refl
start-IsExact (suc n) = omega (arith, start-IsExact n)

pub run-IsExact :
    (threads : ℕ) (schedule : Schedule Bool) → IsExact (run act schedule (start threads))
run-IsExact n schedule = run_keeps act IsExact keep schedule (start n) (start-IsExact n)

is_set : (flag : Bool) (n : ℕ) → n ≡ (if flag then 1 else 0) → 1 ≤ n → (n ≡ 1) × (flag ≡ true)
is_set true n h some_hold = (h, refl)
is_set false n h some_hold = absurd (omega arith)

-- For any number of threads, after any sequence of atomic steps of `lock`, `try_lock` and `unlock`:
-- where one thread holds the `SpinLock`, no other does; `lock` goes on waiting and `try_lock` fails.
pub spin_lock-Excludes :
    (threads : ℕ) (schedule : Schedule Bool) (i j : ℕ) (q : Point)
    → get_elem? (run act schedule (start threads)).1 i ≡ some holder
    → get_elem? (run act schedule (start threads)).1 j ≡ some q
    → i ≢ j
    → (holds q ≡ 0)
      × ((lock_once (run act schedule (start threads)).0).1 ≡ want_lock)
      × ((try_lock (run act schedule (start threads)).0).1 ≡ idle)
spin_lock-Excludes n schedule i j q e f ne =
    let w = run act schedule (start n) in
    let (one, flag) =
      is_set w.0 (count holds w.1) (run-IsExact n schedule) (count_ge holds w.1 i holder e) in
    (omega (arith, one, count_two holds w.1 i j holder q e f ne), rw flag refl, rw flag refl)
