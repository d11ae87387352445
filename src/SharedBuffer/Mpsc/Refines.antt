-- ===== src/SharedBuffer/Mpsc/Refines.antt =====
-- A run with one consumer is a run of the queue for many consumers.
use universal_system_program.Prelude.{
  ℕ, zero, suc, ◌+◌, ◌*◌, ◌^◌, ◌≤◌, ◌≡◌, inl, inr, refl, ap, ap₂, sym, ◌∙◌, ◌&&◌, List, [], ◌∷◌,
  length, ◌==◌, map, get_elem?, set, some, arith, Option-cases, Bool-cases, replicate, ==_iff,
}
use universal_system_program.Locks.Threads
use universal_system_program.SharedBuffer.Mpmc
use universal_system_program.SharedBuffer.Mpmc.{
  Queue, Block, index, add64, is_behind, Choice, enqueue, dequeue, go, fail, may_swap, Point, idle,
  load_read_seq, claim_head, read, act,
}
use universal_system_program.SharedBuffer.Mpmc.Invariant.{IsGood}
use universal_system_program.SharedBuffer.Mpmc.Start.{fresh-IsGood, round_up-small}
use universal_system_program.SharedBuffer.Mpmc.Keep.{if-cases}
use universal_system_program.SharedBuffer.Mpmc.Safe.{Delivers, after-Delivers}
use universal_system_program.SharedBuffer.Mpmc.Simulates
use universal_system_program.SharedBuffer.Mpmc.Simulates.{
  Steps, no_step, one_step, get_elem?-map, set-map, head_seq,
}
use universal_system_program.SharedBuffer.Mpsc.{
  Writer, resting, loads_tail, loads_seq, claims, writes_block, fills_slot, Reader, outside,
  loads_head, checks_seq, reads_block, frees_slot, stores_head, write_step, read_step, World,
  read_at, write_at, step, use_queue, as_mpmc, writer_point, reader_point, next_head,
}
use universal_system_program.SharedBuffer.Mpsc.Simulation.{
  writer_choice, write_step-Matches, full_test, late_test,
}

-- The ticket that the consumer holds is that of `head_`.
abbrev pub Holds : ℕ → Reader → Type 0
Holds head (checks_seq len h) = h ≡ head
Holds head (reads_block len h) = (h ≡ head) × (h ≤ 2 ^ 62)
Holds head (frees_slot len h out) = (h ≡ head) × (h ≤ 2 ^ 62)
Holds head (stores_head h) = (h ≡ head) × (h ≤ 2 ^ 62)
Holds head _ = Unit {0}

check_step :
    (q : Queue) (ts : List Writer) (len h : ℕ)
    → IsGood q (load_read_seq len h ∷ map writer_point ts)
    → h ≡ q.head
    → (c : Choice)
    → Steps (as_mpmc (q, checks_seq len h, ts)) (as_mpmc (read_at c (q, checks_seq len h, ts)))
unfolding Threads.run
check_step q ts len h good now c =
    let small : h ≤ 2 ^ 62 = omega (arith, good.order, good.narrow) in
    let low = head_seq q _ h good (sym now) in
    elim (Bool-cases (is_behind (q.seq (index q h)) (add64 h 1))) [
      | inl late ↦ (
        (0, go) ∷ [],
        omega arith,
        rw (late, late_test (q.seq (index q h)) h small low late) refl,
      )
      | inr ahead ↦
          let is_full = full_test (q.seq (index q h)) h small low ahead in
          (
            (0, go) ∷ (0, go) ∷ [],
            omega arith,
            rw (ahead, (==_iff _ _).1 is_full, (==_iff _ _).1 (sym now)) refl,
          )
    ]

read-Steps :
    (c : Choice) (q : Queue) (r : Reader) (ts : List Writer)
    → (let v = as_mpmc (q, r, ts) in IsGood v.0 v.1)
    → Holds q.head r
    → Steps (as_mpmc (q, r, ts)) (as_mpmc (read_at c (q, r, ts)))
read-Steps (dequeue len) q outside ts good now = one_step 0 (dequeue len) _ _ refl
read-Steps (enqueue b) q outside ts good now = no_step refl
read-Steps go q outside ts good now = no_step refl
read-Steps fail q outside ts good now = no_step refl
read-Steps c q (loads_head len) ts good now = one_step 0 c _ _ refl
read-Steps c q (checks_seq len h) ts good now = check_step q ts len h good now c
read-Steps c q (reads_block len h) ts good now = one_step 0 c _ _ refl
read-Steps c q (frees_slot len h out) ts good now = one_step 0 c _ _ refl
read-Steps c q (stores_head h) ts good now = no_step refl

write_step_head : (c : Choice) (q : Queue) (p : Writer) → (write_step c q p).0.head ≡ q.head
write_step_head c q resting = refl
write_step_head c q (loads_tail b) = refl
write_step_head c q (loads_seq b t) = refl
write_step_head c q (claims b t) =
    if-cases (λ (v : Queue × Writer). v.0.head ≡ q.head) (may_swap c && (q.tail == t)) _ _
      (λ won. refl) (λ lost. refl)
write_step_head c q (writes_block b t) = refl
write_step_head c q (fills_slot b t) = refl

write-Steps :
    (i : ℕ) (c : Choice) (q : Queue) (r : Reader) (ts : List Writer)
    → Steps (as_mpmc (q, r, ts)) (as_mpmc (write_at i c (q, r, ts)))
write-Steps i c q r ts = elim (Option-cases (get_elem? ts i)) [
  | inl nobody ↦ rw nobody (no_step refl)
  | inr (p, at) ↦
      let (same_queue, same_point) = write_step-Matches c (next_head q.head r) q p in
      let head = write_step_head c q p in
      rw at (
        one_step (suc i) (writer_choice c) _ _ (
          rw (get_elem?-map writer_point ts i p at) (
            ap₂ (λ v zs. (v, reader_point r ∷ zs))
              (same_queue
                ∙ ap (λ n. record ((write_step c q p).0) { head = next_head n r }) (sym head))
              (ap (set (map writer_point ts) i) same_point
                ∙ set-map writer_point ts i (write_step c q p).1))))
]

-- What the consumer holds, it goes on to hold.
read-Holds :
    (c : Choice) (q : Queue) (r : Reader)
    → Holds q.head r
    → next_head q.head r ≤ 2 ^ 62
    → Holds (read_step c q r).0.head (read_step c q r).1
read-Holds (dequeue len) q outside now small = tt
read-Holds (enqueue b) q outside now small = tt
read-Holds go q outside now small = tt
read-Holds fail q outside now small = tt
read-Holds c q (loads_head len) now small = refl
read-Holds c q (checks_seq len h) now small =
    if-cases (Holds q.head) (is_behind (q.seq (index q h)) (add64 h 1)) _ _ (λ late. tt)
      (λ ahead. (now, omega arith))
read-Holds c q (reads_block len h) now small = now
read-Holds c q (frees_slot len h out) now small = now
read-Holds c q (stores_head h) now small = tt

write-Holds :
    (i : ℕ) (c : Choice) (q : Queue) (r : Reader) (ts : List Writer)
    → Holds q.head r
    → Holds (write_at i c (q, r, ts)).0.head r
write-Holds i c q r ts now = elim (Option-cases (get_elem? ts i)) [
  | inl nobody ↦ rw nobody now
  | inr (p, at) ↦ rw (at, write_step_head c q p) now
]

abbrev pub IsSound : World → Type 0
IsSound = Simulates.IsSound step as_mpmc (λ (w : World). Holds w.0.head w.1)

step-Steps : (i : ℕ) (c : Choice) (w : World) → IsSound w → Steps (as_mpmc w) (as_mpmc (step i c w))
step-Steps zero c (q, r, ts) (good, now) = read-Steps c q r ts good now
step-Steps (suc i) c (q, r, ts) (good, now) = write-Steps i c q r ts

step-Holds : (i : ℕ) (c : Choice) (w : World) → IsSound w → Holds (step i c w).0.head (step i c w).1
step-Holds zero c (q, r, ts) (good, now) =
    read-Holds c q r now (omega (arith, good.order, good.narrow))
step-Holds (suc i) c (q, r, ts) (good, now) = write-Holds i c q r ts now

pub step-IsSound :
    (i : ℕ) (c : Choice) (w : World)
    → IsSound w
    → (rest : ℕ) → (as_mpmc w).0.sent_count + 2 * suc rest ≤ 2 ^ 62
    → IsSound (step i c w) × ((as_mpmc (step i c w)).0.sent_count + 2 * rest ≤ 2 ^ 62)
step-IsSound =
    Simulates.step-IsSound step as_mpmc (λ (w : World). Holds w.0.head w.1) step-Steps step-Holds

resting-points : (n : ℕ) → map writer_point (replicate n resting) ≡ replicate n idle
resting-points zero = refl
resting-points (suc n) = ap (λ zs. idle ∷ zs) (resting-points n)

pub start-IsSound :
    (k producers : ℕ)
    → 1 ≤ k
    → k ≤ 62
    → IsSound (Mpmc.fresh (2 ^ k), outside, replicate producers resting)
start-IsSound k producers one small =
    (rw (resting-points producers) (fresh-IsGood k (suc producers) one small), tt)

-- For a queue of at most 2 ^ 62 slots that is made with 64 rounds of fuel or more, one consumer and any
-- number of producers, after any interleaving of at most 2 ^ 61 atomic steps: the queue was made, and
-- it is in the state that a queue for many consumers reaches from its constructor by some schedule
-- of its own steps, where the consumer's ticket counts as claimed from when its slot was seen full; so
-- every block received is the block sent under its ticket, every ticket taken is received or being read
-- exactly once, and at most a ring of blocks is not yet taken.
pub one_consumer-Refines :
    (fuel size producers : ℕ) (schedule : Threads.Schedule Choice)
    → 64 ≤ fuel
    → size ≤ 2 ^ 62
    → length schedule ≤ 2 ^ 61
    → (w : World) × (use_queue fuel size producers schedule ≡ some w)
      × (s : Threads.Schedule Choice) × (length s ≤ 2 ^ 62)
      × (Mpmc.use_queue fuel size (suc producers) s ≡ some (as_mpmc w))
      × Delivers (as_mpmc w).0 (as_mpmc w).1
one_consumer-Refines fuel size producers schedule enough small short =
    let (k, one, k_62, e) = round_up-small fuel size enough small in
    let w : World = (Mpmc.fresh (2 ^ k), outside, replicate producers resting) in
    let points = resting-points producers in
    let (s, long, same) =
      Simulates.run-Steps step as_mpmc (λ (v : World). Holds v.0.head v.1) step-Steps step-Holds
        schedule w (start-IsSound k producers one k_62) (omega (arith, short)) in
    let made : Mpmc.use_queue fuel size (suc producers) s
        ≡ some (as_mpmc (Threads.run_steps step schedule w)) =
      rw e (
        ap some
          (ap (λ ts. Threads.run act s (Mpmc.fresh (2 ^ k), idle ∷ ts)) (sym points) ∙ same)) in
    let few : length s ≤ 2 ^ 62 = omega (arith, long) in
    (
      Threads.run_steps step schedule w,
      rw e refl,
      s,
      few,
      made,
      after-Delivers fuel size (suc producers) s (as_mpmc (Threads.run_steps step schedule w))
          enough small few made,
    )
