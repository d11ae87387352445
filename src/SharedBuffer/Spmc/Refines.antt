-- ===== src/SharedBuffer/Spmc/Refines.antt =====
-- A run with one producer is a run of the queue for many producers.
use universal_system_program.Prelude.{
  ℕ, zero, suc, ◌^◌, ◌≤◌, ◌≡◌, inl, inr, refl, ap, ap₂, sym, ◌∙◌, Bool, true, false, ◌&&◌, List, [],
  ◌∷◌, length, ◌==◌, map, get_elem?, set, some, arith, Option-cases, Bool-cases, replicate, ==_iff,
  ◌<◌,
}
use universal_system_program.Locks.Threads
use universal_system_program.SharedBuffer.Mpmc
use universal_system_program.SharedBuffer.Mpmc.{
  Queue, Block, index, update, add64, is_behind, compare_read, swap_head, Choice, enqueue, dequeue,
  go, fail, may_swap, Point, idle, load_write_seq, act,
}
use universal_system_program.SharedBuffer.Mpmc.Invariant.{IsGood}
use universal_system_program.SharedBuffer.Mpmc.Start.{fresh-IsGood, round_up-small}
use universal_system_program.SharedBuffer.Mpmc.Keep.{if-cases}
use universal_system_program.SharedBuffer.Mpmc.Safe.{Delivers, after-Delivers}
use universal_system_program.SharedBuffer.Mpmc.Simulates
use universal_system_program.SharedBuffer.Mpmc.Simulates.{
  Steps, no_step, one_step, get_elem?-map, set-map, tail_seq,
}
use universal_system_program.SharedBuffer.Spmc.{
  Writer, resting, loads_tail, checks_seq, writes_block, fills_slot, stores_tail, Reader, outside,
  loads_head, loads_seq, claims, reads_block, frees_slot, compare_claim, swap_claim, write_step,
  read_step, World, write_at, read_at, step, use_queue, writer_point, reader_point, next_tail,
  as_mpmc,
}

-- What a consumer does to the queue does not depend on the tail.
abbrev Matches : ℕ → Queue × Reader → Queue × Point → Type 0
Matches n r r' = (r'.0 ≡ (record (r.0) { tail = n })) × (r'.1 ≡ reader_point r.1)

abbrev reader_choice : Choice → Choice
reader_choice (enqueue b) = go
reader_choice c = c

behind_test : (seq n : ℕ) → n < 2 ^ 64 → is_behind seq n ≡ true → (seq == n) ≡ false
behind_test seq n small late = ground arith

compare_point : (len h seq : ℕ) → compare_read len h seq ≡ reader_point (compare_claim len h seq)
compare_point len h seq = elim (Bool-cases (is_behind seq (add64 h 1))) [
  | inl late ↦ rw (late, behind_test seq (add64 h 1) (omega arith) late) refl
  | inr ahead ↦ elim (Bool-cases (seq == add64 h 1)) [
    | inl same ↦ rw (ahead, same) refl
    | inr ne ↦ rw (ahead, ne) refl
  ]
]

swap_claim-Matches :
    (ok : Bool) (len h n : ℕ) (q : Queue)
    → Matches n (swap_claim ok len h q) (swap_head ok len h (record q { tail = n }))
swap_claim-Matches false len h n q = (refl, refl)
swap_claim-Matches true len h n q = elim (Bool-cases (q.head == h)) [
  | inl won ↦ rw won (refl, refl)
  | inr lost ↦ rw lost (refl, refl)
]

same_swap : (c : Choice) → may_swap (reader_choice c) ≡ may_swap c
same_swap (enqueue b) = refl
same_swap (dequeue len) = refl
same_swap go = refl
same_swap fail = refl

read_step-Matches :
    (c : Choice) (n : ℕ) (q : Queue) (p : Reader)
    → Matches n (read_step c q p) (act (reader_choice c) (record q { tail = n }) (reader_point p))
read_step-Matches (enqueue b) n q outside = (refl, refl)
read_step-Matches (dequeue len) n q outside = (refl, refl)
read_step-Matches go n q outside = (refl, refl)
read_step-Matches fail n q outside = (refl, refl)
read_step-Matches c n q (loads_head len) = (refl, refl)
read_step-Matches c n q (loads_seq len h) = (refl, compare_point len h (q.seq (index q h)))
read_step-Matches c n q (claims len h) =
    rw (same_swap c) (swap_claim-Matches (may_swap c) len h n q)
read_step-Matches c n q (reads_block len h) = (refl, refl)
read_step-Matches c n q (frees_slot len h out) = (refl, refl)

-- The ticket that the producer holds is that of `tail_`.
abbrev pub Holds : ℕ → Writer → Type 0
Holds tail (checks_seq b t) = t ≡ tail
Holds tail _ = Unit {0}

abbrev pub IsSound : World → Type 0
IsSound = Simulates.IsSound step as_mpmc (λ (w : World). Holds w.0.tail w.1)

late_test : (seq t : ℕ) → t ≤ 2 ^ 62 → seq ≤ t → (seq == t) ≡ false → is_behind seq t ≡ true
late_test seq t small le ne = ground arith

check_step :
    (q : Queue) (ts : List Reader) (b : Block) (t : ℕ)
    → IsGood q (load_write_seq b t ∷ map reader_point ts)
    → t ≡ q.tail
    → (c : Choice)
    → Steps (as_mpmc (q, checks_seq b t, ts)) (as_mpmc (write_at c (q, checks_seq b t, ts)))
unfolding Threads.run
check_step q ts b t good now c =
    let low = tail_seq q _ t good (sym now) in
    elim (Bool-cases (q.seq (index q t) == t)) [
      | inl same ↦ ((0, go) ∷ (0, go) ∷ [], omega arith, rw (same, (==_iff _ _).1 (sym now)) refl)
      | inr ne ↦
          let late = late_test (q.seq (index q t)) t (omega (arith, good.narrow)) low ne in
          ((0, go) ∷ [], omega arith, rw (ne, late) refl)
    ]

write-Steps :
    (c : Choice) (q : Queue) (w : Writer) (ts : List Reader)
    → IsSound (q, w, ts)
    → Steps (as_mpmc (q, w, ts)) (as_mpmc (write_at c (q, w, ts)))
write-Steps (enqueue b) q resting ts sound = one_step 0 (enqueue b) _ _ refl
write-Steps (dequeue len) q resting ts sound = no_step refl
write-Steps go q resting ts sound = no_step refl
write-Steps fail q resting ts sound = no_step refl
write-Steps c q (loads_tail b) ts sound = one_step 0 c _ _ refl
write-Steps c q (checks_seq b t) ts (good, now) = check_step q ts b t good now c
write-Steps c q (writes_block b t) ts sound = one_step 0 c _ _ refl
write-Steps c q (fills_slot b t) ts sound = one_step 0 c _ _ refl
write-Steps c q (stores_tail t) ts sound = no_step refl

read_step_tail : (c : Choice) (q : Queue) (p : Reader) → (read_step c q p).0.tail ≡ q.tail
read_step_tail c q outside = refl
read_step_tail c q (loads_head len) = refl
read_step_tail c q (loads_seq len h) = refl
read_step_tail c q (claims len h) =
    if-cases (λ (v : Queue × Reader). v.0.tail ≡ q.tail) (may_swap c && (q.head == h)) _ _
      (λ won. refl) (λ lost. refl)
read_step_tail c q (reads_block len h) = refl
read_step_tail c q (frees_slot len h out) = refl

read-Steps :
    (i : ℕ) (c : Choice) (q : Queue) (w : Writer) (ts : List Reader)
    → Steps (as_mpmc (q, w, ts)) (as_mpmc (read_at i c (q, w, ts)))
read-Steps i c q w ts = elim (Option-cases (get_elem? ts i)) [
  | inl nobody ↦ rw nobody (no_step refl)
  | inr (p, at) ↦
      let (same_queue, same_point) = read_step-Matches c (next_tail q.tail w) q p in
      let tail = read_step_tail c q p in
      rw at (
        one_step (suc i) (reader_choice c) _ _ (
          rw (get_elem?-map reader_point ts i p at) (
            ap₂ (λ v zs. (v, writer_point w ∷ zs))
              (same_queue
                ∙ ap (λ n. record ((read_step c q p).0) { tail = next_tail n w }) (sym tail))
              (ap (set (map reader_point ts) i) same_point
                ∙ set-map reader_point ts i (read_step c q p).1))))
]

-- What the producer holds, it goes on to hold.
write-Holds :
    (c : Choice) (q : Queue) (w : Writer) → Holds (write_step c q w).0.tail (write_step c q w).1
write-Holds (enqueue b) q resting = tt
write-Holds (dequeue len) q resting = tt
write-Holds go q resting = tt
write-Holds fail q resting = tt
write-Holds c q (loads_tail b) = refl
write-Holds c q (checks_seq b t) =
    if-cases (λ (v : Queue × Writer). Holds v.0.tail v.1) (q.seq (index q t) == t) _ _ (λ same. tt)
      (λ ne. tt)
write-Holds c q (writes_block b t) = tt
write-Holds c q (fills_slot b t) = tt
write-Holds c q (stores_tail t) = tt

read-Holds :
    (i : ℕ) (c : Choice) (q : Queue) (w : Writer) (ts : List Reader)
    → Holds q.tail w
    → Holds (read_at i c (q, w, ts)).0.tail w
read-Holds i c q w ts now = elim (Option-cases (get_elem? ts i)) [
  | inl nobody ↦ rw nobody now
  | inr (p, at) ↦ rw (at, read_step_tail c q p) now
]

step-Steps : (i : ℕ) (c : Choice) (w : World) → IsSound w → Steps (as_mpmc w) (as_mpmc (step i c w))
step-Steps zero c (q, w, ts) sound = write-Steps c q w ts sound
step-Steps (suc i) c (q, w, ts) sound = read-Steps i c q w ts

step-Holds : (i : ℕ) (c : Choice) (w : World) → IsSound w → Holds (step i c w).0.tail (step i c w).1
step-Holds zero c (q, w, ts) sound = write-Holds c q w
step-Holds (suc i) c (q, w, ts) (good, now) = read-Holds i c q w ts now

outside-points : (n : ℕ) → map reader_point (replicate n outside) ≡ replicate n idle
outside-points zero = refl
outside-points (suc n) = ap (λ zs. idle ∷ zs) (outside-points n)

start-IsSound :
    (k consumers : ℕ)
    → 1 ≤ k
    → k ≤ 62
    → IsSound (Mpmc.fresh (2 ^ k), resting, replicate consumers outside)
start-IsSound k consumers one small =
    (rw (outside-points consumers) (fresh-IsGood k (suc consumers) one small), tt)

-- For a queue of at most 2 ^ 62 slots that is made with 64 rounds of fuel or more, one producer and any
-- number of consumers, after any interleaving of at most 2 ^ 61 atomic steps: the queue was made, and
-- it is in the state that a queue for many producers reaches from its constructor by some schedule
-- of its own steps, where the producer's ticket counts as claimed from when its slot was seen free; so
-- every block received is the block sent under its ticket, every ticket taken is received or being read
-- exactly once, and at most a ring of blocks is not yet taken.
pub one_producer-Refines :
    (fuel size consumers : ℕ) (schedule : Threads.Schedule Choice)
    → 64 ≤ fuel
    → size ≤ 2 ^ 62
    → length schedule ≤ 2 ^ 61
    → (w : World) × (use_queue fuel size consumers schedule ≡ some w)
      × (s : Threads.Schedule Choice) × (length s ≤ 2 ^ 62)
      × (Mpmc.use_queue fuel size (suc consumers) s ≡ some (as_mpmc w))
      × Delivers (as_mpmc w).0 (as_mpmc w).1
one_producer-Refines fuel size consumers schedule enough small short =
    let (k, one, k_62, e) = round_up-small fuel size enough small in
    let w : World = (Mpmc.fresh (2 ^ k), resting, replicate consumers outside) in
    let points = outside-points consumers in
    let (s, long, same) =
      Simulates.run-Steps step as_mpmc (λ (v : World). Holds v.0.tail v.1) step-Steps step-Holds
        schedule w (start-IsSound k consumers one k_62) (omega (arith, short)) in
    let made : Mpmc.use_queue fuel size (suc consumers) s
        ≡ some (as_mpmc (Threads.run_steps step schedule w)) =
      rw e (
        ap some
          (ap (λ ts. Threads.run act s (Mpmc.fresh (2 ^ k), idle ∷ ts)) (sym points) ∙ same)) in
    let few : length s ≤ 2 ^ 62 = omega (arith, long) in
    (
      Threads.run_steps step schedule w,
      rw e refl,
      s,
      few,
      made,
      after-Delivers fuel size (suc consumers) s (as_mpmc (Threads.run_steps step schedule w))
          enough small few made,
    )
