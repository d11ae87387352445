-- ===== src/SharedBuffer/Mpmc/Simulates.antt =====
-- What is needed to show that the runs of another queue are runs of this one.
use universal_system_program.Prelude.{
  ℕ, zero, suc, ◌+◌, ◌-◌, ◌*◌, ◌^◌, ◌≤◌, ◌≡◌, refl, ap, sym, ◌∙◌, subst, List, [], ◌∷◌, length,
  length-append, ◌++◌, map, get_elem?, set, some, arith, of_some, dec_lt,
}
use universal_system_program.Locks.Threads
use universal_system_program.SharedBuffer.Mpmc.{Queue, index, Choice, Point, act}
use universal_system_program.SharedBuffer.Mpmc.Invariant.{
  IsGood, SlotOf, written, full, being_read, free,
}
use universal_system_program.SharedBuffer.Mpmc.Slots.{tail_bound}
use universal_system_program.SharedBuffer.Mpmc.Keep.{IsKept, act-IsKept}
use universal_system_program.SharedBuffer.Mpmc.Start.{sent_count-run}

-- Threads whose points stand for points of another program.
pub get_elem?-map :
    {A B : Type 0} (f : A → B) (xs : List A) (i : ℕ) (x : A)
    → get_elem? xs i ≡ some x
    → get_elem? (map f xs) i ≡ some (f x)
get_elem?-map f [] i x e = cc
get_elem?-map f (y ∷ xs) zero x e = ap (λ z. some (f z)) (of_some e)
get_elem?-map f (y ∷ xs) (suc i) x e = get_elem?-map f xs i x e

pub set-map :
    {A B : Type 0} (f : A → B) (xs : List A) (i : ℕ) (x : A)
    → set (map f xs) i (f x) ≡ map f (set xs i x)
set-map f [] i x = refl
set-map f (y ∷ xs) zero x = refl
set-map f (y ∷ xs) (suc i) x = ap (λ zs. f y ∷ zs) (set-map f xs i x)

-- At the consumer's ticket, the slot's number is behind or says that the slot is full.
head_slot :
    (q : Queue) (ts : List Point) (h v : ℕ)
    → IsGood q ts
    → q.head ≡ h
    → v + q.size ≡ h
    → SlotOf q ts v
    → q.seq (index q v) ≤ h
head_slot q ts h v good now round (written s w r o) = omega arith
head_slot q ts h v good now round (full s w r o d) = omega (arith, good.wide)
head_slot q ts h v good now round (being_read s w r o d) = omega (arith, good.wide)
head_slot q ts h v good now round (free s w r o) = omega arith

own_slot :
    (q : Queue) (ts : List Point) (h : ℕ) → q.head ≡ h → SlotOf q ts h → q.seq (index q h) ≤ h + 1
own_slot q ts h now (written s w r o) = omega arith
own_slot q ts h now (full s w r o d) = omega arith
own_slot q ts h now (being_read s w r o d) = absurd (omega arith)
own_slot q ts h now (free s w r o) = absurd (omega arith)

pub head_seq :
    (q : Queue) (ts : List Point) (h : ℕ) → IsGood q ts → q.head ≡ h → q.seq (index q h) ≤ h + 1
head_seq q ts h good now = elim (dec_lt h q.tail) [
  | yes below ↦ own_slot q ts h now (good.current h below (omega (arith, tail_bound q ts good)))
  | no ge ↦ elim (dec_lt h q.size) [
    | yes small ↦ omega (arith, good.unused h (omega arith) small)
    | no wide ↦
        let v = h - q.size in
        let round : v + q.size ≡ h = omega arith in
        let same : index q h ≡ index q v = ap (index q) (sym round) ∙ good.around v in
        omega (
          arith,
          ap q.seq same,
          head_slot q ts h v good now round
              (good.current v (omega (arith, good.order, good.wide)) (omega (arith, good.order))),
        )
  ]
]

-- At the producer's ticket, the slot's number is behind or says that the slot is free.
older_slot :
    (q : Queue) (ts : List Point) (t u : ℕ)
    → IsGood q ts
    → u + q.size ≡ t
    → SlotOf q ts u
    → q.seq (index q u) ≤ t
older_slot q ts t u good round (written s w r o) = omega arith
older_slot q ts t u good round (full s w r o d) = omega (arith, good.wide)
older_slot q ts t u good round (being_read s w r o d) = omega (arith, good.wide)
older_slot q ts t u good round (free s w r o) = omega arith

pub tail_seq :
    (q : Queue) (ts : List Point) (t : ℕ) → IsGood q ts → q.tail ≡ t → q.seq (index q t) ≤ t
tail_seq q ts t good now = elim (dec_lt t q.size) [
  | yes small ↦ omega (arith, good.unused t (omega arith) small)
  | no wide ↦
      let u = t - q.size in
      let round : u + q.size ≡ t = omega arith in
      let same : index q t ≡ index q u = ap (index q) (sym round) ∙ good.around u in
      omega (
        arith,
        ap q.seq same,
        older_slot q ts t u good round (good.current u (omega (arith, good.wide)) (omega arith)),
      )
]

-- Some two or fewer steps of this queue.
abbrev pub Steps : Queue × List Point → Queue × List Point → Type 0
Steps v v' = (s : Threads.Schedule Choice) × (length s ≤ 2) × (Threads.run act s v ≡ v')

pub no_step : {v v' : Queue × List Point} → v ≡ v' → Steps v v'
unfolding Threads.run
no_step e = ([], omega arith, e)

pub one_step :
    (i : ℕ) (c : Choice) (v v' : Queue × List Point) → Threads.step act i c v ≡ v' → Steps v v'
unfolding Threads.run
one_step i c v v' e = ((i, c) ∷ [], omega arith, e)

-- Runs of the queue, one after the other.
run-++ :
    (s s' : Threads.Schedule Choice) (v : Queue × List Point)
    → Threads.run act (s ++ s') v ≡ Threads.run act s' (Threads.run act s v)
unfolding Threads.run
run-++ [] s' v = refl
run-++ ((i, c) ∷ s) s' v = run-++ s s' (Threads.step act i c v)

-- The queue stays good for as long as little is sent.
run-IsGood :
    (s : Threads.Schedule Choice) (v : Queue × List Point)
    → IsGood v.0 v.1
    → v.0.sent_count + length s ≤ 2 ^ 62
    → (let v' = Threads.run act s v in
        IsGood v'.0 v'.1 × (v'.0.sent_count ≤ v.0.sent_count + length s))
run-IsGood s (q, ts) good few =
    let bound = sent_count-run s q ts in
    (
      Threads.run_keeps act IsKept (λ q ts i c p. act-IsKept q ts i c p) s (q, ts) (λ h. good)
          (omega (arith, bound)),
      bound,
    )

-- A program each of whose steps is at most two steps of the queue, while its own invariant holds.
module _ {W : Type 0} (step : ℕ → Choice → W → W) (as_mpmc : W → Queue × List Point)
    (Holds : W → Type 0) where
  abbrev pub IsSound : W → Type 0
  IsSound w = (let v = as_mpmc w in IsGood v.0 v.1) × Holds w

  module _
      (simulates : (i : ℕ) (c : Choice) (w : W)
        → IsSound w
        → Steps (as_mpmc w) (as_mpmc (step i c w)))
      (holds : (i : ℕ) (c : Choice) (w : W) → IsSound w → Holds (step i c w)) where
    pub step-IsSound :
        (i : ℕ) (c : Choice) (w : W)
        → IsSound w
        → (rest : ℕ) → (as_mpmc w).0.sent_count + 2 * suc rest ≤ 2 ^ 62
        → IsSound (step i c w) × ((as_mpmc (step i c w)).0.sent_count + 2 * rest ≤ 2 ^ 62)
    step-IsSound i c w (good, now) rest few =
        let (s, short, e) = simulates i c w (good, now) in
        let (good', bound) = run-IsGood s (as_mpmc w) good (omega (arith, short)) in
        (
          (subst (λ (v : Queue × List Point). IsGood v.0 v.1) e good', holds i c w (good, now)),
          omega (arith, ap (λ (v : Queue × List Point). v.0.sent_count) e, bound, short),
        )

    pub run-Steps :
        (schedule : Threads.Schedule Choice) (w : W)
        → IsSound w
        → (as_mpmc w).0.sent_count + 2 * length schedule ≤ 2 ^ 62
        → (s : Threads.Schedule Choice) × (length s ≤ 2 * length schedule)
          × (Threads.run act s (as_mpmc w) ≡ as_mpmc (Threads.run_steps step schedule w))
    unfolding Threads.run Threads.run_steps
    run-Steps [] w sound few = ([], omega arith, refl)
    run-Steps ((i, c) ∷ rest) w sound few =
        let (s, short, e) = simulates i c w sound in
        let (sound', few') = step-IsSound i c w sound (length rest) few in
        let (s', short', e') = run-Steps rest (step i c w) sound' few' in
        (
          s ++ s',
          omega (arith, length-append s s', short, short'),
          run-++ s s' (as_mpmc w) ∙ ap (Threads.run act s') e ∙ e',
        )
