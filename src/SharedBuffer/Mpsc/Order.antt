-- ===== src/SharedBuffer/Mpsc/Order.antt =====
-- The one consumer receives the blocks in the order of their tickets.
use universal_system_program.Prelude.{
  ℕ, zero, suc, ◌+◌, ◌*◌, ◌^◌, ◌≤◌, ◌≡◌, inl, inr, refl, ap, sym, ◌∙◌, subst, List, [], ◌∷◌, length,
  get_elem?, some, arith, Option-cases, ◌&&◌, ◌==◌, of_some, replicate,
}
use universal_system_program.Locks.Threads
use universal_system_program.SharedBuffer.Mpmc
use universal_system_program.SharedBuffer.Mpmc.{
  Queue, Block, add64, is_behind, index, Choice, enqueue, dequeue, go, fail, may_swap, Point,
}
use universal_system_program.SharedBuffer.Mpmc.Invariant.{AllSent}
use universal_system_program.SharedBuffer.Mpmc.Keep.{if-cases}
use universal_system_program.SharedBuffer.Mpmc.Start.{round_up-small}
use universal_system_program.SharedBuffer.Mpsc.{
  Writer, resting, loads_tail, loads_seq, claims, writes_block, fills_slot, Reader, outside,
  loads_head, checks_seq, reads_block, frees_slot, stores_head, write_step, read_step, World, step,
  use_queue, as_mpmc,
}
use universal_system_program.SharedBuffer.Mpsc.Refines.{IsSound, step-IsSound, start-IsSound}

abbrev pub tickets : List (ℕ × ℕ × Block) → List ℕ
tickets [] = []
tickets ((h, len, out) ∷ rest) = h ∷ tickets rest

-- The numbers below `n`, the last first.
abbrev pub countdown : ℕ → List ℕ
countdown zero = []
countdown (suc n) = n ∷ countdown n

-- How many tickets are received, where `head_` is `n`.
abbrev pub received_count : ℕ → Reader → ℕ
received_count n (stores_head h) = suc h
received_count n _ = n

abbrev IsOrdered : Queue → Reader → Type 0
IsOrdered q r = tickets q.received ≡ countdown (received_count q.head r)

read-IsOrdered :
    (c : Choice) (q : Queue) (r : Reader) (ts : List Writer)
    → IsSound (q, r, ts)
    → IsOrdered q r
    → IsOrdered (read_step c q r).0 (read_step c q r).1
read-IsOrdered (dequeue len) q outside ts sound order = order
read-IsOrdered (enqueue b) q outside ts sound order = order
read-IsOrdered go q outside ts sound order = order
read-IsOrdered fail q outside ts sound order = order
read-IsOrdered c q (loads_head len) ts sound order = order
read-IsOrdered c q (checks_seq len h) ts sound order =
    if-cases (IsOrdered q) (is_behind (q.seq (index q h)) (add64 h 1)) _ _ (λ late. order)
      (λ ahead. order)
read-IsOrdered c q (reads_block len h) ts sound order = order
read-IsOrdered c q (frees_slot len h out) ts (good, now) order =
    ap (λ us. h ∷ us) (order ∙ ap countdown (sym now.0))
read-IsOrdered c q (stores_head h) ts (good, now) order =
    let no_wrap : add64 h 1 ≡ suc h = omega (arith, now.1) in order ∙ ap countdown (sym no_wrap)

write_step_received :
    (c : Choice) (q : Queue) (p : Writer)
    → ((write_step c q p).0.head ≡ q.head) × ((write_step c q p).0.received ≡ q.received)
write_step_received c q resting = (refl, refl)
write_step_received c q (loads_tail b) = (refl, refl)
write_step_received c q (loads_seq b t) = (refl, refl)
write_step_received c q (claims b t) =
    if-cases (λ (v : Queue × Writer). (v.0.head ≡ q.head) × (v.0.received ≡ q.received))
      (may_swap c && (q.tail == t)) _ _ (λ won. (refl, refl)) (λ lost. (refl, refl))
write_step_received c q (writes_block b t) = (refl, refl)
write_step_received c q (fills_slot b t) = (refl, refl)

step-IsOrdered :
    (i : ℕ) (c : Choice) (w : World)
    → IsSound w
    → IsOrdered w.0 w.1
    → IsOrdered (step i c w).0 (step i c w).1
step-IsOrdered zero c (q, r, ts) sound order = read-IsOrdered c q r ts sound order
step-IsOrdered (suc i) c (q, r, ts) sound order = elim (Option-cases (get_elem? ts i)) [
  | inl nobody ↦ rw nobody order
  | inr (p, at) ↦ let (head, received) = write_step_received c q p in rw (at, head, received) order
]

run-IsOrdered :
    (schedule : Threads.Schedule Choice) (w : World)
    → IsSound w
    → (as_mpmc w).0.sent_count + 2 * length schedule ≤ 2 ^ 62
    → IsOrdered w.0 w.1
    → (let w' = Threads.run_steps step schedule w in IsOrdered w'.0 w'.1 × IsSound w')
unfolding Threads.run_steps
run-IsOrdered [] w sound few order = (order, sound)
run-IsOrdered ((i, c) ∷ rest) w sound few order =
    let (sound', few') = step-IsSound i c w sound (length rest) few in
    run-IsOrdered rest (step i c w) sound' few' (step-IsOrdered i c w sound order)

-- For a queue of at most 2 ^ 62 slots that was made with 64 rounds of fuel or more, one consumer and any
-- number of producers, after any interleaving of at most 2 ^ 61 atomic steps: the consumer has
-- received the tickets from 0 up to `head_`, or one more before it stores that, each once and in this
-- order, and each block received is the one that was sent under its ticket, cut to the
-- consumer's length.
pub received-IsOrdered :
    (fuel size producers : ℕ) (schedule : Threads.Schedule Choice) (q : Queue) (r : Reader)
    (ts : List Writer)
    → 64 ≤ fuel
    → size ≤ 2 ^ 62
    → length schedule ≤ 2 ^ 61
    → use_queue fuel size producers schedule ≡ some (q, r, ts)
    → (tickets q.received ≡ countdown (received_count q.head r))
      × AllSent (as_mpmc (q, r, ts)).0 q.received
received-IsOrdered fuel size producers schedule q r ts enough small short made =
    let (k, one, k_62, e) = round_up-small fuel size enough small in
    let w : World = (Mpmc.fresh (2 ^ k), outside, replicate producers resting) in
    let ran : Threads.run_steps step schedule w ≡ (q, r, ts) = of_some (sym (rw e refl) ∙ made) in
    let (order, (good, now)) =
      run-IsOrdered schedule w (start-IsSound k producers one k_62) (omega (arith, short)) refl in
    subst
      (λ (v : World).
        (tickets v.0.received ≡ countdown (received_count v.0.head v.1))
        × AllSent (as_mpmc v).0 v.0.received)
      ran (order, good.received)
