-- ===== src/SharedBuffer/Spsc/Refines.antt =====
-- The buffer is a bounded queue, whose calls take effect one at a time.
use native.Mathlib.Nat.{mod-eq_of_lt}
use universal_system_program.Prelude.{
  ℕ, zero, suc, ◌+◌, ◌-◌, ◌%◌, ◌^◌, ◌≤◌, ◌<◌, ◌≡◌, ◌≢◌, refl, ap, sym, ◌∙◌, subst, false, List, [],
  ◌∷◌, ◌++◌, length, ◌==◌, take, arith, inl, inr, Bool-cases, some, ==_iff,
}
use universal_system_program.Capacity.Powers.{pow_le_pow}
use universal_system_program.Capacity.Rounding.{round_up-least}
use universal_system_program.Locks.Threads.{Schedule, run_steps}
use universal_system_program.SharedBuffer.Mpmc.{Block, update, Choice, enqueue, dequeue, go, fail}
use universal_system_program.SharedBuffer.Mpmc.Keep.{if-cases}
use universal_system_program.SharedBuffer.Spsc.{
  Buffer, next_index, Producer, resting, loads_head, loads_tail, writes_block, stores_head,
  Consumer, outside, reads_tail, reads_head, reads_block, stores_tail, World, step, fresh,
  use_queue, noted,
}
use universal_system_program.SharedBuffer.Spsc.Fifo.{
  Explains, rejected, pushed, popped, found_empty,
}
use universal_system_program.SharedBuffer.Spsc.View.{view, length-view, view_last, view-update}
use universal_system_program.SharedBuffer.Spsc.Invariant.{
  ReaderKnows-later, WriterKnows-later, WriterKnows, ReaderKnows, Holds, IsSound, next_head,
  next_tail, full_of_next, next_of_full, empty_of_same, same_of_empty, write_apart,
}

test_false : (a b : ℕ) → a ≡ b → (a == b) ≢ false
test_false a b same e = absurd (ground arith)

module _ (q : Buffer) (start n : ℕ) (h : Holds q start n) where
  not_full : (suc n ≢ q.size) → suc n < q.size
  not_full ne = omega (arith, h.room)

  -- The producer.
  check_full-IsSound :
      (b : Block) (head : ℕ) (r : Consumer) (c : Choice)
      → head ≡ q.head
      → ReaderKnows q n r
      → IsSound (step 0 c (q, loads_tail b head, r))
  check_full-IsSound b head r c now knows = elim (Bool-cases (next_index q head == q.tail)) [
    | inl same ↦
        let full = full_of_next q start n h (ap (next_index q) (sym now) ∙ (==_iff _ _).0 same) in
        rw same (
          start,
          n,
          record {
            width = h.width;
            sized = h.sized;
            narrow = h.narrow;
            wide = h.wide;
            at_tail = h.at_tail;
            at_head = h.at_head;
            room = h.room;
            explained = (
              view q.block q.size start n,
              h.explained,
              (length-view q.block q.size start n ∙ omega (arith, full), refl),
            );
          },
          tt,
          ReaderKnows-later q (noted rejected q) n n r refl (omega arith) (λ some_block. refl)
              knows,
        )
    | inr free ↦ rw free (
      start,
      n,
      h,
      (
        now,
        not_full (λ full.
            test_false (next_index q head) q.tail
              (ap (next_index q) now ∙ next_of_full q start n h full) free),
      ),
      knows,
    )
  ]

  write_block-IsSound :
      (b : Block) (head : ℕ) (r : Consumer) (c : Choice)
      → head ≡ q.head
      → suc n < q.size
      → ReaderKnows q n r
      → IsSound (step 0 c (q, writes_block b head, r))
  write_block-IsSound b head r c now room knows =
      let same =
        view-update q.block q.size start n head b
          (λ j lt e. write_apart q start n h j lt (e ∙ now)) in
      (
        start,
        n,
        record {
          width = h.width;
          sized = h.sized;
          narrow = h.narrow;
          wide = h.wide;
          at_tail = h.at_tail;
          at_head = h.at_head;
          room = h.room;
          explained = subst (Explains (q.size - 1) q.log) (sym same) h.explained;
        },
        (now, room, ground arith),
        ReaderKnows-later q (record q { block = update q.block head b }) n n r refl (omega arith)
            (λ some_block.
              let apart : q.tail ≢ head = λ e. omega (arith, empty_of_same q start n h (e ∙ now)) in
              ground (arith, apart))
            knows,
      )

  store_head-IsSound :
      (b : Block) (head : ℕ) (r : Consumer) (c : Choice)
      → head ≡ q.head
      → suc n < q.size
      → q.block head ≡ b
      → ReaderKnows q n r
      → IsSound (step 0 c (q, stores_head b head, r))
  store_head-IsSound b head r c now room written knows = (
    start,
    suc n,
    record {
      width = h.width;
      sized = h.sized;
      narrow = h.narrow;
      wide = h.wide;
      at_tail = h.at_tail;
      at_head = ap (next_index q) now ∙ next_head q start n h;
      room = room;
      explained = (
        view q.block q.size start n,
        h.explained,
        (
          omega (arith, length-view q.block q.size start n),
          view_last q.block q.size start n
              ∙ ap (λ x. view q.block q.size start n ++ (x ∷ []))
                  (ap q.block (sym h.at_head ∙ sym now) ∙ written),
        ),
      );
    },
    tt,
    ReaderKnows-later q (noted (pushed b) (record q { head = next_index q head })) n (suc n) r refl
        (omega arith) (λ some_block. refl) knows,
  )

  -- The consumer.
  check_empty-IsSound :
      (len tail : ℕ) (p : Producer) (i : ℕ) (c : Choice)
      → tail ≡ q.tail
      → WriterKnows q n p
      → IsSound (step (suc i) c (q, p, reads_head len tail))
  check_empty-IsSound len tail p i c now knows = elim (Bool-cases (tail == q.head)) [
    | inl same ↦
        let none_left = empty_of_same q start n h (sym now ∙ (==_iff _ _).0 same) in
        let empty : view q.block q.size start n ≡ [] = ap (view q.block q.size start) none_left in
        rw same (
          start,
          n,
          record {
            width = h.width;
            sized = h.sized;
            narrow = h.narrow;
            wide = h.wide;
            at_tail = h.at_tail;
            at_head = h.at_head;
            room = h.room;
            explained = (view q.block q.size start n, h.explained, (empty, empty));
          },
          WriterKnows-later q (noted found_empty q) n n p refl refl refl (omega arith) knows,
          tt,
        )
    | inr some_block ↦ rw some_block (
      start,
      n,
      h,
      knows,
      (
        now,
        not_empty (λ none_left.
            test_false tail q.head (now ∙ same_of_empty q start n h none_left) some_block),
      ),
    )
  ]
    where
      not_empty : n ≢ 0 → 0 < n
      not_empty ne = omega arith

store_tail-IsSound :
    (q : Buffer) (start n len tail : ℕ) (out : Block) (p : Producer) (i : ℕ) (c : Choice)
    → Holds q start n
    → tail ≡ q.tail
    → 0 < n
    → out ≡ take len (q.block tail)
    → WriterKnows q n p
    → IsSound (step (suc i) c (q, p, stores_tail len tail out))
store_tail-IsSound q start zero len tail out p i c h now some_block read knows =
    absurd (omega arith)
store_tail-IsSound q start (suc n) len tail out p i c h now some_block read knows =
    let shift : start + suc n ≡ suc start + n = omega arith in
    (
      suc start,
      n,
      record {
        width = h.width;
        sized = h.sized;
        narrow = h.narrow;
        wide = h.wide;
        at_tail = ap (next_index q) now ∙ next_tail q start (suc n) h;
        at_head = h.at_head ∙ ap (λ m. m % q.size) shift;
        room = omega (arith, h.room);
        explained = (
          view q.block q.size start (suc n),
          h.explained,
          (q.block (start % q.size), refl, read ∙ ap (λ m. take len (q.block m)) (now ∙ h.at_tail)),
        );
      },
      WriterKnows-later q (noted (popped len out) (record q { tail = next_index q tail })) (suc n) n
          p refl refl refl (omega arith) knows,
      tt,
    )

write-IsSound :
    (c : Choice) (q : Buffer) (p : Producer) (r : Consumer)
    → IsSound (q, p, r)
    → IsSound (step 0 c (q, p, r))
write-IsSound (enqueue b) q resting r (start, n, h, w, k) = (start, n, h, tt, k)
write-IsSound (dequeue len) q resting r (start, n, h, w, k) = (start, n, h, tt, k)
write-IsSound go q resting r (start, n, h, w, k) = (start, n, h, tt, k)
write-IsSound fail q resting r (start, n, h, w, k) = (start, n, h, tt, k)
write-IsSound c q (loads_head b) r (start, n, h, w, k) = (start, n, h, refl, k)
write-IsSound c q (loads_tail b head) r (start, n, h, w, k) =
    check_full-IsSound q start n h b head r c w k
write-IsSound c q (writes_block b head) r (start, n, h, w, k) =
    write_block-IsSound q start n h b head r c w.0 w.1 k
write-IsSound c q (stores_head b head) r (start, n, h, w, k) =
    store_head-IsSound q start n h b head r c w.0 w.1 w.2 k

read-IsSound :
    (i : ℕ) (c : Choice) (q : Buffer) (p : Producer) (r : Consumer)
    → IsSound (q, p, r)
    → IsSound (step (suc i) c (q, p, r))
read-IsSound i (enqueue b) q p outside (start, n, h, w, k) = (start, n, h, w, tt)
read-IsSound i (dequeue len) q p outside (start, n, h, w, k) = (start, n, h, w, tt)
read-IsSound i go q p outside (start, n, h, w, k) = (start, n, h, w, tt)
read-IsSound i fail q p outside (start, n, h, w, k) = (start, n, h, w, tt)
read-IsSound i c q p (reads_tail len) (start, n, h, w, k) = (start, n, h, w, refl)
read-IsSound i c q p (reads_head len tail) (start, n, h, w, k) =
    check_empty-IsSound q start n h len tail p i c k w
read-IsSound i c q p (reads_block len tail) (start, n, h, w, k) = (start, n, h, w, (k.0, k.1, refl))
read-IsSound i c q p (stores_tail len tail out) (start, n, h, w, k) =
    store_tail-IsSound q start n len tail out p i c h k.0 k.1 k.2 w

run-IsSound :
    (schedule : Schedule Choice) (w : World) → IsSound w → IsSound (run_steps step schedule w)
unfolding run_steps
run-IsSound [] w sound = sound
run-IsSound ((zero, c) ∷ rest) (q, p, r) sound =
    run-IsSound rest (step 0 c (q, p, r)) (write-IsSound c q p r sound)
run-IsSound ((suc i, c) ∷ rest) (q, p, r) sound =
    run-IsSound rest (step (suc i) c (q, p, r)) (read-IsSound i c q p r sound)

-- No step changes the size.
size-step : (i : ℕ) (c : Choice) (w : World) → (step i c w).0.size ≡ w.0.size
size-step zero c (q, resting, r) = refl
size-step zero c (q, loads_head b, r) = refl
size-step zero c (q, loads_tail b head, r) =
    if-cases (λ (v : Buffer × Producer). v.0.size ≡ q.size) (next_index q head == q.tail) _ _
      (λ same. refl) (λ free. refl)
size-step zero c (q, writes_block b head, r) = refl
size-step zero c (q, stores_head b head, r) = refl
size-step (suc i) c (q, p, outside) = refl
size-step (suc i) c (q, p, reads_tail len) = refl
size-step (suc i) c (q, p, reads_head len tail) =
    if-cases (λ (v : Buffer × Consumer). v.0.size ≡ q.size) (tail == q.head) _ _ (λ same. refl)
      (λ some_block. refl)
size-step (suc i) c (q, p, reads_block len tail) = refl
size-step (suc i) c (q, p, stores_tail len tail out) = refl

size-run : (schedule : Schedule Choice) (w : World) → (run_steps step schedule w).0.size ≡ w.0.size
unfolding run_steps
size-run [] w = refl
size-run ((i, c) ∷ rest) w = size-run rest (step i c w) ∙ size-step i c w

fresh-IsSound : (k : ℕ) → 1 ≤ k → k ≤ 63 → IsSound (fresh (2 ^ k), resting, outside)
fresh-IsSound k one narrow =
    let wide : 2 ≤ 2 ^ k = omega (arith, pow_le_pow 1 k one) in
    let at_zero : 0 ≡ 0 % 2 ^ k = sym (mod-eq_of_lt (omega arith)) in
    (
      0,
      0,
      record {
        width = k;
        sized = refl;
        narrow = narrow;
        wide = wide;
        at_tail = at_zero;
        at_head = at_zero;
        room = omega arith;
        explained = refl;
      },
      tt,
      tt,
    )

-- For a requested size of at most 2 ^ 63 and 64 rounds of fuel or more, one producer and one consumer, after
-- any interleaving of any number of atomic steps: the buffer was made, and its calls, each at one of its
-- own steps, did what calls of a queue do that holds at most `size_` - 1 blocks: `enqueue` appended its
-- block where there was room and returned -1 only where the queue was full, `dequeue` took the
-- first block and returned as much of it as was asked for, or -1 only where the queue was empty; and the
-- queue holds less than `size_` blocks then.
pub use_queue-Explains :
    (fuel size : ℕ) (schedule : Schedule Choice)
    → 64 ≤ fuel
    → size ≤ 2 ^ 63
    → (w : World) × (use_queue fuel size schedule ≡ some w)
      × (size ≤ w.0.size)
      × (blocks : List Block) × Explains (w.0.size - 1) w.0.log blocks
      × (length blocks < w.0.size)
use_queue-Explains fuel size schedule enough small =
    let (k, e, one, narrow, above, least) = round_up-least fuel size enough small in
    let w : World = (fresh (2 ^ k), resting, outside) in
    let (start, n, h, _, _) = run-IsSound schedule w (fresh-IsSound k one narrow) in
    let v = run_steps step schedule w in
    let kept = size-run schedule w in
    (
      v,
      rw e refl,
      omega (arith, kept),
      view v.0.block v.0.size start n,
      h.explained,
      omega (arith, length-view v.0.block v.0.size start n, h.room),
    )
