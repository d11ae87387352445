-- ===== src/SharedBuffer/Spsc/Invariant.antt =====
-- What every interleaving of the two threads keeps true of a `SPSCLockFreeBuffer`.
use native.Mathlib.Nat.{mod-lt, add-mod_right, mod-add-mod}
use universal_system_program.Prelude.{
  ℕ, suc, ◌+◌, ◌-◌, ◌%◌, ◌^◌, ◌≤◌, ◌<◌, ◌≡◌, ◌≢◌, ap, sym, ◌∙◌, take, arith, dec_lt,
}
use universal_system_program.Capacity.Rounding.{mask_index-add_size}
use universal_system_program.SharedBuffer.Mpmc.{Block}
use universal_system_program.SharedBuffer.Mpmc.Start.{mod_near}
use universal_system_program.SharedBuffer.Spsc.{
  Buffer, next_index, Producer, resting, loads_head, loads_tail, writes_block, stores_head,
  Consumer, outside, reads_tail, reads_head, reads_block, stores_tail, World,
}
use universal_system_program.SharedBuffer.Spsc.Fifo.{Explains}
use universal_system_program.SharedBuffer.Spsc.View.{view, places_apart}

-- What the threads know, where `n` blocks are in the queue.
abbrev pub WriterKnows : Buffer → ℕ → Producer → Type 0
WriterKnows q n (loads_tail b head) = head ≡ q.head
WriterKnows q n (writes_block b head) = (head ≡ q.head) × (suc n < q.size)
WriterKnows q n (stores_head b head) = (head ≡ q.head) × (suc n < q.size) × (q.block head ≡ b)
WriterKnows q n _ = Unit {0}

abbrev pub ReaderKnows : Buffer → ℕ → Consumer → Type 0
ReaderKnows q n (reads_head len tail) = tail ≡ q.tail
ReaderKnows q n (reads_block len tail) = (tail ≡ q.tail) × (0 < n)
ReaderKnows q n (stores_tail len tail out) =
    (tail ≡ q.tail) × (0 < n) × (out ≡ take len (q.block tail))
ReaderKnows q n _ = Unit {0}

-- `start` blocks were taken so far, and `n` are in the queue.
pub record Holds (q : Buffer) (start n : ℕ) : Type 0 where
  pub width : ℕ
  pub sized : q.size ≡ 2 ^ width
  pub narrow : width ≤ 63
  pub wide : 2 ≤ q.size
  pub at_tail : q.tail ≡ start % q.size
  pub at_head : q.head ≡ (start + n) % q.size
  pub room : n < q.size
  pub explained : Explains (q.size - 1) q.log (view q.block q.size start n)

abbrev pub IsSound : World → Type 0
IsSound (q, p, r) = (start : ℕ) × (n : ℕ) × Holds q start n × WriterKnows q n p × ReaderKnows q n r

-- What a thread knows outlives a step of the other.
pub ReaderKnows-later :
    (q q' : Buffer) (n n' : ℕ) (r : Consumer)
    → q'.tail ≡ q.tail
    → n ≤ n'
    → (0 < n → q'.block q.tail ≡ q.block q.tail)
    → ReaderKnows q n r
    → ReaderKnows q' n' r
ReaderKnows-later q q' n n' outside tail le same k = tt
ReaderKnows-later q q' n n' (reads_tail len) tail le same k = tt
ReaderKnows-later q q' n n' (reads_head len t) tail le same k = k ∙ sym tail
ReaderKnows-later q q' n n' (reads_block len t) tail le same k =
    (k.0 ∙ sym tail, omega (arith, k.1))
ReaderKnows-later q q' n n' (stores_tail len t out) tail le same k =
    let (now, some_block, read) = k in
    (
      now ∙ sym tail,
      omega arith,
      read ∙ ap (take len) (ap q.block now ∙ sym (same some_block) ∙ ap q'.block (sym now)),
    )

pub WriterKnows-later :
    (q q' : Buffer) (n n' : ℕ) (p : Producer)
    → q'.head ≡ q.head
    → q'.size ≡ q.size
    → q'.block ≡ q.block
    → n' ≤ n
    → WriterKnows q n p
    → WriterKnows q' n' p
WriterKnows-later q q' n n' resting head size block le k = tt
WriterKnows-later q q' n n' (loads_head b) head size block le k = tt
WriterKnows-later q q' n n' (loads_tail b i) head size block le k = k ∙ sym head
WriterKnows-later q q' n n' (writes_block b i) head size block le k =
    (k.0 ∙ sym head, omega (arith, k.1))
WriterKnows-later q q' n n' (stores_head b i) head size block le k =
    (k.0 ∙ sym head, omega (arith, k.1), ap (λ (f : ℕ → Block). f i) block ∙ k.2)

module _ (q : Buffer) (start n : ℕ) (h : Holds q start n) where
  -- The index behind a place.
  pub next_place : (place : ℕ) → next_index q (place % q.size) ≡ (suc place) % q.size
  next_place place =
      let below : place % q.size < q.size = mod-lt place (omega (arith, h.wide)) in
      let e : place + 1 ≡ suc place = omega arith in
      mask_index-add_size (place % q.size) q.size h.width h.sized h.narrow below
      ∙ mod-add-mod place q.size 1
      ∙ ap (λ m. m % q.size) e

  pub next_head : next_index q q.head ≡ (start + suc n) % q.size
  next_head =
      let e : suc (start + n) ≡ start + suc n = omega arith in
      ap (next_index q) h.at_head ∙ next_place (start + n) ∙ ap (λ m. m % q.size) e

  pub next_tail : next_index q q.tail ≡ suc start % q.size
  next_tail = ap (next_index q) h.at_tail ∙ next_place start

  -- The queue is full where the next index is the consumer's, and empty where the indices meet.
  pub full_of_next : next_index q q.head ≡ q.tail → suc n ≡ q.size
  full_of_next e = elim (dec_lt (suc n) q.size) [
    | yes lt ↦ absurd (
        omega (
          arith,
          mod_near q.size start (start + suc n) (sym h.at_tail ∙ sym e ∙ next_head) (omega arith)
              (omega arith),
        ))
    | no ge ↦ omega (arith, h.room)
  ]

  pub next_of_full : suc n ≡ q.size → next_index q q.head ≡ q.tail
  next_of_full e =
      next_head ∙ ap (λ m. (start + m) % q.size) e ∙ add-mod_right start q.size ∙ sym h.at_tail

  pub empty_of_same : q.tail ≡ q.head → n ≡ 0
  empty_of_same e = omega (
    arith,
    mod_near q.size start (start + n) (sym h.at_tail ∙ e ∙ h.at_head) (omega arith)
        (omega (arith, h.room)),
  )

  pub same_of_empty : n ≡ 0 → q.tail ≡ q.head
  same_of_empty e =
      let same : start ≡ start + n = omega arith in
      h.at_tail ∙ ap (λ m. m % q.size) same ∙ sym h.at_head

  -- What the producer writes is behind all blocks of the queue.
  pub write_apart : (j : ℕ) → j < n → (start + j) % q.size ≢ q.head
  write_apart j lt same =
      places_apart q.size start j n lt (omega (arith, h.room)) (same ∙ h.at_head)
