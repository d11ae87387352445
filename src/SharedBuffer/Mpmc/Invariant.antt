-- ===== src/SharedBuffer/Mpmc/Invariant.antt =====
-- What every interleaving keeps true of an `MPMCLockFreeBuffer`.
use universal_system_program.Prelude.{
  ℕ, ◌+◌, ◌^◌, ◌≤◌, ◌<◌, ◌≡◌, List, [], ◌∷◌, if◌then◌else◌, ◌==◌, ltb, take, get_elem?, some,
}
use universal_system_program.Locks.Threads.{count}
use universal_system_program.SharedBuffer.Mpmc.{
  Queue, Block, index, Point, load_write_seq, claim_tail, write, publish_write, load_read_seq,
  claim_head, read, publish_read,
}

-- Whether a thread has the slot of ticket `u` to write, or to read.
abbrev pub writes : ℕ → Point → ℕ
writes u (write b t) = if t == u then 1 else 0
writes u (publish_write b t) = if t == u then 1 else 0
writes u _ = 0

abbrev pub reads : ℕ → Point → ℕ
reads u (read len h) = if h == u then 1 else 0
reads u (publish_read len h out) = if h == u then 1 else 0
reads u _ = 0

-- The slot of a ticket that was claimed, and whose slot was not claimed again since.
pub data SlotIs (head size u seq w r : ℕ) (block sent : Block) : Type 0 where
  written : seq ≡ u → w ≡ 1 → r ≡ 0 → head ≤ u → SlotIs head size u seq w r block sent
  full :
      seq ≡ u + 1 → w ≡ 0 → r ≡ 0 → head ≤ u → block ≡ sent → SlotIs head size u seq w r block sent
  being_read :
      seq ≡ u + 1 → w ≡ 0 → r ≡ 1 → u < head → block ≡ sent → SlotIs head size u seq w r block sent
  free : seq ≡ u + size → w ≡ 0 → r ≡ 0 → u < head → SlotIs head size u seq w r block sent

-- What a thread knows of the queue at its point.
abbrev pub Knows : Queue → Point → Type 0
Knows q (load_write_seq b t) = t ≤ q.tail
Knows q (claim_tail b t) = (t ≤ q.tail) × (q.tail ≡ t → q.seq (index q t) ≡ t)
Knows q (write b t) = q.sent t ≡ b
Knows q (publish_write b t) = (q.sent t ≡ b) × (q.block (index q t) ≡ b)
Knows q (load_read_seq len h) = h ≤ q.head
Knows q (claim_head len h) =
    (h ≤ q.head) × (q.head ≡ h → (h < q.tail) × (q.seq (index q h) ≡ h + 1))
Knows q (publish_read len h out) = out ≡ take len (q.sent h)
Knows q _ = Unit {0}

abbrev pub AllSent : Queue → List (ℕ × ℕ × Block) → Type 0
AllSent q [] = Unit {0}
AllSent q ((h, len, out) ∷ rest) = ((h < q.head) × (out ≡ take len (q.sent h))) × AllSent q rest

-- How often a ticket was received.
abbrev pub times : ℕ → List (ℕ × ℕ × Block) → ℕ
times u [] = 0
times u ((h, len, out) ∷ rest) = (if h == u then 1 else 0) + times u rest

abbrev pub Current : Queue → ℕ → Type 0
Current q u = (u < q.tail) × (q.tail ≤ u + q.size)

abbrev pub SlotOf : Queue → List Point → ℕ → Type 0
SlotOf q ts u =
    SlotIs q.head q.size u (q.seq (index q u)) (count (writes u) ts) (count (reads u) ts)
      (q.block (index q u)) (q.sent u)

pub record IsGood (q : Queue) (ts : List Point) : Type 0 where
  pub wide : 2 ≤ q.size
  pub short : q.size ≤ 2 ^ 62
  -- Slots are reused after `size` tickets, and not before.
  pub near : (t u : ℕ) → index q t ≡ index q u → t ≤ u → u < t + q.size → t ≡ u
  pub around : (t : ℕ) → index q (t + q.size) ≡ index q t
  pub counted : q.sent_count ≡ q.tail
  pub narrow : q.tail ≤ 2 ^ 62
  pub order : q.head ≤ q.tail
  pub current : (u : ℕ) → u < q.tail → q.tail ≤ u + q.size → SlotOf q ts u
  pub unused : (u : ℕ) → q.tail ≤ u → u < q.size → q.seq (index q u) ≡ u
  pub future : (u : ℕ) → q.tail ≤ u → (count (writes u) ts ≡ 0) × (count (reads u) ts ≡ 0)
  pub past :
      (u : ℕ)
      → u + q.size < q.tail
      → (count (writes u) ts ≡ 0) × (count (reads u) ts ≡ 0) × (u < q.head)
  pub knows : (i : ℕ) (p : Point) → get_elem? ts i ≡ some p → Knows q p
  pub received : AllSent q q.received
  pub once : (u : ℕ) → times u q.received + count (reads u) ts ≡ (if ltb u q.head then 1 else 0)
