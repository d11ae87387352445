-- ===== src/RingBuffer/Queue.antt =====
-- What a ring buffer promises: a FIFO of at most `cap` byte blocks, oldest first.
use universal_system_program.Prelude.{
  ℕ, List, [], ◌∷◌, ◌++◌, length, take, ℤ, pos, minus_one, ◌==◌, if◌then◌else◌, min, length,
}

abbrev pub Block : Type 0
Block = List ℕ

abbrev pub Queue : Type 0
Queue = List Block

-- A client's call: the bytes handed over with the length stated for them, or the room for the
-- bytes taken out.
pub data Op : Type 0 where
  push_infinite : Block → ℕ → Op
  push_finite : Block → ℕ → Op
  pop : ℕ → Op

-- The number returned, and the bytes written through `out`.
abbrev pub Reply : Type 0
Reply = ℤ × Block

-- What is kept of a block: at most 65535 bytes.
abbrev pub kept : ℕ → ℕ
kept len = min len 65535

abbrev pub drop_oldest : Queue → Queue
drop_oldest [] = []
drop_oldest (x ∷ q) = q

module _ (cap : ℕ) where
  unfoldable pub step : Queue → Op → Reply × Queue
  step q (push_infinite bytes len) =
      let q' = if length q == cap then drop_oldest q else q in
      ((pos (kept len), []), q' ++ (take (kept len) bytes ∷ []))
  step q (push_finite bytes len) =
      if length q == cap
      then ((minus_one, []), q)
      else ((pos (kept len), []), q ++ (take (kept len) bytes ∷ []))
  step [] (pop len) = ((pos 0, []), [])
  step (x ∷ q) (pop len) = let n = min len (length x) in ((pos n, take n x), q)

  unfoldable pub run : Queue → List Op → List Reply
  run q [] = []
  run q (op ∷ ops) = let (reply, q') = step q op in reply ∷ run q' ops
