-- ===== src/SharedBuffer/Spsc/Fifo.antt =====
-- What a buffer between a producer and a consumer promises: a bounded queue of blocks.
use universal_system_program.Prelude.{ℕ, ◌<◌, ◌≡◌, List, [], ◌∷◌, ◌++◌, length, take}

-- What a call did: it pushed a block, or found the queue full; it took a block, of which it returns a
-- part, or found the queue empty.
pub data Event : Type 0 where
  pushed : List ℕ → Event
  rejected : Event
  popped : (len : ℕ) → (out : List ℕ) → Event
  found_empty : Event

-- The queue holds `xs` before and `ys` after.
abbrev pub Does : (capacity : ℕ) → List (List ℕ) → Event → List (List ℕ) → Type 0
Does capacity xs (pushed b) ys = (length xs < capacity) × (ys ≡ xs ++ (b ∷ []))
Does capacity xs rejected ys = (length xs ≡ capacity) × (ys ≡ xs)
Does capacity xs (popped len out) ys = (b : List ℕ) × (xs ≡ b ∷ ys) × (out ≡ take len b)
Does capacity xs found_empty ys = (xs ≡ []) × (ys ≡ [])

-- A log, the last event first, leads from the empty queue to `ys`.
abbrev pub Explains : (capacity : ℕ) → List Event → List (List ℕ) → Type 0
Explains capacity [] ys = ys ≡ []
Explains capacity (e ∷ log) ys =
    (xs : List (List ℕ)) × Explains capacity log xs × Does capacity xs e ys
