-- ===== src/SharedBuffer/Spsc/View.antt =====
-- The blocks between two places of a ring.
use universal_system_program.Prelude.{
  ℕ, zero, suc, ◌+◌, ◌%◌, ◌<◌, ◌≡◌, ◌≢◌, refl, ap, ap₂, ◌∙◌, List, [], ◌∷◌, ◌++◌, length, arith,
}
use universal_system_program.SharedBuffer.Mpmc.{Block, update}
use universal_system_program.SharedBuffer.Mpmc.Start.{mod_near}

abbrev pub view : (ℕ → Block) → (size start n : ℕ) → List Block
view f size start zero = []
view f size start (suc n) = f (start % size) ∷ view f size (suc start) n

pub length-view : (f : ℕ → Block) (size start n : ℕ) → length (view f size start n) ≡ n
length-view f size start zero = refl
length-view f size start (suc n) = ap suc (length-view f size (suc start) n)

-- The block behind the last.
pub view_last :
    (f : ℕ → Block) (size start n : ℕ)
    → view f size start (suc n) ≡ view f size start n ++ (f ((start + n) % size) ∷ [])
view_last f size start zero =
    let e : start ≡ start + 0 = omega arith in ap (λ m. f (m % size) ∷ []) e
view_last f size start (suc n) =
    let e : suc start + n ≡ start + suc n = omega arith in
    ap (λ bs. f (start % size) ∷ bs)
      (view_last f size (suc start) n
        ∙ ap (λ m. view f size (suc start) n ++ (f (m % size) ∷ [])) e)

-- A block is written where no block of the queue is.
pub view-update :
    (f : ℕ → Block) (size start n place : ℕ) (b : Block)
    → ((j : ℕ) → j < n → (start + j) % size ≢ place)
    → view (update f place b) size start n ≡ view f size start n
view-update f size start zero place b apart = refl
view-update f size start (suc n) place b apart =
    let e : start + 0 ≡ start = omega arith in
    let first : (start % size) ≢ place =
      λ same. apart 0 (omega arith) (ap (λ m. m % size) e ∙ same) in
    ap₂ (λ x xs. x ∷ xs) (ground (arith, first))
      (view-update f size (suc start) n place b (λ j lt e.
        apart (suc j) (omega arith)
          (let same : start + suc j ≡ suc start + j = omega arith in ap (λ m. m % size) same ∙ e)))

pub places_apart :
    (size start i j : ℕ) → i < j → j < i + size → (start + i) % size ≢ (start + j) % size
places_apart size start i j lt near same =
    absurd (omega (arith, mod_near size (start + i) (start + j) same (omega arith) (omega arith)))
