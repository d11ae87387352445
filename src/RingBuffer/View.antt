-- ===== src/RingBuffer/View.antt =====
-- The blocks that stand in consecutive slots, going round the ring.
use native.Mathlib.Nat.{mod-add-mod, mod-eq_of_lt, mod-eq-sub-mod, mod-lt}
use universal_system_program.Prelude.{
  ℕ, zero, suc, ◌+◌, ◌-◌, ◌%◌, ◌≤◌, ◌<◌, ◌≡◌, ◌≢◌, refl, sym, ap, ap₂, ◌∙◌, List, [], ◌∷◌, ◌++◌,
  length, get_or, set, arith, bytes_from, dec_lt, get_or-set_self, get_or-set_ne,
}
use universal_system_program.RingBuffer.{Slot, zero_slot}
use universal_system_program.RingBuffer.Queue.{Block, Queue}

-- The bytes that a slot stands for.
abbrev pub payload : Slot → Block
payload s = bytes_from s.slot 0 s.len

abbrev pub slot_at : List Slot → ℕ → ℕ → Slot
slot_at buf size p = get_or buf (p % size) zero_slot

-- The `n` blocks from position `p` on.
pub view : List Slot → ℕ → ℕ → ℕ → Queue
view buf size p zero = []
view buf size p (suc n) = payload (slot_at buf size p) ∷ view buf size (p + 1) n

pub length-view : (buf : List Slot) (size p n : ℕ) → length (view buf size p n) ≡ n
unfolding view
length-view buf size p zero = refl
length-view buf size p (suc n) = ap suc (length-view buf size (p + 1) n)

-- Positions below one another by less than the size have different slots.
pub add_mod_ne : (size p d : ℕ) → 0 < d → d < size → (p + d) % size ≢ p % size
add_mod_ne size p d pos_d small e = elim (dec_lt (p % size + d) size) [
  | yes h ↦ omega (arith, mod-add-mod p size d, mod-eq_of_lt h)
  | no h ↦ omega (
    arith,
    mod-add-mod p size d,
    mod-eq-sub-mod {n = p % size + d} {m = size} (omega arith),
    mod-eq_of_lt {n = p % size + d - size} {m = size} (omega (arith, mod-lt p {m = size})),
    mod-lt p {m = size},
  )
]

-- Only the position's remainder counts.
pub view_of_mod :
    (buf : List Slot) (size p q n : ℕ) → p % size ≡ q % size → view buf size p n ≡ view buf size q n
unfolding view
view_of_mod buf size p q zero e = refl
view_of_mod buf size p q (suc n) e = ap₂ ◌∷◌ (ap (λ i. payload (get_or buf i zero_slot)) e) (
    view_of_mod buf size (p + 1) (q + 1) n
      (sym (mod-add-mod p size 1) ∙ ap (λ i. (i + 1) % size) e ∙ mod-add-mod q size 1))

-- One block more stands at the end.
pub view_snoc :
    (buf : List Slot) (size p n : ℕ)
    → view buf size p (suc n) ≡ view buf size p n ++ (payload (slot_at buf size (p + n)) ∷ [])
unfolding view
view_snoc buf size p zero = ap (λ i. payload (slot_at buf size i) ∷ []) (omega arith)
view_snoc buf size p (suc n) =
    ap (λ q. payload (slot_at buf size p) ∷ q)
      (view_snoc buf size (p + 1) n
        ∙ ap (λ i. view buf size (p + 1) n ++ (payload (slot_at buf size i) ∷ [])) (omega arith))

-- A write elsewhere is not seen.
pub view-set :
    (buf : List Slot) (size p n i : ℕ) (s : Slot)
    → ((j : ℕ) → j < n → i ≢ (p + j) % size)
    → view (set buf i s) size p n ≡ view buf size p n
unfolding view
view-set buf size p zero i s out = refl
view-set buf size p (suc n) i s out =
    ap₂ ◌∷◌
      (ap payload (
        get_or-set_ne buf s zero_slot
          (λ e. out 0 (omega arith) (e ∙ ap (λ k. k % size) (omega arith)))))
      (view-set buf size (p + 1) n i s
        (λ j lt e. out (suc j) (omega arith) (e ∙ ap (λ k. k % size) (omega arith))))

-- Writing just behind the blocks appends one.
pub view_append :
    (buf : List Slot) (size p n : ℕ) (s : Slot)
    → size ≤ length buf
    → n < size
    → view (set buf ((p + n) % size) s) size p (suc n) ≡ view buf size p n ++ (payload s ∷ [])
view_append buf size p n s room fits =
    view_snoc (set buf ((p + n) % size) s) size p n
    ∙ ap₂ (λ q b. q ++ (payload b ∷ [])) (view-set buf size p n ((p + n) % size) s apart)
        (get_or-set_self buf ((p + n) % size) s zero_slot
          (omega (arith, mod-lt (p + n) {m = size})))
  where
    apart : (j : ℕ) → j < n → (p + n) % size ≢ (p + j) % size
    apart j lt e =
        add_mod_ne size (p + j) (n - j) (omega arith) (omega arith)
          (ap (λ k. k % size) (let f : p + j + (n - j) ≡ p + n = omega arith in f) ∙ e)

-- The first block stands at the position itself.
pub view_cons :
    (buf : List Slot) (size p n : ℕ)
    → 0 < n
    → view buf size p n ≡ payload (slot_at buf size p) ∷ view buf size (p + 1) (n - 1)
unfolding view
view_cons buf size p zero h = absurd (omega arith)
view_cons buf size p (suc n) h =
    ap (λ k. payload (slot_at buf size p) ∷ view buf size (p + 1) k) (omega arith)

pub view_nil : (buf : List Slot) (size p : ℕ) → view buf size p 0 ≡ []
unfolding view
view_nil buf size p = refl
