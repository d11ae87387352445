-- ===== src/RingBuffer/Store/Tests.antt =====
-- Two rings of two slots, one with a block.
use universal_system_program.Prelude.{
  ℕ, zero, suc, ◌≡◌, refl, sym, ap, ◌∙◌, Option, none, some, List, [], ◌∷◌, of_some,
}
use universal_system_program.RingBuffer.{Slot, zero_slot}
use universal_system_program.RingBuffer.Store.{
  Ring, Memory, cleared, copy_assign, move_assign, value, IsOwned,
}
use universal_system_program.RingBuffer.Store.Moves.{moved, move_assign-IsOwned}
use universal_system_program.RingBuffer.Store.Copies.{copied, copy_assign-IsOwned}

abbrev block : Slot
block = record { len = 1; slot = λ i. 7 }

abbrev arrays : ℕ → Option (List Slot)
arrays zero = some (block ∷ zero_slot ∷ [])
arrays (suc zero) = some (zero_slot ∷ zero_slot ∷ [])
arrays (suc (suc a)) = none

abbrev rings : ℕ → Ring
rings zero = record { buf = some 0; head = 0; tail = 1; cnt = 1; size = 2 }
rings (suc zero) = record { buf = some 1; head = 0; tail = 0; cnt = 0; size = 2 }
rings (suc (suc i)) = cleared

abbrev two_rings : Memory
two_rings = record { array = arrays; ring = rings }

-- An object's pointer is its own number.
owns : (i a : ℕ) → (rings i).buf ≡ some a → i ≡ a
owns zero a e = of_some e
owns (suc zero) a e = of_some e
owns (suc (suc i)) a e = cc

two_rings-IsOwned : IsOwned two_rings
two_rings-IsOwned = record {
  live = live;
  apart = λ i j a e f. owns i a e ∙ sym (owns j a f);
  owner = owner;
}
  where
    live : (i a : ℕ) → (rings i).buf ≡ some a → (bs : List Slot) × (arrays a ≡ some bs)
    live zero a e = (_, ap arrays (sym (of_some e)))
    live (suc zero) a e = (_, ap arrays (sym (of_some e)))
    live (suc (suc i)) a e = cc

    owner : (a : ℕ) (bs : List Slot) → arrays a ≡ some bs → (i : ℕ) × ((rings i).buf ≡ some a)
    owner zero bs e = (0, refl)
    owner (suc zero) bs e = (1, refl)
    owner (suc (suc a)) bs e = cc

copy_assign-IsOwned_example :
    (m' : Memory) × (copy_assign 1 0 2 two_rings ≡ some m')
    × IsOwned m'
    × ((i : ℕ) → value m' i ≡ copied two_rings 1 0 i)
copy_assign-IsOwned_example =
    copy_assign-IsOwned two_rings 1 0 2 (block ∷ zero_slot ∷ []) two_rings-IsOwned refl refl refl

move_assign-IsOwned_example :
    IsOwned (move_assign 1 0 two_rings)
    × ((i : ℕ) → value (move_assign 1 0 two_rings) i ≡ moved two_rings 1 0 i)
move_assign-IsOwned_example = move_assign-IsOwned two_rings 1 0 two_rings-IsOwned
