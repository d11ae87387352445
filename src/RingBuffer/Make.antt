-- ===== src/RingBuffer/Make.antt =====
-- Construction of a `RingBuffer`.
use native.Mathlib.Nat.{one-le-pow, mod-eq_of_lt}
use universal_system_program.Prelude.{
  ℕ, zero, suc, ◌^◌, ◌≤◌, ◌≡◌, refl, sym, some, [], get_or, replicate, arith, length-replicate,
}
use universal_system_program.Capacity.Powers.{pow_le_pow}
use universal_system_program.RingBuffer.View.{view_nil}
use universal_system_program.Capacity.Rounding.{round_up-least}
use universal_system_program.RingBuffer.{RingBuffer, zero_slot, max_slot_size, make}
use universal_system_program.RingBuffer.Inv.{IsValid, contents}

replicate_lens : (n i : ℕ) → (get_or (replicate n zero_slot) i zero_slot).len ≤ max_slot_size
replicate_lens zero i = omega arith
replicate_lens (suc n) zero = omega arith
replicate_lens (suc n) (suc i) = replicate_lens n i

abbrev fresh : ℕ → RingBuffer
fresh n = record { buf = replicate n zero_slot; head = 0; tail = 0; cnt = 0; size = n }

fresh-IsValid : (k : ℕ) → k ≤ 63 → IsValid (fresh (2 ^ k))
fresh-IsValid k h = record {
  width = k;
  narrow = h;
  sized = refl;
  storage = length-replicate (2 ^ k) zero_slot;
  head_in = one-le-pow k 2 (omega arith);
  cnt_in = omega arith;
  tail_at = sym (mod-eq_of_lt (one-le-pow k 2 (omega arith)));
  lens = replicate_lens (2 ^ k);
}

-- For a size of at most 2 ^ 63, and fuel of 64 or more, the constructor ends with a valid and
-- empty ring, of at least two slots and at least the size asked for.
pub make_lem :
    (fuel size : ℕ)
    → 64 ≤ fuel
    → size ≤ 2 ^ 63
    → (r : RingBuffer) × (make fuel size ≡ some r)
      × IsValid r
      × (contents r ≡ [])
      × (2 ≤ r.size)
      × (size ≤ r.size)
unfolding make
make_lem fuel size enough small =
    let (k, e, one, narrow, above, least) = round_up-least fuel size enough small in
    (fresh (2 ^ k), rw e, fresh-IsValid k narrow, view_nil _ (2 ^ k) 0, pow_le_pow 1 k one, above)
