-- ===== src/RingBuffer/Store.antt =====
-- logical-datastructure/ringbuffer.h: copies and moves of rings, on a memory of arrays of slots, of which each ring
-- owns one through `buf_`. `none` is an access outside an array, or to one that was freed.
pub mod Copies
pub mod Moves
mod Tests
use universal_system_program.Prelude.{
  ℕ, zero, suc, ◌≡◌, Option, none, some, List, [], ◌∷◌, ◌==◌, if◌then◌else◌, replicate,
}
use universal_system_program.Prelude.Monad.{◌>>=◌}
use universal_system_program.RingBuffer.{RingBuffer, Slot, zero_slot}

-- The members of an object; `buf_` is an address, or null.
pub record Ring : Type 0 where
  pub buf : Option ℕ
  pub head : ℕ
  pub tail : ℕ
  pub cnt : ℕ
  pub size : ℕ

-- The arrays by their addresses, and the objects.
pub record Memory : Type 0 where
  pub array : ℕ → Option (List Slot)
  pub ring : ℕ → Ring

abbrev pub assign {ℓ} : {A : Type ℓ} → (ℕ → A) → ℕ → A → ℕ → A
assign f x v y = if y == x then v else f y

-- The slots behind a pointer; null has none.
abbrev pub slots : (ℕ → Option (List Slot)) → Option ℕ → Option (List Slot)
slots array none = some []
slots array (some a) = array a

abbrev pub free : Option ℕ → (ℕ → Option (List Slot)) → ℕ → Option (List Slot)
free none array = array
free (some a) array = assign array a none

-- `buf_ = std::make_unique<Slot[]>(n)`, which the allocator puts at `a`; the old array is freed.
abbrev pub renew : (this a n : ℕ) → Memory → Memory
renew this a n m =
    let old = (m.ring this).buf in
    record {
      array = free old (assign m.array a (some (replicate n zero_slot)));
      ring = assign m.ring this (record (m.ring this) { buf = some a });
    }

-- The other members, read from `oth` as it is then.
abbrev pub copy_members : (this oth : ℕ) → Memory → Memory
copy_members this oth m =
    let o = m.ring oth in
    record m { ring = assign m.ring this (record o { buf = (m.ring this).buf }) }

-- `n` slots are copied onto the first `n` of another array.
abbrev pub overwrite : (n : ℕ) → (to from : List Slot) → Option (List Slot)
overwrite zero to from = some to
overwrite (suc n) [] from = none
overwrite (suc n) (y ∷ to) [] = none
overwrite (suc n) (y ∷ to) (x ∷ from) = do rest ← overwrite n to from; some (x ∷ rest)

abbrev pub put : Option ℕ → List Slot → Memory → Memory
put none bs m = m
put (some a) bs m = record m { array = assign m.array a (some bs) }

-- `std::memcpy(buf_.get(), oth.buf_.get(), sizeof(Slot) * size_)`
abbrev pub copy_slots : (this oth : ℕ) → Memory → Option Memory
copy_slots this oth m = do
  to ← slots m.array (m.ring this).buf
  from ← slots m.array (m.ring oth).buf
  bs ← overwrite (m.ring this).size to from
  some (put (m.ring this).buf bs m)

-- The copy constructor, of an object that has no array yet, and copy assignment.
abbrev pub copy : (this oth a : ℕ) → Memory → Option Memory
copy this oth a m = copy_slots this oth (copy_members this oth (renew this a (m.ring oth).size m))

abbrev pub copy_assign : (this oth a : ℕ) → Memory → Option Memory
copy_assign this oth a m =
    if this == oth
    then some m
    else copy_slots this oth (copy_members this oth (renew this a (m.ring oth).size m))

abbrev pub cleared : Ring
cleared = record { buf = none; head = 0; tail = 0; cnt = 0; size = 0 }

-- The move constructor, of an object that has no array yet, and move assignment.
abbrev pub move : (this oth : ℕ) → Memory → Memory
move this oth m = record m { ring = assign (assign m.ring this (m.ring oth)) oth cleared }

abbrev pub move_assign : (this oth : ℕ) → Memory → Memory
move_assign this oth m = if this == oth then m else record {
  array = free (m.ring this).buf m.array;
  ring = assign (assign m.ring this (m.ring oth)) oth cleared;
}

-- The ring that an object stands for.
abbrev pub with_slots : Ring → Option (List Slot) → Option RingBuffer
with_slots o none = none
with_slots o (some bs) =
    some (record { buf = bs; head = o.head; tail = o.tail; cnt = o.cnt; size = o.size })

abbrev pub value : Memory → ℕ → Option RingBuffer
value m i = with_slots (m.ring i) (slots m.array (m.ring i).buf)

-- Every array is owned by one ring, and every ring's array is there.
pub record IsOwned (m : Memory) : Type 0 where
  pub live : (i a : ℕ) → (m.ring i).buf ≡ some a → (bs : List Slot) × (m.array a ≡ some bs)
  pub apart : (i j a : ℕ) → (m.ring i).buf ≡ some a → (m.ring j).buf ≡ some a → i ≡ j
  pub owner : (a : ℕ) (bs : List Slot) → m.array a ≡ some bs → (i : ℕ) × ((m.ring i).buf ≡ some a)
