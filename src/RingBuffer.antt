-- ===== src/RingBuffer.antt =====
-- logical-datastructure/ringbuffer.h: a ring of slots, each with a length and 65535 bytes.
-- `none` is undefined behaviour: an access outside the slots (`buf_` is null after a move) or a
-- `memcpy` outside its arrays.
pub mod Queue
pub mod Inv
pub mod View
pub mod Refine
pub mod Make
pub mod Store
mod Tests
use universal_system_program.Prelude.{
  ℕ, zero, suc, ◌+◌, ◌%◌, ◌^◌, Bool, Option, none, some, List, [], ◌∷◌, ltb, ◌==◌, if◌then◌else◌,
  length, get_elem?, set, replicate, take, ℤ, pos, minus_one, to_int32, Bytes, memcpy, bytes_from,
}
use universal_system_program.Prelude.Monad.{◌>>=◌}
use universal_system_program.Capacity.Defs.{add_size, sub_size, round_up, mask_index}
use Queue.{Op, Reply}

abbrev pub max_slot_size : ℕ
max_slot_size = 65535

abbrev pub ring_pull : ℤ
ring_pull = minus_one

pub record Slot : Type 0 where
  pub len : ℕ
  pub slot : Bytes

pub record RingBuffer : Type 0 where
  pub buf : List Slot
  pub head : ℕ
  pub tail : ℕ
  pub cnt : ℕ
  pub size : ℕ

-- `std::make_unique<Slot[]>` clears the slots.
abbrev pub zero_slot : Slot
zero_slot = record { len = 0; slot = λ _. 0 }

-- The constructor, with fuel for the rounding loop.
pub make : ℕ → ℕ → Option RingBuffer
make fuel size = do
  n ← round_up fuel size
  some (record { buf = replicate n zero_slot; head = 0; tail = 0; cnt = 0; size = n })

-- `if(len > MAX_SLOT_SIZE) len = MAX_SLOT_SIZE;`
abbrev pub clamp_len : ℕ → ℕ
clamp_len len = if ltb max_slot_size len then max_slot_size else len

-- The next index, round the ring.
abbrev pub next_index : RingBuffer → ℕ → ℕ
next_index r i = mask_index (add_size i 1) r.size

-- The part that both pushes share: fill the slot at the tail and advance.
pub store : RingBuffer → List ℕ → ℕ → Option (ℤ × RingBuffer)
store r bytes len = do
  old ← get_elem? r.buf r.tail
  data' ← memcpy max_slot_size old.slot bytes len
  some (
    to_int32 len,
    record r {
      buf = set r.buf r.tail (record { len = len % 2 ^ 16; slot = data' });
      tail = next_index r r.tail;
      cnt = add_size r.cnt 1;
    },
  )

-- Drops the oldest slot.
pub evict : RingBuffer → RingBuffer
evict r = record r { head = next_index r r.head; cnt = sub_size r.cnt 1 }

pub push_infinite : RingBuffer → List ℕ → ℕ → Option (ℤ × RingBuffer)
push_infinite r bytes len = store (if r.cnt == r.size then evict r else r) bytes (clamp_len len)

pub push_finite : RingBuffer → List ℕ → ℕ → Option (ℤ × RingBuffer)
push_finite r bytes len =
    if r.cnt == r.size then some (ring_pull, r) else store r bytes (clamp_len len)

-- With the bytes written through `out`.
pub pop : RingBuffer → ℕ → Option (ℤ × List ℕ × RingBuffer)
unfolding evict
pop r len = if r.cnt == 0 then some (pos 0, [], r) else do
  oldest ← get_elem? r.buf r.head
  let n = if ltb oldest.len len then oldest.len else len
  some (to_int32 n, bytes_from oldest.slot 0 n, evict r)

pub empty : RingBuffer → Bool
empty r = r.cnt == 0

-- What a move leaves behind: no slots, and every number 0.
abbrev pub moved_from : RingBuffer
moved_from = record { buf = []; head = 0; tail = 0; cnt = 0; size = 0 }

-- A client's calls in order, with what each returns.
pub step : RingBuffer → Op → Option (Reply × RingBuffer)
step r (Op.push_infinite bytes len) = do (n, r') ← push_infinite r bytes len; some ((n, []), r')
step r (Op.push_finite bytes len) = do (n, r') ← push_finite r bytes len; some ((n, []), r')
step r (Op.pop len) = do (n, out, r') ← pop r len; some ((n, out), r')

pub run : RingBuffer → List Op → Option (List Reply)
run r [] = some []
run r (op ∷ ops) = do (reply, r') ← step r op; replies ← run r' ops; some (reply ∷ replies)
