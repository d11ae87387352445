-- ===== src/SharedBuffer/Mpsc.antt =====
-- sharedbuffer/mpsclockfreebuffer.h: `MPSCLockFreeBuffer`, a ring of slots with sequence numbers, for any
-- number of producers and one consumer, in atomic steps. Its members are those of the ring for
-- many consumers, and so are its slots.
pub mod Simulation
pub mod Refines
pub mod Order
mod Tests
use universal_system_program.Prelude.{
  ℕ, zero, suc, ◌%◌, Bool, ◌&&◌, List, [], ◌∷◌, if◌then◌else◌, ◌==◌, take, replicate, Option, some,
  map,
}
use universal_system_program.Prelude.Monad.{◌>>=◌}
use universal_system_program.Locks.Threads
use universal_system_program.SharedBuffer.Mpmc.{
  max_node_size, Block, Queue, index, update, add64, is_behind, publish, write_block, receive,
  Choice, enqueue, dequeue, go, fail, may_swap, make, Point, idle, load_tail, load_write_seq,
  claim_tail, write, publish_write, load_head, load_read_seq, read, publish_read,
}

-- Where a producer is, and where the consumer is.
pub data Writer : Type 0 where
  resting : Writer
  loads_tail : (data_in : Block) → Writer
  loads_seq claims writes_block fills_slot : (data_in : Block) → (t : ℕ) → Writer

pub data Reader : Type 0 where
  outside : Reader
  loads_head : (len : ℕ) → Reader
  checks_seq reads_block : (len h : ℕ) → Reader
  frees_slot : (len h : ℕ) → (out : Block) → Reader
  stores_head : (h : ℕ) → Reader

abbrev pub begin_write : Choice → Writer
begin_write (enqueue block) = loads_tail (take max_node_size block)
begin_write _ = resting

abbrev pub compare_claim : Block → (t seq : ℕ) → Writer
compare_claim b t seq =
    if seq == t then claims b t else (if is_behind seq t then resting else loads_tail b)

abbrev pub swap_claim : Bool → Block → ℕ → Queue → Queue × Writer
swap_claim ok b t q =
    if ok && (q.tail == t)
    then (
      record q {
        tail = add64 t 1;
        sent = update q.sent q.sent_count b;
        sent_count = suc q.sent_count;
      },
      writes_block b t,
    )
    else (q, loads_tail b)

-- `enqueue`
abbrev pub write_step : Choice → Queue → Writer → Queue × Writer
write_step c q resting = (q, begin_write c)
write_step c q (loads_tail b) = (q, loads_seq b q.tail)
write_step c q (loads_seq b t) = (q, compare_claim b t (q.seq (index q t)))
write_step c q (claims b t) = swap_claim (may_swap c) b t q
write_step c q (writes_block b t) = (write_block b t q, fills_slot b t)
write_step c q (fills_slot b t) = (publish (index q t) (add64 t 1) q, resting)

abbrev pub begin_read : Choice → Reader
begin_read (dequeue len) = loads_head len
begin_read _ = outside

-- `dequeue`, without a compare-and-swap: `head_` is stored when the slot is free again.
abbrev pub read_step : Choice → Queue → Reader → Queue × Reader
read_step c q outside = (q, begin_read c)
read_step c q (loads_head len) = (q, checks_seq len q.head)
read_step c q (checks_seq len h) =
    (q, if is_behind (q.seq (index q h)) (add64 h 1) then outside else reads_block len h)
read_step c q (reads_block len h) = (q, frees_slot len h (take len (q.block (index q h))))
read_step c q (frees_slot len h out) =
    (receive len h out (publish (index q h) (add64 h q.size) q), stores_head h)
read_step c q (stores_head h) = (record q { head = add64 h 1 }, outside)

-- The thread 0 is the consumer, and the others are producers.
abbrev pub World : Type 0
World = Queue × Reader × List Writer

abbrev pub read_at : Choice → World → World
read_at c (q, r, ts) = ((read_step c q r).0, (read_step c q r).1, ts)

abbrev pub write_at : ℕ → Choice → World → World
write_at i c (q, r, ts) = let w = Threads.step write_step i c (q, ts) in (w.0, r, w.1)

abbrev pub step : ℕ → Choice → World → World
step zero c w = read_at c w
step (suc i) c w = write_at i c w

abbrev pub use_queue : (fuel size producers : ℕ) → Threads.Schedule Choice → Option World
use_queue fuel size producers schedule = do
  q ← make fuel size
  some (Threads.run_steps step schedule (q, outside, replicate producers resting))

-- The same moment of a queue for many consumers, whose consumer has claimed its ticket as soon as it
-- has seen that the slot is full.
abbrev pub writer_point : Writer → Point
writer_point resting = idle
writer_point (loads_tail b) = load_tail b
writer_point (loads_seq b t) = load_write_seq b t
writer_point (claims b t) = claim_tail b t
writer_point (writes_block b t) = write b t
writer_point (fills_slot b t) = publish_write b t

abbrev pub reader_point : Reader → Point
reader_point outside = idle
reader_point (loads_head len) = load_head len
reader_point (checks_seq len h) = load_read_seq len h
reader_point (reads_block len h) = read len h
reader_point (frees_slot len h out) = publish_read len h out
reader_point (stores_head h) = idle

abbrev pub next_head : ℕ → Reader → ℕ
next_head n (reads_block len h) = add64 h 1
next_head n (frees_slot len h out) = add64 h 1
next_head n (stores_head h) = add64 h 1
next_head n _ = n

abbrev pub as_mpmc : World → Queue × List Point
as_mpmc (q, r, ts) = (record q { head = next_head q.head r }, reader_point r ∷ map writer_point ts)
