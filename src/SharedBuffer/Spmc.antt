-- ===== src/SharedBuffer/Spmc.antt =====
-- sharedbuffer/spmclockfreebuffer.h: `SPMCLockFreeBuffer`, a ring of slots with sequence numbers, for one
-- producer and any number of consumers, in atomic steps. Its members are those of the ring for
-- many producers, and so are its slots.
pub mod Refines
mod Tests
use universal_system_program.Prelude.{
  ℕ, zero, suc, Bool, ◌&&◌, List, [], ◌∷◌, if◌then◌else◌, ◌==◌, take, replicate, Option, some, map,
}
use universal_system_program.Prelude.Monad.{◌>>=◌}
use universal_system_program.Locks.Threads
use universal_system_program.SharedBuffer.Mpmc.{
  max_node_size, Block, Queue, index, update, add64, is_behind, publish, write_block, receive,
  Choice, enqueue, dequeue, may_swap, make, Point, idle, load_tail, load_write_seq, write,
  publish_write, load_head, load_read_seq, claim_head, read, publish_read,
}

-- Where the producer is, and where a consumer is.
pub data Writer : Type 0 where
  resting : Writer
  loads_tail : (data_in : Block) → Writer
  checks_seq writes_block fills_slot : (data_in : Block) → (t : ℕ) → Writer
  stores_tail : (t : ℕ) → Writer

pub data Reader : Type 0 where
  outside : Reader
  loads_head : (len : ℕ) → Reader
  loads_seq claims reads_block : (len h : ℕ) → Reader
  frees_slot : (len h : ℕ) → (out : Block) → Reader

abbrev pub begin_write : Choice → Writer
begin_write (enqueue block) = loads_tail (take max_node_size block)
begin_write _ = resting

-- The comparison of `enqueue`; a block counts as sent from here on.
abbrev pub check_free : Block → ℕ → Queue → Queue × Writer
check_free b t q =
    if q.seq (index q t) == t
    then (
      record q { sent = update q.sent q.sent_count b; sent_count = suc q.sent_count },
      writes_block b t,
    )
    else (q, resting)

-- `enqueue`, without a compare-and-swap: `tail_` is stored when the slot is full.
abbrev pub write_step : Choice → Queue → Writer → Queue × Writer
write_step c q resting = (q, begin_write c)
write_step c q (loads_tail b) = (q, checks_seq b q.tail)
write_step c q (checks_seq b t) = check_free b t q
write_step c q (writes_block b t) = (write_block b t q, fills_slot b t)
write_step c q (fills_slot b t) = (publish (index q t) (add64 t 1) q, stores_tail t)
write_step c q (stores_tail t) = (record q { tail = add64 t 1 }, resting)

abbrev pub begin_read : Choice → Reader
begin_read (dequeue len) = loads_head len
begin_read _ = outside

abbrev pub compare_claim : (len h seq : ℕ) → Reader
compare_claim len h seq =
    if is_behind seq (add64 h 1)
    then outside
    else (if seq == add64 h 1 then claims len h else loads_head len)

abbrev pub swap_claim : Bool → (len h : ℕ) → Queue → Queue × Reader
swap_claim ok len h q =
    if ok && (q.head == h)
    then (record q { head = add64 h 1 }, reads_block len h)
    else (q, loads_head len)

-- `dequeue`
abbrev pub read_step : Choice → Queue → Reader → Queue × Reader
read_step c q outside = (q, begin_read c)
read_step c q (loads_head len) = (q, loads_seq len q.head)
read_step c q (loads_seq len h) = (q, compare_claim len h (q.seq (index q h)))
read_step c q (claims len h) = swap_claim (may_swap c) len h q
read_step c q (reads_block len h) = (q, frees_slot len h (take len (q.block (index q h))))
read_step c q (frees_slot len h out) =
    (receive len h out (publish (index q h) (add64 h q.size) q), outside)

-- The thread 0 is the producer, and the others are consumers.
abbrev pub World : Type 0
World = Queue × Writer × List Reader

abbrev pub write_at : Choice → World → World
write_at c (q, w, ts) = ((write_step c q w).0, (write_step c q w).1, ts)

abbrev pub read_at : ℕ → Choice → World → World
read_at i c (q, w, ts) = let v = Threads.step read_step i c (q, ts) in (v.0, w, v.1)

abbrev pub step : ℕ → Choice → World → World
step zero c w = write_at c w
step (suc i) c w = read_at i c w

abbrev pub use_queue : (fuel size consumers : ℕ) → Threads.Schedule Choice → Option World
use_queue fuel size consumers schedule = do
  q ← make fuel size
  some (Threads.run_steps step schedule (q, resting, replicate consumers outside))

-- The same moment of a queue for many producers, whose producer has claimed its ticket as soon as it
-- has seen that the slot is free.
abbrev pub writer_point : Writer → Point
writer_point resting = idle
writer_point (loads_tail b) = load_tail b
writer_point (checks_seq b t) = load_write_seq b t
writer_point (writes_block b t) = write b t
writer_point (fills_slot b t) = publish_write b t
writer_point (stores_tail t) = idle

abbrev pub reader_point : Reader → Point
reader_point outside = idle
reader_point (loads_head len) = load_head len
reader_point (loads_seq len h) = load_read_seq len h
reader_point (claims len h) = claim_head len h
reader_point (reads_block len h) = read len h
reader_point (frees_slot len h out) = publish_read len h out

abbrev pub next_tail : ℕ → Writer → ℕ
next_tail n (writes_block b t) = add64 t 1
next_tail n (fills_slot b t) = add64 t 1
next_tail n (stores_tail t) = add64 t 1
next_tail n _ = n

abbrev pub as_mpmc : World → Queue × List Point
as_mpmc (q, w, ts) = (record q { tail = next_tail q.tail w }, writer_point w ∷ map reader_point ts)
