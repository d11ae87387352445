-- ===== src/SharedBuffer/Spsc.antt =====
-- sharedbuffer/spsclockfreebuffer.h: `SPSCLockFreeBuffer`, a ring of slots for one producer and one consumer,
-- in atomic steps. `head_` is where the producer writes next, and `tail_` where the consumer reads.
pub mod Fifo
pub mod View
pub mod Invariant
pub mod Refines
mod Tests
use universal_system_program.Prelude.{
  ℕ, zero, suc, Bool, List, [], ◌∷◌, if◌then◌else◌, ◌==◌, take, Option, some,
}
use universal_system_program.Prelude.Monad.{◌>>=◌}
use universal_system_program.Capacity.Defs.{add_size, mask_index, round_up}
use universal_system_program.Locks.Threads.{Schedule, run_steps}
use universal_system_program.SharedBuffer.Mpmc.{Block, update, Choice, enqueue, dequeue}
use universal_system_program.SharedBuffer.Spsc.Fifo.{Event, pushed, rejected, popped, found_empty}

abbrev pub max_slot_size : ℕ
max_slot_size = 65535

-- The class's members; a slot's `len_` is its block's length. `log` is not kept by the code: what the calls
-- have done, the last first.
pub record Buffer : Type 0 where
  pub size : ℕ
  pub block : ℕ → Block
  pub head : ℕ
  pub tail : ℕ
  pub log : List Event

abbrev pub next_index : Buffer → ℕ → ℕ
next_index q i = mask_index (add_size i 1) q.size

-- Where the producer is, and where the consumer is, before an atomic step.
pub data Producer : Type 0 where
  resting : Producer
  loads_head : (data_in : Block) → Producer
  loads_tail writes_block stores_head : (data_in : Block) → (head : ℕ) → Producer

pub data Consumer : Type 0 where
  outside : Consumer
  reads_tail : (len : ℕ) → Consumer
  reads_head reads_block : (len tail : ℕ) → Consumer
  stores_tail : (len tail : ℕ) → (out : Block) → Consumer

abbrev pub noted : Event → Buffer → Buffer
noted e q = record q { log = e ∷ q.log }

abbrev pub begin_write : Choice → Producer
begin_write (enqueue block) = loads_head (take max_slot_size block)
begin_write _ = resting

-- `if (next == tail_.load()) return -1;`
abbrev pub check_full : Block → ℕ → Buffer → Buffer × Producer
check_full b head q =
    if next_index q head == q.tail then (noted rejected q, resting) else (q, writes_block b head)

-- `enqueue`
abbrev pub write_step : Choice → Buffer → Producer → Buffer × Producer
write_step c q resting = (q, begin_write c)
write_step c q (loads_head b) = (q, loads_tail b q.head)
write_step c q (loads_tail b head) = check_full b head q
write_step c q (writes_block b head) =
    (record q { block = update q.block head b }, stores_head b head)
write_step c q (stores_head b head) =
    (noted (pushed b) (record q { head = next_index q head }), resting)

abbrev pub begin_read : Choice → Consumer
begin_read (dequeue len) = reads_tail len
begin_read _ = outside

-- `if (tail == head_.load()) return -1;`
abbrev pub check_empty : (len tail : ℕ) → Buffer → Buffer × Consumer
check_empty len tail q =
    if tail == q.head then (noted found_empty q, outside) else (q, reads_block len tail)

-- `dequeue`
abbrev pub read_step : Choice → Buffer → Consumer → Buffer × Consumer
read_step c q outside = (q, begin_read c)
read_step c q (reads_tail len) = (q, reads_head len q.tail)
read_step c q (reads_head len tail) = check_empty len tail q
read_step c q (reads_block len tail) = (q, stores_tail len tail (take len (q.block tail)))
read_step c q (stores_tail len tail out) =
    (noted (popped len out) (record q { tail = next_index q tail }), outside)

abbrev pub World : Type 0
World = Buffer × Producer × Consumer

-- The thread 0 is the producer, and any other number the consumer.
abbrev pub step : ℕ → Choice → World → World
step zero c (q, p, r) = let v = write_step c q p in (v.0, v.1, r)
step (suc i) c (q, p, r) = let v = read_step c q r in (v.0, p, v.1)

abbrev pub fresh : (size : ℕ) → Buffer
fresh n = record { size = n; block = λ i. []; head = 0; tail = 0; log = [] }

-- The constructor, with fuel for the rounding loop.
abbrev pub make : (fuel size : ℕ) → Option Buffer
make fuel size = do n ← round_up fuel size; some (fresh n)

abbrev pub use_queue : (fuel size : ℕ) → Schedule Choice → Option World
use_queue fuel size schedule = do
  q ← make fuel size
  some (run_steps step schedule (q, resting, outside))
