-- ===== src/SharedBuffer/Mpmc.antt =====
-- sharedbuffer/mpmclockfreebuffer.h: `MPMCLockFreeBuffer`, a ring of slots with sequence numbers,
-- for any number of producers and consumers that take turns in atomic steps.
pub mod Invariant
pub mod Slots
pub mod ClaimTail
pub mod ClaimHead
pub mod Write
pub mod Publish
pub mod Receive
pub mod Keep
pub mod Start
pub mod Simulates
pub mod Safe
pub mod Refused
mod Tests
use universal_system_program.Prelude.{
  ℕ, suc, ◌+◌, ◌-◌, ◌%◌, ◌^◌, Bool, true, false, ◌&&◌, List, [], ◌∷◌, if◌then◌else◌, ◌==◌, leb,
  take, Option, some, replicate,
}
use universal_system_program.Prelude.Monad.{◌>>=◌}
use universal_system_program.Capacity.Defs.{mask_index, round_up}
use universal_system_program.Locks.Threads.{Schedule, run}

abbrev pub max_node_size : ℕ
max_node_size = 65535

abbrev pub Block : Type 0
Block = List ℕ

-- The class's members; `seq` and `block` are the slots, whose `len_` is the block's length. What
-- follows them is a record of the past that the code does not keep: the blocks by the ticket, the
-- old value of `tail_`, that their producer claimed, how many there are, and what was received.
pub record Queue : Type 0 where
  pub size : ℕ
  pub seq : ℕ → ℕ
  pub block : ℕ → Block
  pub head : ℕ
  pub tail : ℕ
  pub sent : ℕ → Block
  pub sent_count : ℕ
  pub received : List (ℕ × ℕ × Block)

abbrev pub update {ℓ} : {A : Type ℓ} → (ℕ → A) → ℕ → A → ℕ → A
update f p v x = if x == p then v else f x

-- `buf_[ticket & (size_ - 1)]`
abbrev pub index : Queue → ℕ → ℕ
index q ticket = mask_index ticket q.size

-- `size_t` arithmetic, and `diff < 0` for the difference as an `intptr_t`.
abbrev pub add64 : ℕ → ℕ → ℕ
add64 a b = (a + b) % 2 ^ 64

abbrev pub is_behind : ℕ → ℕ → Bool
is_behind seq ticket = leb (2 ^ 63) ((seq + (2 ^ 64 - ticket)) % 2 ^ 64)

-- Where a thread is: outside, or before an atomic step of `enqueue` or of `dequeue`. The copies of the
-- bytes, `write` and `read`, are a step each.
pub data Point : Type 0 where
  idle : Point
  load_tail : (data_in : Block) → Point
  load_write_seq claim_tail write publish_write : (data_in : Block) → (t : ℕ) → Point
  load_head : (len : ℕ) → Point
  load_read_seq claim_head read : (len h : ℕ) → Point
  publish_read : (len h : ℕ) → (out : Block) → Point

-- A call that an idle thread makes, or the next step of a call; a weak compare-and-swap may fail.
pub data Choice : Type 0 where
  enqueue : Block → Choice
  dequeue : (len : ℕ) → Choice
  go fail : Choice

abbrev pub may_swap : Choice → Bool
may_swap fail = false
may_swap _ = true

abbrev pub begin : Choice → Point
begin (enqueue block) = load_tail (take max_node_size block)
begin (dequeue len) = load_head len
begin go = idle
begin fail = idle

-- `enqueue`: the comparison of the slot's number with the ticket, full where it lies behind.
abbrev pub compare_write : Block → (t seq : ℕ) → Point
compare_write b t seq =
    if seq == t then claim_tail b t else (if is_behind seq t then idle else load_tail b)

abbrev pub swap_tail : Bool → Block → ℕ → Queue → Queue × Point
swap_tail ok b t q =
    if ok && (q.tail == t)
    then (
      record q {
        tail = add64 t 1;
        sent = update q.sent q.sent_count b;
        sent_count = suc q.sent_count;
      },
      write b t,
    )
    else (q, load_tail b)

abbrev pub write_block : Block → ℕ → Queue → Queue
write_block b t q = record q { block = update q.block (index q t) b }

abbrev pub publish : (i seq : ℕ) → Queue → Queue
publish i seq q = record q { seq = update q.seq i seq }

-- `dequeue`: empty where the slot's number lies behind.
abbrev pub compare_read : (len h seq : ℕ) → Point
compare_read len h seq =
    if seq == add64 h 1
    then claim_head len h
    else (if is_behind seq (add64 h 1) then idle else load_head len)

abbrev pub swap_head : Bool → (len h : ℕ) → Queue → Queue × Point
swap_head ok len h q =
    if ok && (q.head == h) then (record q { head = add64 h 1 }, read len h) else (q, load_head len)

abbrev pub receive : (len h : ℕ) → Block → Queue → Queue
receive len h out q = record q { received = (h, len, out) ∷ q.received }

abbrev pub act : Choice → Queue → Point → Queue × Point
act c q idle = (q, begin c)
act c q (load_tail b) = (q, load_write_seq b q.tail)
act c q (load_write_seq b t) = (q, compare_write b t (q.seq (index q t)))
act c q (claim_tail b t) = swap_tail (may_swap c) b t q
act c q (write b t) = (write_block b t q, publish_write b t)
act c q (publish_write b t) = (publish (index q t) (add64 t 1) q, idle)
act c q (load_head len) = (q, load_read_seq len q.head)
act c q (load_read_seq len h) = (q, compare_read len h (q.seq (index q h)))
act c q (claim_head len h) = swap_head (may_swap c) len h q
act c q (read len h) = (q, publish_read len h (take len (q.block (index q h))))
act c q (publish_read len h out) =
    (receive len h out (publish (index q h) (add64 h q.size) q), idle)

-- The constructor, with fuel for the rounding loop: slot `i` has the number `i`.
abbrev pub fresh : (size : ℕ) → Queue
fresh size = record {
  size = size;
  seq = λ i. i;
  block = λ i. [];
  head = 0;
  tail = 0;
  sent = λ t. [];
  sent_count = 0;
  received = [];
}

abbrev pub make : (fuel size : ℕ) → Option Queue
make fuel size = do n ← round_up fuel size; some (fresh n)

-- A number of threads share a new queue, and take their steps in the order of the schedule.
abbrev pub use_queue : (fuel size threads : ℕ) → Schedule Choice → Option (Queue × List Point)
use_queue fuel size threads schedule = do
  q ← make fuel size
  some (run act schedule (q, replicate threads idle))
