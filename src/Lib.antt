-- ===== src/Lib.antt =====
-- A verification library for the universal system programming tool, a collection of C++ classes for
-- programs that use threads, shared buffers, packets and the system calls of Linux. The classes
-- are used one by one: what they share is the data types of addresses (data-type), and the headers
-- of packets (data-format) call one another where a checksum needs the IPv4 header.
--
-- Capacity: the rounding of a requested size to a power of two, which
--   logical-datastructure/ringbuffer.h and the four buffers of sharedbuffer/ repeat in their
--   constructors. The loop `while (cap < size) cap <<= 1` takes fuel, of which 64 is enough up to a
--   size of 2 ^ 63; the shift wraps at 64 bits.
-- RingBuffer: logical-datastructure/ringbuffer.h. A slot is a length and a function from positions
--   to bytes, a ring the record of the class's members; each member function is a function of the
--   same name, and undefined behaviour (an access out of bounds or through null) is `none`.
--   RingBuffer/Queue is the bounded queue of byte blocks that a ring stands for, Inv the invariant,
--   View the queue of a ring, Refine the comparison of both, Make the constructor.
--   Store has copies and moves, on objects that own arrays by their addresses.
-- DataFormat: data-format/iphdr.h, icmphdr.h, tcphdr.h and udphdr.h. A packet is a memory of bytes,
--   a header the position it begins at; the byte order of the host is a parameter. Checksum has
--   the sum over words, the folding of carries and the pseudo-header, of which each class has its
--   own copy in the code; a header's module has its accessors and its two checksum functions, and
--   its Valid what they promise to one another. The folding loop takes two rounds, as many as a
--   32-bit sum needs.
-- DataType: data-type/ip.h, printing and the classes of addresses; data-type/mac.h, comparison,
--   the classes of addresses and the hash. A MAC address is the list of its bytes.
-- OsUtil: os-util/osutil.cpp, its Linux half. System has the calls it makes and programs over
--   them, which an oracle answers that may depend on all earlier calls; Resources says what is
--   held after a run. Sockets, Interface, Filter, Nfq, Tun and Subnet have the functions by their
--   names (get_tun_fd with one parameter is open_tun_fd). The loop of calc_subnet_prefix_len
--   takes fuel, of which 33 is enough. Ownership says what the functions hold when they return.
-- Locks: synchronization/spinlock.h and rwspinlock.h. Each thread is at a point of its program, and a
--   schedule says which takes the next atomic step and what it chooses; Threads runs schedules, Spin
--   and ReadWrite have the atomic steps of the lock classes. Memory is sequentially consistent.
-- CircularList: logical-datastructure/circularlinkedlist.cpp. Nodes is the heap, a map from addresses
--   for each field; a function returns the new heap, or none for a fault. The loops take fuel, one
--   round more than there are nodes. Path and Ring describe linked nodes, Links what the
--   straight-line parts do, Search the loops, Names the operations on the names alone, Owned a list
--   with its nodes, Refine and Calls the operations against Names.
-- Threads: thread/. Class is the interface that a pool has of a thread class, with its laws; Std and
--   Posix are the two classes that keep it. Pool has the loops of start_pool, stop_pool and
--   monitor_pool, Lifecycle what each returns and leaves, Session sequences of them.
-- SharedBuffer: the four queues of sharedbuffer/, for one or many producers and consumers. Mpmc has
--   the atomic steps of enqueue and dequeue, with the copies of bytes a step each, on a queue that
--   also records what was sent and received; threads run as in Locks. Mpmc/Invariant is what every
--   step keeps, ClaimTail to Receive the steps that change the queue, Keep all of them, Safe and
--   Refused what follows. Mpsc and Spmc have the queues with one consumer and one producer, which
--   do without a compare-and-swap on that side; Mpmc/Simulates is what their refinements share.
--   Spsc has the queue without sequence numbers; Fifo is what it promises, View the blocks in it.
-- SignalBuffer: signalbuffer/futexsignalbuffer.h and cvsignalbuffer.h. Futex and Cv have the atomic steps
--   of their calls on a bounded queue, with the kernel's FUTEX_WAKE and the condition variable as
--   parameters; Futex/Wakes says who is awake, Futex/Kernel has one such kernel.
-- Prelude: numbers with tests, machine integers, bits, lists, memory and text.
--
-- Not modelled: get_target_mac and the Windows half of os-util/osutil.cpp; AtomicSignalBuffer;
-- parsing of addresses; the headers of Ethernet, ARP and IPv6. Messages to the standard streams are left out, and allocation is taken to
-- succeed.
--
pub mod Capacity
pub mod CircularList
pub mod DataFormat
pub mod DataType
pub mod Locks
pub mod OsUtil
pub mod Prelude
pub mod RingBuffer
pub mod SharedBuffer
pub mod SignalBuffer
pub mod Threads
