-- ===== src/SharedBuffer/Mpmc/Safe.antt =====
-- What holds of the queue after any interleaving.
use universal_system_program.Prelude.{
  ℕ, ◌+◌, ◌^◌, ◌≤◌, ◌<◌, ◌≡◌, ◌≢◌, ap, sym, ◌∙◌, List, length, get_elem?, Option, none, some, arith,
  of_some, dec_lt,
}
use universal_system_program.Locks.Threads.{Schedule, count, count_two}
use universal_system_program.SharedBuffer.Mpmc.{
  Queue, index, Point, idle, load_tail, load_write_seq, claim_tail, write, publish_write, load_head,
  load_read_seq, claim_head, read, publish_read, Choice, use_queue,
}
use universal_system_program.SharedBuffer.Mpmc.Invariant.{writes, reads, AllSent, times, IsGood}
use universal_system_program.SharedBuffer.Mpmc.Slots.{writer_slot, reader_slot, apart, tail_bound}
use universal_system_program.SharedBuffer.Mpmc.Start.{use_queue-IsGood, after-IsGood}

-- Each block received is what was sent under its ticket, as far as the consumer's length goes; each
-- ticket that was taken is received or being read, once; and no more than a ring is outstanding.
pub record Delivers (q : Queue) (ts : List Point) : Type 0 where
  pub content : AllSent q q.received
  pub taken : (u : ℕ) → u < q.head → times u q.received + count (reads u) ts ≡ 1
  pub not_taken : (u : ℕ) → q.head ≤ u → times u q.received ≡ 0
  pub all_sent : q.tail ≡ q.sent_count
  pub order : q.head ≤ q.tail
  pub bounded : q.tail ≤ q.head + q.size

IsGood-Delivers : (q : Queue) (ts : List Point) → IsGood q ts → Delivers q ts
IsGood-Delivers q ts good = record {
  content = good.received;
  taken = λ u below. let exact = good.once u in ground (arith, exact, below);
  not_taken = λ u above. let exact = good.once u in ground (arith, exact, above);
  all_sent = sym good.counted;
  order = good.order;
  bounded = tail_bound q ts good;
}

-- A queue of at most 2 ^ 62 slots and any number of threads, after any interleaving of at most
-- 2 ^ 62 atomic steps, with 64 rounds of fuel or more for the constructor's loop: the queue was made;
-- every block that a consumer received is the block that was sent under its ticket, cut to the
-- consumer's length; every ticket below `head_` was received once or is being read by one thread, and
-- no other was received; as many blocks were sent as `tail_` says, and at most `size_` of them are
-- not yet taken.
pub use_queue-Delivers :
    (fuel size threads : ℕ) (schedule : Schedule Choice)
    → 64 ≤ fuel
    → size ≤ 2 ^ 62
    → length schedule ≤ 2 ^ 62
    → (w : Queue × List Point) × (use_queue fuel size threads schedule ≡ some w) × Delivers w.0 w.1
use_queue-Delivers fuel size threads schedule enough small short =
    let (w, e, good) = use_queue-IsGood fuel size threads schedule enough small short in
    (w, e, IsGood-Delivers w.0 w.1 good)

-- The same of a state that is given.
pub after-Delivers :
    (fuel size threads : ℕ) (schedule : Schedule Choice) (w : Queue × List Point)
    → 64 ≤ fuel
    → size ≤ 2 ^ 62
    → length schedule ≤ 2 ^ 62
    → use_queue fuel size threads schedule ≡ some w
    → Delivers w.0 w.1
after-Delivers fuel size threads schedule (q, ts) enough small short made =
    IsGood-Delivers q ts (after-IsGood fuel size threads schedule q ts enough small short made)

-- The ticket whose slot a thread reads or writes.
abbrev pub ticket : Point → Option ℕ
ticket (write b t) = some t
ticket (publish_write b t) = some t
ticket (read len h) = some h
ticket (publish_read len h out) = some h
ticket _ = none

ticket-uses : (p : Point) (t : ℕ) → ticket p ≡ some t → writes t p + reads t p ≡ 1
ticket-uses idle t e = cc
ticket-uses (load_tail b) t e = cc
ticket-uses (load_write_seq b u) t e = cc
ticket-uses (claim_tail b u) t e = cc
ticket-uses (write b u) t e = let same = of_some e in ground (arith, same)
ticket-uses (publish_write b u) t e = let same = of_some e in ground (arith, same)
ticket-uses (load_head len) t e = cc
ticket-uses (load_read_seq len h) t e = cc
ticket-uses (claim_head len h) t e = cc
ticket-uses (read len h) t e = let same = of_some e in ground (arith, same)
ticket-uses (publish_read len h out) t e = let same = of_some e in ground (arith, same)

module _ (q : Queue) (ts : List Point) (good : IsGood q ts) where
  -- A ticket that a thread uses is current, and one thread uses it.
  used :
      (t i : ℕ) (p : Point)
      → get_elem? ts i ≡ some p
      → ticket p ≡ some t
      → (t < q.tail) × (q.tail ≤ t + q.size) × (count (writes t) ts + count (reads t) ts ≡ 1)
  used t i p at mine =
      let one = ticket-uses p t mine in
      elim (dec_lt 0 (writes t p)) [
        | yes w ↦
            let (a, b, _, _, c, d) = writer_slot q ts good t i p at (omega arith) in
            (a, b, omega (arith, c, d))
        | no nw ↦
            let (a, b, _, _, c, d, _) = reader_slot q ts good t i p at (omega arith) in
            (a, b, omega (arith, c, d))
      ]

  slots-Differ :
      (i j t u : ℕ) (p p' : Point)
      → get_elem? ts i ≡ some p
      → get_elem? ts j ≡ some p'
      → i ≢ j
      → ticket p ≡ some t
      → ticket p' ≡ some u
      → index q t ≢ index q u
  slots-Differ i j t u p p' at at' ne mine yours =
      let (a, b, one) = used t i p at mine in
      let (c, d, _) = used u j p' at' yours in
      apart q ts good t u a b c d (λ same.
        let both_p = ticket-uses p t mine in
        let both_p' = ticket-uses p' t (yours ∙ ap some (sym same)) in
        omega (
          arith,
          both_p,
          both_p',
          count_two (writes t) ts i j p p' at at' ne,
          count_two (reads t) ts i j p p' at at' ne,
        ))

-- After any interleaving of at most 2 ^ 62 atomic steps, on a queue of at most 2 ^ 62 slots that was
-- made with 64 rounds of fuel or more: where two threads copy bytes into or out of a slot, or are about
-- to publish it, they have different slots.
pub use_queue-IsExclusive :
    (fuel size threads : ℕ) (schedule : Schedule Choice) (q : Queue) (ts : List Point)
    → 64 ≤ fuel
    → size ≤ 2 ^ 62
    → length schedule ≤ 2 ^ 62
    → use_queue fuel size threads schedule ≡ some (q, ts)
    → (i j t u : ℕ) (p p' : Point) → get_elem? ts i ≡ some p
    → get_elem? ts j ≡ some p'
    → i ≢ j
    → ticket p ≡ some t
    → ticket p' ≡ some u
    → index q t ≢ index q u
use_queue-IsExclusive fuel size threads schedule q ts enough small short made =
    slots-Differ q ts (after-IsGood fuel size threads schedule q ts enough small short made)
