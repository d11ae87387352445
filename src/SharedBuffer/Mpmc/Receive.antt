-- ===== src/SharedBuffer/Mpmc/Receive.antt =====
-- A consumer gives the slot that it has read back to the producers.
use universal_system_program.Prelude.{
  ℕ, ◌+◌, ◌≤◌, ◌≡◌, ◌≢◌, refl, sym, ◌∙◌, subst, List, get_elem?, set, some, arith, ℕ_discrete,
}
use universal_system_program.Locks.Threads.{count, count-set}
use universal_system_program.SharedBuffer.Mpmc.{
  Queue, Block, index, add64, publish, receive, Point, idle, load_tail, load_write_seq, claim_tail,
  write, publish_write, load_head, load_read_seq, claim_head, read, publish_read,
}
use universal_system_program.SharedBuffer.Mpmc.Invariant.{
  writes, reads, free, Knows, SlotOf, IsGood,
}
use universal_system_program.SharedBuffer.Mpmc.Slots.{
  reader_slot, apart, same_slot, tail_bound, unused_apart, oldest, count_same, Knows-next,
}

-- The thread `i` stores the number of its slot, for the next round of tickets.
module _ (q : Queue) (ts : List Point) (good : IsGood q ts) (i len h : ℕ) (out : Block)
    (e : get_elem? ts i ≡ some (publish_read len h out)) where
  mine : 1 ≤ reads h (publish_read len h out)
  mine = ground arith

  abbrev given_back : Queue
  given_back = receive len h out (publish (index q h) (add64 h q.size) q)

  no_wrap : add64 h q.size ≡ h + q.size
  no_wrap = omega (arith, (reader_slot q ts good h i _ e mine).0, good.narrow, good.short)

  abbrev after : List Point
  after = set ts i idle

  writes-after : (u : ℕ) → count (writes u) after ≡ count (writes u) ts
  writes-after u = count_same q ts good i (publish_read len h out) idle e (writes u) refl

  reads-after : (u : ℕ) → u ≢ h → count (reads u) after ≡ count (reads u) ts
  reads-after u ne = count_same q ts good i (publish_read len h out) idle e (reads u) (ground arith)

  reads_mine : count (reads h) after ≡ 0
  reads_mine =
      let change = count-set (reads h) ts i (publish_read len h out) idle e in
      let one = (reader_slot q ts good h i _ e mine).5 in ground (arith, change, one)

  receive-Knows : (x : Point) → Knows q x → Knows given_back x
  receive-Knows idle k = k
  receive-Knows (load_tail c) k = k
  receive-Knows (load_write_seq c u) k = k
  receive-Knows (claim_tail c u) k =
      let (a1, a2, a3, a4, a5, a6, a7) = reader_slot q ts good h i _ e mine in
      (
        k.0,
        λ now.
            let old = oldest q ts good h a1 a2 in
            let wide = good.wide in ground (arith, k.1 now, old, now, no_wrap),
      )
  receive-Knows (write c u) k = k
  receive-Knows (publish_write c u) k = k
  receive-Knows (load_head c) k = k
  receive-Knows (load_read_seq c u) k = k
  receive-Knows (claim_head c u) k =
      let (a1, a2, a3, a4, a5, a6, a7) = reader_slot q ts good h i _ e mine in
      (
        k.0,
        λ now.
            let (below, seq) = k.1 now in
            let recent = tail_bound q ts good in
            let differs : h ≢ u = λ same. omega arith in
            let slots = apart q ts good h u a1 a2 below (omega arith) differs in
            (below, ground (arith, seq, slots)),
      )
  receive-Knows (read c u) k = k
  receive-Knows (publish_read c u o) k = k

  pub publish_read-IsGood : IsGood given_back after
  publish_read-IsGood =
      let (a1, a2, a3, a4, a5, a6, a7) = reader_slot q ts good h i _ e mine in
      record {
        wide = good.wide;
        short = good.short;
        near = good.near;
        around = good.around;
        counted = good.counted;
        narrow = good.narrow;
        order = good.order;
        current = λ u c d. elim (ℕ_discrete u h) [
          | yes same ↦
              subst (SlotOf given_back after) (sym same)
                (free (ground (arith, no_wrap)) (writes-after h ∙ a5) reads_mine a3)
          | no ne ↦
              let slots = apart q ts good u h c d a1 a2 ne in
              same_slot (good.current u c d) (ground (arith, slots)) (writes-after u)
                (reads-after u ne) refl refl
        ];
        unused = λ u c d.
            let slots = unused_apart q ts good h u a1 c d in
            ground (arith, slots, good.unused u c d);
        future = λ u c. rw (writes-after u, reads-after u (λ same. omega arith)) (good.future u c);
        past = λ u c. rw (writes-after u, reads-after u (λ same. omega arith)) (good.past u c);
        knows =
            Knows-next q ts good i (publish_read len h out) idle e given_back tt
              (λ j x ne at. receive-Knows x (good.knows j x at));
        received = ((a3, good.knows i (publish_read len h out) e), good.received);
        once = λ u.
            let change = count-set (reads u) ts i (publish_read len h out) idle e in
            omega (arith, good.once u, change);
      }
