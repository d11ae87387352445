-- ===== src/SharedBuffer/Mpmc/Publish.antt =====
-- A producer publishes the slot that it has written.
use universal_system_program.Prelude.{
  ℕ, ◌+◌, ◌≤◌, ◌≡◌, ◌≢◌, refl, ap, sym, ◌∙◌, subst, List, get_elem?, set, some, arith, ℕ_discrete,
}
use universal_system_program.Locks.Threads.{count, count-set}
use universal_system_program.SharedBuffer.Mpmc.{
  Queue, Block, index, add64, publish, Point, idle, load_tail, load_write_seq, claim_tail, write,
  publish_write, load_head, load_read_seq, claim_head, read, publish_read,
}
use universal_system_program.SharedBuffer.Mpmc.Invariant.{
  writes, reads, full, Knows, SlotOf, IsGood,
}
use universal_system_program.SharedBuffer.Mpmc.Slots.{
  writer_slot, apart, same_slot, tail_bound, unused_apart, oldest, count_same, Knows-next,
}

-- The thread `i` stores the number of its slot.
module _ (q : Queue) (ts : List Point) (good : IsGood q ts) (i : ℕ) (b : Block) (t : ℕ)
    (e : get_elem? ts i ≡ some (publish_write b t)) where
  mine : 1 ≤ writes t (publish_write b t)
  mine = ground arith

  abbrev published : Queue
  published = publish (index q t) (add64 t 1) q

  no_wrap : add64 t 1 ≡ t + 1
  no_wrap = omega (arith, (writer_slot q ts good t i _ e mine).0, good.narrow)

  abbrev after : List Point
  after = set ts i idle

  writes-after : (u : ℕ) → u ≢ t → count (writes u) after ≡ count (writes u) ts
  writes-after u ne = count_same q ts good i (publish_write b t) idle e (writes u) (ground arith)

  reads-after : (u : ℕ) → count (reads u) after ≡ count (reads u) ts
  reads-after u = count_same q ts good i (publish_write b t) idle e (reads u) refl

  writes_mine : count (writes t) after ≡ 0
  writes_mine =
      let change = count-set (writes t) ts i (publish_write b t) idle e in
      let one = (writer_slot q ts good t i _ e mine).4 in ground (arith, change, one)

  publish-Knows : (x : Point) → Knows q x → Knows published x
  publish-Knows idle k = k
  publish-Knows (load_tail c) k = k
  publish-Knows (load_write_seq c u) k = k
  publish-Knows (claim_tail c u) k =
      let (a1, a2, a3, a4, a5, a6) = writer_slot q ts good t i _ e mine in
      (
        k.0,
        λ now.
            let old = oldest q ts good t a1 a2 in
            let wide = good.wide in ground (arith, k.1 now, old, now),
      )
  publish-Knows (write c u) k = k
  publish-Knows (publish_write c u) k = k
  publish-Knows (load_head c) k = k
  publish-Knows (load_read_seq c u) k = k
  publish-Knows (claim_head c u) k =
      let (a1, a2, a3, a4, a5, a6) = writer_slot q ts good t i _ e mine in
      (
        k.0,
        λ now.
            let (below, seq) = k.1 now in
            let recent = tail_bound q ts good in
            let differs : t ≢ u = λ same. omega (arith, seq, a4, ap q.seq (ap (index q) same)) in
            let slots = apart q ts good t u a1 a2 below (omega arith) differs in
            (below, ground (arith, seq, slots)),
      )
  publish-Knows (read c u) k = k
  publish-Knows (publish_read c u o) k = k

  pub publish_write-IsGood : IsGood published after
  publish_write-IsGood =
      let (a1, a2, a3, a4, a5, a6) = writer_slot q ts good t i _ e mine in
      let (k1, k2) = good.knows i (publish_write b t) e in
      record {
        wide = good.wide;
        short = good.short;
        near = good.near;
        around = good.around;
        counted = good.counted;
        narrow = good.narrow;
        order = good.order;
        current = λ u c d. elim (ℕ_discrete u t) [
          | yes same ↦
              subst (SlotOf published after) (sym same)
                (full (ground (arith, no_wrap)) writes_mine (reads-after t ∙ a6) a3 (k2 ∙ sym k1))
          | no ne ↦
              let slots = apart q ts good u t c d a1 a2 ne in
              same_slot (good.current u c d) (ground (arith, slots)) (writes-after u ne)
                (reads-after u) refl refl
        ];
        unused = λ u c d.
            let slots = unused_apart q ts good t u a1 c d in
            ground (arith, slots, good.unused u c d);
        future = λ u c. rw (writes-after u (λ same. omega arith), reads-after u) (good.future u c);
        past = λ u c. rw (writes-after u (λ same. omega arith), reads-after u) (good.past u c);
        knows =
            Knows-next q ts good i (publish_write b t) idle e published tt
              (λ j x ne at. publish-Knows x (good.knows j x at));
        received = good.received;
        once = λ u. rw (reads-after u) (good.once u);
      }
