-- ===== src/SharedBuffer/Mpmc/Write.antt =====
-- A producer that has claimed a ticket: it writes its block, and publishes the slot.
use universal_system_program.Prelude.{
  ℕ, ◌≤◌, ◌≡◌, ◌≢◌, refl, sym, ◌∙◌, subst, List, get_elem?, set, some, arith, ℕ_discrete,
}
use universal_system_program.Locks.Threads.{count_two}
use universal_system_program.SharedBuffer.Mpmc.{
  Queue, Block, write_block, Point, idle, load_tail, load_write_seq, claim_tail, write,
  publish_write, load_head, load_read_seq, claim_head, read, publish_read,
}
use universal_system_program.SharedBuffer.Mpmc.Invariant.{
  writes, reads, written, Knows, SlotOf, IsGood,
}
use universal_system_program.SharedBuffer.Mpmc.Slots.{
  writer_slot, apart, same_slot, count_same, Knows-next,
}

-- The thread `i` writes its block.
module _ (q : Queue) (ts : List Point) (good : IsGood q ts) (i : ℕ) (b : Block) (t : ℕ)
    (e : get_elem? ts i ≡ some (write b t)) where
  mine : 1 ≤ writes t (write b t)
  mine = ground arith

  -- Another producer has another slot.
  other_writer : (j : ℕ) (x : Point) → i ≢ j → get_elem? ts j ≡ some x → writes t x ≡ 0
  other_writer j x ne at = omega (
    arith,
    count_two (writes t) ts i j (write b t) x e at ne,
    (writer_slot q ts good t i _ e mine).4,
    mine,
  )

  write-Knows :
      (j : ℕ) (x : Point)
      → i ≢ j
      → get_elem? ts j ≡ some x
      → Knows q x
      → Knows (write_block b t q) x
  write-Knows j idle ne at k = k
  write-Knows j (load_tail c) ne at k = k
  write-Knows j (load_write_seq c u) ne at k = k
  write-Knows j (claim_tail c u) ne at k = k
  write-Knows j (write c u) ne at k = k
  write-Knows j (publish_write c u) ne at k =
      let (a1, a2, _, _, _, _) = writer_slot q ts good t i _ e mine in
      let (b1, b2, _, _, _, _) = writer_slot q ts good u j _ at (ground arith) in
      let differs : t ≢ u = λ same. ground (arith, other_writer j _ ne at) in
      let slots = apart q ts good t u a1 a2 b1 b2 differs in (k.0, ground (arith, k.1, slots))
  write-Knows j (load_head c) ne at k = k
  write-Knows j (load_read_seq c u) ne at k = k
  write-Knows j (claim_head c u) ne at k = k
  write-Knows j (read c u) ne at k = k
  write-Knows j (publish_read c u o) ne at k = k

  pub write_block-IsGood : IsGood (write_block b t q) (set ts i (publish_write b t))
  write_block-IsGood =
      let (a1, a2, a3, a4, a5, a6) = writer_slot q ts good t i _ e mine in
      let w = λ (u : ℕ). count_same q ts good i (write b t) (publish_write b t) e (writes u) refl in
      let r = λ (u : ℕ). count_same q ts good i (write b t) (publish_write b t) e (reads u) refl in
      record {
        wide = good.wide;
        short = good.short;
        near = good.near;
        around = good.around;
        counted = good.counted;
        narrow = good.narrow;
        order = good.order;
        current = λ u c d. elim (ℕ_discrete u t) [
          | yes same ↦
              subst (SlotOf (write_block b t q) (set ts i (publish_write b t))) (sym same)
                (written a4 (w t ∙ a5) (r t ∙ a6) a3)
          | no ne ↦
              let slots = apart q ts good u t c d a1 a2 ne in
              same_slot (good.current u c d) refl (w u) (r u) (ground (arith, slots)) refl
        ];
        unused = good.unused;
        future = λ u a. rw (w u, r u) (good.future u a);
        past = λ u a. rw (w u, r u) (good.past u a);
        knows =
            Knows-next q ts good i (write b t) (publish_write b t) e (write_block b t q)
              (good.knows i (write b t) e, ground arith)
              (λ j x ne at. write-Knows j x ne at (good.knows j x at));
        received = good.received;
        once = λ u. rw (r u) (good.once u);
      }
