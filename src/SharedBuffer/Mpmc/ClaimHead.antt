-- ===== src/SharedBuffer/Mpmc/ClaimHead.antt =====
-- A consumer claims a ticket: the compare-and-swap on `head_`.
use universal_system_program.Prelude.{
  ℕ, ◌+◌, ◌<◌, ◌≡◌, ◌≢◌, refl, sym, ◌∙◌, subst, List, if◌then◌else◌, ltb, get_elem?, set, some,
  arith, ℕ_discrete,
}
use universal_system_program.Locks.Threads.{count, count-set}
use universal_system_program.SharedBuffer.Mpmc.{
  Queue, index, add64, Point, idle, load_tail, load_write_seq, claim_tail, write, publish_write,
  load_head, load_read_seq, claim_head, read, publish_read,
}
use universal_system_program.SharedBuffer.Mpmc.Invariant.{
  writes, reads, written, full, being_read, free, Knows, SlotOf, times, IsGood,
}
use universal_system_program.SharedBuffer.Mpmc.Slots.{tail_bound, count_same, Knows-next}
use universal_system_program.SharedBuffer.Mpmc.ClaimTail.{AllSent-later}

-- The thread `i` finds its ticket next.
module _ (q : Queue) (ts : List Point) (good : IsGood q ts) (i len h : ℕ)
    (e : get_elem? ts i ≡ some (claim_head len h)) (now : q.head ≡ h) where
  abbrev claimed : Queue
  claimed = record q { head = add64 h 1 }

  abbrev after : List Point
  after = set ts i (read len h)

  full_slot : (h < q.tail) × (q.seq (index q h) ≡ h + 1)
  full_slot = (good.knows i (claim_head len h) e).1 now

  no_wrap : add64 h 1 ≡ h + 1
  no_wrap = omega (arith, full_slot.0, good.narrow)

  writes-after : (u : ℕ) → count (writes u) after ≡ count (writes u) ts
  writes-after u = count_same q ts good i (claim_head len h) (read len h) e (writes u) refl

  reads-after : (u : ℕ) → u ≢ h → count (reads u) after ≡ count (reads u) ts
  reads-after u ne =
      count_same q ts good i (claim_head len h) (read len h) e (reads u) (ground arith)

  reads_mine : count (reads h) after ≡ count (reads h) ts + 1
  reads_mine =
      let change = count-set (reads h) ts i (claim_head len h) (read len h) e in
      ground (arith, change)

  -- The slot of the ticket goes over to this thread; the others are where they were.
  slot_mine : SlotOf q ts h → SlotOf claimed after h
  slot_mine (written s w r o) = absurd (omega (arith, s, full_slot.1))
  slot_mine (full s w r o d) =
      being_read s (writes-after h ∙ w) (omega (arith, reads_mine, r)) (omega (arith, no_wrap)) d
  slot_mine (being_read s w r o d) = absurd (omega arith)
  slot_mine (free s w r o) = absurd (omega arith)

  slot_other : (u : ℕ) → u ≢ h → SlotOf q ts u → SlotOf claimed after u
  slot_other u ne (written s w r o) =
      written s (writes-after u ∙ w) (reads-after u ne ∙ r) (omega (arith, no_wrap))
  slot_other u ne (full s w r o d) =
      full s (writes-after u ∙ w) (reads-after u ne ∙ r) (omega (arith, no_wrap)) d
  slot_other u ne (being_read s w r o d) =
      being_read s (writes-after u ∙ w) (reads-after u ne ∙ r) (omega (arith, no_wrap)) d
  slot_other u ne (free s w r o) =
      free s (writes-after u ∙ w) (reads-after u ne ∙ r) (omega (arith, no_wrap))

  claim-Knows : (x : Point) → Knows q x → Knows claimed x
  claim-Knows idle k = k
  claim-Knows (load_tail c) k = k
  claim-Knows (load_write_seq c u) k = k
  claim-Knows (claim_tail c u) k = k
  claim-Knows (write c u) k = k
  claim-Knows (publish_write c u) k = k
  claim-Knows (load_head c) k = k
  claim-Knows (load_read_seq c u) k = omega (arith, no_wrap)
  claim-Knows (claim_head c u) k =
      (omega (arith, no_wrap, k.0), λ later. absurd (omega (arith, no_wrap, k.0)))
  claim-Knows (read c u) k = k
  claim-Knows (publish_read c u o) k = k

  pub claim_head-IsGood : IsGood claimed after
  claim_head-IsGood =
      let recent = tail_bound q ts good in
      record {
        wide = good.wide;
        short = good.short;
        near = good.near;
        around = good.around;
        counted = good.counted;
        narrow = good.narrow;
        order = omega (arith, full_slot.0, no_wrap);
        current = λ u c d. elim (ℕ_discrete u h) [
          | yes same ↦
              subst (SlotOf claimed after) (sym same)
                (slot_mine (good.current h full_slot.0 (omega arith)))
          | no ne ↦ slot_other u ne (good.current u c d)
        ];
        unused = good.unused;
        future = λ u c.
            rw (writes-after u, reads-after u (λ same. omega (arith, full_slot.0)))
              (good.future u c);
        past = λ u c.
            let old = good.past u c in
            (
              writes-after u ∙ old.0,
              reads-after u (λ same. omega arith) ∙ old.1,
              omega (arith, no_wrap),
            );
        knows =
            Knows-next q ts good i (claim_head len h) (read len h) e claimed tt
              (λ j x ne at. claim-Knows x (good.knows j x at));
        received =
            AllSent-later q claimed q.received (λ u below. (omega (arith, no_wrap), refl))
              good.received;
        once = λ u. elim (ℕ_discrete u h) [
          | yes same ↦
              subst
                (λ v.
                  times v q.received + count (reads v) after ≡ (if ltb v (add64 h 1) then 1 else 0))
                (sym same) (let before = good.once h in ground (arith, before, reads_mine, no_wrap))
          | no ne ↦
              let before = good.once u in
              let same_reads = reads-after u ne in ground (arith, before, same_reads, no_wrap)
        ];
      }
