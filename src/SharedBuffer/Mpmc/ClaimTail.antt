-- ===== src/SharedBuffer/Mpmc/ClaimTail.antt =====
-- A producer claims a ticket: the compare-and-swap on `tail_`.
use universal_system_program.Prelude.{
  ℕ, suc, ◌+◌, ◌^◌, ◌≤◌, ◌<◌, ◌≡◌, ◌≢◌, refl, ap, sym, ◌∙◌, subst, List, [], ◌∷◌, get_elem?, set,
  some, arith, ℕ_discrete, dec_lt, take,
}
use universal_system_program.Locks.Threads.{count, count-set}
use universal_system_program.SharedBuffer.Mpmc.{
  Queue, Block, index, update, add64, Point, idle, load_tail, load_write_seq, claim_tail, write,
  publish_write, load_head, load_read_seq, claim_head, read, publish_read,
}
use universal_system_program.SharedBuffer.Mpmc.Invariant.{
  writes, reads, written, full, being_read, free, Knows, SlotOf, AllSent, IsGood,
}
use universal_system_program.SharedBuffer.Mpmc.Slots.{
  writer_slot, reader_slot, same_slot, count_same, Knows-next,
}

-- What was received stays as it was sent, where tickets that were taken keep their blocks.
pub AllSent-later :
    (q q' : Queue) (xs : List (ℕ × ℕ × Block))
    → ((h : ℕ) → h < q.head → (h < q'.head) × (q'.sent h ≡ q.sent h))
    → AllSent q xs
    → AllSent q' xs
AllSent-later q q' [] keep hs = tt
AllSent-later q q' ((h, len, out) ∷ xs) keep hs =
    let (below, same) = keep h hs.0.0 in
    ((below, hs.0.1 ∙ ap (take len) (sym same)), AllSent-later q q' xs keep hs.1)

-- The thread `i` finds its ticket next, and the count of blocks sent stays small.
module _ (q : Queue) (ts : List Point) (good : IsGood q ts) (i : ℕ) (b : Block) (t : ℕ)
    (e : get_elem? ts i ≡ some (claim_tail b t)) (now : q.tail ≡ t)
    (few : suc q.sent_count ≤ 2 ^ 62) where
  abbrev claimed : Queue
  claimed = record q {
    tail = add64 t 1;
    sent = update q.sent q.sent_count b;
    sent_count = suc q.sent_count;
  }

  abbrev after : List Point
  after = set ts i (write b t)

  no_wrap : add64 t 1 ≡ t + 1
  no_wrap = omega (arith, now, good.narrow)

  slot_number : q.seq (index q t) ≡ t
  slot_number = (good.knows i (claim_tail b t) e).1 now

  sent_same : (u : ℕ) → u ≢ t → claimed.sent u ≡ q.sent u
  sent_same u ne = ground (arith, good.counted, now)

  sent_mine : claimed.sent t ≡ b
  sent_mine = ground (arith, good.counted, now)

  writes-after : (u : ℕ) → u ≢ t → count (writes u) after ≡ count (writes u) ts
  writes-after u ne =
      count_same q ts good i (claim_tail b t) (write b t) e (writes u) (ground arith)

  reads-after : (u : ℕ) → count (reads u) after ≡ count (reads u) ts
  reads-after u = count_same q ts good i (claim_tail b t) (write b t) e (reads u) refl

  writes_mine : count (writes t) after ≡ 1
  writes_mine =
      let change = count-set (writes t) ts i (claim_tail b t) (write b t) e in
      let zero_before = (good.future t (omega arith)).0 in ground (arith, change, zero_before)

  -- The ticket that had the slot a round before was taken and read.
  last_round :
      (u : ℕ)
      → u + q.size ≡ t
      → SlotOf q ts u
      → (count (writes u) ts ≡ 0) × (count (reads u) ts ≡ 0) × (u < q.head)
  last_round u round slot = of_slot slot (sym (good.around u) ∙ ap (index q) round)
    where
      of_slot :
          SlotOf q ts u
          → index q u ≡ index q t
          → (count (writes u) ts ≡ 0) × (count (reads u) ts ≡ 0) × (u < q.head)
      of_slot (written s w r o) same = absurd (omega (arith, ap q.seq same, slot_number, good.wide))
      of_slot (full s w r o d) same = absurd (omega (arith, ap q.seq same, slot_number, good.wide))
      of_slot (being_read s w r o d) same =
          absurd (omega (arith, ap q.seq same, slot_number, good.wide))
      of_slot (free s w r o) same = (w, r, o)

  claim-Knows : (j : ℕ) (x : Point) → get_elem? ts j ≡ some x → Knows q x → Knows claimed x
  claim-Knows j idle at k = k
  claim-Knows j (load_tail c) at k = k
  claim-Knows j (load_write_seq c u) at k = omega (arith, no_wrap)
  claim-Knows j (claim_tail c u) at k =
      (omega (arith, no_wrap), λ later. absurd (omega (arith, no_wrap)))
  claim-Knows j (write c u) at k =
      let (a1, _, _, _, _, _) = writer_slot q ts good u j _ at (ground arith) in
      sent_same u (λ same. omega arith) ∙ k
  claim-Knows j (publish_write c u) at k =
      let (a1, _, _, _, _, _) = writer_slot q ts good u j _ at (ground arith) in
      (sent_same u (λ same. omega arith) ∙ k.0, k.1)
  claim-Knows j (load_head c) at k = k
  claim-Knows j (load_read_seq c u) at k = k
  claim-Knows j (claim_head c u) at k =
      (k.0, λ next. let (below, seq) = k.1 next in (omega (arith, no_wrap), seq))
  claim-Knows j (read c u) at k = k
  claim-Knows j (publish_read c u o) at k =
      let (a1, _, _, _, _, _, _) = reader_slot q ts good u j _ at (ground arith) in
      k ∙ ap (take c) (sym (sent_same u (λ same. omega arith)))

  pub claim_tail-IsGood : IsGood claimed after
  claim_tail-IsGood = record {
    wide = good.wide;
    short = good.short;
    near = good.near;
    around = good.around;
    counted = omega (arith, good.counted, no_wrap);
    narrow = omega (arith, good.counted, no_wrap);
    order = omega (arith, good.order, no_wrap);
    current = λ u c d. elim (ℕ_discrete u t) [
      | yes same ↦ subst (SlotOf claimed after) (sym same) (
          written slot_number writes_mine (reads-after t ∙ (good.future t (omega arith)).1)
            (omega (arith, good.order)))
      | no ne ↦
          same_slot (good.current u (omega (arith, no_wrap)) (omega (arith, no_wrap))) refl
            (writes-after u ne) (reads-after u) refl (sent_same u ne)
    ];
    unused = λ u c d. good.unused u (omega (arith, no_wrap)) d;
    future = λ u c.
        rw (writes-after u (λ same. omega (arith, no_wrap)), reads-after u)
          (good.future u (omega (arith, no_wrap)));
    past = λ u c. rw (writes-after u (λ same. omega (arith, no_wrap)), reads-after u) (older u c);
    knows =
        Knows-next q ts good i (claim_tail b t) (write b t) e claimed sent_mine
          (λ j x ne at. claim-Knows j x at (good.knows j x at));
    received =
        AllSent-later q claimed q.received
          (λ h below. (below, sent_same h (λ same. omega (arith, good.order)))) good.received;
    once = λ u. rw (reads-after u) (good.once u);
  }
    where
      older :
          (u : ℕ)
          → u + q.size < add64 t 1
          → (count (writes u) ts ≡ 0) × (count (reads u) ts ≡ 0) × (u < q.head)
      older u c = elim (dec_lt (u + q.size) q.tail) [
        | yes lt ↦ good.past u lt
        | no ge ↦
            last_round u (omega (arith, no_wrap))
              (good.current u (omega (arith, no_wrap, good.wide)) (omega arith))
      ]
