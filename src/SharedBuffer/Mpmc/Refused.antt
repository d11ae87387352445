-- ===== src/SharedBuffer/Mpmc/Refused.antt =====
-- What it means that `enqueue` or `dequeue` returns -1.
use universal_system_program.Prelude.{
  ℕ, zero, suc, ◌+◌, ◌-◌, ◌^◌, ◌≤◌, ◌<◌, ◌≡◌, ◌⊎◌, inl, inr, refl, ap, sym, ◌∙◌, subst, true, List,
  ◌==◌, length, get_elem?, some, arith, dec_lt,
}
use universal_system_program.Locks.Threads.{Schedule, count}
use universal_system_program.SharedBuffer.Mpmc.{
  Queue, Block, index, add64, is_behind, Point, idle, load_write_seq, load_read_seq, compare_write,
  compare_read, Choice, act, use_queue,
}
use universal_system_program.SharedBuffer.Mpmc.Invariant.{
  writes, reads, written, full, being_read, free, SlotOf, IsGood,
}
use universal_system_program.SharedBuffer.Mpmc.Slots.{tail_bound}
use universal_system_program.SharedBuffer.Mpmc.Keep.{if-cases}
use universal_system_program.SharedBuffer.Mpmc.Start.{after-IsGood}

-- A call that ends at the comparison found its slot's number behind.
compare_write-idle : (b : Block) (t seq : ℕ) → compare_write b t seq ≡ idle → is_behind seq t ≡ true
compare_write-idle b t seq =
    if-cases (λ (p : Point). p ≡ idle → is_behind seq t ≡ true) (seq == t) _ _ (λ same e. cc)
      (λ ne.
        if-cases (λ (p : Point). p ≡ idle → is_behind seq t ≡ true) (is_behind seq t) _ _
          (λ late e. late) (λ ahead e. cc))

compare_read-idle :
    (len h seq : ℕ) → compare_read len h seq ≡ idle → is_behind seq (add64 h 1) ≡ true
compare_read-idle len h seq =
    if-cases (λ (p : Point). p ≡ idle → is_behind seq (add64 h 1) ≡ true) (seq == add64 h 1) _ _
      (λ same e. cc)
      (λ ne.
        if-cases (λ (p : Point). p ≡ idle → is_behind seq (add64 h 1) ≡ true)
          (is_behind seq (add64 h 1)) _ _ (λ late e. late) (λ ahead e. cc))

behind : (seq t : ℕ) → seq < 2 ^ 63 → t ≤ 2 ^ 63 → is_behind seq t ≡ true → seq < t
behind seq t small small_t e = ground arith

module _ (q : Queue) (ts : List Point) (good : IsGood q ts) where
  -- The last ticket that was given a slot.
  latest :
      (rounds t : ℕ)
      → t < q.tail
      → q.tail ≤ t + rounds
      → (u : ℕ) × (t ≤ u) × (u < q.tail) × (q.tail ≤ u + q.size) × (index q u ≡ index q t)
  latest zero t below bound = absurd (omega arith)
  latest (suc rounds) t below bound = elim (dec_lt (t + q.size) q.tail) [
    | yes older ↦
        let (u, le, lt, ge, same) = latest rounds (t + q.size) older (omega (arith, good.wide)) in
        (u, omega arith, lt, ge, same ∙ good.around t)
    | no recent ↦ (t, omega arith, below, omega arith, refl)
  ]

  seq_bounds :
      (u s : ℕ) → u < q.tail → q.seq (index q u) ≡ s → SlotOf q ts u → (u ≤ s) × (s < 2 ^ 63)
  seq_bounds u s lt e (written a w r o) = (omega arith, omega (arith, good.narrow))
  seq_bounds u s lt e (full a w r o d) = (omega arith, omega (arith, good.narrow))
  seq_bounds u s lt e (being_read a w r o d) = (omega arith, omega (arith, good.narrow))
  seq_bounds u s lt e (free a w r o) = (omega arith, omega (arith, good.narrow, good.short))

  -- A slot's number is never behind a ticket that was claimed.
  claimed_seq : (t : ℕ) → t < q.tail → (t ≤ q.seq (index q t)) × (q.seq (index q t) < 2 ^ 63)
  claimed_seq t below =
      let (u, le, lt, ge, same) = latest q.tail t below (omega arith) in
      let (low, high) = seq_bounds u (q.seq (index q u)) lt refl (good.current u lt ge) in
      (omega (arith, ap q.seq same), omega (arith, ap q.seq same))

  -- A producer gives up: the ticket is the next, and the one a ring before it still has the slot.
  full_slot :
      (u : ℕ)
      → u + q.size ≡ q.tail
      → q.seq (index q u) < q.tail
      → SlotOf q ts u
      → (q.tail ≡ q.head + q.size) ⊎ (count (reads u) ts ≡ 1)
  full_slot u round late (written s w r o) = inl (omega (arith, tail_bound q ts good))
  full_slot u round late (full s w r o d) = inl (omega (arith, tail_bound q ts good))
  full_slot u round late (being_read s w r o d) = inr r
  full_slot u round late (free s w r o) = absurd (omega arith)

  compare_write-Full :
      (b : Block) (t : ℕ)
      → t ≤ q.tail
      → compare_write b t (q.seq (index q t)) ≡ idle
      → (t ≡ q.tail)
        × (u : ℕ) × (u + q.size ≡ t)
        × ((q.tail ≡ q.head + q.size) ⊎ (count (reads u) ts ≡ 1))
  compare_write-Full b t le e =
      let late = compare_write-idle b t (q.seq (index q t)) e in
      let now : t ≡ q.tail = elim (dec_lt t q.tail) [
        | yes below ↦
            let (low, high) = claimed_seq t below in
            absurd
              (omega (arith, behind (q.seq (index q t)) t high (omega (arith, good.narrow)) late))
        | no ge ↦ omega arith
      ] in
      elim (dec_lt t q.size) [
        | yes small ↦ absurd (
            let same = good.unused t (omega arith) small in
            omega (
              arith,
              behind (q.seq (index q t)) t (omega (arith, same, good.narrow))
                  (omega (arith, good.narrow)) late,
            ))
        | no wide ↦
            let u = t - q.size in
            let round : u + q.size ≡ t = omega arith in
            let same : index q t ≡ index q u = ap (index q) (sym round) ∙ good.around u in
            let slot = good.current u (omega (arith, good.wide)) (omega arith) in
            let (low, high) =
              seq_bounds u (q.seq (index q u)) (omega (arith, good.wide)) refl slot in
            let low_seq =
              behind (q.seq (index q t)) t (omega (arith, ap q.seq same))
                (omega (arith, good.narrow)) late in
            (now, u, round, full_slot u (omega arith) (omega (arith, ap q.seq same)) slot)
      ]

  -- A taken ticket's slot has moved on.
  taken_slot : (h : ℕ) → h < q.head → SlotOf q ts h → h + 1 ≤ q.seq (index q h)
  taken_slot h below (written s w r o) = absurd (omega arith)
  taken_slot h below (full s w r o d) = absurd (omega arith)
  taken_slot h below (being_read s w r o d) = omega arith
  taken_slot h below (free s w r o) = omega (arith, good.wide)

  taken_seq : (h : ℕ) → h < q.head → h + 1 ≤ q.seq (index q h)
  taken_seq h below =
      let (u, le, lt, ge, same) = latest q.tail h (omega (arith, good.order)) (omega arith) in
      let slot = good.current u lt ge in
      elim (dec_lt h u) [
        | yes later ↦
            let (low, high) = seq_bounds u (q.seq (index q u)) lt refl slot in
            omega (arith, ap q.seq same)
        | no only ↦
            let eq_u : u ≡ h = omega arith in taken_slot h below (subst (SlotOf q ts) eq_u slot)
      ]

  unwritten_slot :
      (h : ℕ) → q.head ≡ h → q.seq (index q h) < h + 1 → SlotOf q ts h → count (writes h) ts ≡ 1
  unwritten_slot h now late (written s w r o) = w
  unwritten_slot h now late (full s w r o d) = absurd (omega arith)
  unwritten_slot h now late (being_read s w r o d) = absurd (omega arith)
  unwritten_slot h now late (free s w r o) = absurd (omega arith)

  compare_read-Empty :
      (len h : ℕ)
      → h ≤ q.head
      → compare_read len h (q.seq (index q h)) ≡ idle
      → (h ≡ q.head) × ((q.head ≡ q.tail) ⊎ (count (writes h) ts ≡ 1))
  compare_read-Empty len h le e =
      let no_wrap : add64 h 1 ≡ h + 1 = omega (arith, good.order, good.narrow) in
      let late : is_behind (q.seq (index q h)) (h + 1) ≡ true =
        subst (λ n. is_behind (q.seq (index q h)) n ≡ true) no_wrap
          (compare_read-idle len h (q.seq (index q h)) e) in
      elim (dec_lt h q.tail) [
        | yes below ↦
            let (low, high) = claimed_seq h below in
            let low_seq =
              behind (q.seq (index q h)) (h + 1) high (omega (arith, good.narrow)) late in
            let now : h ≡ q.head = elim (dec_lt h q.head) [
              | yes taken ↦ absurd (omega (arith, taken_seq h taken))
              | no ge ↦ omega arith
            ] in
            (
              now,
              inr (
                  unwritten_slot h (sym now) low_seq
                    (good.current h below (omega (arith, tail_bound q ts good)))),
            )
        | no ge ↦ (omega (arith, good.order), inl (omega (arith, good.order)))
      ]

-- A queue of at most 2 ^ 62 slots that was made with 64 rounds of fuel or more, after any interleaving
-- of at most 2 ^ 62 atomic steps: where a producer is about to compare its slot's number and its next
-- step ends the call (`enqueue` returns -1), its ticket is the next one, and every slot is claimed
-- or a consumer still reads the slot of the ticket one ring before.
pub enqueue-Full :
    (fuel size threads : ℕ) (schedule : Schedule Choice) (q : Queue) (ts : List Point)
    → 64 ≤ fuel
    → size ≤ 2 ^ 62
    → length schedule ≤ 2 ^ 62
    → use_queue fuel size threads schedule ≡ some (q, ts)
    → (i : ℕ) (c : Choice) (b : Block) (t : ℕ) → get_elem? ts i ≡ some (load_write_seq b t)
    → (act c q (load_write_seq b t)).1 ≡ idle
    → (t ≡ q.tail)
      × (u : ℕ) × (u + q.size ≡ t)
      × ((q.tail ≡ q.head + q.size) ⊎ (count (reads u) ts ≡ 1))
enqueue-Full fuel size threads schedule q ts enough small short made i c b t at ended =
    let good = after-IsGood fuel size threads schedule q ts enough small short made in
    compare_write-Full q ts good b t (good.knows i (load_write_seq b t) at) ended

-- Under the same conditions, where a consumer is about to compare its slot's number and its next step
-- ends the call (`dequeue` returns -1): its ticket is the next one, and nothing is in the queue or a
-- producer still writes the slot of that ticket.
pub dequeue-Empty :
    (fuel size threads : ℕ) (schedule : Schedule Choice) (q : Queue) (ts : List Point)
    → 64 ≤ fuel
    → size ≤ 2 ^ 62
    → length schedule ≤ 2 ^ 62
    → use_queue fuel size threads schedule ≡ some (q, ts)
    → (i : ℕ) (c : Choice) (len h : ℕ) → get_elem? ts i ≡ some (load_read_seq len h)
    → (act c q (load_read_seq len h)).1 ≡ idle
    → (h ≡ q.head) × ((q.head ≡ q.tail) ⊎ (count (writes h) ts ≡ 1))
dequeue-Empty fuel size threads schedule q ts enough small short made i c len h at ended =
    let good = after-IsGood fuel size threads schedule q ts enough small short made in
    compare_read-Empty q ts good len h (good.knows i (load_read_seq len h) at) ended
