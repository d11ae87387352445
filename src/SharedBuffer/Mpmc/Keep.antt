-- ===== src/SharedBuffer/Mpmc/Keep.antt =====
-- Every atomic step of a call of `enqueue` or of `dequeue` keeps the invariant.
use universal_system_program.Prelude.{
  ℕ, suc, ◌+◌, ◌-◌, ◌^◌, ◌≤◌, ◌<◌, ◌≡◌, refl, ap, sym, ◌∙◌, Bool, true, false, ◌&&◌, if◌then◌else◌,
  ◌==◌, List, get_elem?, set, some, arith, dec_lt, take, ==_iff,
}
use universal_system_program.SharedBuffer.Mpmc.{
  Queue, Block, index, add64, is_behind, Point, idle, load_tail, load_write_seq, claim_tail, write,
  publish_write, load_head, load_read_seq, claim_head, read, publish_read, Choice, enqueue, dequeue,
  go, fail, may_swap, begin, compare_write, swap_tail, compare_read, swap_head, act,
}
use universal_system_program.SharedBuffer.Mpmc.Invariant.{
  written, full, being_read, free, SlotOf, IsGood,
}
use universal_system_program.SharedBuffer.Mpmc.Slots.{reader_slot, IsGood-quiet}
use universal_system_program.SharedBuffer.Mpmc.ClaimTail.{claim_tail-IsGood}
use universal_system_program.SharedBuffer.Mpmc.ClaimHead.{claim_head-IsGood}
use universal_system_program.SharedBuffer.Mpmc.Write.{write_block-IsGood}
use universal_system_program.SharedBuffer.Mpmc.Publish.{publish_write-IsGood}
use universal_system_program.SharedBuffer.Mpmc.Receive.{publish_read-IsGood}

-- The invariant, for as long as the count of blocks sent is small.
abbrev pub IsKept : Queue × List Point → Type 0
IsKept (q, ts) = q.sent_count ≤ 2 ^ 62 → IsGood q ts

-- What a test decides, with what holds in each case.
pub if-cases :
    {A : Type 0} (P : A → Type 0) (c : Bool) (x y : A)
    → (c ≡ true → P x)
    → (c ≡ false → P y)
    → P (if c then x else y)
if-cases P true x y f g = f refl
if-cases P false x y f g = g refl

pub eq_of_test : (a b : ℕ) → (a == b) ≡ true → a ≡ b
eq_of_test a b = (==_iff a b).0

both : (c d : Bool) → (c && d) ≡ true → d ≡ true
both true d e = e
both false d e = cc

module _ (q : Queue) (ts : List Point) (good : IsGood q ts) (i : ℕ) where
  abbrev Next : Point → Type 0
  Next p = IsGood q (set ts i p)

  abbrev Then : Queue × Point → Type 0
  Then r = IsGood r.0 (set ts i r.1)

  begin-IsGood : (c : Choice) → get_elem? ts i ≡ some idle → Next (begin c)
  begin-IsGood (enqueue b) e =
      IsGood-quiet q ts good i idle (begin (enqueue b)) e (λ u. refl) (λ u. refl) tt
  begin-IsGood (dequeue len) e =
      IsGood-quiet q ts good i idle (begin (dequeue len)) e (λ u. refl) (λ u. refl) tt
  begin-IsGood go e = IsGood-quiet q ts good i idle idle e (λ u. refl) (λ u. refl) tt
  begin-IsGood fail e = IsGood-quiet q ts good i idle idle e (λ u. refl) (λ u. refl) tt

  compare_write-IsGood :
      (b : Block) (t : ℕ)
      → get_elem? ts i ≡ some (load_write_seq b t)
      → Next (compare_write b t (q.seq (index q t)))
  compare_write-IsGood b t e =
      let quiet = IsGood-quiet q ts good i (load_write_seq b t) in
      let seq = q.seq (index q t) in
      if-cases Next (seq == t) _ _
        (λ same.
          quiet (claim_tail b t) e (λ u. refl) (λ u. refl)
            (good.knows i _ e, λ now. eq_of_test seq t same))
        (λ ne.
          if-cases Next (is_behind seq t) _ _ (λ full. quiet idle e (λ u. refl) (λ u. refl) tt)
            (λ late. quiet (load_tail b) e (λ u. refl) (λ u. refl) tt))

  swap_tail-IsGood :
      (ok : Bool) (b : Block) (t : ℕ)
      → get_elem? ts i ≡ some (claim_tail b t)
      → (swap_tail ok b t q).0.sent_count ≤ 2 ^ 62
      → Then (swap_tail ok b t q)
  swap_tail-IsGood ok b t e =
      if-cases (λ r. r.0.sent_count ≤ 2 ^ 62 → Then r) (ok && (q.tail == t)) _ _
        (λ won few.
          claim_tail-IsGood q ts good i b t e (eq_of_test q.tail t (both ok (q.tail == t) won)) few)
        (λ lost few.
          IsGood-quiet q ts good i (claim_tail b t) (load_tail b) e (λ u. refl) (λ u. refl) tt)

  -- The oldest ticket's slot has its number only where the ticket was claimed and written.
  oldest_full :
      (h : ℕ)
      → q.head ≡ h
      → q.seq (index q h) ≡ add64 h 1
      → (h < q.tail) × (q.seq (index q h) ≡ h + 1)
  oldest_full h now seq =
      let no_wrap : add64 h 1 ≡ h + 1 = omega (arith, good.order, good.narrow) in
      elim (dec_lt h q.tail) [
        | yes below ↦ (below, seq ∙ no_wrap)
        | no ge ↦ impossible (elim (dec_lt h q.size) [
          | yes small ↦ omega (arith, good.unused h (omega arith) small)
          | no wide ↦ older no_wrap (omega arith) (h - q.size) (omega arith)
        ])
      ]
    where
      impossible : h < h → (h < q.tail) × (q.seq (index q h) ≡ h + 1)
      impossible lt = absurd (omega arith)

      of_slot :
          (v : ℕ)
          → v + q.size ≡ h
          → index q v ≡ index q h
          → add64 h 1 ≡ h + 1
          → SlotOf q ts v
          → h < h
      of_slot v round same no_wrap (written s w r o) = omega (arith, ap q.seq same, good.wide)
      of_slot v round same no_wrap (full s w r o d) = omega (arith, ap q.seq same, good.wide)
      of_slot v round same no_wrap (being_read s w r o d) = omega (arith, ap q.seq same, good.wide)
      of_slot v round same no_wrap (free s w r o) = omega (arith, ap q.seq same, good.wide)

      older : add64 h 1 ≡ h + 1 → q.tail ≤ h → (v : ℕ) → v + q.size ≡ h → h < h
      older no_wrap claimed v round =
          of_slot v round (sym (good.around v) ∙ ap (index q) round) no_wrap
            (good.current v (omega (arith, good.order, good.wide)) (omega (arith, good.order)))

  compare_read-IsGood :
      (len h : ℕ)
      → get_elem? ts i ≡ some (load_read_seq len h)
      → Next (compare_read len h (q.seq (index q h)))
  compare_read-IsGood len h e =
      let quiet = IsGood-quiet q ts good i (load_read_seq len h) in
      let seq = q.seq (index q h) in
      if-cases Next (seq == add64 h 1) _ _
        (λ same.
          quiet (claim_head len h) e (λ u. refl) (λ u. refl)
            (good.knows i _ e, λ now. oldest_full h now (eq_of_test seq (add64 h 1) same)))
        (λ ne.
          if-cases Next (is_behind seq (add64 h 1)) _ _
            (λ empty. quiet idle e (λ u. refl) (λ u. refl) tt)
            (λ late. quiet (load_head len) e (λ u. refl) (λ u. refl) tt))

  swap_head-IsGood :
      (ok : Bool) (len h : ℕ)
      → get_elem? ts i ≡ some (claim_head len h)
      → Then (swap_head ok len h q)
  swap_head-IsGood ok len h e =
      if-cases Then (ok && (q.head == h)) _ _
        (λ won.
          claim_head-IsGood q ts good i len h e (eq_of_test q.head h (both ok (q.head == h) won)))
        (λ lost.
          IsGood-quiet q ts good i (claim_head len h) (load_head len) e (λ u. refl) (λ u. refl) tt)

  act-IsGood :
      (c : Choice) (p : Point)
      → get_elem? ts i ≡ some p
      → (act c q p).0.sent_count ≤ 2 ^ 62
      → Then (act c q p)
  act-IsGood c idle e few = begin-IsGood c e
  act-IsGood c (load_tail b) e few =
      IsGood-quiet q ts good i (load_tail b) (load_write_seq b q.tail) e (λ u. refl) (λ u. refl)
        (omega arith)
  act-IsGood c (load_write_seq b t) e few = compare_write-IsGood b t e
  act-IsGood c (claim_tail b t) e few = swap_tail-IsGood (may_swap c) b t e few
  act-IsGood c (write b t) e few = write_block-IsGood q ts good i b t e
  act-IsGood c (publish_write b t) e few = publish_write-IsGood q ts good i b t e
  act-IsGood c (load_head len) e few =
      IsGood-quiet q ts good i (load_head len) (load_read_seq len q.head) e (λ u. refl) (λ u. refl)
        (omega arith)
  act-IsGood c (load_read_seq len h) e few = compare_read-IsGood len h e
  act-IsGood c (claim_head len h) e few = swap_head-IsGood (may_swap c) len h e
  act-IsGood c (read len h) e few =
      let (a1, a2, a3, a4, a5, a6, same) = reader_slot q ts good h i _ e (ground arith) in
      IsGood-quiet q ts good i (read len h) (publish_read len h (take len (q.block (index q h)))) e
        (λ u. refl) (λ u. refl) (ap (take len) same)
  act-IsGood c (publish_read len h out) e few = publish_read-IsGood q ts good i len h out e

-- No step takes back what was sent, and none sends more than one block.
abbrev Grows : ℕ → Queue × Point → Type 0
Grows n r = (n ≤ r.0.sent_count) × (r.0.sent_count ≤ suc n)

pub act-Grows : (c : Choice) (q : Queue) (p : Point) → Grows q.sent_count (act c q p)
act-Grows c q idle = (omega arith, omega arith)
act-Grows c q (load_tail b) = (omega arith, omega arith)
act-Grows c q (load_write_seq b t) = (omega arith, omega arith)
act-Grows c q (claim_tail b t) =
    if-cases (Grows q.sent_count) (may_swap c && (q.tail == t)) _ _
      (λ won. (omega arith, omega arith)) (λ lost. (omega arith, omega arith))
act-Grows c q (write b t) = (omega arith, omega arith)
act-Grows c q (publish_write b t) = (omega arith, omega arith)
act-Grows c q (load_head len) = (omega arith, omega arith)
act-Grows c q (load_read_seq len h) = (omega arith, omega arith)
act-Grows c q (claim_head len h) =
    if-cases (Grows q.sent_count) (may_swap c && (q.head == h)) _ _
      (λ won. (omega arith, omega arith)) (λ lost. (omega arith, omega arith))
act-Grows c q (read len h) = (omega arith, omega arith)
act-Grows c q (publish_read len h out) = (omega arith, omega arith)

pub act-IsKept :
    (q : Queue) (ts : List Point) (i : ℕ) (c : Choice) (p : Point)
    → get_elem? ts i ≡ some p
    → IsKept (q, ts)
    → IsKept ((act c q p).0, set ts i (act c q p).1)
act-IsKept q ts i c p e kept few =
    act-IsGood q ts (kept (omega (arith, (act-Grows c q p).0))) i c p e few
