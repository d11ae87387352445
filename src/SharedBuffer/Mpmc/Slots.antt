-- ===== src/SharedBuffer/Mpmc/Slots.antt =====
-- What the invariant says of the slot that a thread has, and of the other slots.
use universal_system_program.Prelude.{
  ℕ, zero, suc, ◌+◌, ◌≤◌, ◌<◌, ◌≡◌, ◌≢◌, ◌⊎◌, inl, inr, sym, ◌∙◌, subst, List, [], ◌∷◌, get_elem?,
  set, some, arith, of_some, dec_lt,
}
use universal_system_program.Locks.Threads.{count, count-set, count_ge}
use universal_system_program.SharedBuffer.Mpmc.{Queue, Block, index, Point}
use universal_system_program.SharedBuffer.Mpmc.Invariant.{
  writes, reads, SlotIs, written, full, being_read, free, Knows, SlotOf, IsGood,
}

-- After a write to a list of threads each is as it was, or is the one written.
pub get_elem?-set :
    {A : Type 0} (xs : List A) (i j : ℕ) (v x : A)
    → get_elem? (set xs i v) j ≡ some x
    → (x ≡ v) ⊎ ((i ≢ j) × (get_elem? xs j ≡ some x))
get_elem?-set [] i j v x e = cc
get_elem?-set (y ∷ xs) zero zero v x e = inl (sym (of_some e))
get_elem?-set (y ∷ xs) zero (suc j) v x e = inr (omega arith, e)
get_elem?-set (y ∷ xs) (suc i) zero v x e = inr (omega arith, e)
get_elem?-set (y ∷ xs) (suc i) (suc j) v x e = elim (get_elem?-set xs i j v x e) [
  | inl h ↦ inl h
  | inr h ↦ inr (omega (arith, h.0), h.1)
]

-- A slot of which nothing has changed.
pub same_slot :
    {head size u s w r s' w' r' : ℕ} {x y x' y' : Block}
    → SlotIs head size u s w r x y
    → s' ≡ s
    → w' ≡ w
    → r' ≡ r
    → x' ≡ x
    → y' ≡ y
    → SlotIs head size u s' w' r' x' y'
same_slot (written a b c d) es ew er ex ey = written (es ∙ a) (ew ∙ b) (er ∙ c) d
same_slot (full a b c d e) es ew er ex ey = full (es ∙ a) (ew ∙ b) (er ∙ c) d (ex ∙ e ∙ sym ey)
same_slot (being_read a b c d e) es ew er ex ey =
    being_read (es ∙ a) (ew ∙ b) (er ∙ c) d (ex ∙ e ∙ sym ey)
same_slot (free a b c d) es ew er ex ey = free (es ∙ a) (ew ∙ b) (er ∙ c) d

module _ (q : Queue) (ts : List Point) (good : IsGood q ts) where
  -- The ticket of a thread that writes is current, and its slot is that thread's.
  pub writer_slot :
      (u i : ℕ) (p : Point)
      → get_elem? ts i ≡ some p
      → 1 ≤ writes u p
      → (u < q.tail)
        × (q.tail ≤ u + q.size)
        × (q.head ≤ u)
        × (q.seq (index q u) ≡ u)
        × (count (writes u) ts ≡ 1)
        × (count (reads u) ts ≡ 0)
  writer_slot u i p e mine =
      let some_write = count_ge (writes u) ts i p e in
      let below : u < q.tail = elim (dec_lt u q.tail) [
        | yes h ↦ h
        | no h ↦ absurd (omega (arith, good.future u (omega arith)))
      ] in
      let recent : q.tail ≤ u + q.size = elim (dec_lt (u + q.size) q.tail) [
        | yes h ↦ absurd (omega (arith, good.past u h))
        | no h ↦ omega arith
      ] in
      of_slot below recent (omega arith) (good.current u below recent)
    where
      of_slot :
          u < q.tail
          → q.tail ≤ u + q.size
          → 1 ≤ count (writes u) ts
          → SlotOf q ts u
          → (u < q.tail)
            × (q.tail ≤ u + q.size)
            × (q.head ≤ u)
            × (q.seq (index q u) ≡ u)
            × (count (writes u) ts ≡ 1)
            × (count (reads u) ts ≡ 0)
      of_slot a b c (written s w r o) = (a, b, o, s, w, r)
      of_slot a b c (full s w r o d) = absurd (omega arith)
      of_slot a b c (being_read s w r o d) = absurd (omega arith)
      of_slot a b c (free s w r o) = absurd (omega arith)

  pub reader_slot :
      (u i : ℕ) (p : Point)
      → get_elem? ts i ≡ some p
      → 1 ≤ reads u p
      → (u < q.tail)
        × (q.tail ≤ u + q.size)
        × (u < q.head)
        × (q.seq (index q u) ≡ u + 1)
        × (count (writes u) ts ≡ 0)
        × (count (reads u) ts ≡ 1)
        × (q.block (index q u) ≡ q.sent u)
  reader_slot u i p e mine =
      let some_read = count_ge (reads u) ts i p e in
      let below : u < q.tail = elim (dec_lt u q.tail) [
        | yes h ↦ h
        | no h ↦ absurd (omega (arith, good.future u (omega arith)))
      ] in
      let recent : q.tail ≤ u + q.size = elim (dec_lt (u + q.size) q.tail) [
        | yes h ↦ absurd (omega (arith, good.past u h))
        | no h ↦ omega arith
      ] in
      of_slot below recent (omega arith) (good.current u below recent)
    where
      of_slot :
          u < q.tail
          → q.tail ≤ u + q.size
          → 1 ≤ count (reads u) ts
          → SlotOf q ts u
          → (u < q.tail)
            × (q.tail ≤ u + q.size)
            × (u < q.head)
            × (q.seq (index q u) ≡ u + 1)
            × (count (writes u) ts ≡ 0)
            × (count (reads u) ts ≡ 1)
            × (q.block (index q u) ≡ q.sent u)
      of_slot a b c (written s w r o) = absurd (omega arith)
      of_slot a b c (full s w r o d) = absurd (omega arith)
      of_slot a b c (being_read s w r o d) = (a, b, o, s, w, r, d)
      of_slot a b c (free s w r o) = absurd (omega arith)

  -- Two current tickets have different slots.
  pub apart :
      (t u : ℕ)
      → t < q.tail
      → q.tail ≤ t + q.size
      → u < q.tail
      → q.tail ≤ u + q.size
      → t ≢ u
      → index q t ≢ index q u
  apart t u a b c d ne same = elim (dec_lt u t) [
    | yes lt ↦ ne (sym (good.near u t (sym same) (omega arith) (omega arith)))
    | no ge ↦ ne (good.near t u same (omega arith) (omega arith))
  ]

  -- No more than a ring of tickets is claimed and not yet taken.
  pub tail_bound : q.tail ≤ q.head + q.size
  tail_bound = elim (dec_lt (q.head + q.size) q.tail) [
    | yes h ↦ absurd (omega (arith, good.past q.head h))
    | no h ↦ omega arith
  ]

  -- A slot that was never claimed is none of a current ticket, and of those only the oldest shares
  -- the slot of the next.
  pub unused_apart : (t u : ℕ) → t < q.tail → q.tail ≤ u → u < q.size → index q u ≢ index q t
  unused_apart t u a b c same =
      absurd (omega (arith, good.near t u (sym same) (omega arith) (omega arith)))

  pub oldest :
      (t : ℕ) → t < q.tail → q.tail ≤ t + q.size → index q q.tail ≡ index q t → q.tail ≡ t + q.size
  oldest t a b same = elim (dec_lt q.tail (t + q.size)) [
    | yes lt ↦ absurd (omega (arith, good.near t q.tail (sym same) (omega arith) lt))
    | no ge ↦ omega arith
  ]

  -- A thread goes on to a point at which it has the same slots, and the queue stays as it is.
  module _ (i : ℕ) (p p' : Point) (e : get_elem? ts i ≡ some p) where
    pub count_same : (f : Point → ℕ) → f p' ≡ f p → count f (set ts i p') ≡ count f ts
    count_same f same = omega (arith, count-set f ts i p p' e)

    pub Knows-next :
        (q' : Queue)
        → Knows q' p'
        → ((j : ℕ) (x : Point) → i ≢ j → get_elem? ts j ≡ some x → Knows q' x)
        → (j : ℕ) (x : Point) → get_elem? (set ts i p') j ≡ some x
        → Knows q' x
    Knows-next q' mine others j x at = elim (get_elem?-set ts i j p' x at) [
      | inl new ↦ subst (Knows q') (sym new) mine
      | inr old ↦ others j x old.0 old.1
    ]

    pub IsGood-quiet :
        ((u : ℕ) → writes u p' ≡ writes u p)
        → ((u : ℕ) → reads u p' ≡ reads u p)
        → Knows q p'
        → IsGood q (set ts i p')
    IsGood-quiet same_writes same_reads mine =
        let w = λ (u : ℕ). count_same (writes u) (same_writes u) in
        let r = λ (u : ℕ). count_same (reads u) (same_reads u) in
        record {
          wide = good.wide;
          short = good.short;
          near = good.near;
          around = good.around;
          counted = good.counted;
          narrow = good.narrow;
          order = good.order;
          current = λ u a b. rw (w u, r u) (good.current u a b);
          unused = good.unused;
          future = λ u a. rw (w u, r u) (good.future u a);
          past = λ u a. rw (w u, r u) (good.past u a);
          knows = Knows-next q mine (λ j x ne at. good.knows j x at);
          received = good.received;
          once = λ u. rw (r u) (good.once u);
        }
